-- ===== src/Disk/Drive/Writes.antt =====
-- The loops over words and sectors in `ata_write_sectors` of drivers/disk.c, at a drive that keeps to
-- the documents.
use my_os.Base.{ℕ, zero, suc, ◌+◌, ◌*◌, ◌/◌, ◌≤◌, ◌<◌, ◌≡◌, refl, ◌∙◌, sym, ap, arith, true}
use my_os.Base.Masks.{update}
use my_os.Io.{Ports}
use my_os.Disk.Ata.{
  IdentifyDeviceData, write_words, write_loop, wait_for_data, flush_cache, ata_reg_data,
}
use my_os.Disk.Transfer.{copy_to}
use my_os.Disk.Drive.{View, Drive, IgnoresFlush, At, At-cast}
use my_os.Disk.Drive.Copy.{copy_to-zero, copy_to-suc, copy_to-append, shift}
use my_os.Disk.Drive.Wait.{wait_for_data-IsReady}
use my_os.Disk.Drive.Command.{flush_cache-view}

module _ {S : Type 0} {io : Ports S} {disk : IdentifyDeviceData} (d : Drive io disk) where
  -- One word of a transfer to the disk, with `k` sectors and `n` words after it.
  push_word :
      (k n word : ℕ) (content : ℕ → ℕ) (pos : ℕ) (s : S)
      → d.busy s ≡ 0
      → At content true pos (k * (disk.logical_sector_size / 2) + suc n) (d.view s)
      → At
          (update content pos word)
          true
          (pos + 1)
          (k * (disk.logical_sector_size / 2) + n)
          (d.view (io.out16 (disk.base_io_port + ata_reg_data) word s))
  push_word k n word content pos s free (c, w, p, l) =
      let r = d.push word s free w (omega (arith, l)) in
      (
        ap (λ (v : View). v.content) r
            ∙ ap (λ f. update f (d.view s).pos word) c
            ∙ ap (λ q. update content q word) p,
        ap (λ (v : View). v.writes) r ∙ w,
        ap (λ (v : View). v.pos) r ∙ ap (λ x. x + 1) p,
        ap (λ (v : View). v.left) r ∙ omega (arith, l),
      )

  -- Within a sector the drive is ready for the next word.
  push_free :
      (n k word : ℕ) (s : S)
      → d.busy s ≡ 0
      → (d.view s).left ≡ k * (disk.logical_sector_size / 2) + suc n
      → suc n ≤ disk.logical_sector_size / 2
      → 0 < n
      → d.busy (io.out16 (disk.base_io_port + ata_reg_data) word s) ≡ 0
  push_free zero k word s free l fits more = absurd (omega (arith, more))
  push_free (suc r) k word s free l fits more = d.push_busy word s k r free l fits

  -- The words of the buffer for the rest of a sector go to the disk in order.
  write_words-copies :
      (n k i : ℕ) (buffer content : ℕ → ℕ) (pos : ℕ) (s : S)
      → (0 < n → d.busy s ≡ 0)
      → n ≤ disk.logical_sector_size / 2
      → At content true pos (k * (disk.logical_sector_size / 2) + n) (d.view s)
      → At
          (copy_to content pos (λ j. buffer (i + j)) n)
          true
          (pos + n)
          (k * (disk.logical_sector_size / 2))
          (d.view (write_words io n disk.base_io_port i buffer s))
  unfolding write_words
  write_words-copies zero k i buffer content pos s free fits at =
      let e = At-cast {v = d.view s} refl (omega arith) (omega arith) at in
      (e.0 ∙ sym (copy_to-zero content pos (λ j. buffer (i + j))), e.1, e.2, e.3)
  write_words-copies (suc n) k i buffer content pos s free fits at =
      let size = disk.logical_sector_size / 2 in
      let here : i ≡ i + 0 = omega arith in
      let now : d.busy s ≡ 0 = free (omega arith) in
      let s' = io.out16 (disk.base_io_port + ata_reg_data) (buffer i) s in
      let ih =
        write_words-copies n k (i + 1) buffer (update content pos (buffer i)) (pos + 1) s'
          (push_free n k (buffer i) s now at.3 fits) (omega (arith, fits))
          (push_word k n (buffer i) content pos s now at) in
      let e =
        At-cast {v = d.view (write_words io n disk.base_io_port (i + 1) buffer s')} refl
          (omega arith) refl ih in
      (
        e.0
            ∙ ap (λ x. copy_to (update content pos x) (pos + 1) (λ j. buffer (i + 1 + j)) n)
                (ap buffer here)
            ∙ ap (λ f. copy_to (update content pos (buffer (i + 0))) (pos + 1) f n)
                (shift buffer i 1)
            ∙ copy_to-suc content pos (λ j. buffer (i + j)) n,
        e.1,
        e.2,
        e.3,
      )

-- The words of the buffer go to the sectors in order, and no other word of the disk changes, where the
-- drive ignores a flush within the transfer.
pub write_loop-copies :
    {S : Type 0}
    → {io : Ports S}
    → (disks : ℕ → IdentifyDeviceData) (disk_num : ℕ) (d : Drive io (disks disk_num))
    → IgnoresFlush d
    → (n from : ℕ) (buffer content : ℕ → ℕ) (pos : ℕ) (s : S)
    → 0 < (disks disk_num).logical_sector_size / 2
    → At content true pos (n * ((disks disk_num).logical_sector_size / 2)) (d.view s)
    → let r = write_loop io n disks disk_num from buffer s in
      let size = (disks disk_num).logical_sector_size / 2 in
      (r.0 ≡ true)
      × At
          (copy_to content pos (λ j. buffer (from + j)) (n * size))
          true
          (pos + n * size)
          0
          (d.view r.1)
unfolding write_loop
write_loop-copies disks disk_num d ignores zero from buffer content pos s some at =
    let none_left : 0 ≡ 0 * ((disks disk_num).logical_sector_size / 2) = omega arith in
    let e = At-cast {v = d.view s} refl (omega arith) (omega arith) at in
    (
      refl,
      (
        e.0
            ∙ sym (copy_to-zero content pos (λ j. buffer (from + j)))
            ∙ ap (copy_to content pos (λ j. buffer (from + j))) none_left,
        e.1,
        e.2,
        e.3,
      ),
    )
write_loop-copies {io = io} disks disk_num d ignores (suc n) from buffer content pos s some at =
    let size = (disks disk_num).logical_sector_size / 2 in
    let all : size + n * size ≡ suc n * size = omega arith in
    let port = (disks disk_num).base_io_port in
    let w = wait_for_data-IsReady d s (omega (arith, at.3, some)) in
    let s' = (wait_for_data io port s).1 in
    let r =
      write_words-copies d size n from buffer content pos s' (λ h. w.1.1) (omega arith)
        (At-cast w.1.0 refl (omega arith) at) in
    let s'' = write_words io size port from buffer s' in
    let first = copy_to content pos (λ j. buffer (from + j)) size in
    let ih =
      write_loop-copies disks disk_num d ignores n (from + size) buffer first (pos + size)
        (flush_cache io disks disk_num s'') some
        (At-cast (flush_cache-view disks disk_num d ignores s'') refl refl r) in
    let e =
      At-cast
        {v = d.view
          (write_loop io n disks disk_num (from + size) buffer
            (flush_cache io disks disk_num s'')).1}
        refl (omega arith) refl ih.1 in
    rw (w.0, write_loop)
      (
        ih.0,
        (
          e.0
              ∙ ap (λ f. copy_to first (pos + size) f (n * size)) (shift buffer from size)
              ∙ copy_to-append content pos (λ j. buffer (from + j)) size (n * size)
              ∙ ap (copy_to content pos (λ j. buffer (from + j))) all,
          e.1,
          e.2,
          e.3,
        ),
      )
