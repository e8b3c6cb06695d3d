-- ===== src/Disk/Drive/Reads.antt =====
-- The loops over words and sectors in `ata_read_sectors` of drivers/disk.c, at
-- a drive that keeps to the documents.
use my_os.Base.{ℕ, zero, suc, ◌+◌, ◌*◌, ◌/◌, ◌≤◌, ◌<◌, ◌≡◌, refl, ◌∙◌, sym, ap, arith, true, false}
use my_os.Base.Masks.{update}
use my_os.Io.{Ports}
use my_os.Disk.Ata.{
  IdentifyDeviceData, read_words, read_loop, wait_for_data, delay_400ns, ata_reg_data,
}
use my_os.Disk.Transfer.{copy_to}
use my_os.Disk.Drive.{View, Drive, At, At-cast}
use my_os.Disk.Drive.Copy.{copy_to-zero, copy_to-suc, copy_to-append, shift}
use my_os.Disk.Drive.Wait.{wait_for_data-IsReady, delay_400ns-view}

module _ {S : Type 0} {io : Ports S} {disk : IdentifyDeviceData} (d : Drive io disk) where
  -- One word of a transfer to the machine, with `k` sectors and `n` words after it.
  pull_word :
      (k n : ℕ) (content : ℕ → ℕ) (pos : ℕ) (s : S)
      → d.busy s ≡ 0
      → At content false pos (k * (disk.logical_sector_size / 2) + suc n) (d.view s)
      → ((io.in16 (disk.base_io_port + ata_reg_data) s).0 ≡ content pos)
        × At content false
            (pos + 1)
            (k * (disk.logical_sector_size / 2) + n)
            (d.view (io.in16 (disk.base_io_port + ata_reg_data) s).1)
  pull_word k n content pos s free (c, w, p, l) =
      let r = d.pull s free w (omega (arith, l)) in
      (
        r.0 ∙ ap (λ (f : ℕ → ℕ). f (d.view s).pos) c ∙ ap content p,
        (
          ap (λ (v : View). v.content) r.1 ∙ c,
          ap (λ (v : View). v.writes) r.1 ∙ w,
          ap (λ (v : View). v.pos) r.1 ∙ ap (λ x. x + 1) p,
          ap (λ (v : View). v.left) r.1 ∙ omega (arith, l),
        ),
      )

  -- Within a sector the drive is ready for the next word.
  pull_free :
      (n k : ℕ) (s : S)
      → d.busy s ≡ 0
      → (d.view s).left ≡ k * (disk.logical_sector_size / 2) + suc n
      → suc n ≤ disk.logical_sector_size / 2
      → 0 < n
      → d.busy (io.in16 (disk.base_io_port + ata_reg_data) s).1 ≡ 0
  pull_free zero k s free l fits more = absurd (omega (arith, more))
  pull_free (suc r) k s free l fits more = d.pull_busy s k r free l fits

  -- The rest of a sector comes into the buffer in order.
  read_words-copies :
      (n k i : ℕ) (buffer content : ℕ → ℕ) (pos : ℕ) (s : S)
      → (0 < n → d.busy s ≡ 0)
      → n ≤ disk.logical_sector_size / 2
      → At content false pos (k * (disk.logical_sector_size / 2) + n) (d.view s)
      → ((read_words io n disk.base_io_port i buffer s).0
          ≡ copy_to buffer i (λ j. content (pos + j)) n)
        × At content false
            (pos + n)
            (k * (disk.logical_sector_size / 2))
            (d.view (read_words io n disk.base_io_port i buffer s).1)
  unfolding read_words
  read_words-copies zero k i buffer content pos s free fits at = (
    sym (copy_to-zero buffer i (λ j. content (pos + j))),
    At-cast {v = d.view s} refl (omega arith) (omega arith) at,
  )
  read_words-copies (suc n) k i buffer content pos s free fits at =
      let size = disk.logical_sector_size / 2 in
      let now : d.busy s ≡ 0 = free (omega arith) in
      let r = pull_word k n content pos s now at in
      let word = (io.in16 (disk.base_io_port + ata_reg_data) s).0 in
      let s' = (io.in16 (disk.base_io_port + ata_reg_data) s).1 in
      let ih =
        read_words-copies n k (i + 1) (update buffer i word) content (pos + 1) s'
          (pull_free n k s now at.3 fits) (omega (arith, fits)) r.1 in
      (
        ih.0
            ∙ ap (λ x. copy_to (update buffer i x) (i + 1) (λ j. content (pos + 1 + j)) n)
                (r.0 ∙ ap content (omega arith))
            ∙ ap (λ f. copy_to (update buffer i (content (pos + 0))) (i + 1) f n)
                (shift content pos 1)
            ∙ copy_to-suc buffer i (λ j. content (pos + j)) n,
        At-cast {v = d.view (read_words io n disk.base_io_port (i + 1) (update buffer i word) s').1}
            refl (omega arith) refl ih.1,
      )

  -- The sectors of a read come into the buffer in order, and the disk keeps its words.
  pub read_loop-copies :
      (n from : ℕ) (buffer content : ℕ → ℕ) (pos : ℕ) (s : S)
      → 0 < disk.logical_sector_size / 2
      → At content false pos (n * (disk.logical_sector_size / 2)) (d.view s)
      → let r = read_loop io n disk.base_io_port (disk.logical_sector_size / 2) from buffer s in
        (r.0 ≡ true)
        × (r.1 ≡ copy_to buffer from (λ j. content (pos + j)) (n * (disk.logical_sector_size / 2)))
        × At content false (pos + n * (disk.logical_sector_size / 2)) 0 (d.view r.2)
  unfolding read_loop
  read_loop-copies zero from buffer content pos s some at =
      let none_left : 0 ≡ 0 * (disk.logical_sector_size / 2) = omega arith in
      (
        refl,
        sym (copy_to-zero buffer from (λ j. content (pos + j)))
            ∙ ap (copy_to buffer from (λ j. content (pos + j))) none_left,
        At-cast {v = d.view s} refl (omega arith) (omega arith) at,
      )
  read_loop-copies (suc n) from buffer content pos s some at =
      let size = disk.logical_sector_size / 2 in
      let port = disk.base_io_port in
      let w = wait_for_data-IsReady d s (omega (arith, at.3, some)) in
      let s' = (wait_for_data io port s).1 in
      let r =
        read_words-copies size n from buffer content pos s' (λ h. w.1.1) (omega arith)
          (At-cast w.1.0 refl (omega arith) at) in
      let buffer' = (read_words io size port from buffer s').0 in
      let s'' = (read_words io size port from buffer s').1 in
      let ih =
        read_loop-copies n (from + size) buffer' content (pos + size) (delay_400ns io port s'') some
          (At-cast (delay_400ns-view d s'') refl refl r.1) in
      rw (w.0, read_loop)
        (
          ih.0,
          ih.1
              ∙ ap (λ b. copy_to b (from + size) (λ j. content (pos + size + j)) (n * size)) r.0
              ∙ ap
                  (λ f.
                    copy_to (copy_to buffer from (λ j. content (pos + j)) size) (from + size) f
                      (n * size))
                  (shift content pos size)
              ∙ copy_to-append buffer from (λ j. content (pos + j)) size (n * size)
              ∙ ap (copy_to buffer from (λ j. content (pos + j))) (omega arith),
          At-cast
              {v = d.view
                (read_loop io n port size (from + size) buffer' (delay_400ns io port s'')).2}
              refl (omega arith) refl ih.2,
        )
