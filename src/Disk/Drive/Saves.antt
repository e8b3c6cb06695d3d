-- ===== src/Disk/Drive/Saves.antt =====
-- `disk_write` of drivers/disk.c at a drive that keeps to the documents: the loop over whole sectors and
-- the last sector that is not full.
use my_os.Base.{
  ℕ, zero, suc, ◌+◌, ◌-◌, ◌*◌, ◌%◌, ◌^◌, ◌≤◌, ◌<◌, ◌≡◌, ◌⊎◌, refl, ◌∙◌, sym, ap, arith, Bool, true,
  false, Option, some, ltb, ◌==◌, if◌then◌else◌, Bool-cases, inl, inr,
}
use my_os.Io.{Ports}
use my_os.Disk.Ata.{IdentifyDeviceData, sectors_of}
use my_os.Disk.Transfer.{Heap, copy_to, this_call, write_rounds}
use my_os.Disk.Drive.{View, Drive, IgnoresFlush, IsIdle}
use my_os.Disk.Drive.Copy.{copy_to-zero}
use my_os.Disk.Drive.Bytes.{
  IsUsable, IsUnseen, Refused, image, write_bytes, this_call-some, this_call-le, sectors-split,
  no_bytes,
}

joined_at :
    (dest : ℕ → ℕ) (i b m done o p bytes : ℕ) (buffer : ℕ → ℕ)
    → p ≡ i + b
    → o ≡ done + b
    → bytes ≡ b
    → (k : ℕ)
    → copy_to
        (copy_to dest i (λ j. if ltb j bytes then buffer (done + j) else 0) b)
        p
        (λ j. buffer (o + j))
        m
        k
      ≡ copy_to dest i (λ j. buffer (done + j)) (b + m) k
unfolding copy_to
joined_at dest i b m done o p bytes buffer ep eo eb k = grind arith

-- The bytes of a call and then the rest are the bytes of both.
joined :
    (dest : ℕ → ℕ) (i b m done o p bytes : ℕ) (buffer : ℕ → ℕ)
    → p ≡ i + b
    → o ≡ done + b
    → bytes ≡ b
    → copy_to
        (copy_to dest i (λ j. if ltb j bytes then buffer (done + j) else 0) b)
        p
        (λ j. buffer (o + j))
        m
      ≡ copy_to dest i (λ j. buffer (done + j)) (b + m)
joined dest i b m done o p bytes buffer ep eo eb t k =
    joined_at dest i b m done o p bytes buffer ep eo eb k t

same_result :
    {S : Type 0}
    → (a b a' b' : ℕ) (ok : Bool) (s : S) → a ≡ a'
    → b ≡ b'
    → ◌≡◌ {A = Option (ℕ × ℕ × Bool × S)} (some (a, b, ok, s)) (some (a', b', ok, s))
same_result a b a' b' ok s e f = ap (λ x. some (x, b, ok, s)) e ∙ ap (λ x. some (a', x, ok, s)) f

module _ {S : Type 0} {io : Ports S} {heap : Heap S} (disks : ℕ → IdentifyDeviceData) (curr : ℕ)
    (d : Drive io (disks curr)) (ignores : IgnoresFlush d) (unseen : IsUnseen heap d.view)
    (usable : IsUsable disks curr) where
  -- The loop with nothing left to write.
  write_rounds-ends :
      (f busy lba total done : ℕ) (buffer : ℕ → ℕ) (s : S)
      → total ≡ 0
      → write_rounds io heap f (suc busy) disks curr lba total done buffer s
        ≡ some (done, lba, true, s)
  unfolding write_rounds
  write_rounds-ends zero busy lba total done buffer s e = refl
  write_rounds-ends (suc f) busy lba total done buffer s e =
      let t : (total == 0) ≡ true = ground (arith, e) in rw (t, write_rounds) refl

  -- What the loop comes to, from `lba` on with `done` bytes written: `n` more sectors are written, all of
  -- them or those before an allocation that was refused.
  abbrev Wrote : (f busy lba total done : ℕ) → (ℕ → ℕ) → S → Type 0
  Wrote f busy lba total done buffer s =
      let size = (disks curr).logical_sector_size in
      (n : ℕ) × (s' : S) × (n ≤ total)
      × (image (d.view s')
          ≡ copy_to (image (d.view s)) (lba * size) (λ j. buffer (done + j)) (n * size))
      × IsIdle (d.view s')
      × (((n ≡ total)
            × (write_rounds io heap f (suc busy) disks curr lba total done buffer s
                ≡ some (done + total * size, lba + total, true, s')))
          ⊎ ((next : ℕ) × (write_rounds io heap f (suc busy) disks curr lba total done buffer s
                ≡ some (done + n * size, next, false, s'))
              × Refused heap s'))

  write_rounds-nothing :
      (f busy lba total done : ℕ) (buffer : ℕ → ℕ) (s : S)
      → total ≡ 0
      → IsIdle (d.view s)
      → Wrote f busy lba total done buffer s
  write_rounds-nothing f busy lba total done buffer s e idle =
      let size = (disks curr).logical_sector_size in
      let z = no_bytes total size e in
      (
        total,
        s,
        omega arith,
        sym (copy_to-zero (image (d.view s)) (lba * size) (λ j. buffer (done + j)))
            ∙ ap (copy_to (image (d.view s)) (lba * size) (λ j. buffer (done + j))) z,
        idle,
        inl (
          refl,
          write_rounds-ends f busy lba total done buffer s e
              ∙ same_result done lba (done + total * size) (lba + total) true s (omega (arith, z))
                  (omega (arith, e)),
        ),
      )

  -- The loop at an allocation that is refused.
  write_rounds-stops :
      (f busy lba total done : ℕ) (buffer : ℕ → ℕ) (s : S)
      → (total == 0) ≡ false
      → let bytes = sectors_of (this_call total) * (disks curr).logical_sector_size % 2 ^ 32 in
        (heap.kmalloc bytes s).0 ≡ false
        → IsIdle (d.view s)
        → Wrote (suc f) busy lba total done buffer s
  unfolding write_rounds
  write_rounds-stops f busy lba total done buffer s more refused idle =
      let size = (disks curr).logical_sector_size in
      let bytes = sectors_of (this_call total) * size % 2 ^ 32 in
      let e1 = unseen.kmalloc_view bytes s in
      let s1 = (heap.kmalloc bytes s).1 in
      let z = no_bytes 0 size refl in
      (
        0,
        s1,
        omega arith,
        ap image e1
            ∙ sym (copy_to-zero (image (d.view s)) (lba * size) (λ j. buffer (done + j)))
            ∙ ap (copy_to (image (d.view s)) (lba * size) (λ j. buffer (done + j))) z,
        ap (λ (v : View). v.left) e1 ∙ idle,
        inr (
          lba,
          rw (more, refused, write_rounds)
              (same_result done lba (done + 0 * size) lba false s1 (omega (arith, z)) refl),
          (bytes, s, refused, refl),
        ),
      )

  -- The loop over whole sectors writes them in order, up to an allocation that is refused.
  pub write_rounds-writes :
      (f busy lba total done : ℕ) (buffer : ℕ → ℕ) (s : S)
      → total ≤ f
      → ((k : ℕ) → buffer k < 256)
      → lba + total ≤ (disks curr).total_sectors
      → done + total * (disks curr).logical_sector_size < 2 ^ 32
      → IsIdle (d.view s)
      → Wrote f busy lba total done buffer s
  unfolding write_rounds
  write_rounds-writes zero busy lba total done buffer s enough small on room idle =
      write_rounds-nothing zero busy lba total done buffer s (omega (arith, enough)) idle
  write_rounds-writes (suc f) busy lba total done buffer s enough small on room idle =
      elim (Bool-cases (total == 0)) [
        | inl none_left ↦
            write_rounds-nothing (suc f) busy lba total done buffer s (ground (arith, none_left))
              idle
        | inr more ↦
            elim (Bool-cases
              (heap.kmalloc
                (sectors_of (this_call total) * (disks curr).logical_sector_size % 2 ^ 32) s).0) [
                  | inr refused ↦
                      write_rounds-stops f busy lba total done buffer s more refused idle
                  | inl given ↦
                      let size = (disks curr).logical_sector_size in
                      let count = this_call total in
                      let n = sectors_of count in
                      let some_left : 0 < total = ground (arith, more) in
                      let le : n ≤ total = this_call-le total some_left in
                      let one : 0 < n = this_call-some total some_left in
                      let split = sectors-split n total size le in
                      let all : n * size % 2 ^ 32 ≡ n * size = omega (arith, split, room) in
                      let limit : (disks curr).total_sectors ≤ 2 ^ 28 = usable.lba28.1 in
                      let next : (lba + n) % 2 ^ 32 ≡ lba + n = omega (arith, on, le, limit) in
                      let on_to : (done + n * size % 2 ^ 32) % 2 ^ 32 ≡ done + n * size =
                        omega (arith, split, room) in
                      let place : (lba + n) * size ≡ lba * size + n * size = omega arith in
                      let bytes = n * size % 2 ^ 32 in
                      let temp : ℕ → ℕ = λ k. if ltb k bytes then buffer (done + k) else 0 in
                      let s1 = (heap.kmalloc bytes s).1 in
                      let e1 = unseen.kmalloc_view bytes s in
                      let w =
                        write_bytes disks curr d ignores busy lba count temp s1 usable
                          (λ k. ground (arith, small (done + 2 * k))) (omega (arith, on, le))
                          (ap (λ (v : View). v.left) e1 ∙ idle) in
                      let s2 = heap.kfree w.0 in
                      let e2 = unseen.kfree_view w.0 in
                      let ih =
                        write_rounds-writes f busy ((lba + n) % 2 ^ 32) (total - n)
                          ((done + bytes) % 2 ^ 32) buffer s2 (omega (arith, enough, one)) small
                          (omega (arith, next, on, le)) (omega (arith, on_to, split, room))
                          (ap (λ (v : View). v.left) e2 ∙ w.3) in
                      let placed = ap (λ x. x * size) next ∙ place in
                      let both : (n + ih.0) * size ≡ n * size + ih.0 * size = omega arith in
                      (
                        n + ih.0,
                        ih.1,
                        omega (arith, ih.2, le),
                        ih.3
                            ∙ ap
                                (λ g.
                                  copy_to g ((lba + n) % 2 ^ 32 * size)
                                    (λ j. buffer ((done + bytes) % 2 ^ 32 + j)) (ih.0 * size))
                                (ap image e2
                                  ∙ w.2
                                  ∙ ap (λ v. copy_to (image v) (lba * size) temp (n * size)) e1)
                            ∙ joined (image (d.view s)) (lba * size) (n * size) (ih.0 * size) done
                                ((done + bytes) % 2 ^ 32) ((lba + n) % 2 ^ 32 * size) bytes buffer
                                placed on_to all
                            ∙ ap (copy_to (image (d.view s)) (lba * size) (λ j. buffer (done + j)))
                                (sym both),
                        ih.4,
                        elim ih.5 [
                          | inl (whole, e) ↦ inl (
                            omega (arith, whole, le),
                            rw (more, given, w.1, write_rounds)
                                (e
                                  ∙ same_result ((done + bytes) % 2 ^ 32 + (total - n) * size)
                                      ((lba + n) % 2 ^ 32 + (total - n)) (done + total * size)
                                      (lba + total) true ih.1 (omega (arith, on_to, split))
                                      (omega (arith, next, le))),
                          )
                          | inr (last, e, r) ↦ inr (
                            last,
                            rw (more, given, w.1, write_rounds)
                                (e
                                  ∙ same_result ((done + bytes) % 2 ^ 32 + ih.0 * size) last
                                      (done + (n + ih.0) * size) last false ih.1
                                      (omega (arith, on_to, both)) refl),
                            r,
                          )
                        ],
                      )
                ]
      ]
