-- ===== src/Disk/Transfer/Bounds.antt =====
-- What `disk_read` leaves alone.
use native.Mathlib.Nat.{mul-le-mul_right}
use my_os.Base.{
  ℕ, zero, suc, ◌+◌, ◌-◌, ◌*◌, ◌/◌, ◌%◌, ◌^◌, ◌≤◌, ◌<◌, ◌≡◌, refl, arith, ltb, ◌==◌, if◌then◌else◌,
  Bool-cases, inl, inr, ◌∙◌, true, none, some, ◌⊎◌,
}
use my_os.Io.{Ports}
use my_os.Disk.Ata.{IdentifyDeviceData, ata_read_sectors, sectors_of}
use my_os.Disk.Transfer.{Heap, read_rounds, disk_read, copy_to, byte_at, this_call}

copy_to-past :
    (dest : ℕ → ℕ) (i : ℕ) (src : ℕ → ℕ) (num k : ℕ)
    → i + num ≤ k
    → copy_to dest i src num k ≡ dest k
unfolding copy_to
copy_to-past dest i src num k out = ground arith

-- The bytes of one round stay within the length asked for.
round-fits :
    (done len n size : ℕ)
    → done ≤ len
    → n ≤ 256
    → len + 256 * size < 2 ^ 32
    → done
        + (if ltb len ((done + n * size % 2 ^ 32) % 2 ^ 32) then len - done else n * size % 2 ^ 32)
      ≤ len
round-fits done len n size lo small fits =
    let p : n * size ≤ 256 * size = mul-le-mul_right size small in ground (arith, p)

count-small : (total : ℕ) → sectors_of (this_call total) ≤ 256
unfolding sectors_of this_call
count-small total = ground arith

read_rounds-in_bounds :
    {S : Type 0}
    → (io : Ports S) (heap : Heap S) (f : ℕ) (disks : ℕ → IdentifyDeviceData)
      (curr len addr total done : ℕ) (buffer : ℕ → ℕ) (s : S)
    → done ≤ len
    → len + 256 * (disks curr).logical_sector_size < 2 ^ 32
    → ((read_rounds io heap f disks curr len addr total done buffer s).0 ≤ len)
      × ((k : ℕ)
          → len ≤ k
          → (read_rounds io heap f disks curr len addr total done buffer s).1 k ≡ buffer k)
unfolding read_rounds this_call sectors_of
read_rounds-in_bounds io heap zero disks curr len addr total done buffer s lo small =
    (lo, λ k h. refl)
read_rounds-in_bounds io heap (suc f) disks curr len addr total done buffer s lo small =
    let size = (disks curr).logical_sector_size in
    let count = this_call total in
    let n = sectors_of count in
    let all = n * size % 2 ^ 32 in
    let bytes = if ltb len ((done + all) % 2 ^ 32) then len - done else all in
    let m = heap.kmalloc all s in
    let r = ata_read_sectors io disks curr addr count (λ _. 0) m.1 in
    let fits : done + bytes ≤ len = round-fits done len n size lo (count-small total) small in
    let next : (done + bytes) % 2 ^ 32 ≤ len = omega (arith, fits) in
    elim (Bool-cases (total == 0)) [
      | inl none_left ↦ rw (none_left, read_rounds) (lo, λ k h. refl)
      | inr more ↦ elim (Bool-cases m.0) [
        | inr refused ↦ rw (more, refused, read_rounds) (lo, λ k h. refl)
        | inl got ↦ elim (Bool-cases r.0) [
          | inr failed ↦ rw (more, got, failed, read_rounds) (lo, λ k h. refl)
          | inl came ↦
              let ih =
                read_rounds-in_bounds io heap f disks curr len ((addr + n) % 2 ^ 32) (total - n)
                  ((done + bytes) % 2 ^ 32) (copy_to buffer done (byte_at r.1) bytes)
                  (heap.kfree r.2) next small in
              rw (more, got, came, read_rounds)
                (
                  ih.0,
                  λ k h.
                      ih.1 k h
                      ∙ copy_to-past buffer done (byte_at r.1) bytes k (omega (arith, fits)),
                )
        ]
      ]
    ]

-- `disk_read` returns at most `len`, and writes no byte of the buffer at index `len` or later, whatever
-- the drive and the allocator do, where `len` and 256 sectors together stay below 2 ^ 32 bytes. Only a
-- valid disk with a sector size of 0 has no result: there it divides by 0.
pub disk_read-in_bounds :
    {S : Type 0}
    → (io : Ports S) (heap : Heap S) (disks : ℕ → IdentifyDeviceData) (curr addr : ℕ)
      (buffer : ℕ → ℕ) (len : ℕ) (s : S)
    → len + 256 * (disks curr).logical_sector_size < 2 ^ 32
    → (((disks curr).valid ≡ true)
        × ((disks curr).logical_sector_size ≡ 0)
        × (disk_read io heap disks curr addr buffer len s ≡ none))
      ⊎ ((n : ℕ) × (buffer' : ℕ → ℕ) × (s' : S) × (disk_read io heap disks curr addr buffer len s
            ≡ some (n, buffer', s'))
          × (n ≤ len)
          × ((k : ℕ) → len ≤ k → buffer' k ≡ buffer k))
unfolding disk_read
disk_read-in_bounds io heap disks curr addr buffer len s small =
    let size = (disks curr).logical_sector_size in
    let total = (len + size + 2 ^ 32 - 1) % 2 ^ 32 / size in
    let r = read_rounds io heap total disks curr len addr total 0 buffer s in
    let bounds =
      read_rounds-in_bounds io heap total disks curr len addr total 0 buffer s (omega arith)
        small in
    elim (Bool-cases (disks curr).valid) [
      | inl usable ↦ elim (Bool-cases (size == 0)) [
        | inl empty ↦ inl (usable, ground (arith, empty), rw (usable, empty, disk_read) refl)
        | inr some_size ↦
            inr (r.0, r.1, r.2, rw (usable, some_size, disk_read) refl, bounds.0, bounds.1)
      ]
      | inr missing ↦ inr (0, buffer, s, rw (missing, disk_read) refl, omega arith, λ k h. refl)
    ]
