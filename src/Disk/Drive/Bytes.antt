-- ===== src/Disk/Drive/Bytes.antt =====
-- What the functions of drivers/disk.c for bytes rely on, beside the drive: a disk that is usable, and an
-- allocator that does nothing to the drive. One call of `ata_write_sectors`, seen as bytes.
use my_os.Base.{ℕ, suc, ◌+◌, ◌-◌, ◌*◌, ◌%◌, ◌≤◌, ◌<◌, ◌≡◌, ◌∙◌, sym, ap, arith, true, false, some}
use my_os.Io.{Ports}
use my_os.Disk.Ata.{
  IdentifyDeviceData, ata_read_sectors, ata_write_sectors, sectors_of, is_lba_supported,
}
use my_os.Disk.Transfer.{Heap, copy_to, byte_at, word_at, this_call}
use my_os.Disk.Drive.{View, Drive, IgnoresFlush, IsIdle}
use my_os.Disk.Drive.Requests.{IsLba28, ata_read_sectors-reads, ata_write_sectors-writes}
use my_os.Disk.Drive.Image.{byte_at-copy_to, byte_at-word_at, byte_at-sectors}

-- The disk that is in use: one of the four, valid, with sectors of a positive even size.
pub record IsUsable (disks : ℕ → IdentifyDeviceData) (curr_disk : ℕ) : Type 0 where
  pub known : curr_disk < 4
  pub valid : (disks curr_disk).valid ≡ true
  pub lba_supported : is_lba_supported (disks curr_disk) ≡ true
  pub lba28 : IsLba28 (disks curr_disk)
  pub even : (disks curr_disk).logical_sector_size % 2 ≡ 0

-- The drive does not see the allocator, which may refuse what it is asked for.
pub record IsUnseen {S : Type 0} (heap : Heap S) (view : S → View) : Type 0 where
  pub kmalloc_view : (size : ℕ) (s : S) → view (heap.kmalloc size s).1 ≡ view s
  pub kfree_view : (s : S) → view (heap.kfree s) ≡ view s

-- The machine `s'` is as an allocation that was refused has left it.
abbrev pub Refused : {S : Type 0} → Heap S → S → Type 0
Refused {S = S} heap s' =
    (size : ℕ) × (s : S) × ((heap.kmalloc size s).0 ≡ false) × (s' ≡ (heap.kmalloc size s).1)

-- The bytes on the disk.
abbrev pub image : View → ℕ → ℕ
image v = byte_at v.content

-- A write of `count` sectors made of bytes.
pub write_bytes :
    {S : Type 0}
    → {io : Ports S} → (disks : ℕ → IdentifyDeviceData) (curr : ℕ) (d : Drive io (disks curr))
    → IgnoresFlush d
    → (busy lba count : ℕ) (bytes : ℕ → ℕ) (s : S) → IsUsable disks curr
    → ((k : ℕ) → bytes (2 * k) < 256)
    → lba + sectors_of count ≤ (disks curr).total_sectors
    → IsIdle (d.view s)
    → (s' : S) × (ata_write_sectors io (suc busy) disks curr lba count (word_at bytes) s
        ≡ some (true, s'))
      × (image (d.view s')
          ≡ copy_to
              (image (d.view s))
              (lba * (disks curr).logical_sector_size)
              bytes
              (sectors_of count * (disks curr).logical_sector_size))
      × IsIdle (d.view s')
write_bytes disks curr d ignores busy lba count bytes s u small on idle =
    let size = (disks curr).logical_sector_size in
    let w =
      ata_write_sectors-writes disks curr d ignores busy lba count (word_at bytes) s
        (u.known, u.valid, u.lba_supported, on) u.lba28 idle in
    (
      w.0,
      w.1,
      ap byte_at w.2
          ∙ byte_at-copy_to (d.view s).content lba (word_at bytes) (sectors_of count) size u.even
          ∙ ap (λ b. copy_to (image (d.view s)) (lba * size) b (sectors_of count * size))
              (byte_at-word_at bytes small),
      w.3,
    )

-- A read of `count` sectors, seen as bytes.
pub read_bytes :
    {S : Type 0}
    → {io : Ports S}
    → (disks : ℕ → IdentifyDeviceData) (curr : ℕ) (d : Drive io (disks curr)) (lba count : ℕ)
      (buffer : ℕ → ℕ) (s : S)
    → IsUsable disks curr
    → lba + sectors_of count ≤ (disks curr).total_sectors
    → IsIdle (d.view s)
    → let r = ata_read_sectors io disks curr lba count buffer s in
      let size = (disks curr).logical_sector_size in
      (r.0 ≡ true)
      × ((k : ℕ) → k < sectors_of count * size → byte_at r.1 k ≡ image (d.view s) (lba * size + k))
      × (image (d.view r.2) ≡ image (d.view s))
      × IsIdle (d.view r.2)
read_bytes disks curr d lba count buffer s u on idle =
    let size = (disks curr).logical_sector_size in
    let r =
      ata_read_sectors-reads disks curr d lba count buffer s (u.known, u.valid, u.lba_supported, on)
        u.lba28 idle in
    (
      r.0,
      λ k h.
          ap (λ f. byte_at f k) r.1
          ∙ byte_at-sectors buffer (d.view s).content lba (sectors_of count) size k u.even h,
      ap byte_at r.2,
      r.3,
    )

-- The sectors of one call: one at least, and no more than are left.
pub this_call-some : (total : ℕ) → 0 < total → 0 < sectors_of (this_call total)
unfolding sectors_of this_call
this_call-some total h = ground (arith, h)

pub this_call-le : (total : ℕ) → 0 < total → sectors_of (this_call total) ≤ total
unfolding sectors_of this_call
this_call-le total h = ground (arith, h)

-- The bytes of the sectors of a call and of those that are left.
pub sectors-split : (n total size : ℕ) → n ≤ total → n * size + (total - n) * size ≡ total * size
sectors-split n total size le =
    let e : n + (total - n) ≡ total = omega (arith, le) in
    let f : n * size + (total - n) * size ≡ (n + (total - n)) * size = omega arith in
    f ∙ ap (λ x. x * size) e

-- No sectors have no bytes.
pub no_bytes : (total size : ℕ) → total ≡ 0 → 0 ≡ total * size
no_bytes total size e = let f : 0 ≡ 0 * size = omega arith in f ∙ ap (λ x. x * size) (sym e)
