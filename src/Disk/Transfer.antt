-- ===== src/Disk/Transfer.antt =====
-- Reads and writes of bytes in drivers/disk.c. `curr_disk` is an argument; the allocator is a
-- parameter. Sizes have 32 bits; the temporary buffer is apart from the caller's.
pub mod Bounds
use my_os.Base.{
  ℕ, zero, suc, ◌+◌, ◌-◌, ◌*◌, ◌/◌, ◌%◌, ◌^◌, Bool, true, false, not, ◌&&◌, Option, none, some, ltb,
  leb, ◌==◌, if◌then◌else◌,
}
use my_os.Io.{Ports}
use my_os.Disk.Ata.{
  IdentifyDeviceData, ata_read_sectors, ata_write_sectors, flush_cache, sectors_of,
}

-- What the driver uses of memory/kmalloc.c: whether an allocation succeeds, and the release. A panic within
-- them is not modelled.
pub record Heap (S : Type 0) : Type 0 where
  pub kmalloc : (size : ℕ) → S → Bool × S
  pub kfree : S → S

unfoldable pub switch_disk : (disks : ℕ → IdentifyDeviceData) → (disk_num curr_disk : ℕ) → ℕ
switch_disk disks disk_num curr_disk =
    if ltb disk_num 4 && (disks disk_num).valid then disk_num else curr_disk

-- The bytes of a buffer of words, and back; the processor is little-endian.
unfoldable pub byte_at : (ℕ → ℕ) → ℕ → ℕ
byte_at words k = if k % 2 == 0 then words (k / 2) % 256 else words (k / 2) / 256

unfoldable pub word_at : (ℕ → ℕ) → ℕ → ℕ
word_at bytes i = bytes (2 * i) + 256 * bytes (2 * i + 1)

-- memcpy of `num` bytes to index `i` on of another object.
unfoldable pub copy_to : (dest : ℕ → ℕ) → (i : ℕ) → (src : ℕ → ℕ) → (num : ℕ) → ℕ → ℕ
copy_to dest i src num k = if leb i k && ltb k (i + num) then src (k - i) else dest k

-- The count for the command, 0 for 256 sectors or more.
unfoldable pub this_call : (total_sectors : ℕ) → ℕ
this_call total_sectors = if leb 256 total_sectors then 0 else total_sectors

module _ {S : Type 0} (io : Ports S) (heap : Heap S) where
  -- The loop of `disk_read`. Each round reads a sector at least, so that as much fuel as there are
  -- sectors is enough.
  unfoldable pub read_rounds :
      (fuel : ℕ)
      → (disks : ℕ → IdentifyDeviceData) → (curr_disk len addr total_sectors total_read : ℕ)
      → (ℕ → ℕ)
      → S
      → ℕ × (ℕ → ℕ) × S
  unfolding this_call ata_read_sectors copy_to byte_at sectors_of
  read_rounds zero disks curr_disk len addr total_sectors total_read buffer s =
      (total_read, buffer, s)
  read_rounds (suc f) disks curr_disk len addr total_sectors total_read buffer s =
      let sector_size = (disks curr_disk).logical_sector_size in
      let count = this_call total_sectors in
      let sectors_read = sectors_of count in
      let all = sectors_read * sector_size % 2 ^ 32 in
      let bytes = if ltb len ((total_read + all) % 2 ^ 32) then len - total_read else all in
      let (got, s1) = heap.kmalloc all s in
      let (done, temp, s2) = ata_read_sectors io disks curr_disk addr count (λ _. 0) s1 in
      elim (total_sectors == 0) [
        | true ↦ (total_read, buffer, s)
        | false ↦ elim got [
          | false ↦ (total_read, buffer, s1)
          | true ↦ elim done [
            | false ↦ (total_read, buffer, heap.kfree s2)
            | true ↦
                read_rounds f disks curr_disk len ((addr + sectors_read) % 2 ^ 32)
                  (total_sectors - sectors_read) ((total_read + bytes) % 2 ^ 32)
                  (copy_to buffer total_read (byte_at temp) bytes) (heap.kfree s2)
          ]
        ]
      ]

  -- The bytes read, the buffer and the machine; `none` is a division by a sector size of 0.
  unfoldable pub disk_read :
      (disks : ℕ → IdentifyDeviceData)
      → (curr_disk addr : ℕ) → (ℕ → ℕ)
      → (len : ℕ) → S
      → Option (ℕ × (ℕ → ℕ) × S)
  unfolding read_rounds
  disk_read disks curr_disk addr buffer len s =
      let sector_size = (disks curr_disk).logical_sector_size in
      let total_sectors = (len + sector_size + 2 ^ 32 - 1) % 2 ^ 32 / sector_size in
      elim (disks curr_disk).valid [
        | false ↦ some (0, buffer, s)
        | true ↦
            (if sector_size == 0
              then none
              else some
                  (read_rounds total_sectors disks curr_disk len addr total_sectors 0 buffer s))
      ]

  -- The loop of `disk_write`: the bytes written, the next sector, whether all went well, and the
  -- machine. `none`: the drive stayed busy for the fuel of `ata_write_sectors`.
  unfoldable pub write_rounds :
      (fuel busy : ℕ)
      → (disks : ℕ → IdentifyDeviceData) → (curr_disk lba total_sectors total_written : ℕ) → (ℕ → ℕ)
      → S
      → Option (ℕ × ℕ × Bool × S)
  unfolding this_call ata_write_sectors word_at sectors_of
  write_rounds zero busy disks curr_disk lba total_sectors total_written buffer s =
      some (total_written, lba, true, s)
  write_rounds (suc f) busy disks curr_disk lba total_sectors total_written buffer s =
      let count = this_call total_sectors in
      let sectors = sectors_of count in
      let bytes = sectors * (disks curr_disk).logical_sector_size % 2 ^ 32 in
      let (got, s1) = heap.kmalloc bytes s in
      let temp = word_at (λ k. if ltb k bytes then buffer (total_written + k) else 0) in
      elim (total_sectors == 0) [
        | true ↦ some (total_written, lba, true, s)
        | false ↦ elim got [
          | false ↦ some (total_written, lba, false, s1)
          | true ↦ elim (ata_write_sectors io busy disks curr_disk lba count temp s1) [
            | none ↦ none
            | some (false, s2) ↦ some (total_written, lba, false, heap.kfree s2)
            | some (true, s2) ↦
                write_rounds f busy disks curr_disk ((lba + sectors) % 2 ^ 32)
                  (total_sectors - sectors) ((total_written + bytes) % 2 ^ 32) buffer
                  (heap.kfree s2)
          ]
        ]
      ]

  -- The part after the loop, for a last sector that is not full: it is read, changed and written back.
  unfoldable pub write_rest :
      (busy : ℕ)
      → (disks : ℕ → IdentifyDeviceData) → (curr_disk lba total_written len : ℕ) → (ℕ → ℕ)
      → S
      → Option (ℕ × S)
  unfolding ata_read_sectors ata_write_sectors word_at byte_at copy_to flush_cache
  write_rest busy disks curr_disk lba total_written len buffer s =
      let size = (disks curr_disk).logical_sector_size in
      let (got, s1) = heap.kmalloc size s in
      let (done, temp, s2) = ata_read_sectors io disks curr_disk lba 1 (λ _. 0) s1 in
      let changed = copy_to (byte_at temp) 0 (λ k. buffer (total_written + k)) (len % size) in
      elim got [
        | false ↦ some (total_written, s1)
        | true ↦ elim done [
          | false ↦ some (total_written, s2)
          | true ↦ elim (ata_write_sectors io busy disks curr_disk lba 1 (word_at changed) s2) [
            | none ↦ none
            | some (false, s3) ↦ some (total_written, s3)
            | some (true, s3) ↦ some (len, flush_cache io disks curr_disk (heap.kfree s3))
          ]
        ]
      ]

  -- The bytes written; `none` also is a division by a sector size of 0.
  unfoldable pub disk_write :
      (busy : ℕ)
      → (disks : ℕ → IdentifyDeviceData) → (curr_disk lba : ℕ) → (ℕ → ℕ)
      → (len : ℕ) → S
      → Option (ℕ × S)
  unfolding write_rounds write_rest
  disk_write busy disks curr_disk lba buffer len s =
      let size = (disks curr_disk).logical_sector_size in
      elim (disks curr_disk).valid [
        | false ↦ some (0, s)
        | true ↦ elim (size == 0) [
          | true ↦ none
          | false ↦
              elim (write_rounds (len / size) busy disks curr_disk lba (len / size) 0 buffer s) [
                | none ↦ none
                | some (written, next, false, s') ↦ some (written, s')
                | some (written, next, true, s') ↦
                    (if len % size == 0
                      then some (len, s')
                      else write_rest busy disks curr_disk next written len buffer s')
              ]
        ]
      ]
