-- ===== src/Disk/Tests.antt =====
-- The theorems on disk.c at a small disk whose drive is always ready and counts the words it sends.
use my_os.Base.{
  ℕ, ◌+◌, ◌*◌, ◌/◌, ◌^◌, ◌≤◌, ◌≡◌, ◌⊎◌, arith, true, false, none, some, ltb, ◌==◌, ◌&&◌,
  if◌then◌else◌,
}
use my_os.Io.{Ports}
use my_os.Disk.Slots.{Slots, disk_alloc_slots, disk_free_slots, disk_no_slot_available}
use my_os.Disk.Slots.Runs.{used, in_run}
use my_os.Disk.Slots.Alloc.{Taken, IsFreeRun, alloc_slots-Taken, free_slots-releases}
use my_os.Disk.Ata.{IdentifyDeviceData, sectors_of}
use my_os.Disk.Ata.Guards.{OnDisk}
use my_os.Disk.Transfer.{Heap, disk_read}
use my_os.Disk.Transfer.Bounds.{disk_read-in_bounds}

-- Slots 8 to 15 are in use.
abbrev one_byte_used : Slots
one_byte_used = record { disk_bitmap = λ i. if i == 1 then 0xFF else 0; last_alloc_index = 1 }

abbrev ready_drive : Ports ℕ
ready_drive = record {
  inb = λ port s. (0x08, s);
  in16 = λ port s. (s, s + 1);
  outb = λ port value s. s;
  out16 = λ port value s. s;
  in32 = λ port s. (0, s);
  out32 = λ port value s. s;
}

abbrev small_disk : ℕ → IdentifyDeviceData
small_disk _ = record {
  general_config = 0;
  cylinders = 0;
  heads = 0;
  sectors_per_track = 0;
  serial_number = λ _. 0;
  firmware_revision = λ _. 0;
  model_number = λ _. 0;
  capabilities_0 = 2 ^ 9;
  capabilities_1 = 0;
  total_sectors = 100;
  logical_sector_size = 512;
  physical_sector_size = 512;
  base_io_port = 0x1F0;
  slave = false;
  valid = true;
}

abbrev plenty : Heap ℕ
plenty = record { kmalloc = λ size s. (true, s); kfree = λ s. s }

abbrev words_of_text : ℕ → ℕ
words_of_text i = if i == 0 then 0x4142 else 0x2020

past_the_end : OnDisk small_disk 0 99 2 → true ≡ false
unfolding sectors_of
past_the_end (a, b, c, d) = absurd (omega (arith, d))

two_sectors : sectors_of 2 * (512 / 2) ≤ 600
unfolding sectors_of
two_sectors = omega arith

alloc_slots-Taken_example :
    Taken one_byte_used 3 (disk_alloc_slots 3 one_byte_used)
    ⊎ ((disk_alloc_slots 3 one_byte_used ≡ (disk_no_slot_available, one_byte_used))
        × ((start : ℕ) → IsFreeRun one_byte_used.disk_bitmap start 3 → false ≡ true))
alloc_slots-Taken_example =
    alloc_slots-Taken one_byte_used 3 (omega arith) (omega arith) (omega arith)

free_slots-releases_example :
    used (disk_free_slots 8 3 one_byte_used).disk_bitmap 9
    ≡ (if in_run 8 3 9 && ltb (8 + 3) 800000 then 0 else used one_byte_used.disk_bitmap 9)
free_slots-releases_example =
    free_slots-releases one_byte_used 8 3 9 (λ i. ground arith) (omega arith)

disk_read-in_bounds_example :
    (((small_disk 0).valid ≡ true)
      × ((small_disk 0).logical_sector_size ≡ 0)
      × (disk_read ready_drive plenty small_disk 0 3 (λ k. k) 1000 5 ≡ none))
    ⊎ ((n : ℕ) × (buffer' : ℕ → ℕ) × (s' : ℕ) × (disk_read ready_drive plenty small_disk 0 3
            (λ k. k)
            1000
            5
          ≡ some (n, buffer', s'))
        × (n ≤ 1000)
        × ((k : ℕ) → 1000 ≤ k → buffer' k ≡ k))
disk_read-in_bounds_example =
    disk_read-in_bounds ready_drive plenty small_disk 0 3 (λ k. k) 1000 5 (omega arith)
