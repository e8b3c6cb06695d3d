-- ===== src/Disk/Init.antt =====
-- `init_disk_driver` of drivers/disk.c, without the messages that it prints, and the sector size.
use my_os.Base.{ℕ, ◌+◌, ◌%◌, if◌then◌else◌}
use my_os.Base.Masks.{update}
use my_os.Io.{Ports}
use my_os.Disk.Ata.{IdentifyDeviceData, master_drive, slave_drive}
use my_os.Disk.Identify.{identify_drive}

abbrev pub primary_base_port : ℕ
primary_base_port = 0x1F0

abbrev pub secondary_base_port : ℕ
secondary_base_port = 0x170

unfoldable pub disk_get_current_disk_logical_sector_size :
    (disks : ℕ → IdentifyDeviceData) → (curr_disk : ℕ) → ℕ
disk_get_current_disk_logical_sector_size disks curr_disk = (disks curr_disk).logical_sector_size

module _ {S : Type 0} (io : Ports S) where
  -- One of the four calls, for disk number `i`; with the count of drives so far.
  unfoldable pub add_drive :
      (base_port drive i : ℕ) → ℕ × (ℕ → IdentifyDeviceData) × S → ℕ × (ℕ → IdentifyDeviceData) × S
  unfolding identify_drive
  add_drive base_port drive i (num_drives, disks, s) =
      let (found, data', s') = identify_drive io base_port drive (disks i) s in
      ((num_drives + (if found then 1 else 0)) % 256, update disks i data', s')

  -- The count, the disks and the machine.
  unfoldable pub init_disk_driver : (ℕ → IdentifyDeviceData) → S → ℕ × (ℕ → IdentifyDeviceData) × S
  unfolding add_drive
  init_disk_driver disks s =
      let r = add_drive primary_base_port master_drive 0 (0, disks, s) in
      let r = add_drive primary_base_port slave_drive 1 r in
      let r = add_drive secondary_base_port master_drive 2 r in
      add_drive secondary_base_port slave_drive 3 r
