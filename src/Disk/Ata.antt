-- ===== src/Disk/Ata.antt =====
-- The sector commands of drivers/disk.c, over a machine with ports. A buffer is a function from the
-- indices of its 16-bit words. The messages that go to the screen are left out.
pub mod Guards
use my_os.Base.{
  ℕ, zero, suc, ◌+◌, ◌-◌, ◌*◌, ◌/◌, ◌%◌, ◌^◌, bit_and, bit_or, Bool, true, false, not, ◌&&◌, ◌||◌,
  Option, none, some, ltb, leb, ◌==◌, if◌then◌else◌,
}
use my_os.Base.Masks.{update}
use my_os.Io.{Ports}

pub record IdentifyDeviceData : Type 0 where
  pub general_config : ℕ
  pub cylinders : ℕ
  pub heads : ℕ
  pub sectors_per_track : ℕ
  pub serial_number : ℕ → ℕ
  pub firmware_revision : ℕ → ℕ
  pub model_number : ℕ → ℕ
  -- capabilities[0] and capabilities[1]
  pub capabilities_0 : ℕ
  pub capabilities_1 : ℕ
  pub total_sectors : ℕ
  pub logical_sector_size : ℕ
  pub physical_sector_size : ℕ
  pub base_io_port : ℕ
  pub slave : Bool
  pub valid : Bool

abbrev pub ata_reg_data : ℕ
ata_reg_data = 0x0

abbrev pub ata_reg_seccount : ℕ
ata_reg_seccount = 0x2

abbrev pub ata_reg_lba_low : ℕ
ata_reg_lba_low = 0x3

abbrev pub ata_reg_lba_mid : ℕ
ata_reg_lba_mid = 0x4

abbrev pub ata_reg_lba_high : ℕ
ata_reg_lba_high = 0x5

abbrev pub ata_reg_drive_select : ℕ
ata_reg_drive_select = 0x6

abbrev pub ata_reg_cmd_status : ℕ
ata_reg_cmd_status = 0x7

abbrev pub ata_reg_altstatus : ℕ
ata_reg_altstatus = 0x206

abbrev pub master_drive : ℕ
master_drive = 0xE0

abbrev pub slave_drive : ℕ
slave_drive = 0xF0

unfoldable pub get_lba_low : ℕ → ℕ
get_lba_low lba = lba % 256

unfoldable pub get_lba_mid : ℕ → ℕ
get_lba_mid lba = lba / 2 ^ 8 % 256

unfoldable pub get_lba_high : ℕ → ℕ
get_lba_high lba = lba / 2 ^ 16 % 256

unfoldable pub get_lba_highest : ℕ → ℕ
get_lba_highest lba = bit_and (lba / 2 ^ 24 % 256) 0x0F

unfoldable pub is_lba_supported : IdentifyDeviceData → Bool
is_lba_supported disk = not (bit_and disk.capabilities_0 (2 ^ 9) == 0)

-- The sectors that a count stands for: 0 stands for 256.
unfoldable pub sectors_of : ℕ → ℕ
sectors_of sector_count = if sector_count == 0 then 256 else sector_count

-- The tests with which both commands begin; `ltb disk_num 4` is for the four entries of `disks`.
unfoldable pub is_request :
    (disks : ℕ → IdentifyDeviceData) → (disk_num lba sector_count : ℕ) → Bool
unfolding is_lba_supported sectors_of
is_request disks disk_num lba sector_count =
    let disk = disks disk_num in
    ltb disk_num 4
    && (disk.valid && is_lba_supported disk)
    && not (leb disk.total_sectors lba || ltb (disk.total_sectors - lba) (sectors_of sector_count))

module _ {S : Type 0} (io : Ports S) where
  -- The loop of `ata_wait_for_bsy`.
  unfoldable pub bsy_loop : (rounds : ℕ) → (base_port : ℕ) → S → Bool × S
  bsy_loop zero base_port s = (false, s)
  bsy_loop (suc n) base_port s =
      let (status, s') = io.inb (base_port + ata_reg_cmd_status) s in
      elim (bit_and status 0x80 == 0) [ true ↦ (true, s') | false ↦ bsy_loop n base_port s' ]

  unfoldable pub ata_wait_for_bsy : (base_port : ℕ) → S → Bool × S
  ata_wait_for_bsy base_port s = bsy_loop 1000000000 base_port s

  -- The loop of `ata_wait_for_drq`.
  unfoldable pub drq_loop : (rounds : ℕ) → (base_port : ℕ) → S → Bool × S
  drq_loop zero base_port s = (false, s)
  drq_loop (suc n) base_port s =
      let (status, s') = io.inb (base_port + ata_reg_cmd_status) s in
      elim (bit_and status 0x01 == 0) [
        | false ↦ (false, s')
        | true ↦ elim (bit_and status 0x08 == 0) [
          | false ↦ (true, s')
          | true ↦ drq_loop n base_port s'
        ]
      ]

  unfoldable pub ata_wait_for_drq : (base_port : ℕ) → S → Bool × S
  ata_wait_for_drq base_port s = drq_loop 1000000 base_port s

  -- Both waits in turn, as the loops over the sectors begin.
  unfoldable pub wait_for_data : (base_port : ℕ) → S → Bool × S
  unfolding ata_wait_for_bsy ata_wait_for_drq
  wait_for_data base_port s =
      let (ready, s') = ata_wait_for_bsy base_port s in
      elim ready [ true ↦ ata_wait_for_drq base_port s' | false ↦ (false, s') ]

  -- `rounds` reads of the alternate status register: the loops of `delay400ns` and
  -- `delayAfterCommand`.
  unfoldable pub read_status : (rounds : ℕ) → (base_port : ℕ) → S → S
  read_status zero base_port s = s
  read_status (suc n) base_port s =
      read_status n base_port (io.inb (base_port + ata_reg_altstatus) s).1

  unfoldable pub delay_400ns : (base_port : ℕ) → S → S
  unfolding read_status
  delay_400ns base_port s = read_status 14 base_port s

  unfoldable pub delay_after_command : (base_port : ℕ) → S → S
  unfolding read_status
  delay_after_command base_port s = read_status 4 base_port s

  unfoldable pub flush_cache : (disks : ℕ → IdentifyDeviceData) → ℕ → S → S
  unfolding delay_after_command
  flush_cache disks disk_num s =
      if leb 4 disk_num || not (disks disk_num).valid
      then s
      else delay_after_command (disks disk_num).base_io_port
          (io.outb ((disks disk_num).base_io_port + ata_reg_cmd_status) 0xE7 s)

  -- From the drive selection to the command, the same in both: READ is 0x20, WRITE is 0x30.
  unfoldable pub send_command : (disk : IdentifyDeviceData) → (lba sector_count command : ℕ) → S → S
  unfolding delay_400ns delay_after_command get_lba_low get_lba_mid get_lba_high get_lba_highest
  send_command disk lba sector_count command s =
      let base_port = disk.base_io_port in
      let drive = if disk.slave then slave_drive else master_drive in
      let s = io.outb (base_port + ata_reg_drive_select) (bit_or drive (get_lba_highest lba)) s in
      let s = delay_400ns base_port s in
      let s = io.outb (base_port + ata_reg_seccount) sector_count s in
      let s = io.outb (base_port + ata_reg_lba_low) (get_lba_low lba) s in
      let s = io.outb (base_port + ata_reg_lba_mid) (get_lba_mid lba) s in
      let s = io.outb (base_port + ata_reg_lba_high) (get_lba_high lba) s in
      let s = io.outb (base_port + ata_reg_cmd_status) command s in delay_after_command base_port s

  -- The words of a sector, into the buffer from index `i` on.
  unfoldable pub read_words : (rounds : ℕ) → (base_port i : ℕ) → (ℕ → ℕ) → S → (ℕ → ℕ) × S
  read_words zero base_port i buffer s = (buffer, s)
  read_words (suc n) base_port i buffer s =
      let (word, s') = io.in16 (base_port + ata_reg_data) s in
      read_words n base_port (i + 1) (update buffer i word) s'

  -- The sectors that are left, of `size` words each, into the buffer from index `from` on.
  unfoldable pub read_loop :
      (rounds : ℕ) → (base_port size from : ℕ) → (ℕ → ℕ) → S → Bool × (ℕ → ℕ) × S
  unfolding wait_for_data read_words delay_400ns
  read_loop zero base_port size from buffer s = (true, buffer, s)
  read_loop (suc n) base_port size from buffer s =
      let (ready, s') = wait_for_data base_port s in
      let (buffer', s'') = read_words size base_port from buffer s' in
      elim ready [
        | false ↦ (false, buffer, s')
        | true ↦ read_loop n base_port size (from + size) buffer' (delay_400ns base_port s'')
      ]

  unfoldable pub ata_read_sectors :
      (disks : ℕ → IdentifyDeviceData)
      → (disk_num lba sector_count : ℕ) → (ℕ → ℕ)
      → S
      → Bool × (ℕ → ℕ) × S
  unfolding is_request ata_wait_for_bsy send_command read_loop
  ata_read_sectors disks disk_num lba sector_count buffer s =
      let disk = disks disk_num in
      let (ready, s') = ata_wait_for_bsy disk.base_io_port s in
      elim (is_request disks disk_num lba sector_count) [
        | false ↦ (false, buffer, s)
        | true ↦ elim ready [
          | false ↦ (false, buffer, s')
          | true ↦
              read_loop (sectors_of sector_count) disk.base_io_port (disk.logical_sector_size / 2) 0
                buffer (send_command disk lba sector_count 0x20 s')
        ]
      ]

  -- The words of a sector, out of the buffer from index `i` on.
  unfoldable pub write_words : (rounds : ℕ) → (base_port i : ℕ) → (ℕ → ℕ) → S → S
  write_words zero base_port i buffer s = s
  write_words (suc n) base_port i buffer s =
      write_words n base_port (i + 1) buffer (io.out16 (base_port + ata_reg_data) (buffer i) s)

  unfoldable pub write_loop :
      (rounds : ℕ) → (disks : ℕ → IdentifyDeviceData) → (disk_num from : ℕ) → (ℕ → ℕ) → S → Bool × S
  unfolding wait_for_data write_words flush_cache
  write_loop zero disks disk_num from buffer s = (true, s)
  write_loop (suc n) disks disk_num from buffer s =
      let base_port = (disks disk_num).base_io_port in
      let size = (disks disk_num).logical_sector_size / 2 in
      let (ready, s') = wait_for_data base_port s in
      elim ready [
        | false ↦ (false, s')
        | true ↦
            write_loop n disks disk_num (from + size) buffer
              (flush_cache disks disk_num (write_words size base_port from buffer s'))
      ]

  -- `while (!ata_wait_for_bsy(base_port));`, with `none` when the fuel is used up.
  unfoldable pub wait_until_ready : (fuel : ℕ) → (base_port : ℕ) → S → Option S
  unfolding ata_wait_for_bsy
  wait_until_ready zero base_port s = none
  wait_until_ready (suc n) base_port s =
      let (ready, s') = ata_wait_for_bsy base_port s in
      elim ready [ true ↦ some s' | false ↦ wait_until_ready n base_port s' ]

  -- `none`: the drive was busy for all of the fuel.
  unfoldable pub ata_write_sectors :
      (fuel : ℕ)
      → (disks : ℕ → IdentifyDeviceData) → (disk_num lba sector_count : ℕ) → (ℕ → ℕ)
      → S
      → Option (Bool × S)
  unfolding is_request wait_until_ready send_command write_loop
  ata_write_sectors fuel disks disk_num lba sector_count buffer s =
      let disk = disks disk_num in
      elim (is_request disks disk_num lba sector_count) [
        | false ↦ some (false, s)
        | true ↦ elim (wait_until_ready fuel disk.base_io_port s) [
          | none ↦ none
          | some s' ↦ some (
              write_loop (sectors_of sector_count) disks disk_num 0 buffer
                (send_command disk lba sector_count 0x30 s'))
        ]
      ]
