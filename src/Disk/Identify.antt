-- ===== src/Disk/Identify.antt =====
-- Identification of the drives in drivers/disk.c. The messages on the screen are left out.
pub mod Strings
use my_os.Base.{
  ℕ, zero, suc, ◌+◌, ◌-◌, ◌*◌, ◌/◌, ◌%◌, ◌^◌, bit_and, bit_or, Bool, true, false, not, ◌&&◌, ◌||◌,
  ltb, leb, ◌==◌, if◌then◌else◌,
}
use my_os.Base.Masks.{update}
use my_os.Io.{Ports}
use my_os.Disk.Ata.{
  IdentifyDeviceData, ata_reg_data, ata_reg_seccount, ata_reg_lba_low, ata_reg_lba_mid,
  ata_reg_lba_high, ata_reg_drive_select, ata_reg_cmd_status, slave_drive, master_drive,
  delay_400ns, ata_wait_for_bsy, ata_wait_for_drq, read_words,
}

-- The loop that takes each word apart, high byte first.
unfoldable pub split_words : (rounds : ℕ) → (i : ℕ) → (source dest : ℕ → ℕ) → ℕ → ℕ
split_words zero i source dest = dest
split_words (suc n) i source dest =
    split_words n (i + 1) source
      (update (update dest (i * 2) (source i / 2 ^ 8)) (i * 2 + 1) (bit_and (source i) 0xFF))

-- The loop that removes the trailing spaces of the first bytes, as many as the number says.
unfoldable pub trim : ℕ → (ℕ → ℕ) → ℕ → ℕ
trim zero dest = dest
trim (suc i) dest =
    let rest = trim i (update dest i 0) in if (dest i == b' ') || (dest i == 0) then rest else dest

unfoldable pub ata_extract_string : (source dest : ℕ → ℕ) → (length : ℕ) → ℕ → ℕ
unfolding split_words trim
ata_extract_string source dest length =
    trim length (update (split_words (length / 2) 0 source dest) length 0)

unfoldable pub parse_logical_sector_size : (ℕ → ℕ) → ℕ
parse_logical_sector_size identify_data =
    let word_106 = identify_data 106 in
    if bit_and word_106 (2 ^ 14) == 0
    then 512
    else if not (bit_and word_106 (2 ^ 12) == 0)
    then bit_or (identify_data 118 * 2 ^ 16) (identify_data 117) * 2 % 2 ^ 32
    else 512

unfoldable pub parse_physical_sector_size : (ℕ → ℕ) → ℕ
unfolding parse_logical_sector_size
parse_physical_sector_size identify_data =
    let word_106 = identify_data 106 in
    if not (bit_and word_106 (2 ^ 3) == 0)
    then parse_logical_sector_size identify_data * 2 ^ bit_and word_106 0x0F % 2 ^ 32
    else parse_logical_sector_size identify_data

-- The record that the 256 words of the drive fill in; the field of the physical size has 16 bits.
unfoldable pub populate :
    (words : ℕ → ℕ) → (base_port drive : ℕ) → IdentifyDeviceData → IdentifyDeviceData
unfolding ata_extract_string parse_logical_sector_size parse_physical_sector_size
populate words base_port drive disk_data = record {
  general_config = words 0;
  cylinders = words 1;
  heads = words 3;
  sectors_per_track = words 6;
  serial_number = ata_extract_string (λ i. words (10 + i)) disk_data.serial_number 20;
  firmware_revision = ata_extract_string (λ i. words (23 + i)) disk_data.firmware_revision 8;
  model_number = ata_extract_string (λ i. words (27 + i)) disk_data.model_number 40;
  capabilities_0 = words 49;
  capabilities_1 = words 50;
  total_sectors = bit_or (words 60) (words 61 * 2 ^ 16);
  logical_sector_size = parse_logical_sector_size words;
  physical_sector_size = parse_physical_sector_size words % 2 ^ 16;
  base_io_port = base_port;
  slave = drive == slave_drive;
  valid = true;
}

module _ {S : Type 0} (io : Ports S) where
  -- The commands up to the first read of the status register.
  unfoldable pub ask_to_identify : (base_port drive : ℕ) → S → S
  unfolding delay_400ns
  ask_to_identify base_port drive s =
      let s = io.outb (base_port + ata_reg_drive_select) drive s in
      let s = delay_400ns io base_port s in
      let s = io.outb (base_port + ata_reg_seccount) 0 s in
      let s = io.outb (base_port + ata_reg_lba_low) 0 s in
      let s = io.outb (base_port + ata_reg_lba_mid) 0 s in
      let s = io.outb (base_port + ata_reg_lba_high) 0 s in
      let s = io.outb (base_port + ata_reg_cmd_status) 0xEC s in delay_400ns io base_port s

  -- The test that the drive is an ATA drive; the second port is read only if the first is 0.
  unfoldable pub is_ata : (base_port : ℕ) → S → Bool × S
  is_ata base_port s =
      let (mid, s') = io.inb (base_port + ata_reg_lba_mid) s in
      let (high, s'') = io.inb (base_port + ata_reg_lba_high) s' in
      if mid == 0 then (high == 0, s'') else (false, s')

  unfoldable pub identify_drive :
      (base_port drive : ℕ) → IdentifyDeviceData → S → Bool × IdentifyDeviceData × S
  unfolding ask_to_identify is_ata ata_wait_for_bsy ata_wait_for_drq read_words populate
  identify_drive base_port drive disk_data s =
      let (status, s1) =
        io.inb (base_port + ata_reg_cmd_status) (ask_to_identify base_port drive s) in
      let (ready, s2) = ata_wait_for_bsy io base_port s1 in
      let (ata, s3) = is_ata base_port s2 in
      let (filled, s4) = ata_wait_for_drq io base_port s3 in
      let (words, s5) = read_words io 256 base_port 0 (λ _. 0) s4 in
      elim (status == 0) [
        | true ↦ (false, disk_data, s1)
        | false ↦ elim ready [
          | false ↦ (false, disk_data, s2)
          | true ↦ elim ata [
            | false ↦ (false, disk_data, s3)
            | true ↦ elim filled [
              | false ↦ (false, disk_data, s4)
              | true ↦ (true, populate words base_port drive disk_data, s5)
            ]
          ]
        ]
      ]
