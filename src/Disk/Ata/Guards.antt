-- ===== src/Disk/Ata/Guards.antt =====
-- The guards of the sector commands, and the LBA that they send.
use my_os.Base.{
  ℕ, zero, suc, ◌+◌, ◌*◌, ◌/◌, ◌%◌, ◌^◌, ◌≤◌, ◌<◌, ◌≡◌, arith, true, false, some, ◌&&◌, ltb, leb,
  ◌↔◌, Bool-cases, inl, inr, refl,
}
use my_os.Base.Align.{bit_and-mod}
use my_os.Base.Masks.{update}
use my_os.Io.{Ports}
use my_os.Disk.Ata.{
  IdentifyDeviceData, get_lba_low, get_lba_mid, get_lba_high, get_lba_highest, is_request,
  is_lba_supported, sectors_of, ata_read_sectors, ata_write_sectors, read_words, read_loop,
  wait_for_data, delay_400ns, ata_wait_for_bsy, send_command,
}

-- The four parts of an LBA put together are its lowest 28 bits.
pub lba-parts :
    (lba : ℕ)
    → get_lba_low lba
        + get_lba_mid lba * 2 ^ 8
        + get_lba_high lba * 2 ^ 16
        + get_lba_highest lba * 2 ^ 24
      ≡ lba % 2 ^ 28
unfolding get_lba_low get_lba_mid get_lba_high get_lba_highest
lba-parts lba = omega (arith, bit_and-mod 4 (lba / 2 ^ 24 % 256))

-- A usable disk, and sectors that all lie on it.
abbrev pub OnDisk : (ℕ → IdentifyDeviceData) → (disk_num lba count : ℕ) → Type 0
OnDisk disks disk_num lba count =
    (disk_num < 4)
    × ((disks disk_num).valid ≡ true)
    × (is_lba_supported (disks disk_num) ≡ true)
    × (lba + sectors_of count ≤ (disks disk_num).total_sectors)

pub is_request-OnDisk :
    (disks : ℕ → IdentifyDeviceData) (disk_num lba count : ℕ)
    → is_request disks disk_num lba count ≡ true ↔ OnDisk disks disk_num lba count
unfolding is_request sectors_of
is_request-OnDisk disks disk_num lba count = ground arith

-- A read or a write whose sectors do not all lie on a usable disk returns false before it touches the
-- machine or the buffer.
pub refused-untouched :
    {S : Type 0}
    → (io : Ports S) (fuel : ℕ) (disks : ℕ → IdentifyDeviceData) (disk_num lba count : ℕ)
      (buffer : ℕ → ℕ) (s : S)
    → (OnDisk disks disk_num lba count → true ≡ false)
    → (ata_read_sectors io disks disk_num lba count buffer s ≡ (false, buffer, s))
      × (ata_write_sectors io fuel disks disk_num lba count buffer s ≡ some (false, s))
unfolding ata_read_sectors ata_write_sectors
refused-untouched io fuel disks disk_num lba count buffer s off =
    let e : is_request disks disk_num lba count ≡ false =
      ground (arith, is_request-OnDisk disks disk_num lba count) in
    (rw (e, ata_read_sectors) refl, rw (e, ata_write_sectors) refl)

read_words-outside :
    {S : Type 0}
    → (io : Ports S) (n port i : ℕ) (buffer : ℕ → ℕ) (s : S) (k : ℕ)
    → (leb i k && ltb k (i + n)) ≡ false
    → (read_words io n port i buffer s).0 k ≡ buffer k
unfolding read_words
read_words-outside io zero port i buffer s k out = refl
read_words-outside io (suc n) port i buffer s k out = ground (
  arith,
  read_words-outside io n port (i + 1) (update buffer i (io.in16 (port + 0x0) s).0)
      (io.in16 (port + 0x0) s).1 k,
)

read_loop-outside :
    {S : Type 0}
    → (io : Ports S) (n port size from : ℕ) (buffer : ℕ → ℕ) (s : S) (k : ℕ) → from + n * size ≤ k
    → (read_loop io n port size from buffer s).1 k ≡ buffer k
unfolding read_loop
read_loop-outside io zero port size from buffer s k out = refl
read_loop-outside io (suc n) port size from buffer s k out =
    let w = wait_for_data io port s in
    let r = read_words io size port from buffer w.1 in
    elim (Bool-cases w.0) [
      | inr stop ↦ rw (stop, read_loop) refl
      | inl go ↦
          rw
            (
              go,
              read_loop,
              read_loop-outside io n port size (from + size) r.0 (delay_400ns io port r.1) k
                  (omega arith),
            )
            (read_words-outside io size port from buffer w.1 k (ground arith))
    ]

-- A read writes no word of the buffer past the sectors asked for, whatever the drive answers.
pub read_sectors-in_bounds :
    {S : Type 0}
    → (io : Ports S) (disks : ℕ → IdentifyDeviceData) (disk_num lba count : ℕ) (buffer : ℕ → ℕ)
      (s : S) (k : ℕ)
    → sectors_of count * ((disks disk_num).logical_sector_size / 2) ≤ k
    → (ata_read_sectors io disks disk_num lba count buffer s).1 k ≡ buffer k
unfolding ata_read_sectors
read_sectors-in_bounds io disks disk_num lba count buffer s k out =
    let d = disks disk_num in
    let w = ata_wait_for_bsy io d.base_io_port s in
    elim (Bool-cases (is_request disks disk_num lba count)) [
      | inr stop ↦ rw (stop, ata_read_sectors) refl
      | inl go ↦ elim (Bool-cases w.0) [
        | inr busy ↦ rw (go, busy, ata_read_sectors) refl
        | inl ready ↦
            rw (go, ready, ata_read_sectors)
              (read_loop-outside io (sectors_of count) d.base_io_port (d.logical_sector_size / 2) 0
                buffer (send_command io d lba count 0x20 w.1) k (omega (arith, out)))
      ]
    ]
