-- ===== src/Disk/Drive.antt =====
-- The drive at the other end of the ports of drivers/disk.c, as the ATA documents describe it: what the
-- driver relies on, as a record of laws over a machine with ports.
pub mod Copy
pub mod Wait
pub mod Command
pub mod Reads
pub mod Writes
pub mod Requests
pub mod Image
pub mod Bytes
pub mod Sizes
pub mod Saves
pub mod LastSector
pub mod Loads
pub mod RoundTrip
pub mod Model
mod Tests
use my_os.Base.{
  ℕ, suc, ◌+◌, ◌-◌, ◌*◌, ◌/◌, ◌%◌, ◌^◌, ◌≤◌, ◌<◌, ◌≡◌, ◌⊎◌, ◌∙◌, ap, Bool, true, false, bit_and,
  ◌==◌, if◌then◌else◌,
}
use my_os.Base.Masks.{update}
use my_os.Io.{Ports}
use my_os.Disk.Ata.{
  IdentifyDeviceData, sectors_of, ata_reg_data, ata_reg_cmd_status, ata_reg_altstatus,
}

-- What a drive keeps: its registers, the transfer that is under way (its direction, the word it is at,
-- counted from the start of the disk, and the words left), and the words on the disk.
pub record View : Type 0 where
  pub select : ℕ
  pub seccount : ℕ
  pub low : ℕ
  pub mid : ℕ
  pub high : ℕ
  pub writes : Bool
  pub pos : ℕ
  pub left : ℕ
  pub content : ℕ → ℕ

-- A write to register 2, 3, 4, 5 or 6.
abbrev pub set_register : (reg value : ℕ) → View → View
set_register reg value v = record v {
  seccount = if reg == 2 then value else v.seccount;
  low = if reg == 3 then value else v.low;
  mid = if reg == 4 then value else v.mid;
  high = if reg == 5 then value else v.high;
  select = if reg == 6 then value else v.select;
}

-- The 28-bit address in the registers.
abbrev pub lba_of : View → ℕ
lba_of v = v.low + v.mid * 2 ^ 8 + v.high * 2 ^ 16 + v.select % 16 * 2 ^ 24

-- The start of a command for sectors of `size` words.
abbrev pub start : (size : ℕ) → (writes : Bool) → View → View
start size writes v = record v {
  writes = writes;
  pos = lba_of v * size;
  left = sectors_of v.seccount * size;
}

-- One word of a transfer.
abbrev pub advance : View → View
advance v = record v { pos = v.pos + 1; left = v.left - 1 }

abbrev pub store : ℕ → View → View
store word v = record (advance v) { content = update v.content v.pos word }

-- A machine with a drive that answers as `disk` says. `busy` is the number of times that a read of the
-- status register still finds the drive busy. The registers and the data are for a drive that is not
-- busy; a drive that has passed a sector on may be busy again.
pub record Drive {S : Type 0} (io : Ports S) (disk : IdentifyDeviceData) : Type 0 where
  pub view : S → View
  pub busy : S → ℕ
  pub busy-bound : (s : S) → busy s < 1000000
  pub status_view : (s : S) → view (io.inb (disk.base_io_port + ata_reg_cmd_status) s).1 ≡ view s
  pub status_busy :
      (s : S) → busy (io.inb (disk.base_io_port + ata_reg_cmd_status) s).1 ≡ busy s - 1
  pub busy_bit :
      (s : S)
      → (bit_and (io.inb (disk.base_io_port + ata_reg_cmd_status) s).0 0x80 == 0) ≡ (busy s == 0)
  pub no_error_bit :
      (s : S)
      → busy s ≡ 0
      → (bit_and (io.inb (disk.base_io_port + ata_reg_cmd_status) s).0 0x01 == 0) ≡ true
  pub data_bit :
      (s : S)
      → busy s ≡ 0
      → 0 < (view s).left
      → (bit_and (io.inb (disk.base_io_port + ata_reg_cmd_status) s).0 0x08 == 0) ≡ false
  pub alt_view : (s : S) → view (io.inb (disk.base_io_port + ata_reg_altstatus) s).1 ≡ view s
  pub alt_busy :
      (s : S) → busy s ≡ 0 → busy (io.inb (disk.base_io_port + ata_reg_altstatus) s).1 ≡ 0
  pub register :
      (reg value : ℕ) (s : S)
      → 2 ≤ reg
      → reg ≤ 6
      → busy s ≡ 0
      → (view s).left ≡ 0
      → (view (io.outb (disk.base_io_port + reg) value s) ≡ set_register reg value (view s))
        × (busy (io.outb (disk.base_io_port + reg) value s) ≡ 0)
  -- 0x20 is READ SECTORS and 0x30 is WRITE SECTORS.
  pub command :
      (writes : Bool) (s : S)
      → busy s ≡ 0
      → (view s).left ≡ 0
      → (view s).select / 16 ≡ (if disk.slave then 0xF else 0xE)
      → view (io.outb (disk.base_io_port + ata_reg_cmd_status) (if writes then 0x30 else 0x20) s)
        ≡ start (disk.logical_sector_size / 2) writes (view s)
  -- FLUSH CACHE, at a drive that is not busy and has no transfer under way.
  pub flush :
      (s : S)
      → busy s ≡ 0
      → (view s).left ≡ 0
      → view (io.outb (disk.base_io_port + ata_reg_cmd_status) 0xE7 s) ≡ view s
  pub pull :
      (s : S)
      → busy s ≡ 0
      → (view s).writes ≡ false
      → 0 < (view s).left
      → ((io.in16 (disk.base_io_port + ata_reg_data) s).0 ≡ (view s).content (view s).pos)
        × (view (io.in16 (disk.base_io_port + ata_reg_data) s).1 ≡ advance (view s))
  pub pull_busy :
      (s : S) (k r : ℕ)
      → busy s ≡ 0
      → (view s).left ≡ k * (disk.logical_sector_size / 2) + suc (suc r)
      → suc (suc r) ≤ disk.logical_sector_size / 2
      → busy (io.in16 (disk.base_io_port + ata_reg_data) s).1 ≡ 0
  pub push :
      (word : ℕ) (s : S)
      → busy s ≡ 0
      → (view s).writes ≡ true
      → 0 < (view s).left
      → view (io.out16 (disk.base_io_port + ata_reg_data) word s) ≡ store word (view s)
  pub push_busy :
      (word : ℕ) (s : S) (k r : ℕ)
      → busy s ≡ 0
      → (view s).left ≡ k * (disk.logical_sector_size / 2) + suc (suc r)
      → suc (suc r) ≤ disk.logical_sector_size / 2
      → busy (io.out16 (disk.base_io_port + ata_reg_data) word s) ≡ 0

-- The drive drops a FLUSH CACHE that comes while it is busy or within a transfer, where
-- `ata_write_sectors` sends one after each sector. The ATA documents leave this case open, so it is no law
-- of Drive. The drive of QEMU, in which the Makefile runs the kernel, drops it.
abbrev pub IgnoresFlush :
    {S : Type 0} → {io : Ports S} → {disk : IdentifyDeviceData} → Drive io disk → Type 0
IgnoresFlush {S = S} {io = io} {disk = disk} d =
    (s : S)
    → (0 < d.busy s) ⊎ (0 < (d.view s).left)
    → d.view (io.outb (disk.base_io_port + ata_reg_cmd_status) 0xE7 s) ≡ d.view s

-- The drive has no transfer under way.
abbrev pub IsIdle : View → Type 0
IsIdle v = v.left ≡ 0

-- A transfer of the words of `content`, at word `pos` with `left` words to go.
abbrev pub At : (content : ℕ → ℕ) → (writes : Bool) → (pos left : ℕ) → View → Type 0
At content writes pos left v =
    (v.content ≡ content) × (v.writes ≡ writes) × (v.pos ≡ pos) × (v.left ≡ left)

-- A transfer seen from a state with the same view, with other names for its place.
pub At-cast :
    {content : ℕ → ℕ} {writes : Bool} {pos pos' left left' : ℕ} {v v' : View}
    → v' ≡ v
    → pos ≡ pos'
    → left ≡ left'
    → At content writes pos left v
    → At content writes pos' left' v'
At-cast e p l (c, w, p0, l0) = (
  ap (λ (u : View). u.content) e ∙ c,
  ap (λ (u : View). u.writes) e ∙ w,
  ap (λ (u : View). u.pos) e ∙ p0 ∙ p,
  ap (λ (u : View). u.left) e ∙ l0 ∙ l,
)
