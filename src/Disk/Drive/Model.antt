-- ===== src/Disk/Drive/Model.antt =====
-- A machine that is nothing but a drive, to show that the laws can hold: the drive of the theorems'
-- examples. After a command and after each sector it is busy for three reads of its status.
use my_os.Base.{
  ℕ, ◌-◌, ◌/◌, ◌%◌, ◌^◌, refl, arith, true, false, ltb, leb, ◌==◌, ◌&&◌, ◌||◌, if◌then◌else◌,
}
use my_os.Io.{Ports}
use my_os.Disk.Ata.{IdentifyDeviceData, is_lba_supported}
use my_os.Disk.Transfer.{Heap}
use my_os.Disk.Drive.{View, Drive, IgnoresFlush, set_register, start, advance, store}
use my_os.Disk.Drive.Bytes.{IsUsable, IsUnseen}

pub record Machine : Type 0 where
  pub drive : View
  -- The reads of the status that are left, modulo 4.
  pub busy : ℕ

-- Sectors of four bytes at ports 0x1F0 to 0x1F7.
abbrev pub tiny_disk : ℕ → IdentifyDeviceData
tiny_disk _ = record {
  general_config = 0;
  cylinders = 0;
  heads = 0;
  sectors_per_track = 0;
  serial_number = λ _. 0;
  firmware_revision = λ _. 0;
  model_number = λ _. 0;
  capabilities_0 = 2 ^ 9;
  capabilities_1 = 0;
  total_sectors = 100;
  logical_sector_size = 4;
  physical_sector_size = 4;
  base_io_port = 0x1F0;
  slave = false;
  valid = true;
}

abbrev status : Machine → ℕ
status m = if m.busy % 4 == 0 then (if m.drive.left == 0 then 0x40 else 0x48) else 0x80

-- Busy at the end of a sector of two words.
abbrev after_word : (left : ℕ) → ℕ → ℕ
after_word left busy = if (left - 1) % 2 == 0 then 3 else busy

abbrev to_register : (reg value : ℕ) → Machine → Machine
to_register reg value m =
    if m.busy % 4 == 0 && m.drive.left == 0
    then record { drive = set_register reg value m.drive; busy = 0 }
    else m

abbrev to_command : (value : ℕ) → Machine → Machine
to_command value m =
    if m.busy % 4 == 0
      && (m.drive.left == 0 && (m.drive.select / 16 == 0xE && (value == 0x20 || value == 0x30)))
    then record { drive = start 2 (value == 0x30) m.drive; busy = 3 }
    else m

abbrev pub tiny_ports : Ports Machine
tiny_ports = record {
  inb = λ port m.
      if port == 0x1F7
      then (status m, record m { busy = m.busy % 4 - 1 })
      else if port == 0x3F6
      then (status m, m)
      else (0xFF, m);
  in16 = λ port m.
      if port == 0x1F0 && (m.busy % 4 == 0 && ltb 0 m.drive.left)
      then (
        m.drive.content m.drive.pos,
        record { drive = advance m.drive; busy = after_word m.drive.left m.busy },
      )
      else (0xFFFF, m);
  outb = λ port value m.
      if port == 0x1F7
      then to_command value m
      else if leb 0x1F2 port && leb port 0x1F6
      then to_register (port - 0x1F0) value m
      else m;
  out16 = λ port word m.
      if port == 0x1F0 && (m.busy % 4 == 0 && ltb 0 m.drive.left)
      then record { drive = store word m.drive; busy = after_word m.drive.left m.busy }
      else m;
  in32 = λ port m. (0, m);
  out32 = λ port value m. m;
}

abbrev pub tiny_drive : Drive tiny_ports (tiny_disk 0)
tiny_drive = record {
  view = λ m. m.drive;
  busy = λ m. m.busy % 4;
  busy-bound = λ m. omega arith;
  status_view = λ m. refl;
  status_busy = λ m. omega arith;
  busy_bit = λ m. ground arith;
  no_error_bit = λ m h. ground arith;
  data_bit = λ m h l. ground arith;
  alt_view = λ m. refl;
  alt_busy = λ m h. h;
  register = λ reg value m lo hi h l. ground arith;
  command = λ writes m h l sel. ground arith;
  flush = λ m h l. ground arith;
  pull = λ m h w l. ground arith;
  pull_busy = λ m k r h l fits. ground arith;
  push = λ word m h w l. ground arith;
  push_busy = λ word m k r h l fits. ground arith;
}

pub tiny_drive-IgnoresFlush : IgnoresFlush tiny_drive
tiny_drive-IgnoresFlush m early = ground arith

-- It has no more than 1000 bytes at a time.
abbrev pub small_heap : Heap Machine
small_heap = record { kmalloc = λ size m. (leb size 1000, m); kfree = λ m. m }

pub small_heap-IsUnseen : IsUnseen small_heap (λ (m : Machine). m.drive)
small_heap-IsUnseen = record { kmalloc_view = λ size m. refl; kfree_view = λ m. refl }

pub tiny_disk-IsUsable : IsUsable tiny_disk 0
unfolding is_lba_supported
tiny_disk-IsUsable = record {
  known = omega arith;
  valid = refl;
  lba_supported = refl;
  lba28 = (omega arith, omega arith);
  even = refl;
}

-- No transfer is under way, and every word of the disk is its own number.
abbrev pub new_machine : Machine
new_machine = record {
  drive = record {
    select = 0;
    seccount = 0;
    low = 0;
    mid = 0;
    high = 0;
    writes = false;
    pos = 0;
    left = 0;
    content = λ k. k;
  };
  busy = 2;
}
