-- ===== src/Disk/Drive/Command.antt =====
-- `send_command` and `flush_cache` of drivers/disk.c at a drive that keeps to the documents.
use my_os.Base.{
  ℕ, ◌+◌, ◌*◌, ◌/◌, ◌%◌, ◌^◌, ◌≤◌, ◌<◌, ◌≡◌, refl, ◌∙◌, ap, arith, Bool, true, false, Bool-cases,
  inl, inr, bit_or, bit_and, if◌then◌else◌, leb, ltb, not, ◌||◌,
}
use my_os.Base.Align.{bit_or-join, bit_and-mod}
use my_os.Io.{Ports}
use my_os.Disk.Ata.{
  IdentifyDeviceData, send_command, flush_cache, delay_400ns, sectors_of, get_lba_low, get_lba_mid,
  get_lba_high, get_lba_highest, ata_reg_cmd_status,
}
use my_os.Disk.Ata.Guards.{lba-parts}
use my_os.Disk.Drive.{View, Drive, IgnoresFlush, At, IsIdle, lba_of, set_register, start}
use my_os.Disk.Drive.Wait.{delay_400ns-view, delay_400ns-busy, delay_after_command-view}

-- The byte for the drive selection has the drive above and four bits of the address below.
drive_byte :
    (slave : Bool) (high : ℕ)
    → (bit_or (if slave then 0xF0 else 0xE0) (bit_and high 0x0F) / 16
        ≡ (if slave then 0xF else 0xE))
      × (bit_or (if slave then 0xF0 else 0xE0) (bit_and high 0x0F) % 16 ≡ bit_and high 0x0F)
drive_byte true high =
    let small : bit_and high 0x0F < 2 ^ 4 = omega (arith, bit_and-mod 4 high) in
    let e : bit_or 0xF0 (bit_and high 0x0F) ≡ 0xF0 + bit_and high 0x0F =
      bit_or-join 4 0xF (bit_and high 0x0F) small in
    (omega (arith, e, small), omega (arith, e, small))
drive_byte false high =
    let small : bit_and high 0x0F < 2 ^ 4 = omega (arith, bit_and-mod 4 high) in
    let e : bit_or 0xE0 (bit_and high 0x0F) ≡ 0xE0 + bit_and high 0x0F =
      bit_or-join 4 0xE (bit_and high 0x0F) small in
    (omega (arith, e, small), omega (arith, e, small))

module _ {S : Type 0} {io : Ports S} {disk : IdentifyDeviceData} (d : Drive io disk) where
  -- The drive is ready in `s`, with the view `v`.
  abbrev Holds : View → S → Type 0
  Holds v s = (d.view s ≡ v) × (d.busy s ≡ 0)

  write_register :
      (reg value : ℕ) (s : S) (v : View)
      → 2 ≤ reg
      → reg ≤ 6
      → IsIdle v
      → Holds v s
      → Holds (set_register reg value v) (io.outb (disk.base_io_port + reg) value s)
  write_register reg value s v lo hi idle (e, b) =
      let r = d.register reg value s lo hi b (ap (λ (w : View). w.left) e ∙ idle) in
      (r.0 ∙ ap (λ (w : View). set_register reg value w) e, r.1)

  -- The command for `sector_count` sectors from `lba` on starts the transfer of just their words.
  pub send_command-starts :
      (writes : Bool) (lba sector_count : ℕ) (s : S)
      → lba < 2 ^ 28
      → IsIdle (d.view s)
      → d.busy s ≡ 0
      → At
          (d.view s).content
          writes
          (lba * (disk.logical_sector_size / 2))
          (sectors_of sector_count * (disk.logical_sector_size / 2))
          (d.view (send_command io disk lba sector_count (if writes then 0x30 else 0x20) s))
  unfolding send_command get_lba_highest
  send_command-starts writes lba sector_count s low idle free =
      let size = disk.logical_sector_size / 2 in
      let port = disk.base_io_port in
      let byte = bit_or (if disk.slave then 0xF0 else 0xE0) (get_lba_highest lba) in
      let v1 : View = set_register 6 byte (d.view s) in
      let v2 : View = set_register 2 sector_count v1 in
      let v3 : View = set_register 3 (get_lba_low lba) v2 in
      let v4 : View = set_register 4 (get_lba_mid lba) v3 in
      let v5 : View = set_register 5 (get_lba_high lba) v4 in
      let s1 = io.outb (port + 6) byte s in
      let s2 = delay_400ns io port s1 in
      let s3 = io.outb (port + 2) sector_count s2 in
      let s4 = io.outb (port + 3) (get_lba_low lba) s3 in
      let s5 = io.outb (port + 4) (get_lba_mid lba) s4 in
      let s6 = io.outb (port + 5) (get_lba_high lba) s5 in
      let s7 = io.outb (port + 7) (if writes then 0x30 else 0x20) s6 in
      let h1 : Holds v1 s1 =
        write_register 6 byte s (d.view s) (omega arith) (omega arith) idle (refl, free) in
      let h2 : Holds v1 s2 = (delay_400ns-view d s1 ∙ h1.0, delay_400ns-busy d s1 h1.1) in
      let h3 : Holds v2 s3 =
        write_register 2 sector_count s2 v1 (omega arith) (omega arith) idle h2 in
      let h4 : Holds v3 s4 =
        write_register 3 (get_lba_low lba) s3 v2 (omega arith) (omega arith) idle h3 in
      let h5 : Holds v4 s5 =
        write_register 4 (get_lba_mid lba) s4 v3 (omega arith) (omega arith) idle h4 in
      let h6 : Holds v5 s6 =
        write_register 5 (get_lba_high lba) s5 v4 (omega arith) (omega arith) idle h5 in
      let e : d.view s7 ≡ start size writes v5 =
        d.command writes s6 h6.1 (ap (λ (w : View). w.left) h6.0 ∙ idle)
          (ap (λ (w : View). w.select / 16) h6.0 ∙ (drive_byte disk.slave (lba / 2 ^ 24 % 256)).0)
        ∙ ap (λ (w : View). start size writes w) h6.0 in
      let f : d.view (send_command io disk lba sector_count (if writes then 0x30 else 0x20) s)
          ≡ start size writes v5 =
        delay_after_command-view d s7 ∙ e in
      let parts : lba_of v5 ≡ lba =
        omega (arith, lba-parts lba, (drive_byte disk.slave (lba / 2 ^ 24 % 256)).1) in
      (
        ap (λ (w : View). w.content) f,
        ap (λ (w : View). w.writes) f,
        ap (λ (w : View). w.pos) f ∙ ap (λ x. x * size) parts,
        ap (λ (w : View). w.left) f,
      )

-- A flush changes nothing that is on the disk or under way, at a drive that ignores one that comes too
-- early.
flush-view :
    {S : Type 0}
    → {io : Ports S} {disk : IdentifyDeviceData} (d : Drive io disk) → IgnoresFlush d
    → (s : S) → d.view (io.outb (disk.base_io_port + ata_reg_cmd_status) 0xE7 s) ≡ d.view s
flush-view d ignores s = elim (Bool-cases (ltb 0 (d.busy s))) [
  | inl busy ↦ ignores s (inl (ground (arith, busy)))
  | inr free ↦ elim (Bool-cases (ltb 0 (d.view s).left)) [
    | inl more ↦ ignores s (inr (ground (arith, more)))
    | inr idle ↦ d.flush s (ground (arith, free)) (ground (arith, idle))
  ]
]

-- So it is with `flush_cache`.
pub flush_cache-view :
    {S : Type 0}
    → {io : Ports S}
    → (disks : ℕ → IdentifyDeviceData) (disk_num : ℕ) (d : Drive io (disks disk_num))
    → IgnoresFlush d
    → (s : S) → d.view (flush_cache io disks disk_num s) ≡ d.view s
unfolding flush_cache
flush_cache-view {io = io} disks disk_num d ignores s =
    elim (Bool-cases (leb 4 disk_num || not (disks disk_num).valid)) [
      | inl none_there ↦ rw (none_there, flush_cache) refl
      | inr there ↦
          rw (there, flush_cache)
            (delay_after_command-view d
                (io.outb ((disks disk_num).base_io_port + ata_reg_cmd_status) 0xE7 s)
              ∙ flush-view d ignores s)
    ]
