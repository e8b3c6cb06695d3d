-- ===== src/Disk/Drive/Requests.antt =====
-- `ata_read_sectors` and `ata_write_sectors` of drivers/disk.c at a drive that keeps to the documents.
use my_os.Base.{ℕ, suc, ◌+◌, ◌*◌, ◌/◌, ◌^◌, ◌≤◌, ◌<◌, ◌≡◌, ◌∙◌, ap, arith, true, false, some}
use my_os.Io.{Ports}
use my_os.Disk.Ata.{
  IdentifyDeviceData, ata_read_sectors, ata_write_sectors, sectors_of, ata_wait_for_bsy,
  send_command, write_loop,
}
use my_os.Disk.Ata.Guards.{OnDisk, is_request-OnDisk}
use my_os.Disk.Transfer.{copy_to}
use my_os.Disk.Drive.{View, Drive, IgnoresFlush, IsIdle}
use my_os.Disk.Drive.Copy.{from_zero}
use my_os.Disk.Drive.Wait.{ata_wait_for_bsy-IsReady, wait_until_ready-IsReady}
use my_os.Disk.Drive.Command.{send_command-starts}
use my_os.Disk.Drive.Reads.{read_loop-copies}
use my_os.Disk.Drive.Writes.{write_loop-copies}

-- What the drive promises of its sizes: sectors of two bytes at least, and 28 bits for an address.
abbrev pub IsLba28 : IdentifyDeviceData → Type 0
IsLba28 disk = (0 < disk.logical_sector_size / 2) × (disk.total_sectors ≤ 2 ^ 28)

address-fits :
    (disks : ℕ → IdentifyDeviceData) (disk_num lba count : ℕ)
    → OnDisk disks disk_num lba count
    → IsLba28 (disks disk_num)
    → lba < 2 ^ 28
unfolding sectors_of
address-fits disks disk_num lba count (a, b, c, fits) (size, total) = ground (arith, fits, total)

pub ata_write_sectors-writes :
    {S : Type 0}
    → {io : Ports S}
    → (disks : ℕ → IdentifyDeviceData) (disk_num : ℕ) (d : Drive io (disks disk_num))
    → IgnoresFlush d
    → (busy lba count : ℕ) (buffer : ℕ → ℕ) (s : S) → OnDisk disks disk_num lba count
    → IsLba28 (disks disk_num)
    → IsIdle (d.view s)
    → (s' : S) × (ata_write_sectors io (suc busy) disks disk_num lba count buffer s
        ≡ some (true, s'))
      × ((d.view s').content
          ≡ copy_to
              (d.view s).content
              (lba * ((disks disk_num).logical_sector_size / 2))
              buffer
              (sectors_of count * ((disks disk_num).logical_sector_size / 2)))
      × IsIdle (d.view s')
unfolding ata_write_sectors
ata_write_sectors-writes {io = io} disks disk_num d ignores busy lba count buffer s on fits idle =
    let disk = disks disk_num in
    let go = (is_request-OnDisk disks disk_num lba count).1 on in
    let w = wait_until_ready-IsReady d busy s in
    let c =
      send_command-starts d true lba count w.0 (address-fits disks disk_num lba count on fits)
        (ap (λ (v : View). v.left) w.2.0 ∙ idle) w.2.1 in
    let s1 = send_command io disk lba count 0x30 w.0 in
    let r =
      write_loop-copies disks disk_num d ignores (sectors_of count) 0 buffer (d.view w.0).content
        (lba * (disk.logical_sector_size / 2)) s1 fits.0 c in
    let x = write_loop io (sectors_of count) disks disk_num 0 buffer s1 in
    (
      x.1,
      rw (go, w.1, ata_write_sectors) (ap (λ b. some (b, x.1)) r.0),
      r.1.0
          ∙ ap
              (λ c.
                copy_to c (lba * (disk.logical_sector_size / 2)) (λ j. buffer (0 + j))
                  (sectors_of count * (disk.logical_sector_size / 2)))
              (ap (λ (v : View). v.content) w.2.0)
          ∙ ap
              (λ b.
                copy_to (d.view s).content (lba * (disk.logical_sector_size / 2)) b
                  (sectors_of count * (disk.logical_sector_size / 2)))
              (from_zero buffer),
      r.1.3,
    )

-- At a drive with no transfer under way, a read of sectors on the disk returns true; it puts the words
-- of the sectors asked for at the start of the buffer, changes no other word of it and no word of the
-- disk, and leaves no transfer under way.
pub ata_read_sectors-reads :
    {S : Type 0}
    → {io : Ports S}
    → (disks : ℕ → IdentifyDeviceData) (disk_num : ℕ) (d : Drive io (disks disk_num))
      (lba count : ℕ) (buffer : ℕ → ℕ) (s : S)
    → OnDisk disks disk_num lba count
    → IsLba28 (disks disk_num)
    → IsIdle (d.view s)
    → let r = ata_read_sectors io disks disk_num lba count buffer s in
      let size = (disks disk_num).logical_sector_size / 2 in
      (r.0 ≡ true)
      × (r.1
          ≡ copy_to buffer 0 (λ j. (d.view s).content (lba * size + j)) (sectors_of count * size))
      × ((d.view r.2).content ≡ (d.view s).content)
      × IsIdle (d.view r.2)
unfolding ata_read_sectors
ata_read_sectors-reads {io = io} disks disk_num d lba count buffer s on fits idle =
    let disk = disks disk_num in
    let size = disk.logical_sector_size / 2 in
    let go = (is_request-OnDisk disks disk_num lba count).1 on in
    let w = ata_wait_for_bsy-IsReady d s in
    let s0 = (ata_wait_for_bsy io disk.base_io_port s).1 in
    let same = ap (λ (v : View). v.content) w.1.0 in
    let c =
      send_command-starts d false lba count s0 (address-fits disks disk_num lba count on fits)
        (ap (λ (v : View). v.left) w.1.0 ∙ idle) w.1.1 in
    let s1 = send_command io disk lba count 0x20 s0 in
    let r =
      read_loop-copies d (sectors_of count) 0 buffer (d.view s0).content (lba * size) s1 fits.0 c in
    rw (go, w.0, ata_read_sectors)
      (
        r.0,
        r.1 ∙ ap (λ c. copy_to buffer 0 (λ j. c (lba * size + j)) (sectors_of count * size)) same,
        r.2.0 ∙ same,
        r.2.3,
      )
