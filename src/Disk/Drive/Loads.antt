-- ===== src/Disk/Drive/Loads.antt =====
-- `disk_read` of drivers/disk.c at a drive that keeps to the documents.
use my_os.Base.{ℕ, ◌+◌, ◌-◌, ◌*◌, ◌≤◌, ◌≡◌, ◌⊎◌}
use my_os.Io.{Ports}
use my_os.Disk.Ata.{IdentifyDeviceData}
use my_os.Disk.Transfer.{Heap, copy_to, read_rounds}
use my_os.Disk.Drive.{Drive, IsIdle}
use my_os.Disk.Drive.Bytes.{IsUsable, IsUnseen, Refused, image}

module _ {S : Type 0} {io : Ports S} {heap : Heap S} (disks : ℕ → IdentifyDeviceData) (curr : ℕ)
    (d : Drive io (disks curr)) (unseen : IsUnseen heap d.view) (usable : IsUsable disks curr) where
  -- What the loop comes to, from sector `addr` on with `done` bytes read: it reads on to the end, or to
  -- an allocation that is refused.
  abbrev Fetches : (f len addr total done : ℕ) → (ℕ → ℕ) → S → Type 0
  Fetches f len addr total done buffer s =
      let r = read_rounds io heap f disks curr len addr total done buffer s in
      let size = (disks curr).logical_sector_size in
      (done ≤ r.0)
      × (r.0 ≤ len)
      × (r.1 ≡ copy_to buffer done (λ j. image (d.view s) (addr * size + j)) (r.0 - done))
      × (image (d.view r.2) ≡ image (d.view s))
      × IsIdle (d.view r.2)
      × ((r.0 ≡ len) ⊎ Refused heap r.2)
