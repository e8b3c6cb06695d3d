-- ===== src/Disk/Drive/LastSector.antt =====
-- The last sector of `disk_write` of drivers/disk.c when it is not full, and the whole of `disk_write`,
-- at a drive that keeps to the documents.
use my_os.Disk.Drive.{Drive}
