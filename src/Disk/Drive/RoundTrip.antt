-- ===== src/Disk/Drive/RoundTrip.antt =====
-- `disk_write` and then `disk_read` of drivers/disk.c.
use my_os.Disk.Drive.{Drive}
