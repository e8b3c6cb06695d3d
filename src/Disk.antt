-- ===== src/Disk.antt =====
-- drivers/disk.c and drivers/disk.h: the ATA disk driver and the table of swap slots.
pub mod Slots
pub mod Ata
pub mod Identify
pub mod Init
pub mod Transfer
pub mod Drive
mod Tests
