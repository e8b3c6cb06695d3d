-- ===== src/Ports.antt =====
-- The smaller clients of the port instructions: interupts/pic.c, drivers/pit.c and drivers/pci.c.
pub mod Pic
pub mod Pit
pub mod Pci
pub mod Masks
pub mod Timer
mod Tests
