-- ===== src/Vmm.antt =====
-- memory/vmm.c and memory/vmm.h: paging, swapping and the page fault handler.
pub mod Entries
pub mod State
pub mod Fifo
pub mod Swap
pub mod Map
pub mod Contexts
mod Tests
