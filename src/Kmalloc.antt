-- ===== src/Kmalloc.antt =====
-- memory/kmalloc.c and memory/kmalloc.h: the kernel heap. Small objects come from slabs, larger ones
-- from pages of their own that a list keeps.
pub mod Slab
pub mod Caches
pub mod Large
pub mod Entry
mod Tests
