-- ===== src/Pmap/FreeList.antt =====
-- The free list of kern/pmap.c.
pub mod Alloc
pub mod Free
