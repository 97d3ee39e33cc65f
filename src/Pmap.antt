-- ===== src/Pmap.antt =====
-- kern/pmap.c: physical memory, page tables and the checks of user memory.
pub mod Pages
pub mod Tables
pub mod FreeList
pub mod Init
pub mod Mapping
pub mod Boot
pub mod Access
