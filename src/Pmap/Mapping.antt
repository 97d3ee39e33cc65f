-- ===== src/Pmap/Mapping.antt =====
-- What the functions of kern/pmap.c that edit page tables do to a mapping.
pub mod Walk
pub mod Edit
pub mod Insert
