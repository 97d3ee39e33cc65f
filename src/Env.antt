-- ===== src/Env.antt =====
-- kern/env.c and inc/env.h: environments.
pub mod State
pub mod Ids
pub mod Fresh
pub mod Init
pub mod Alloc
pub mod Switch
pub mod Free
pub mod Space
pub mod Load
