-- ===== src/Trap.antt =====
-- kern/trap.c: traps and exceptions.
pub mod Handlers
pub mod Dispatch
