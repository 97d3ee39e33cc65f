-- ===== src/Syscall.antt =====
-- kern/syscall.c: the system calls.
pub mod Envs
pub mod Upcalls
pub mod Memory
pub mod Ipc
pub mod Dispatch
pub mod Target
