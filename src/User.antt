-- ===== src/User.antt =====
-- lib/: the library that is linked with every user program.
pub mod Calls
pub mod Upcalls
pub mod Messages
pub mod Fork
