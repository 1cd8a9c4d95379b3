-- ===== src/Klib.antt =====
-- libs/klib: the C library of the abstract machine.
pub mod Memory
pub mod Block
pub mod Strings
pub mod Stdlib
pub mod Atomic
mod Tests
