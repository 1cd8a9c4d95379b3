-- ===== src/Native.antt =====
-- The platform am/src/native, which runs a program as a process of the host.
pub mod Vme
mod Tests
