-- ===== src/Devices.antt =====
-- Devices behind _io_read and _io_write: the drivers of am/src/nemu/common, the keyboard of
-- am/src/noop/common/input.c, and the calls of libs/klib/src/io.c.
pub mod Audio
pub mod Video
pub mod Timer
pub mod Keys
pub mod Input
pub mod Io
mod Tests
