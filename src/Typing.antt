-- ===== src/Typing.antt =====
-- The typing game, apps/typing: letters fall, and keys hit them.
pub mod Keyboard
pub mod Game
pub mod Draw
mod Tests
