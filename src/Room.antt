-- ===== src/Room.antt =====
-- The rooms: server/room.
pub mod Permission
pub mod Level
pub mod Tcp
mod Kcp
pub mod History
pub mod Group
pub mod Private
mod Tests
