-- ===== src/Server.antt =====
-- The server's state and what its components do to it: server/manager and server/user.
pub mod User
pub mod State
pub mod Manager
pub mod Connections
pub mod Verification
pub mod Friends
pub mod Groups
pub mod Json
pub mod Commands
pub mod Process
pub mod Frame
pub mod Service
pub mod Sessions
pub mod Tests
