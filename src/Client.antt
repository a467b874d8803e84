-- ===== src/Client.antt =====
-- The test client, testclient/: its bookkeeping of requests, the requests that it makes of the
-- server, and the commands of its terminal.
pub mod Network
pub mod Requests
pub mod Session
pub mod Commands
mod Tests
