-- ===== src/Net.antt =====
-- The wire protocol: utils/network and utils/networkEndianness.hpp.
pub mod Bytes
pub mod Endianness
pub mod DataPackage
pub mod Package
pub mod Connection
mod RateLimiter
mod Tests
