-- ===== src/Primitives.antt =====
-- The primitives crate (crates/quai-primitives).
pub mod Bytes
pub mod Hash
pub mod Shard
pub mod Address
pub mod Amount
pub mod Encoding
pub mod Twos
pub mod Fixed
mod Tests
