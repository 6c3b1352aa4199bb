-- ===== src/Consensus.antt =====
-- The consensus crate (crates/quai-consensus).
pub mod Error
pub mod Denomination
pub mod OutPoints
pub mod Qi
pub mod Envelopes
pub mod Wire
pub mod Discount
mod Tests
