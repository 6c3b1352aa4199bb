-- ===== src/Wallet/Selection.antt =====
-- Coin selection (crates/quai-wallet/src/selection.rs and selection/aggregation.rs).
pub mod Types
pub mod Denominate
pub mod Divide
pub mod Bucket
pub mod Choose
pub mod Aggregate
pub mod Sweep
mod Tests
