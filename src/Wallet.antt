-- ===== src/Wallet.antt =====
-- The wallet crate (crates/quai-wallet).
pub mod Metadata
pub mod Selection
pub mod Allocation
