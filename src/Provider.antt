-- ===== src/Provider.antt =====
-- The provider (crates/quai-provider).
pub mod Types
pub mod HeadTracker
pub mod Confirmation
mod Tests
