-- ===== src/Chain.antt =====
-- The transactions on the blockchain (crates/application/src/blockchain.rs).
pub mod Types
pub mod Repository
pub mod Handlers
pub mod Reconcile
pub mod Submission
pub mod Observed
