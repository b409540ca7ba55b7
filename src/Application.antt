-- ===== src/Application.antt =====
-- The application crate's handlers (crates/application/src).
pub mod Contributions
pub mod Payouts
pub mod Schools
pub mod Savings
pub mod Kyc
pub mod Reviews
pub mod Scholarships
pub mod Awards
