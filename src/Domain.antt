-- ===== src/Domain.antt =====
-- The domain crate (crates/domain/src) and the shared crate's money (crates/shared/src).
pub mod StringEnum
pub mod Status
pub mod Money
pub mod Auth
pub mod Json
pub mod Records
pub mod Payouts
pub mod Contributions
pub mod Scholarships
