-- ===== src/Domain/Status.antt =====
-- The enums that the macro `string_enum!` declares (crates/domain/src/persistence.rs).
pub mod Exact
mod Savings
mod Payments
mod Scholarships
mod Messages
pub use Savings.*
pub use Payments.*
pub use Scholarships.*
pub use Messages.*
