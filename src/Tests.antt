-- ===== src/Tests.antt =====
-- The properties at concrete inputs.
pub mod Data
pub mod Runs
pub mod Initial
pub mod Witnesses
pub mod Rules
pub mod Accounts
pub mod AccountRuns
pub mod AccountWitnesses
pub mod Limits
pub mod Schools
pub mod Savings
pub mod Notices
pub mod Chains
pub mod Books
