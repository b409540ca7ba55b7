-- ===== src/Store.antt =====
-- The PostgreSQL repositories (crates/infrastructure/src/persistence/repos.rs).
pub mod Env
pub mod Rows
pub mod Db
pub mod ScholarshipRows
pub mod AuditLogs
pub mod Vaults
pub mod Contributions
pub mod Payouts
pub mod Schools
pub mod Savings
pub mod Scholarships
pub mod Awards
