-- ===== src/Auth.antt =====
-- Accounts and sessions (crates/application/src/auth.rs, crates/infrastructure/src/auth/repo.rs).
pub mod Ports
pub mod Repository
pub mod Handlers
pub mod Revocation
pub mod Sessions
pub mod Accounts
pub mod Lifetime
