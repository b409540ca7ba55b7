-- ===== src/Audit.antt =====
-- The audit trail (crates/application/src/audit.rs) and its redaction.
pub mod Event
pub mod Redaction
pub mod Service
pub mod Events
pub mod Profiles
