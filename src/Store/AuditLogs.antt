-- ===== src/Store/AuditLogs.antt =====
-- `append_audit_log` (crates/infrastructure/src/persistence/repos.rs); the log line that it also
-- prints is left out.
pub mod Steps
use edustell.Common.{ok, ◌>>◌, ◌∷◌, select, is_none}
use edustell.Domain.Records.{AuditLog}
use edustell.Audit.Redaction.{sanitize_audit_log}
use edustell.Store.Env.{Env, Statement, Constraint, Stored, execute, require}
use edustell.Store.Db.{Db, audit_key}

unfoldable pub append_audit_log : Env → AuditLog → Db → Stored Db
append_audit_log env log db = do
  execute env Statement.insert_audit_log
  require env (is_none (select log.id db.audit_logs)) Constraint.unique_key
  ok (record db { audit_logs = sanitize_audit_log env log ∷ db.audit_logs })
