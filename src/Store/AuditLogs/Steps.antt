-- ===== src/Store/AuditLogs/Steps.antt =====
-- Writing the audit log changes no other table.
use edustell.Common.{ap, true, ◌≡◌, ok, arith, ◌∷◌}
use edustell.Domain.Records.{AuditLog}
use edustell.Audit.Redaction.{sanitize_audit_log}
use edustell.Store.Env.{Env}
use edustell.Store.Db.{Db}
use edustell.Store.AuditLogs.{append_audit_log}
use edustell.Audit.Redaction.Laws.{sanitize_audit_log-clean, is_clean}

pub append_audit_log-eq-ok :
    (env : Env) (log : AuditLog) (db db' : Db)
    → append_audit_log env log db ≡ ok db'
    → db' ≡ record db { audit_logs = sanitize_audit_log env log ∷ db.audit_logs }
unfolding append_audit_log
append_audit_log-eq-ok env log db db' h = ground arith

-- A log that is appended is one new row of the audit table, of the same action, actor and entity. At any
-- depth of its metadata, a value whose key holds the text of a password, secret, token, authorization or
-- of a payout or provider reference, in any case, or is one of the other hidden names, is the redaction
-- mark.
pub append_audit_log-clean :
    (env : Env) (log : AuditLog) (db db' : Db)
    → append_audit_log env log db ≡ ok db'
    → (row : AuditLog) × (db'.audit_logs ≡ row ∷ db.audit_logs)
      × (is_clean row.metadata ≡ true)
      × (row.action ≡ log.action)
      × (row.actor_user_id ≡ log.actor_user_id)
      × (row.entity_id ≡ log.entity_id)
append_audit_log-clean env log db db' h =
    let (clean, action, actor, entity) = sanitize_audit_log-clean env log in
    (
      sanitize_audit_log env log,
      ap (λ x. x.audit_logs) (append_audit_log-eq-ok env log db db' h),
      clean,
      action,
      actor,
      entity,
    )
