-- ===== src/Audit/Service.antt =====
-- `AuditService` (crates/application/src/audit.rs), for the handlers whose writes commit one by one.
use Prim.Native.String.{◌++◌}
use edustell.Common.{String, Result, ok, err}
use edustell.Store.Env.{Env, PersistenceError}
use edustell.Store.Db.{Db}
use edustell.Store.AuditLogs.{append_audit_log}
use edustell.Audit.Event.{AuditEvent, into_log}

pub data AuditError : Type 0 where
  not_found : AuditError
  validation repository : String → AuditError

unfoldable pub from_persistence : PersistenceError → AuditError
from_persistence PersistenceError.not_found = AuditError.not_found
from_persistence (PersistenceError.validation message) = AuditError.validation message
from_persistence (PersistenceError.conflict message) = AuditError.validation message
from_persistence (PersistenceError.repository message) = AuditError.repository message

-- `Display`
unfoldable pub error_text : AuditError → String
error_text AuditError.not_found = "not found"
error_text (AuditError.validation message) = "validation: " ++ message
error_text (AuditError.repository message) = "repository: " ++ message

-- `AuditService::record`, whose error each caller turns to a text.
unfoldable pub record_event : Env → AuditEvent → Db → Result String Db
record_event env event db = elim (append_audit_log env (into_log env event) db) [
  | err e ↦ err (error_text (from_persistence e))
  | ok db' ↦ ok db'
]
