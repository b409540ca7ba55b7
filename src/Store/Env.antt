-- ===== src/Store/Env.antt =====
-- What a request meets outside the program: the clock, fresh identifiers and the database's answers
-- (crates/infrastructure/src/persistence/repos.rs, migrations). Each SQL statement is answered or
-- fails with any error, which covers a lost connection and the foreign keys of tables that are not
-- modelled.
use edustell.Common.{
  ℕ, String, Option, none, some, Result, ok, err, Bool, ensure, if◌then◌else◌, str_eq,
}

-- `PersistenceError` (crates/application/src/repos.rs).
pub data PersistenceError : Type 0 where
  not_found : PersistenceError
  conflict validation repository : String → PersistenceError

-- `sqlx::Error`: an error that the database reports, with its SQLSTATE code, or any other.
pub data SqlxError : Type 0 where
  database : String → String → SqlxError
  other : String → SqlxError

unfoldable pub map_err : SqlxError → PersistenceError
map_err (SqlxError.database code message) =
    if str_eq code "23505"
    then PersistenceError.conflict message
    else PersistenceError.repository message
map_err (SqlxError.other message) = PersistenceError.repository message

-- The statements of a transaction, and the queries outside of one.
pub data Statement : Type 0 where
  begin commit rollback : Statement
  select_vault select_contributors select_milestone select_school : Statement
  select_contribution select_contribution_by_key select_payout select_payout_by_key : Statement
  select_pool select_application select_award select_child : Statement
  select_donor_contributions : Statement
  insert_contribution update_contribution insert_ledger_entry : Statement
  insert_payout update_payout update_vault insert_audit_log : Statement
  insert_pool update_pool insert_donor_contribution : Statement
  insert_application update_application insert_award update_award : Statement
  insert_school update_school select_schools insert_plan insert_milestone : Statement
  insert_contributor select_kyc_profile upsert_kyc_profile : Statement

-- The constraints of the migrations that a statement can break, with their SQLSTATE.
pub data Constraint : Type 0 where
  unique_key foreign_key check_amount out_of_range row_not_found : Constraint

-- The places where the code calls `Uuid::new_v4`.
pub data NewId : Type 0 where
  entity audit_log ledger_entry : NewId

pub record AuditContext : Type 0 where
  pub request_id : String
  pub correlation_id : String

pub record Env : Type 0 where
  pub utc_now : ℕ  -- `Utc::now()`
  pub db_now : ℕ  -- `NOW()`, the start of the transaction
  pub new_v4 : NewId → ℕ
  pub failure : Statement → Option SqlxError
  pub message : Constraint → String
  pub audit_context : Option AuditContext

-- What the driver reports for a broken constraint.
unfoldable pub violation : Env → Constraint → SqlxError
violation env Constraint.unique_key = SqlxError.database "23505" (env.message Constraint.unique_key)
violation env Constraint.foreign_key =
    SqlxError.database "23503" (env.message Constraint.foreign_key)
violation env Constraint.check_amount =
    SqlxError.database "23514" (env.message Constraint.check_amount)
violation env Constraint.out_of_range =
    SqlxError.database "22003" (env.message Constraint.out_of_range)
violation env Constraint.row_not_found = SqlxError.other (env.message Constraint.row_not_found)

abbrev pub Stored : Type 0 → Type 0
Stored A = Result PersistenceError A

-- A statement is sent: it fails, or the rest reads its answer.
unfoldable pub execute : Env → Statement → Stored (Unit {0})
execute env s = elim (env.failure s) [ none ↦ ok tt | some e ↦ err (map_err e) ]

-- A constraint is checked.
unfoldable pub require : Env → Bool → Constraint → Stored (Unit {0})
require env test c = ensure test (map_err (violation env c))
