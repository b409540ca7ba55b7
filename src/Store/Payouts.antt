-- ===== src/Store/Payouts.antt =====
-- Payouts in the database: queries, the request and the transitions
-- (crates/infrastructure/src/persistence/repos.rs).
pub mod Steps
pub mod Runs
use edustell.Common.{
  ℕ, String, Option, some, ◌&&◌, List, [], ◌∷◌, pos, leb_ℤ, ltb_ℤ, add_i64, sub_i64, ok, err, ◌>>=◌,
  ◌>>◌, transpose, ok_or, or_option, is_some, is_none, ◌==◌, if◌then◌else◌, select, update, find,
  filter,
}
use edustell.Domain.StringEnum.{as_str, eq_enum}
use edustell.Domain.Money.{currency_as_str}
use edustell.Domain.Status.{PayoutStatus, payout_status_enum}
use edustell.Domain.Records.{AuditLog, SavingsVault, Milestone, School, PayoutRequest}
use edustell.Store.Env.{
  Env, Statement, Constraint, PersistenceError, Stored, execute, require, map_err, violation,
}
use edustell.Store.Rows.{PayoutRequestRow, parse_status, try_milestone, try_school, try_payout}
use edustell.Store.Db.{Db, vault_key, milestone_key, school_key, payout_key, same_key}
use edustell.Store.AuditLogs.{append_audit_log}
use edustell.Store.Vaults.{find_vault_for_update, update_vault_locked_and_disbursed}

-- `MilestoneRepository::find_by_id`
unfoldable pub find_milestone : Env → ℕ → Db → Stored (Option Milestone)
find_milestone env id db = do
  execute env Statement.select_milestone
  transpose try_milestone (select id db.milestones)

-- `SchoolRepository::find_by_id`
unfoldable pub find_school : Env → ℕ → Db → Stored (Option School)
find_school env id db = do
  execute env Statement.select_school
  transpose try_school (select id db.schools)

-- `PayoutRepository::find_by_id`
unfoldable pub find_payout : Env → ℕ → Db → Stored (Option PayoutRequest)
find_payout env id db = do
  execute env Statement.select_payout
  transpose try_payout (select id db.payouts)

-- `PayoutRepository::find_by_idempotency_key`
unfoldable pub find_payout_by_key : Env → String → Db → Stored (Option PayoutRequest)
find_payout_by_key env key db = do
  execute env Statement.select_payout_by_key
  transpose try_payout (find (λ r. same_key r.idempotency_key (some key)) db.payouts)

try_all : List PayoutRequestRow → Stored (List PayoutRequest)
try_all [] = ok []
try_all (r ∷ t) = do p ← try_payout r; rest ← try_all t; ok (p ∷ rest)

-- `PayoutRepository::list_by_vault`, newest first.
unfoldable pub list_payouts : Env → ℕ → Db → Stored (List PayoutRequest)
unfolding try_all
list_payouts env vault_id db = do
  execute env Statement.select_payout
  try_all (filter (λ r. r.vault_id == vault_id) db.payouts)

-- `INSERT INTO payout_requests ... RETURNING ...`: the times are the column defaults.
unfoldable pub payout_row : Env → PayoutRequest → PayoutRequestRow
payout_row env p = record {
  id = p.id;
  vault_id = p.vault_id;
  milestone_id = p.milestone_id;
  school_id = p.school_id;
  requested_by = p.requested_by;
  amount_minor = p.amount.amount_minor;
  currency = currency_as_str p.amount.currency;
  idempotency_key = p.idempotency_key;
  status = as_str p.status;
  review_notes = p.review_notes;
  external_payout_reference = p.external_payout_reference;
  reviewed_by = p.reviewed_by;
  reviewed_at = p.reviewed_at;
  created_at = env.db_now;
  updated_at = env.db_now;
}

unfoldable pub insert_payout : Env → PayoutRequest → Db → Stored (PayoutRequest × Db)
unfolding payout_row
insert_payout env p db = do
  execute env Statement.insert_payout
  require env (ltb_ℤ (pos 0) p.amount.amount_minor) Constraint.check_amount
  require env (is_none (select p.id db.payouts)) Constraint.unique_key
  require env (is_none (find (λ r. same_key r.idempotency_key p.idempotency_key) db.payouts))
      Constraint.unique_key
  require env
      (is_some (select p.vault_id db.vaults)
        && is_some (select p.milestone_id db.milestones)
        && is_some (select p.school_id db.schools))
      Constraint.foreign_key
  saved ← try_payout (payout_row env p)
  ok (saved, record db { payouts = payout_row env p ∷ db.payouts })

unfoldable pub create_request_with_audit :
    Env → PayoutRequest → AuditLog → Db → Stored (PayoutRequest × Db)
create_request_with_audit env p log db = do
  execute env Statement.begin
  (saved, db1) ← insert_payout env p db
  db2 ← append_audit_log env log db1
  execute env Statement.commit
  ok (saved, db2)

-- The columns that the transition's `UPDATE payout_requests` writes.
abbrev pub set_review :
    Env → String → ℕ → Option String → Option String → PayoutRequestRow → PayoutRequestRow
set_review env status actor_user_id review_notes external_payout_reference r = record r {
  status = status;
  review_notes = or_option review_notes r.review_notes;
  external_payout_reference = or_option external_payout_reference r.external_payout_reference;
  reviewed_by = some actor_user_id;
  reviewed_at = some env.db_now;
  updated_at = env.db_now;
}

unfoldable pub update_payout :
    Env → ℕ → PayoutStatus → ℕ → Option String → Option String → Db → Stored (PayoutRequest × Db)
update_payout env id target actor_user_id review_notes external_payout_reference db = do
  execute env Statement.update_payout
  row ← ok_or (select id db.payouts) (map_err (violation env Constraint.row_not_found))
  let change = set_review env (as_str target) actor_user_id review_notes external_payout_reference
  saved ← try_payout (change row)
  ok (saved, record db { payouts = update id change db.payouts })

-- The `match target_status` of `transition_with_audit`.
unfoldable pub move_funds :
    Env → PayoutStatus → SavingsVault → PayoutRequest → Db → Stored (SavingsVault × Db)
move_funds env PayoutStatus.approved vault p db =
    update_vault_locked_and_disbursed env vault
      (add_i64 vault.total_locked_minor p.amount.amount_minor) vault.total_disbursed_minor db
move_funds env PayoutStatus.completed vault p db =
    if ltb_ℤ vault.total_locked_minor p.amount.amount_minor
    then err (PersistenceError.conflict "vault locked balance underflow")
    else update_vault_locked_and_disbursed env vault
        (sub_i64 vault.total_locked_minor p.amount.amount_minor)
        (add_i64 vault.total_disbursed_minor p.amount.amount_minor) db
move_funds env PayoutStatus.failed vault p db =
    if leb_ℤ p.amount.amount_minor vault.total_locked_minor
    then update_vault_locked_and_disbursed env vault
        (sub_i64 vault.total_locked_minor p.amount.amount_minor) vault.total_disbursed_minor db
    else ok (vault, db)
move_funds env PayoutStatus.rejected vault p db = ok (vault, db)
move_funds env PayoutStatus.pending vault p db = ok (vault, db)
move_funds env PayoutStatus.under_review vault p db = ok (vault, db)
move_funds env PayoutStatus.processing vault p db = ok (vault, db)

-- `PayoutTransitionResult`
pub record TransitionResult : Type 0 where
  pub payout : PayoutRequest
  pub vault : SavingsVault

-- The row is already in the target status: nothing is written.
unfoldable pub moved_already : Env → PayoutRequest → Db → Stored (TransitionResult × Db)
moved_already env p db = do
  found ← find_vault_for_update env p.vault_id db
  vault ← ok_or found PersistenceError.not_found
  execute env Statement.rollback
  ok (record { payout = p; vault = vault }, db)

unfoldable pub move_row :
    Env
    → PayoutRequest
    → PayoutStatus
    → ℕ
    → Option String
    → Option String
    → AuditLog
    → Db
    → Stored (TransitionResult × Db)
move_row env p target actor_user_id review_notes external_payout_reference log db = do
  found ← find_vault_for_update env p.vault_id db
  vault ← ok_or found PersistenceError.not_found
  (saved, db1) ←
      update_payout env p.id target actor_user_id review_notes external_payout_reference db
  (vault', db2) ← move_funds env target vault saved db1
  db3 ← append_audit_log env log db2
  execute env Statement.commit
  ok (record { payout = saved; vault = vault' }, db3)

unfoldable pub transition_with_audit :
    Env
    → ℕ
    → String
    → ℕ
    → Option String
    → Option String
    → AuditLog
    → Db
    → Stored (TransitionResult × Db)
transition_with_audit env payout_id status actor_user_id review_notes external_payout_reference log
      db =
    do
      execute env Statement.begin
      execute env Statement.select_payout
      current ← ok_or (select payout_id db.payouts) PersistenceError.not_found
      p ← try_payout current
      target ← parse_status ⦃e = payout_status_enum⦄ status
      if eq_enum p.status target
          then moved_already env p db
          else move_row env p target actor_user_id review_notes external_payout_reference log db
