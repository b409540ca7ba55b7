-- ===== src/Store/Awards.antt =====
-- Scholarship awards in the database: the decision and the transitions
-- (crates/infrastructure/src/persistence/repos.rs).
use edustell.Common.{
  ℕ, String, Option, some, none, Bool, true, false, Keyed, List, [], ◌∷◌, ◌&&◌, ℤ, pos, leb_ℤ, ok,
  ◌>>=◌, ◌>>◌, ok_or, or_option, is_some, is_none, ◌==◌, select, update, filter,
}
use edustell.Domain.StringEnum.{as_str}
use edustell.Domain.Money.{currency_as_str}
use edustell.Domain.Status.{scholarship_award_status_enum}
use edustell.Domain.Records.{
  AuditLog, ScholarshipPool, ScholarshipApplication, ScholarshipAward, DonorContribution,
}
use edustell.Store.Env.{Env, Statement, Constraint, Stored, execute, require, map_err, violation}
use edustell.Store.ScholarshipRows.{
  ScholarshipApplicationRow, ScholarshipAwardRow, DonorContributionRow, try_application, try_award,
  try_donor_contribution,
}
use edustell.Store.Db.{
  Db, application_key, award_key, vault_key, payout_key, donor_contribution_key,
}
use edustell.Store.AuditLogs.{append_audit_log}
use edustell.Store.Scholarships.{update_pool}

-- `ScholarshipReviewDecisionResult`
pub record DecisionResult : Type 0 where
  pub application : ScholarshipApplication
  pub award : ScholarshipAward
  pub pool : ScholarshipPool

try_awards : List ScholarshipAwardRow → Stored (List ScholarshipAward)
try_awards [] = ok []
try_awards (r ∷ t) = do a ← try_award r; rest ← try_awards t; ok (a ∷ rest)

-- Whether the application of an award is in the pool: the query's join.
unfoldable pub is_of_pool : ℕ → Db → ScholarshipAwardRow → Bool
is_of_pool pool_id db r = elim (select r.application_id db.applications) [
  | none ↦ false
  | some a ↦ a.pool_id == pool_id
]

-- `ScholarshipAwardRepository::list_by_pool`, newest first.
unfoldable pub list_awards : Env → ℕ → Db → Stored (List ScholarshipAward)
unfolding try_awards
list_awards env pool_id db = do
  execute env Statement.select_award
  try_awards (filter (is_of_pool pool_id db) db.awards)

try_donor_contributions : List DonorContributionRow → Stored (List DonorContribution)
try_donor_contributions [] = ok []
try_donor_contributions (r ∷ t) = do
  c ← try_donor_contribution r
  rest ← try_donor_contributions t
  ok (c ∷ rest)

-- `DonorContributionRepository::list_by_pool`, newest first.
unfoldable pub list_donor_contributions : Env → ℕ → Db → Stored (List DonorContribution)
unfolding try_donor_contributions
list_donor_contributions env pool_id db = do
  execute env Statement.select_donor_contributions
  try_donor_contributions (filter (λ r. r.pool_id == pool_id) db.donor_contributions)

-- `UPDATE scholarship_applications SET status = $2 ... RETURNING ...`
abbrev pub set_application_status :
    Env → String → ScholarshipApplicationRow → ScholarshipApplicationRow
set_application_status env status r = record r { status = status; updated_at = env.db_now }

unfoldable pub update_application : Env → ℕ → String → Db → Stored (ScholarshipApplication × Db)
update_application env id status db = do
  execute env Statement.update_application
  row ← ok_or (select id db.applications) (map_err (violation env Constraint.row_not_found))
  saved ← try_application (set_application_status env status row)
  ok (
    saved,
    record db { applications = update id (set_application_status env status) db.applications },
  )

-- `INSERT INTO scholarship_awards ... RETURNING ...`: the times are the column defaults.
unfoldable pub award_row : Env → ScholarshipAward → ScholarshipAwardRow
award_row env a = record {
  id = a.id;
  application_id = a.application_id;
  decided_by = a.decided_by;
  amount_minor = a.amount.amount_minor;
  currency = currency_as_str a.amount.currency;
  status = as_str a.status;
  decision_notes = a.decision_notes;
  linked_payout_request_id = a.linked_payout_request_id;
  linked_vault_id = a.linked_vault_id;
  created_at = env.db_now;
  updated_at = env.db_now;
}

unfoldable pub insert_award : Env → ScholarshipAward → Db → Stored (ScholarshipAward × Db)
unfolding award_row
insert_award env a db = do
  execute env Statement.insert_award
  require env (leb_ℤ (pos 0) a.amount.amount_minor) Constraint.check_amount
  require env (is_none (select a.id db.awards)) Constraint.unique_key
  require env (is_some (select a.application_id db.applications)) Constraint.foreign_key
  saved ← try_award (award_row env a)
  ok (saved, record db { awards = award_row env a ∷ db.awards })

unfoldable pub decide_application_with_audit :
    Env → ℕ → String → ScholarshipAward → ℤ → AuditLog → Db → Stored (DecisionResult × Db)
decide_application_with_audit env application_id application_status award pool_available_funds_minor
      log db =
    do
      execute env Statement.begin
      (application, db1) ← update_application env application_id application_status db
      (pool, db2) ← update_pool env application.pool_id pool_available_funds_minor db1
      (saved, db3) ← insert_award env award db2
      db4 ← append_audit_log env log db3
      execute env Statement.commit
      ok (record { application = application; award = saved; pool = pool }, db4)

-- `UPDATE scholarship_awards SET status = $2, ... = COALESCE(...) ... RETURNING ...`
abbrev pub set_award :
    Env → String → Option ℕ → Option ℕ → ScholarshipAwardRow → ScholarshipAwardRow
set_award env status linked_payout_request_id linked_vault_id r = record r {
  status = status;
  linked_payout_request_id = or_option linked_payout_request_id r.linked_payout_request_id;
  linked_vault_id = or_option linked_vault_id r.linked_vault_id;
  updated_at = env.db_now;
}

-- The foreign keys of an award's links, which may be null.
abbrev pub is_linked : {V : Type 0} → ⦃e : Keyed V⦄ → Option ℕ → List V → Bool
is_linked none t = true
is_linked (some id) t = is_some (select id t)

abbrev pub links_to_rows : ScholarshipAwardRow → Db → Bool
links_to_rows r db =
    is_linked r.linked_payout_request_id db.payouts && is_linked r.linked_vault_id db.vaults

unfoldable pub update_award :
    Env → ℕ → String → Option ℕ → Option ℕ → Db → Stored (ScholarshipAward × Db)
update_award env id status linked_payout_request_id linked_vault_id db = do
  let change = set_award env status linked_payout_request_id linked_vault_id
  execute env Statement.update_award
  row ← ok_or (select id db.awards) (map_err (violation env Constraint.row_not_found))
  require env (links_to_rows (change row) db) Constraint.foreign_key
  saved ← try_award (change row)
  ok (saved, record db { awards = update id change db.awards })

-- The award's application, read by `fetch_one`.
unfoldable pub read_application : Env → ℕ → Db → Stored ScholarshipApplication
read_application env id db = do
  execute env Statement.select_application
  row ← ok_or (select id db.applications) (map_err (violation env Constraint.row_not_found))
  try_application row

unfoldable pub transition_award_with_audit :
    Env → ℕ → String → Option ℕ → Option ℕ → ℤ → AuditLog → Db → Stored (DecisionResult × Db)
transition_award_with_audit env award_id status linked_payout_request_id linked_vault_id
      pool_available_funds_minor log db =
    do
      execute env Statement.begin
      (award, db1) ← update_award env award_id status linked_payout_request_id linked_vault_id db
      application ← read_application env award.application_id db1
      (pool, db2) ← update_pool env application.pool_id pool_available_funds_minor db1
      db3 ← append_audit_log env log db2
      execute env Statement.commit
      ok (record { application = application; award = award; pool = pool }, db3)
