-- ===== src/Store/Scholarships.antt =====
-- Scholarships in the database: queries and the workflows
-- (crates/infrastructure/src/persistence/repos.rs).
use edustell.Common.{
  ℕ, Option, List, [], ◌∷◌, ◌&&◌, ℤ, pos, leb_ℤ, ltb_ℤ, add_i64, ok, ◌>>=◌, ◌>>◌, transpose, ok_or,
  is_some, is_none, ◌==◌, select, update, find, filter,
}
use edustell.Domain.StringEnum.{as_str}
use edustell.Domain.Money.{currency_as_str}
use edustell.Domain.Status.{
  scholarship_pool_status_enum, scholarship_application_status_enum, scholarship_award_status_enum,
  donor_contribution_status_enum,
}
use edustell.Domain.Records.{
  AuditLog, ChildProfile, ScholarshipPool, ScholarshipApplication, ScholarshipAward,
  DonorContribution,
}
use edustell.Store.Env.{
  Env, Statement, Constraint, PersistenceError, Stored, execute, require, map_err, violation,
}
use edustell.Store.ScholarshipRows.{
  ScholarshipPoolRow, ScholarshipApplicationRow, DonorContributionRow, try_pool, try_application,
  try_award, try_donor_contribution,
}
use edustell.Store.Db.{
  Db, pool_key, application_key, award_key, donor_contribution_key, child_key, vault_key,
  payout_key, same_key,
}
use edustell.Store.AuditLogs.{append_audit_log}

-- `ChildProfileRepository::find_by_id`
unfoldable pub find_child : Env → ℕ → Db → Stored (Option ChildProfile)
find_child env id db = do execute env Statement.select_child; ok (select id db.child_profiles)

-- `ScholarshipPoolRepository::find_by_id`
unfoldable pub find_pool : Env → ℕ → Db → Stored (Option ScholarshipPool)
find_pool env id db = do execute env Statement.select_pool; transpose try_pool (select id db.pools)

try_pools : List ScholarshipPoolRow → Stored (List ScholarshipPool)
try_pools [] = ok []
try_pools (r ∷ t) = do p ← try_pool r; rest ← try_pools t; ok (p ∷ rest)

-- `ScholarshipPoolRepository::list`, newest first.
unfoldable pub list_pools : Env → Db → Stored (List ScholarshipPool)
unfolding try_pools
list_pools env db = do execute env Statement.select_pool; try_pools db.pools

-- `ScholarshipApplicationRepository::find_by_id`
unfoldable pub find_application : Env → ℕ → Db → Stored (Option ScholarshipApplication)
find_application env id db = do
  execute env Statement.select_application
  transpose try_application (select id db.applications)

try_applications : List ScholarshipApplicationRow → Stored (List ScholarshipApplication)
try_applications [] = ok []
try_applications (r ∷ t) = do a ← try_application r; rest ← try_applications t; ok (a ∷ rest)

-- `ScholarshipApplicationRepository::list_by_pool`, newest first.
unfoldable pub list_applications : Env → ℕ → Db → Stored (List ScholarshipApplication)
unfolding try_applications
list_applications env pool_id db = do
  execute env Statement.select_application
  try_applications (filter (λ r. r.pool_id == pool_id) db.applications)

-- `ScholarshipAwardRepository::find_by_id`
unfoldable pub find_award : Env → ℕ → Db → Stored (Option ScholarshipAward)
find_award env id db = do
  execute env Statement.select_award
  transpose try_award (select id db.awards)

-- `INSERT INTO scholarship_pools ... RETURNING ...`: the times are the column defaults.
unfoldable pub pool_row : Env → ScholarshipPool → ScholarshipPoolRow
pool_row env pool = record {
  id = pool.id;
  owner_user_id = pool.owner_user_id;
  name = pool.name;
  description = pool.description;
  status = as_str pool.status;
  available_funds_minor = pool.available_funds.amount_minor;
  currency = currency_as_str pool.available_funds.currency;
  geography_restriction = pool.geography_restriction;
  education_level_restriction = pool.education_level_restriction;
  school_id_restriction = pool.school_id_restriction;
  category_restriction = pool.category_restriction;
  created_at = env.db_now;
  updated_at = env.db_now;
}

unfoldable pub insert_pool : Env → ScholarshipPool → Db → Stored (ScholarshipPool × Db)
unfolding pool_row
insert_pool env pool db = do
  execute env Statement.insert_pool
  require env (leb_ℤ (pos 0) pool.available_funds.amount_minor) Constraint.check_amount
  require env (is_none (select pool.id db.pools)) Constraint.unique_key
  saved ← try_pool (pool_row env pool)
  ok (saved, record db { pools = pool_row env pool ∷ db.pools })

unfoldable pub create_pool_with_audit :
    Env → ScholarshipPool → AuditLog → Db → Stored (ScholarshipPool × Db)
create_pool_with_audit env pool log db = do
  execute env Statement.begin
  (saved, db1) ← insert_pool env pool db
  db2 ← append_audit_log env log db1
  execute env Statement.commit
  ok (saved, db2)

-- `UPDATE scholarship_pools SET available_funds_minor = $2 ... RETURNING ...`
abbrev pub set_available : Env → ℤ → ScholarshipPoolRow → ScholarshipPoolRow
set_available env available_funds_minor r = record r {
  available_funds_minor = available_funds_minor;
  updated_at = env.db_now;
}

unfoldable pub update_pool : Env → ℕ → ℤ → Db → Stored (ScholarshipPool × Db)
update_pool env id available_funds_minor db = do
  execute env Statement.update_pool
  row ← ok_or (select id db.pools) (map_err (violation env Constraint.row_not_found))
  require env (leb_ℤ (pos 0) available_funds_minor) Constraint.check_amount
  saved ← try_pool (set_available env available_funds_minor row)
  ok (saved, record db { pools = update id (set_available env available_funds_minor) db.pools })

-- `INSERT INTO donor_contributions ... RETURNING ...`
unfoldable pub donor_contribution_row : Env → DonorContribution → DonorContributionRow
donor_contribution_row env c = record {
  id = c.id;
  pool_id = c.pool_id;
  donor_user_id = c.donor_user_id;
  amount_minor = c.amount.amount_minor;
  currency = currency_as_str c.amount.currency;
  status = as_str c.status;
  external_reference = c.external_reference;
  idempotency_key = c.idempotency_key;
  created_at = env.db_now;
  updated_at = env.db_now;
}

unfoldable pub insert_donor_contribution :
    Env → DonorContribution → Db → Stored (DonorContribution × Db)
unfolding donor_contribution_row
insert_donor_contribution env c db = do
  execute env Statement.insert_donor_contribution
  require env (ltb_ℤ (pos 0) c.amount.amount_minor) Constraint.check_amount
  require env (is_none (select c.id db.donor_contributions)) Constraint.unique_key
  require env
      (is_none (find (λ r. same_key r.idempotency_key c.idempotency_key) db.donor_contributions))
      Constraint.unique_key
  saved ← try_donor_contribution (donor_contribution_row env c)
  ok (
    saved,
    record db { donor_contributions = donor_contribution_row env c ∷ db.donor_contributions },
  )

unfoldable pub fund_pool_with_audit :
    Env → DonorContribution → AuditLog → Db → Stored (ScholarshipPool × DonorContribution × Db)
fund_pool_with_audit env c log db = do
  execute env Statement.begin
  found ← find_pool env c.pool_id db
  pool ← ok_or found PersistenceError.not_found
  (updated, db1) ←
      update_pool env pool.id (add_i64 pool.available_funds.amount_minor c.amount.amount_minor) db
  (saved, db2) ← insert_donor_contribution env c db1
  db3 ← append_audit_log env log db2
  execute env Statement.commit
  ok (updated, saved, db3)

-- `INSERT INTO scholarship_applications ... RETURNING ...`
unfoldable pub application_row : Env → ScholarshipApplication → ScholarshipApplicationRow
application_row env a = record {
  id = a.id;
  pool_id = a.pool_id;
  applicant_user_id = a.applicant_user_id;
  child_profile_id = a.child_profile_id;
  student_country = a.student_country;
  education_level = a.education_level;
  school_id = a.school_id;
  category = a.category;
  status = as_str a.status;
  notes = a.notes;
  created_at = env.db_now;
  updated_at = env.db_now;
}

unfoldable pub insert_application :
    Env → ScholarshipApplication → Db → Stored (ScholarshipApplication × Db)
unfolding application_row
insert_application env a db = do
  execute env Statement.insert_application
  require env (is_none (select a.id db.applications)) Constraint.unique_key
  require env
      (is_some (select a.pool_id db.pools) && is_some (select a.child_profile_id db.child_profiles))
      Constraint.foreign_key
  saved ← try_application (application_row env a)
  ok (saved, record db { applications = application_row env a ∷ db.applications })

unfoldable pub create_application_with_audit :
    Env → ScholarshipApplication → AuditLog → Db → Stored (ScholarshipApplication × Db)
create_application_with_audit env a log db = do
  execute env Statement.begin
  (saved, db1) ← insert_application env a db
  db2 ← append_audit_log env log db1
  execute env Statement.commit
  ok (saved, db2)
