-- ===== src/Store/Schools.antt =====
-- `PgSchoolWorkflowRepository` and the search of schools (crates/infrastructure/src/persistence/repos.rs).
use edustell.Common.{
  ℕ, String, Option, some, Bool, List, [], ◌∷◌, ◌&&◌, ok, ◌>>=◌, ◌>>◌, ok_or, is_none, str_eq,
  select, update, filter,
}
use edustell.Domain.StringEnum.{as_str}
use edustell.Domain.Status.{school_verification_status_enum, school_payout_method_enum}
use edustell.Domain.Records.{AuditLog, School}
use edustell.Store.Env.{Env, Statement, Constraint, Stored, execute, require, map_err, violation}
use edustell.Store.Rows.{SchoolRow, try_school}
use edustell.Store.Db.{Db, school_key}
use edustell.Store.AuditLogs.{append_audit_log}

unfoldable pub school_row : Env → School → SchoolRow
school_row env school = record {
  id = school.id;
  legal_name = school.legal_name;
  display_name = school.display_name;
  country = school.country;
  payout_method = as_str school.payout_method;
  payout_reference = school.payout_reference;
  verification_status = as_str school.verification_status;
  verified_by = school.verified_by;
  verified_at = school.verified_at;
  created_at = env.db_now;
  updated_at = env.db_now;
}

unfoldable pub insert_school : Env → School → Db → Stored (School × Db)
insert_school env school db = do
  execute env Statement.insert_school
  require env (is_none (select school.id db.schools)) Constraint.unique_key
  saved ← try_school (school_row env school)
  ok (saved, record db { schools = school_row env school ∷ db.schools })

-- `create_with_audit`
unfoldable pub create_school_with_audit : Env → School → AuditLog → Db → Stored (School × Db)
create_school_with_audit env school log db = do
  execute env Statement.begin
  (saved, db1) ← insert_school env school db
  db2 ← append_audit_log env log db1
  execute env Statement.commit
  ok (saved, db2)

abbrev pub set_verification : Env → String → ℕ → SchoolRow → SchoolRow
set_verification env verification_status verified_by r = record r {
  verification_status = verification_status;
  verified_by = some verified_by;
  verified_at = some env.utc_now;
  updated_at = env.db_now;
}

-- `UPDATE schools ... RETURNING`; `fetch_one` fails when there is no row.
unfoldable pub update_school : Env → ℕ → String → ℕ → Db → Stored (School × Db)
update_school env school_id verification_status verified_by db = do
  execute env Statement.update_school
  row ← ok_or (select school_id db.schools) (map_err (violation env Constraint.row_not_found))
  saved ← try_school (set_verification env verification_status verified_by row)
  ok (
    saved,
    record db {
      schools = update school_id (set_verification env verification_status verified_by) db.schools;
    },
  )

unfoldable pub verify_with_audit : Env → ℕ → String → ℕ → AuditLog → Db → Stored (School × Db)
verify_with_audit env school_id verification_status verified_by log db = do
  execute env Statement.begin
  (saved, db1) ← update_school env school_id verification_status verified_by db
  db2 ← append_audit_log env log db1
  execute env Statement.commit
  ok (saved, db2)

pub try_schools : List SchoolRow → Stored (List School)
try_schools [] = ok []
try_schools (r ∷ t) = do school ← try_school r; rest ← try_schools t; ok (school ∷ rest)

-- `search_verified`: whether a row's names are like the query is a parameter, SQL's `LIKE` on `LOWER`,
-- and so is the order by the display name.
unfoldable pub search_verified :
    Env
    → (Option String → SchoolRow → Bool)
    → (List SchoolRow → List SchoolRow)
    → Option String
    → Db
    → Stored (List School)
unfolding try_schools
search_verified env is_like order query db = do
  execute env Statement.select_schools
  try_schools
      (order (filter (λ r. str_eq r.verification_status "verified" && is_like query r) db.schools))
