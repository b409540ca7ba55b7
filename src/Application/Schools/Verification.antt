-- ===== src/Application/Schools/Verification.antt =====
-- A school is paid only while it is verified.
use edustell.Common.{
  str_eq_iff, ◌∙◌, ap, sym, subst, str_eq, ℕ, ◌≡◌, inl, inr, some, ok, arith, select, refl,
  >>=-eq-ok, map_error-eq-ok, ok_or, ok_or-eq-ok, ◌∷◌, select-update_self, select-∷,
}
use edustell.Domain.StringEnum.{as_str, from_str-eq-ok, eq_enum}
use edustell.Domain.Auth.{AuthenticatedUser, UserRole, user_role_enum}
use edustell.Domain.Status.{SchoolVerificationStatus, school_verification_status_enum}
use edustell.Domain.Records.{School, PayoutRequest, AuditLog}
use edustell.Store.Env.{Env, Statement, execute, map_err, violation, Constraint, NewId}
use edustell.Store.Rows.{SchoolRow, try_school, parse_status}
use edustell.Store.Db.{Db, school_key}
use edustell.Store.AuditLogs.{append_audit_log}
use edustell.Store.AuditLogs.Steps.{append_audit_log-eq-ok}
use edustell.Store.Schools.{
  school_row, insert_school, create_school_with_audit, set_verification, update_school,
  verify_with_audit,
}
use edustell.Store.Payouts.{find_school}
use edustell.Application.Payouts.{CreatePayoutRequestInput, create_payout_request}
use edustell.Application.Payouts.Safety.{create_payout_request-Requested}
use edustell.Application.Schools.{
  false, from_persistence, CreateSchoolInput, VerifySchoolInput, create_school, verify_school,
  new_school, school_log, verification_log, require_platform_admin, validate_school_fields,
}

-- The row of a school shows a status.
abbrev pub Shows : ℕ → SchoolVerificationStatus → Db → Type 0
Shows id status db =
    (row : SchoolRow) × (select id db.schools ≡ some row)
    × (row.verification_status ≡ as_str status)

-- What is read from such a row has the status.
found_status :
    (env : Env) (id : ℕ) (status : SchoolVerificationStatus) (db : Db) (school : School)
    → Shows id status db
    → find_school env id db ≡ ok (some school)
    → as_str school.verification_status ≡ as_str status
unfolding find_school try_school parse_status
found_status env id status db school (row, found, shows) h = ground (
  arith,
  from_str-eq-ok ⦃e = school_verification_status_enum⦄ row.verification_status
      school.verification_status,
)

other_text :
    (status : SchoolVerificationStatus)
    → eq_enum status SchoolVerificationStatus.verified ≡ false
    → str_eq "verified" (as_str status) ≡ false
other_text SchoolVerificationStatus.pending other = refl
other_text SchoolVerificationStatus.rejected other = refl
other_text SchoolVerificationStatus.verified other = cc

not_verified :
    (env : Env) (id : ℕ) (status : SchoolVerificationStatus) (db : Db) (school : School)
    → Shows id status db
    → eq_enum status SchoolVerificationStatus.verified ≡ false
    → find_school env id db ≡ ok (some school)
    → school.verification_status ≡ SchoolVerificationStatus.verified
    → ⊥
not_verified env id status db school shows other found is_verified =
    let text : "verified" ≡ as_str status =
      sym (ap (λ x. as_str x) is_verified) ∙ found_status env id status db school shows found in
    ground (arith, other_text status other, str_eq_iff "verified" (as_str status))

request-unverified :
    (env : Env) (actor : AuthenticatedUser) (input : CreatePayoutRequestInput)
    (status : SchoolVerificationStatus) (db db' : Db) (p : PayoutRequest)
    → Shows input.school_id status db
    → eq_enum status SchoolVerificationStatus.verified ≡ false
    → create_payout_request env actor input db ≡ ok (p, db')
    → db' ≡ db
request-unverified env actor input status db db' p shows other h =
    let (role, amount, way) = create_payout_request-Requested env actor input db db' p h in
    elim way [
      | inl q ↦ q.unchanged
      | inr r ↦
          absurd (
            not_verified env input.school_id status db r.school shows other r.read_school
              r.verified)
    ]

-- What a verification that succeeds leaves behind.
verify_with_audit-Shows :
    (env : Env) (id actor : ℕ) (status : SchoolVerificationStatus) (log : AuditLog) (db db' : Db)
    (s : School)
    → verify_with_audit env id (as_str status) actor log db ≡ ok (s, db')
    → Shows id status db'
unfolding verify_with_audit update_school
verify_with_audit-Shows env id actor status log db db' s h =
    let (u, e0, h0) = >>=-eq-ok (execute env Statement.begin) _ h in
    let (r, e1, h1) = >>=-eq-ok (update_school env id (as_str status) actor db) _ h0 in
    let (db2, e2, h2) = >>=-eq-ok (append_audit_log env log r.1) _ h1 in
    let (v, e3, h3) = >>=-eq-ok (execute env Statement.update_school) _ e1 in
    let (row, e4, h4) =
      >>=-eq-ok (ok_or (select id db.schools) (map_err (violation env Constraint.row_not_found))) _
        h3 in
    let found =
      ok_or-eq-ok (select id db.schools) (map_err (violation env Constraint.row_not_found)) e4 in
    let f = set_verification env (as_str status) actor in
    (
      f row,
      ground (
        arith,
        append_audit_log-eq-ok env log r.1 db2 e2,
        select-update_self id f db.schools row (λ x. refl) found,
      ),
      refl,
    )

create_school_with_audit-schools :
    (env : Env) (school : School) (log : AuditLog) (db db' : Db) (s : School)
    → create_school_with_audit env school log db ≡ ok (s, db')
    → db'.schools ≡ school_row env school ∷ db.schools
unfolding create_school_with_audit insert_school
create_school_with_audit-schools env school log db db' s h =
    let (u, e0, h0) = >>=-eq-ok (execute env Statement.begin) _ h in
    let (r, e1, h1) = >>=-eq-ok (insert_school env school db) _ h0 in
    let (db2, e2, h2) = >>=-eq-ok (append_audit_log env log r.1) _ h1 in
    ground (arith, append_audit_log-eq-ok env log r.1 db2 e2)

-- Directly after a verification that succeeds with a status other than verified, a payout request to that
-- school that succeeds writes nothing.
pub verify_school-blocks :
    (env later : Env) (admin actor : AuthenticatedUser) (input : VerifySchoolInput)
    (request : CreatePayoutRequestInput) (db db' db'' : Db) (s : School) (p : PayoutRequest)
    → eq_enum input.verification_status SchoolVerificationStatus.verified ≡ false
    → verify_school env admin input db ≡ ok (s, db')
    → request.school_id ≡ input.school_id
    → create_payout_request later actor request db' ≡ ok (p, db'')
    → db'' ≡ db'
unfolding verify_school
verify_school-blocks env later admin actor input request db db' db'' s p other verified same h =
    let (u, e0, h0) = >>=-eq-ok (require_platform_admin admin.role) _ verified in
    let shows =
      verify_with_audit-Shows env input.school_id admin.user_id input.verification_status
        (verification_log env admin input) db db' s (map_error-eq-ok from_persistence _ h0) in
    request-unverified later actor request input.verification_status db' db'' p
      (subst (λ k. Shows k input.verification_status db') (sym same) shows) other h

-- A school that was just created by an admin is pending, so that a payout request to it writes nothing.
pub create_school-blocks :
    (env later : Env) (admin actor : AuthenticatedUser) (input : CreateSchoolInput)
    (request : CreatePayoutRequestInput) (db db' db'' : Db) (s : School) (p : PayoutRequest)
    → create_school env admin input db ≡ ok (s, db')
    → request.school_id ≡ env.new_v4 NewId.entity
    → create_payout_request later actor request db' ≡ ok (p, db'')
    → (admin.role ≡ UserRole.platform_admin) × (db'' ≡ db')
unfolding create_school require_platform_admin new_school school_row
create_school-blocks env later admin actor input request db db' db'' s p created same h =
    let (u, e0, h0) = >>=-eq-ok (require_platform_admin admin.role) _ created in
    let (w, e1, h1) = >>=-eq-ok (validate_school_fields input) _ h0 in
    let school = new_school env input in
    let wrote =
      create_school_with_audit-schools env school (school_log env admin school) db db' s
        (map_error-eq-ok from_persistence _ h1) in
    (
      ground (arith, e0),
      request-unverified later actor request SchoolVerificationStatus.pending db' db'' p
          (
            school_row env school,
            ground (arith, wrote, select-∷ request.school_id (school_row env school) db.schools),
            refl,
          )
          refl h,
    )
