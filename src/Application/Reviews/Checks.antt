-- ===== src/Application/Reviews/Checks.antt =====
-- `review_transition` taken apart: what a review that changes the status has checked.
use edustell.Common.{
  Result, ℕ, String, Option, some, ◌≡◌, refl, ap, ◌∙◌, true, false, ok, arith, select, >>=-eq-ok,
  map_error-eq-ok, map_error, ok_or, ok_or-eq-ok, inl, inr, ◌⊎◌, Option-cases, if◌then◌else◌,
  Bool-cases,
}
use edustell.Domain.StringEnum.{eq_enum}
use edustell.Domain.Status.{
  PayoutStatus, payout_status_enum, SchoolVerificationStatus, school_verification_status_enum,
}
use edustell.Domain.Records.{PayoutRequest, AuditLog, SavingsVault, Milestone, School}
use edustell.Domain.Auth.{AuthenticatedUser, UserRole, user_role_enum}
use edustell.Domain.Payouts.{
  PayoutRuleViolation, check_transition, PayoutTransition, validate_transition, target_status,
  ensure_available_funds, validate_reviewer_role, validate_milestone_association,
  validate_milestone_payable, validate_school_verified,
}
use edustell.Store.Env.{PersistenceError, Env}
use edustell.Store.Rows.{PayoutRequestRow, try_payout}
use edustell.Store.Db.{Db, payout_key}
use edustell.Store.Contributions.{find_vault}
use edustell.Store.Payouts.{find_payout, find_school, find_milestone}
use edustell.Application.Payouts.{
  PayoutError, checked, ReviewPayoutInput, from_persistence, from_violation,
}
use edustell.Application.Reviews.{
  ReviewPlan, plan_review, check_review, check_funds, needs_verified_school, review_log,
}

-- The school, the milestone and the vault of a payout, and what a review has checked of them.
pub record Checks (env : Env) (move : PayoutTransition) (p : PayoutRequest) (db : Db) : Type 0 where
  pub school : School
  pub milestone : Milestone
  pub vault : SavingsVault
  pub read_school : find_school env p.school_id db ≡ ok (some school)
  pub read_milestone : find_milestone env p.milestone_id db ≡ ok (some milestone)
  pub read_vault : find_vault env p.vault_id db ≡ ok (some vault)
  pub associated : milestone.vault_id ≡ p.vault_id
  pub payable : validate_milestone_payable milestone.status ≡ ok tt
  pub verified :
      (move ≡ PayoutTransition.move_to_review)
      ⊎ (move ≡ PayoutTransition.reject)
      ⊎ (school.verification_status ≡ SchoolVerificationStatus.verified)
  pub funds :
      move ≡ PayoutTransition.approve
      → ensure_available_funds vault.total_contributed_minor vault.total_locked_minor
          vault.total_disbursed_minor p.amount.amount_minor
        ≡ ok tt

-- The value that a lookup gives, when neither the query nor the row is missing.
found_some :
    {A : Type 0} (m : Result PersistenceError (Option A)) (o : Option A) (a : A)
    → map_error from_persistence m ≡ ok o
    → ok_or o PayoutError.not_found ≡ ok a
    → m ≡ ok (some a)
found_some m o a h found =
    map_error-eq-ok from_persistence m h ∙ ap ok (ok_or-eq-ok o PayoutError.not_found found)

checked-eq-ok :
    (m : Result PayoutRuleViolation (Unit {0})) (u : Unit {0}) → checked m ≡ ok u → m ≡ ok tt
checked-eq-ok m u h = map_error-eq-ok from_violation m h

school_checked :
    (move : PayoutTransition) (s : SchoolVerificationStatus) (u : Unit {0})
    → (if needs_verified_school move then checked (validate_school_verified s) else ok tt) ≡ ok u
    → (move ≡ PayoutTransition.move_to_review)
      ⊎ (move ≡ PayoutTransition.reject)
      ⊎ (s ≡ SchoolVerificationStatus.verified)
unfolding needs_verified_school validate_school_verified
school_checked PayoutTransition.move_to_review s u h = inl refl
school_checked PayoutTransition.reject s u h = inr (inl refl)
school_checked PayoutTransition.approve s u h = inr (inr (ground arith))
school_checked PayoutTransition.mark_processing s u h = inr (inr (ground arith))
school_checked PayoutTransition.complete s u h = inr (inr (ground arith))
school_checked PayoutTransition.fail s u h = inr (inr (ground arith))

funds_checked :
    (move : PayoutTransition) (v : SavingsVault) (p : PayoutRequest) (u : Unit {0})
    → check_funds move v p ≡ ok u
    → move ≡ PayoutTransition.approve
    → ensure_available_funds v.total_contributed_minor v.total_locked_minor v.total_disbursed_minor
        p.amount.amount_minor
      ≡ ok tt
unfolding check_funds
funds_checked move v p u h approve = ground arith

milestone_checked : (a b : ℕ) → validate_milestone_association a b ≡ ok tt → a ≡ b
unfolding validate_milestone_association
milestone_checked a b h = ground arith

check_review-Checks :
    (env : Env) (actor : AuthenticatedUser) (input : ReviewPayoutInput) (move : PayoutTransition)
    (action : String) (p : PayoutRequest) (target : PayoutStatus) (db : Db) (plan : ReviewPlan)
    → check_review env actor input move action p target db ≡ ok plan
    → Checks env move p db × (log : AuditLog) × (plan ≡ ReviewPlan.transition p target log)
unfolding check_review
check_review-Checks env actor input move action p target db plan h =
    let (s, e0, h0) = >>=-eq-ok (map_error from_persistence (find_school env p.school_id db)) _ h in
    let (school, e1, h1) = >>=-eq-ok (ok_or s PayoutError.not_found) _ h0 in
    let (m, e2, h2) =
      >>=-eq-ok (map_error from_persistence (find_milestone env p.milestone_id db)) _ h1 in
    let (milestone, e3, h3) = >>=-eq-ok (ok_or m PayoutError.not_found) _ h2 in
    let (v, e4, h4) = >>=-eq-ok (map_error from_persistence (find_vault env p.vault_id db)) _ h3 in
    let (vault, e5, h5) = >>=-eq-ok (ok_or v PayoutError.not_found) _ h4 in
    let (u6, e6, h6) =
      >>=-eq-ok (checked (validate_milestone_association milestone.vault_id p.vault_id)) _ h5 in
    let (u7, e7, h7) = >>=-eq-ok (checked (validate_milestone_payable milestone.status)) _ h6 in
    let (u8, e8, h8) =
      >>=-eq-ok
        (if needs_verified_school move
          then checked (validate_school_verified school.verification_status)
          else ok tt)
        _ h7 in
    let (u9, e9, h9) = >>=-eq-ok (check_funds move vault p) _ h8 in
    (
      record {
        school = school;
        milestone = milestone;
        vault = vault;
        read_school = found_some (find_school env p.school_id db) s school e0 e1;
        read_milestone = found_some (find_milestone env p.milestone_id db) m milestone e2 e3;
        read_vault = found_some (find_vault env p.vault_id db) v vault e4 e5;
        associated = milestone_checked milestone.vault_id p.vault_id (checked-eq-ok _ u6 e6);
        payable = checked-eq-ok _ u7 e7;
        verified = school_checked move school.verification_status u8 e8;
        funds = funds_checked move vault p u9 e9;
      },
      review_log env actor input action target p vault milestone school,
      ground arith,
    )

-- What a review that has passed its first part has read and checked.
pub record Planned (env : Env) (actor : AuthenticatedUser) (input : ReviewPayoutInput)
    (move : PayoutTransition) (db : Db) (plan : ReviewPlan) : Type 0 where
  pub row : PayoutRequestRow
  pub current : PayoutRequest
  pub found : select input.payout_id db.payouts ≡ some row
  pub parsed : try_payout row ≡ ok current
  pub target : PayoutStatus
  pub aimed : target ≡ target_status move
  pub moves : check_transition current.status target ≡ ok target
  pub admin : actor.role ≡ UserRole.platform_admin
  pub way :
      ((eq_enum current.status target ≡ true) × (plan ≡ ReviewPlan.unchanged current))
      ⊎ ((eq_enum current.status target ≡ false)
          × Checks env move current db
          × (log : AuditLog) × (plan ≡ ReviewPlan.transition current target log))

reviewer_role-admin :
    (role : UserRole) → validate_reviewer_role role ≡ ok tt → role ≡ UserRole.platform_admin
unfolding validate_reviewer_role
reviewer_role-admin role h = ground arith

-- What the domain answers is the target.
check_transition-target :
    (from to target : PayoutStatus)
    → check_transition from to ≡ ok target
    → (target ≡ to) × (check_transition from target ≡ ok target)
unfolding check_transition
check_transition-target from to target h = ground arith

find_payout-eq-some :
    (env : Env) (id : ℕ) (db : Db) (p : PayoutRequest)
    → find_payout env id db ≡ ok (some p)
    → (r : PayoutRequestRow) × (select id db.payouts ≡ some r) × (try_payout r ≡ ok p)
unfolding find_payout
find_payout-eq-some env id db p h = elim (Option-cases (select id db.payouts)) [
  | inl missing ↦ absurd (ground arith)
  | inr (r, found) ↦ (r, found, ground arith)
]

pub plan_review-Planned :
    (env : Env) (actor : AuthenticatedUser) (input : ReviewPayoutInput) (move : PayoutTransition)
    (action : String) (db : Db) (plan : ReviewPlan)
    → plan_review env actor input move action db ≡ ok plan
    → Planned env actor input move db plan
unfolding plan_review validate_transition
plan_review-Planned env actor input move action db plan h =
    let (u, e0, h0) = >>=-eq-ok (checked (validate_reviewer_role actor.role)) _ h in
    let (o, e1, h1) =
      >>=-eq-ok (map_error from_persistence (find_payout env input.payout_id db)) _ h0 in
    let (p, e2, h2) = >>=-eq-ok (ok_or o PayoutError.not_found) _ h1 in
    let (target, e3, h3) =
      >>=-eq-ok (map_error from_violation (validate_transition p.status move)) _ h2 in
    let (r, found, parsed) =
      find_payout-eq-some env input.payout_id db p
        (found_some (find_payout env input.payout_id db) o p e1 e2) in
    let (aimed, moves) =
      check_transition-target p.status (target_status move) target
        (map_error-eq-ok from_violation (validate_transition p.status move) e3) in
    record {
      row = r;
      current = p;
      found = found;
      parsed = parsed;
      target = target;
      aimed = aimed;
      moves = moves;
      admin =
          reviewer_role-admin actor.role (checked-eq-ok (validate_reviewer_role actor.role) u e0);
      way = elim (Bool-cases (eq_enum p.status target)) [
        | inl same ↦ inl (same, ground (arith, h3, same))
        | inr other ↦
            let (checks, log, planned) =
              check_review-Checks env actor input move action p target db plan
                (ground (arith, h3, other)) in
            inr (other, checks, log, planned)
      ];
    }
