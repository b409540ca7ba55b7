-- ===== src/Application/Reviews.antt =====
-- The reviews of payouts (crates/application/src/payouts.rs): `review_transition` in its two parts,
-- and the six handlers that call it.
pub mod Checks
pub mod Safety
pub mod Outcomes
use edustell.Common.{
  String, Option, none, some, Bool, not, ok, map_error, ◌>>=◌, ◌>>◌, ok_or, is_some, is_empty, trim,
  if◌then◌else◌,
}
use edustell.Domain.StringEnum.{as_str, eq_enum}
use edustell.Domain.Json.{Json, end, member}
use edustell.Domain.Auth.{user_role_enum, AuthenticatedUser}
use edustell.Domain.Status.{PayoutStatus, payout_status_enum, school_verification_status_enum}
use edustell.Domain.Records.{AuditLog, PayoutRequest, SavingsVault, School, Milestone}
use edustell.Domain.Payouts.{
  PayoutTransition, ensure_available_funds, validate_milestone_association,
  validate_milestone_payable, validate_reviewer_role, validate_school_verified, validate_transition,
}
use edustell.Audit.Event.{into_log}
use edustell.Audit.Events.{payout_decision}
use edustell.Store.Env.{Env}
use edustell.Store.Db.{Db}
use edustell.Store.Contributions.{find_vault}
use edustell.Store.Payouts.{find_milestone, find_school, find_payout, transition_with_audit}
use edustell.Application.Payouts.{
  PayoutError, Handled, checked, ReviewPayoutInput, from_persistence, from_violation,
}

-- `value.as_ref().map(|v| !v.trim().is_empty()).unwrap_or(false)`
abbrev pub is_filled : Option String → Bool
is_filled none = Bool.false
is_filled (some v) = not (is_empty (trim v))

-- The transitions that need a verified school.
unfoldable pub needs_verified_school : PayoutTransition → Bool
needs_verified_school PayoutTransition.approve = Bool.true
needs_verified_school PayoutTransition.mark_processing = Bool.true
needs_verified_school PayoutTransition.complete = Bool.true
needs_verified_school PayoutTransition.fail = Bool.true
needs_verified_school _ = Bool.false

-- The funds that an approval needs.
unfoldable pub check_funds : PayoutTransition → SavingsVault → PayoutRequest → Handled (Unit {0})
check_funds PayoutTransition.approve vault p = checked (
    ensure_available_funds vault.total_contributed_minor vault.total_locked_minor
      vault.total_disbursed_minor p.amount.amount_minor)
check_funds _ vault p = ok tt

-- The audit log of a review.
unfoldable pub review_log :
    Env
    → AuthenticatedUser
    → ReviewPayoutInput
    → String
    → PayoutStatus
    → PayoutRequest
    → SavingsVault
    → Milestone
    → School
    → AuditLog
review_log env actor input audit_action target p vault milestone school =
    let preview = record p {
      status = target;
      review_notes = input.review_notes;
      external_payout_reference = input.external_payout_reference;
    } in
    record (into_log env (payout_decision env actor.user_id preview (as_str target))) {
      action = audit_action;
      metadata = Json.object (
          member "vault_id" (Json.uuid vault.id) (
            member "milestone_id" (Json.uuid milestone.id) (
              member "school_id" (Json.uuid school.id) (
                member "school_verification_status"
                  (Json.string (as_str school.verification_status))
                  (member "from_status" (Json.string (as_str p.status)) (
                    member "to_status" (Json.string (as_str target)) (
                      member "review_notes_present" (Json.bool (is_filled input.review_notes)) (
                        member "external_payout_reference_present"
                          (Json.bool (is_some input.external_payout_reference)) end))))))));
    }

-- What the first part of a review decides: the payout is in the status already, or the workflow is
-- called with the target status and the audit log.
pub data ReviewPlan : Type 0 where
  unchanged : PayoutRequest → ReviewPlan
  transition : PayoutRequest → PayoutStatus → AuditLog → ReviewPlan

-- The checks of a review that changes the status.
unfoldable pub check_review :
    Env
    → AuthenticatedUser
    → ReviewPayoutInput
    → PayoutTransition
    → String
    → PayoutRequest
    → PayoutStatus
    → Db
    → Handled ReviewPlan
check_review env actor input move audit_action p target db = do
  found_school ← map_error from_persistence (find_school env p.school_id db)
  school ← ok_or found_school PayoutError.not_found
  found_milestone ← map_error from_persistence (find_milestone env p.milestone_id db)
  milestone ← ok_or found_milestone PayoutError.not_found
  found_vault ← map_error from_persistence (find_vault env p.vault_id db)
  vault ← ok_or found_vault PayoutError.not_found
  checked (validate_milestone_association milestone.vault_id p.vault_id)
  checked (validate_milestone_payable milestone.status)
  (if needs_verified_school move
      then checked (validate_school_verified school.verification_status)
      else ok tt)
  check_funds move vault p
  ok (
      ReviewPlan.transition p target
        (review_log env actor input audit_action target p vault milestone school))

unfoldable pub plan_review :
    Env
    → AuthenticatedUser
    → ReviewPayoutInput
    → PayoutTransition
    → String
    → Db
    → Handled ReviewPlan
plan_review env actor input move audit_action db = do
  checked (validate_reviewer_role actor.role)
  found ← map_error from_persistence (find_payout env input.payout_id db)
  p ← ok_or found PayoutError.not_found
  target ← map_error from_violation (validate_transition p.status move)
  if eq_enum p.status target
      then ok (ReviewPlan.unchanged p)
      else check_review env actor input move audit_action p target db

unfoldable pub run_review :
    Env → AuthenticatedUser → ReviewPayoutInput → ReviewPlan → Db → Handled (PayoutRequest × Db)
run_review env actor input (ReviewPlan.unchanged p) db = ok (p, db)
run_review env actor input (ReviewPlan.transition p target log) db = do
  (result, db') ← map_error from_persistence (
      transition_with_audit env p.id (as_str target) actor.user_id input.review_notes
        input.external_payout_reference log db)
  ok (result.payout, db')

unfoldable pub review_transition :
    Env
    → AuthenticatedUser
    → ReviewPayoutInput
    → PayoutTransition
    → String
    → Db
    → Handled (PayoutRequest × Db)
review_transition env actor input move audit_action db = do
  plan ← plan_review env actor input move audit_action db
  run_review env actor input plan db

abbrev pub Review : Type 0
Review = Env → AuthenticatedUser → ReviewPayoutInput → Db → Handled (PayoutRequest × Db)

unfoldable pub move_payout_to_review : Review
move_payout_to_review env actor input =
    review_transition env actor input PayoutTransition.move_to_review "payout.review_started"

unfoldable pub approve_payout : Review
approve_payout env actor input =
    review_transition env actor input PayoutTransition.approve "payout.approved"

unfoldable pub reject_payout : Review
reject_payout env actor input =
    review_transition env actor input PayoutTransition.reject "payout.rejected"

unfoldable pub mark_payout_processing : Review
mark_payout_processing env actor input =
    review_transition env actor input PayoutTransition.mark_processing "payout.processing_started"

unfoldable pub complete_payout : Review
complete_payout env actor input =
    review_transition env actor input PayoutTransition.complete "payout.completed"

unfoldable pub fail_payout : Review
fail_payout env actor input =
    review_transition env actor input PayoutTransition.fail "payout.failed"
