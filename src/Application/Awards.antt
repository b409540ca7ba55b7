-- ===== src/Application/Awards.antt =====
-- The decisions on scholarship applications and awards (crates/application/src/scholarships.rs).
pub mod Balance
use edustell.Common.{
  ℕ, String, Option, none, some, Bool, not, ok, map_error, ◌>>=◌, ◌>>◌, ok_or, ℤ, add_i64, sub_i64,
  is_empty, trim, if◌then◌else◌,
}
use edustell.Domain.StringEnum.{as_str}
use edustell.Domain.Money.{Currency, currency_as_str, money_new}
use edustell.Domain.Json.{Json, end, member}
use edustell.Domain.Auth.{AuthenticatedUser}
use edustell.Domain.Status.{
  ScholarshipApplicationStatus, ScholarshipAwardStatus, scholarship_application_status_enum,
  scholarship_award_status_enum,
}
use edustell.Domain.Records.{AuditLog, ScholarshipPool, ScholarshipApplication, ScholarshipAward}
use edustell.Domain.Scholarships.{
  AwardTransition, can_review, validate_positive_amount, validate_currency, ensure_pool_balance,
  validate_application_reviewable, validate_award_transition,
}
use edustell.Audit.Event.{into_log}
use edustell.Audit.Events.{scholarship_decision, is_present}
use edustell.Store.Env.{Env, NewId}
use edustell.Store.Db.{Db}
use edustell.Store.Scholarships.{find_pool, find_application, find_award}
use edustell.Store.Awards.{
  DecisionResult, decide_application_with_audit, transition_award_with_audit,
}
use edustell.Application.Scholarships.{
  ScholarshipError, Handled, checked, from_persistence, sanitize_optional, optional_uuid,
  scholarship_audit,
}

pub record DecideScholarshipApplicationInput : Type 0 where
  pub application_id : ℕ
  pub amount_minor : ℤ
  pub currency : Currency
  pub decision_notes : Option String

pub record UpdateScholarshipAwardInput : Type 0 where
  pub award_id : ℕ
  pub decision_notes : Option String
  pub linked_payout_request_id : Option ℕ
  pub linked_vault_id : Option ℕ

-- The application and its pool, as the handlers read them.
unfoldable pub read_application_pool :
    Env → ℕ → Db → Handled (ScholarshipApplication × ScholarshipPool)
read_application_pool env application_id db = do
  found ← map_error from_persistence (find_application env application_id db)
  application ← ok_or found ScholarshipError.not_found
  found_pool ← map_error from_persistence (find_pool env application.pool_id db)
  pool ← ok_or found_pool ScholarshipError.not_found
  ok (application, pool)

-- The application, when it can be reviewed, and its pool.
unfoldable pub read_reviewable : Env → ℕ → Db → Handled (ScholarshipApplication × ScholarshipPool)
read_reviewable env application_id db = do
  found ← map_error from_persistence (find_application env application_id db)
  application ← ok_or found ScholarshipError.not_found
  checked (validate_application_reviewable application.status)
  found_pool ← map_error from_persistence (find_pool env application.pool_id db)
  pool ← ok_or found_pool ScholarshipError.not_found
  ok (application, pool)

-- The award that a decision writes.
unfoldable pub new_award :
    Env
    → AuthenticatedUser
    → DecideScholarshipApplicationInput
    → ScholarshipApplication
    → ScholarshipAwardStatus
    → Handled ScholarshipAward
new_award env actor input application status = do
  amount ← map_error ScholarshipError.validation (money_new input.amount_minor input.currency)
  ok (record {
    id = env.new_v4 NewId.entity;
    application_id = application.id;
    decided_by = actor.user_id;
    amount = amount;
    status = status;
    decision_notes = sanitize_optional input.decision_notes;
    linked_payout_request_id = none;
    linked_vault_id = none;
    created_at = env.utc_now;
    updated_at = env.utc_now;
  })

unfoldable pub approved_log :
    Env → AuthenticatedUser → ScholarshipApplication → ScholarshipAward → ScholarshipPool → AuditLog
approved_log env actor application award pool =
    record (into_log env (scholarship_decision env actor.user_id application.id award pool)) {
      action = "scholarship_application.approved";
      metadata = Json.object (
          member "pool_id" (Json.uuid application.pool_id) (
            member "award_id" (Json.uuid award.id) (
              member "decision" (Json.string "approved") (
                member "amount_minor" (Json.number award.amount.amount_minor) (
                  member "currency" (Json.string (currency_as_str award.amount.currency)) (
                    member "decision_notes_present" (Json.bool (is_present award.decision_notes))
                      end))))));
    }

unfoldable pub rejected_log :
    Env → AuthenticatedUser → ScholarshipApplication → ScholarshipAward → ScholarshipPool → AuditLog
rejected_log env actor application award pool =
    record (into_log env (scholarship_decision env actor.user_id application.id award pool)) {
      action = "scholarship_application.rejected";
      metadata = Json.object (
          member "pool_id" (Json.uuid application.pool_id) (
            member "award_id" (Json.uuid award.id) (
              member "decision" (Json.string "rejected") (
                member "decision_notes_present" (Json.bool (is_present award.decision_notes))
                  end))));
    }

unfoldable pub approve_application :
    Env → AuthenticatedUser → DecideScholarshipApplicationInput → Db → Handled (DecisionResult × Db)
approve_application env actor input db = do
  checked (can_review actor.role)
  checked (validate_positive_amount input.amount_minor)
  (application, pool) ← read_reviewable env input.application_id db
  checked (
      validate_currency (currency_as_str pool.available_funds.currency)
        (currency_as_str input.currency))
  checked (ensure_pool_balance pool.available_funds.amount_minor input.amount_minor)
  award ← new_award env actor input application ScholarshipAwardStatus.approved
  map_error from_persistence (
      decide_application_with_audit env application.id
        (as_str ScholarshipApplicationStatus.approved) award
        (sub_i64 pool.available_funds.amount_minor input.amount_minor)
        (approved_log env actor application award pool) db)

unfoldable pub reject_application :
    Env → AuthenticatedUser → DecideScholarshipApplicationInput → Db → Handled (DecisionResult × Db)
reject_application env actor input db = do
  checked (can_review actor.role)
  (application, pool) ← read_reviewable env input.application_id db
  award ← new_award env actor input application ScholarshipAwardStatus.rejected
  map_error from_persistence (
      decide_application_with_audit env application.id
        (as_str ScholarshipApplicationStatus.rejected) award pool.available_funds.amount_minor
        (rejected_log env actor application award pool) db)

-- `value.as_ref().map(|v| !v.trim().is_empty()).unwrap_or(false)`
abbrev pub is_filled : Option String → Bool
is_filled none = Bool.false
is_filled (some v) = not (is_empty (trim v))

unfoldable pub disbursed_log :
    Env
    → AuthenticatedUser
    → UpdateScholarshipAwardInput
    → ScholarshipAward
    → ScholarshipPool
    → AuditLog
disbursed_log env actor input award pool =
    scholarship_audit env actor.user_id "scholarship_award.disbursed" award.id (
      Json.object (
        member "pool_id" (Json.uuid pool.id) (
          member "linked_payout_request_id" (optional_uuid input.linked_payout_request_id) (
            member "linked_vault_id" (optional_uuid input.linked_vault_id)
              (member "decision_notes_present" (Json.bool (is_filled input.decision_notes)) end)))))

unfoldable pub disburse_award :
    Env → AuthenticatedUser → UpdateScholarshipAwardInput → Db → Handled (DecisionResult × Db)
disburse_award env actor input db = do
  checked (can_review actor.role)
  found ← map_error from_persistence (find_award env input.award_id db)
  award ← ok_or found ScholarshipError.not_found
  target ← checked (
      validate_award_transition award.status AwardTransition.disburse input.linked_payout_request_id
        input.linked_vault_id)
  (application, pool) ← read_application_pool env award.application_id db
  map_error from_persistence (
      transition_award_with_audit env award.id (as_str target) input.linked_payout_request_id
        input.linked_vault_id pool.available_funds.amount_minor
        (disbursed_log env actor input award pool) db)

unfoldable pub revoked_log :
    Env
    → AuthenticatedUser
    → UpdateScholarshipAwardInput
    → ScholarshipAward
    → ScholarshipPool
    → AuditLog
revoked_log env actor input award pool =
    scholarship_audit env actor.user_id "scholarship_award.revoked" award.id (
      Json.object (
        member "pool_id" (Json.uuid pool.id)
          (member "decision_notes_present" (Json.bool (is_filled input.decision_notes)) end)))

unfoldable pub revoke_award :
    Env → AuthenticatedUser → UpdateScholarshipAwardInput → Db → Handled (DecisionResult × Db)
revoke_award env actor input db = do
  checked (can_review actor.role)
  found ← map_error from_persistence (find_award env input.award_id db)
  award ← ok_or found ScholarshipError.not_found
  target ← checked (
      validate_award_transition award.status AwardTransition.revoke input.linked_payout_request_id
        input.linked_vault_id)
  (application, pool) ← read_application_pool env award.application_id db
  map_error from_persistence (
      transition_award_with_audit env award.id (as_str target) award.linked_payout_request_id
        award.linked_vault_id (add_i64 pool.available_funds.amount_minor award.amount.amount_minor)
        (revoked_log env actor input award pool) db)
