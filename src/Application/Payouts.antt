-- ===== src/Application/Payouts.antt =====
-- The handlers of payouts (crates/application/src/payouts.rs). A handler reads the repositories
-- first and then calls the workflow, which is one transaction. The review is in these two parts, so
-- that another request can come between them.
pub mod Safety
use edustell.Common.{
  ℕ, String, Option, none, some, Bool, ◌||◌, ◌&&◌, List, Result, ok, err, ensure, map_error, ◌>>=◌,
  ◌>>◌, ok_or, ℤ, eqb_ℤ, ◌==◌, if◌then◌else◌,
}
use edustell.Domain.StringEnum.{as_str, eq_enum}
use edustell.Domain.Money.{Money, Currency, currency_as_str, eq_currency, money_new}
use edustell.Domain.Json.{Json, end, member}
use edustell.Domain.Auth.{UserRole, user_role_enum, AuthenticatedUser}
use edustell.Domain.Status.{PayoutStatus, payout_status_enum, school_verification_status_enum}
use edustell.Domain.Records.{AuditLog, PayoutRequest, SavingsVault, School, Milestone}
use edustell.Domain.Payouts.{
  PayoutRuleViolation, display, ensure_available_funds, validate_currency_match,
  validate_milestone_association, validate_milestone_payable, validate_payout_amount,
  validate_requester_role, validate_school_verified,
}
use edustell.Audit.Event.{into_log}
use edustell.Audit.Events.{payout_requested}
use edustell.Store.Env.{Env, NewId, PersistenceError}
use edustell.Store.Db.{Db}
use edustell.Store.Contributions.{find_vault}
use edustell.Store.Payouts.{
  find_milestone, find_school, find_payout, find_payout_by_key, list_payouts,
  create_request_with_audit,
}

pub data PayoutError : Type 0 where
  validation conflict repository : String → PayoutError
  forbidden not_found : PayoutError

unfoldable pub from_persistence : PersistenceError → PayoutError
from_persistence PersistenceError.not_found = PayoutError.not_found
from_persistence (PersistenceError.conflict message) = PayoutError.conflict message
from_persistence (PersistenceError.validation message) = PayoutError.validation message
from_persistence (PersistenceError.repository message) = PayoutError.repository message

unfoldable pub from_violation : PayoutRuleViolation → PayoutError
from_violation PayoutRuleViolation.unauthorized_requester = PayoutError.forbidden
from_violation PayoutRuleViolation.unauthorized_reviewer = PayoutError.forbidden
from_violation (PayoutRuleViolation.invalid_status_transition from to) =
    PayoutError.conflict (display (PayoutRuleViolation.invalid_status_transition from to))
from_violation PayoutRuleViolation.insufficient_available_funds =
    PayoutError.conflict (display PayoutRuleViolation.insufficient_available_funds)
from_violation PayoutRuleViolation.school_not_verified =
    PayoutError.conflict (display PayoutRuleViolation.school_not_verified)
from_violation other = PayoutError.validation (display other)

abbrev pub Handled : Type 0 → Type 0
Handled A = Result PayoutError A

abbrev pub checked : Result PayoutRuleViolation (Unit {0}) → Handled (Unit {0})
checked = map_error from_violation

pub record CreatePayoutRequestInput : Type 0 where
  pub vault_id : ℕ
  pub milestone_id : ℕ
  pub school_id : ℕ
  pub amount_minor : ℤ
  pub currency : Currency
  pub idempotency_key : String

pub record ReviewPayoutInput : Type 0 where
  pub payout_id : ℕ
  pub review_notes : Option String
  pub external_payout_reference : Option String

-- An earlier request with the same key: it is returned if it asks for the same.
unfoldable pub replay_request :
    AuthenticatedUser → CreatePayoutRequestInput → PayoutRequest → Db → Handled (PayoutRequest × Db)
replay_request actor input existing db =
    if existing.vault_id == input.vault_id
      && existing.milestone_id == input.milestone_id
      && existing.school_id == input.school_id
      && existing.requested_by == actor.user_id
      && eqb_ℤ existing.amount.amount_minor input.amount_minor
      && eq_currency existing.amount.currency input.currency
    then ok (existing, db)
    else err (PayoutError.conflict "idempotency key already used for a different payout request")

-- The audit log of a new request.
unfoldable pub request_log :
    Env → AuthenticatedUser → SavingsVault → Milestone → School → PayoutRequest → AuditLog
request_log env actor vault milestone school p =
    record (into_log env (payout_requested env actor.user_id p)) {
      metadata = Json.object (
          member "vault_id" (Json.uuid vault.id) (
            member "milestone_id" (Json.uuid milestone.id) (
              member "school_id" (Json.uuid school.id) (
                member "school_verification_status"
                  (Json.string (as_str school.verification_status))
                  (member "amount_minor" (Json.number p.amount.amount_minor) (
                    member "currency" (Json.string (currency_as_str p.amount.currency))
                      (member "status" (Json.string (as_str p.status)) end)))))));
    }

-- The vault, which the actor has to own, the milestone and the school of a request.
unfoldable pub read_request :
    Env
    → AuthenticatedUser
    → CreatePayoutRequestInput
    → Db
    → Handled (SavingsVault × Milestone × School)
read_request env actor input db = do
  found_vault ← map_error from_persistence (find_vault env input.vault_id db)
  vault ← ok_or found_vault PayoutError.not_found
  ensure (vault.owner_user_id == actor.user_id) PayoutError.forbidden
  found_milestone ← map_error from_persistence (find_milestone env input.milestone_id db)
  milestone ← ok_or found_milestone PayoutError.not_found
  found_school ← map_error from_persistence (find_school env input.school_id db)
  school ← ok_or found_school PayoutError.not_found
  ok (vault, milestone, school)

-- The rules of a request, in order.
unfoldable pub check_request :
    CreatePayoutRequestInput → SavingsVault → Milestone → School → Handled (Unit {0})
check_request input vault milestone school = do
  checked (validate_milestone_association milestone.vault_id input.vault_id)
  checked (validate_milestone_payable milestone.status)
  checked (validate_currency_match (currency_as_str input.currency) vault.currency)
  checked (validate_school_verified school.verification_status)
  checked (
      ensure_available_funds vault.total_contributed_minor vault.total_locked_minor
        vault.total_disbursed_minor input.amount_minor)

unfoldable pub new_request :
    Env → AuthenticatedUser → CreatePayoutRequestInput → Money → PayoutRequest
new_request env actor input amount = record {
  id = env.new_v4 NewId.entity;
  vault_id = input.vault_id;
  milestone_id = input.milestone_id;
  school_id = input.school_id;
  requested_by = actor.user_id;
  amount = amount;
  idempotency_key = some input.idempotency_key;
  status = PayoutStatus.pending;
  review_notes = none;
  external_payout_reference = none;
  reviewed_by = none;
  reviewed_at = none;
  created_at = env.utc_now;
  updated_at = env.utc_now;
}

-- A new request: the checks against the vault, the milestone and the school, and the workflow.
unfoldable pub submit_request :
    Env → AuthenticatedUser → CreatePayoutRequestInput → Db → Handled (PayoutRequest × Db)
submit_request env actor input db = do
  (vault, milestone, school) ← read_request env actor input db
  check_request input vault milestone school
  amount ← map_error PayoutError.validation (money_new input.amount_minor input.currency)
  let p = new_request env actor input amount
  map_error from_persistence
      (create_request_with_audit env p (request_log env actor vault milestone school p) db)

unfoldable pub replay_or_submit :
    Env
    → AuthenticatedUser
    → CreatePayoutRequestInput
    → Option PayoutRequest
    → Db
    → Handled (PayoutRequest × Db)
replay_or_submit env actor input (some existing) db = replay_request actor input existing db
replay_or_submit env actor input none db = submit_request env actor input db

unfoldable pub create_payout_request :
    Env → AuthenticatedUser → CreatePayoutRequestInput → Db → Handled (PayoutRequest × Db)
create_payout_request env actor input db = do
  checked (validate_requester_role actor.role)
  checked (validate_payout_amount input.amount_minor)
  existing ← map_error from_persistence (find_payout_by_key env input.idempotency_key db)
  replay_or_submit env actor input existing db

-- The actor is the given user, or a platform admin.
abbrev pub may_see : AuthenticatedUser → ℕ → Bool
may_see actor user_id = actor.user_id == user_id || eq_enum actor.role UserRole.platform_admin

unfoldable pub get_payout : Env → AuthenticatedUser → ℕ → Db → Handled PayoutRequest
get_payout env actor payout_id db = do
  found ← map_error from_persistence (find_payout env payout_id db)
  p ← ok_or found PayoutError.not_found
  ensure (may_see actor p.requested_by) PayoutError.forbidden
  ok p

unfoldable pub list_vault_payouts : Env → AuthenticatedUser → ℕ → Db → Handled (List PayoutRequest)
list_vault_payouts env actor vault_id db = do
  found ← map_error from_persistence (find_vault env vault_id db)
  vault ← ok_or found PayoutError.not_found
  ensure (may_see actor vault.owner_user_id) PayoutError.forbidden
  map_error from_persistence (list_payouts env vault_id db)
