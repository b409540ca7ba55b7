-- ===== src/Application/Contributions.antt =====
-- The handlers of contributions (crates/application/src/contributions.rs). A handler reads the
-- repositories first and then calls the workflow, which is one transaction. The settlement is in
-- these two parts, so that another request can come between them.
pub mod Safety
use edustell.Common.{
  ℕ, String, Option, none, some, not, ◌||◌, List, Result, ok, err, ensure, map_error, ◌>>=◌, ◌>>◌,
  ok_or, ℤ, eqb_ℤ, is_some, ◌==◌, if◌then◌else◌, any,
}
use edustell.Domain.StringEnum.{as_str, eq_enum}
use edustell.Domain.Money.{Currency, currency_as_str, eq_currency, money_new}
use edustell.Domain.Json.{Json, end, member}
use edustell.Domain.Auth.{UserRole, user_role_enum, AuthenticatedUser}
use edustell.Domain.Status.{
  ContributionStatus, contribution_status_enum, ContributionSourceType,
  contribution_source_type_enum,
}
use edustell.Domain.Records.{AuditLog, Contribution}
use edustell.Domain.Contributions.{
  ContributionRuleViolation, ContributionTransition, display, can_settle_contribution,
  can_view_or_fund_vault, validate_contribution_amount, validate_contribution_currency,
  validate_transition,
}
use edustell.Audit.Event.{into_log}
use edustell.Audit.Events.{contribution_recorded, contribution_status_changed}
use edustell.Store.Env.{Env, NewId, PersistenceError}
use edustell.Store.Db.{Db, contributor_key}
use edustell.Store.Contributions.{
  find_vault, list_contributors, find_contribution, find_contribution_by_key, list_contributions,
  create_intent_with_audit, settle_with_audit,
}

pub data ContributionError : Type 0 where
  validation conflict repository : String → ContributionError
  forbidden not_found : ContributionError

unfoldable pub from_persistence : PersistenceError → ContributionError
from_persistence PersistenceError.not_found = ContributionError.not_found
from_persistence (PersistenceError.conflict message) = ContributionError.conflict message
from_persistence (PersistenceError.validation message) = ContributionError.validation message
from_persistence (PersistenceError.repository message) = ContributionError.repository message

unfoldable pub from_violation : ContributionRuleViolation → ContributionError
from_violation ContributionRuleViolation.unauthorized_contributor = ContributionError.forbidden
from_violation ContributionRuleViolation.unauthorized_settlement_actor = ContributionError.forbidden
from_violation (ContributionRuleViolation.invalid_status_transition from to) =
    ContributionError.conflict
      (display (ContributionRuleViolation.invalid_status_transition from to))
from_violation ContributionRuleViolation.amount_must_be_positive =
    ContributionError.validation (display ContributionRuleViolation.amount_must_be_positive)
from_violation ContributionRuleViolation.currency_mismatch =
    ContributionError.validation (display ContributionRuleViolation.currency_mismatch)

abbrev pub Handled : Type 0 → Type 0
Handled A = Result ContributionError A

pub record RecordContributionIntentInput : Type 0 where
  pub vault_id : ℕ
  pub amount_minor : ℤ
  pub currency : Currency
  pub source_type : ContributionSourceType
  pub external_reference : Option String
  pub idempotency_key : String

pub record SettlementInput : Type 0 where
  pub contribution_id : ℕ
  pub external_reference : Option String

unfoldable pub ensure_same_intent :
    Contribution → ℕ → RecordContributionIntentInput → Handled (Unit {0})
ensure_same_intent existing actor_user_id input =
    if not (existing.vault_id == input.vault_id)
      || not (existing.contributor_user_id == actor_user_id)
      || not (eqb_ℤ existing.amount.amount_minor input.amount_minor)
      || not (eq_currency existing.amount.currency input.currency)
      || not (eq_enum existing.source_type input.source_type)
    then err (
        ContributionError.conflict
          "idempotency key already used for a different contribution intent")
    else ok tt

-- Whether the actor may see and fund the vault; the vault's currency comes with it.
unfoldable pub check_vault_access : Env → AuthenticatedUser → ℕ → Db → Handled String
check_vault_access env actor vault_id db = do
  found ← map_error from_persistence (find_vault env vault_id db)
  vault ← ok_or found ContributionError.not_found
  contributors ← map_error from_persistence (list_contributors env vault_id db)
  map_error from_violation (
      can_view_or_fund_vault actor.role actor.user_id vault.owner_user_id
        (any (λ item. item.contributor_user_id == actor.user_id) contributors))
  ok vault.currency

-- The audit log of a new intent.
unfoldable pub intent_log : Env → AuthenticatedUser → Contribution → String → AuditLog
intent_log env actor c idempotency_key =
    record (into_log env (contribution_recorded env actor.user_id c)) {
      metadata = Json.object (
          member "vault_id" (Json.uuid c.vault_id) (
            member "contributor_user_id" (Json.uuid c.contributor_user_id) (
              member "amount_minor" (Json.number c.amount.amount_minor) (
                member "currency" (Json.string (currency_as_str c.amount.currency)) (
                  member "source_type" (Json.string (as_str c.source_type)) (
                    member "status" (Json.string (as_str c.status))
                      (member "idempotency_key" (Json.string idempotency_key) end)))))));
    }

-- A new intent: the contribution is built, and the workflow called.
unfoldable pub submit_intent :
    Env → AuthenticatedUser → RecordContributionIntentInput → Db → Handled (Contribution × Db)
submit_intent env actor input db = do
  amount ← map_error ContributionError.validation (money_new input.amount_minor input.currency)
  let c : Contribution = record {
    id = env.new_v4 NewId.entity;
    vault_id = input.vault_id;
    contributor_user_id = actor.user_id;
    amount = amount;
    status = ContributionStatus.pending;
    source_type = input.source_type;
    external_reference = input.external_reference;
    idempotency_key = some input.idempotency_key;
    created_at = env.utc_now;
    updated_at = env.utc_now;
  }
  map_error from_persistence
      (create_intent_with_audit env c (intent_log env actor c input.idempotency_key) db)

unfoldable pub replay_or_submit :
    Env
    → AuthenticatedUser
    → RecordContributionIntentInput
    → Option Contribution
    → Db
    → Handled (Contribution × Db)
replay_or_submit env actor input (some existing) db = do
  ensure_same_intent existing actor.user_id input
  ok (existing, db)
replay_or_submit env actor input none db = submit_intent env actor input db

unfoldable pub record_contribution_intent :
    Env → AuthenticatedUser → RecordContributionIntentInput → Db → Handled (Contribution × Db)
record_contribution_intent env actor input db = do
  ensure (eq_enum actor.role UserRole.parent || eq_enum actor.role UserRole.contributor)
      ContributionError.forbidden
  map_error from_violation (validate_contribution_amount input.amount_minor)
  currency ← check_vault_access env actor input.vault_id db
  map_error from_violation
      (validate_contribution_currency (currency_as_str input.currency) currency)
  existing ← map_error from_persistence (find_contribution_by_key env input.idempotency_key db)
  replay_or_submit env actor input existing db

unfoldable pub list_vault_contributions :
    Env → AuthenticatedUser → ℕ → Db → Handled (List Contribution)
list_vault_contributions env actor vault_id db = do
  check_vault_access env actor vault_id db
  map_error from_persistence (list_contributions env vault_id db)

-- What the first part of a settlement decides: the contribution is there already, or the workflow
-- is called with the target status and the audit log.
pub data SettlementPlan : Type 0 where
  settled : Contribution → SettlementPlan
  settle : Contribution → ContributionStatus → AuditLog → SettlementPlan

unfoldable pub plan_settlement :
    Env
    → AuthenticatedUser
    → SettlementInput
    → ContributionTransition
    → String
    → Db
    → Handled SettlementPlan
plan_settlement env actor input transition audit_action db = do
  map_error from_violation (can_settle_contribution actor.role)
  found ← map_error from_persistence (find_contribution env input.contribution_id db)
  current ← ok_or found ContributionError.not_found
  target ← map_error from_violation (validate_transition current.status transition)
  let log = into_log env (
      contribution_status_changed env actor.user_id current (as_str target)
        (is_some input.external_reference))
  ok (
      if eq_enum current.status target
      then SettlementPlan.settled current
      else SettlementPlan.settle current target (record log { action = audit_action }))

unfoldable pub run_settlement :
    Env → AuthenticatedUser → SettlementInput → SettlementPlan → Db → Handled (Contribution × Db)
run_settlement env actor input (SettlementPlan.settled current) db = ok (current, db)
run_settlement env actor input (SettlementPlan.settle current target log) db = do
  (result, db') ← map_error from_persistence (
      settle_with_audit env current.id (as_str target) actor.user_id input.external_reference log
        db)
  ok (result.contribution, db')

unfoldable pub settle_contribution :
    Env
    → AuthenticatedUser
    → SettlementInput
    → ContributionTransition
    → String
    → Db
    → Handled (Contribution × Db)
settle_contribution env actor input transition audit_action db = do
  plan ← plan_settlement env actor input transition audit_action db
  run_settlement env actor input plan db

unfoldable pub confirm_contribution :
    Env → AuthenticatedUser → SettlementInput → Db → Handled (Contribution × Db)
confirm_contribution env actor input =
    settle_contribution env actor input ContributionTransition.confirm "contribution.confirmed"

unfoldable pub fail_contribution :
    Env → AuthenticatedUser → SettlementInput → Db → Handled (Contribution × Db)
fail_contribution env actor input =
    settle_contribution env actor input ContributionTransition.fail "contribution.failed"

unfoldable pub reverse_contribution :
    Env → AuthenticatedUser → SettlementInput → Db → Handled (Contribution × Db)
reverse_contribution env actor input =
    settle_contribution env actor input ContributionTransition.reverse "contribution.reversed"
