-- ===== src/Application/Savings.antt =====
-- The handlers of plans, milestones and contributors (crates/application/src/savings.rs). The row is
-- written first and the audit log after it, each in a transaction of its own.
pub mod Outcomes
use edustell.Common.{
  ℕ, String, Option, none, some, Bool, not, Result, ok, err, map_error, ok_or, pos, ℤ, ◌==◌, str_eq,
  trim, is_empty, if◌then◌else◌,
}
use edustell.Common.Actions.{Action, attempt, pure, guard, ◌>>=◌, ◌>>◌}
use edustell.Domain.StringEnum.{eq_enum}
use edustell.Domain.Money.{Currency, currency_as_str, Money, money_new}
use edustell.Domain.Auth.{UserRole, user_role_enum, AuthenticatedUser}
use edustell.Domain.Status.{PlanStatus, PayoutType, MilestoneStatus}
use edustell.Domain.Records.{SavingsPlan, Milestone, VaultContributor}
use edustell.Audit.Event.{AuditEvent}
use edustell.Audit.Profiles.{plan_created, milestone_created, contributor_added}
use edustell.Audit.Service.{record_event}
use edustell.Store.Env.{Env, NewId, PersistenceError, Stored}
use edustell.Store.Contributions.{find_vault}
use edustell.Store.Scholarships.{find_child}
use edustell.Store.Savings.{
  SavingsDb, Committed, create_plan_row, create_milestone_row, add_contributor_row,
}

pub data SavingsError : Type 0 where
  validation repository : String → SavingsError
  forbidden not_found : SavingsError

unfoldable pub from_persistence : PersistenceError → SavingsError
from_persistence PersistenceError.not_found = SavingsError.not_found
from_persistence (PersistenceError.conflict message) = SavingsError.validation message
from_persistence (PersistenceError.validation message) = SavingsError.validation message
from_persistence (PersistenceError.repository message) = SavingsError.repository message

pub record CreatePlanInput : Type 0 where
  pub child_profile_id : ℕ
  pub name : String
  pub description : Option String
  pub target_amount_minor : ℤ
  pub currency : Currency

pub record CreateMilestoneInput : Type 0 where
  pub vault_id : ℕ
  pub title : String
  pub description : Option String
  pub due_date : ℕ
  pub target_amount_minor : ℤ
  pub currency : Currency
  pub payout_type : PayoutType

pub record AddContributorInput : Type 0 where
  pub vault_id : ℕ
  pub contributor_user_id : ℕ
  pub role_label : String

abbrev pub Saving : Type 0 → Type 0
Saving A = Action SavingsDb SavingsError A

-- A query of the repositories, and a statement that writes.
abbrev pub query : {A : Type 0} → (SavingsDb → Stored A) → Saving A
query read s = (map_error from_persistence (read s), s)

abbrev pub written : {A : Type 0} → Committed A → SavingsDb → Result SavingsError A × SavingsDb
written (err e) s = (err (from_persistence e), s)
written (ok (saved, s')) s = (map_error from_persistence saved, s')

abbrev pub write : {A : Type 0} → (SavingsDb → Committed A) → Saving A
write statement s = written (statement s) s

unfoldable pub record_audit : Env → AuditEvent → Saving (Unit {0})
record_audit env event s = elim (record_event env event s.db) [
  | err message ↦ (err (SavingsError.repository message), s)
  | ok db' ↦ (ok tt, record s { db = db' })
]

unfoldable pub sanitize : String → Option String
sanitize item = if is_empty (trim item) then none else some (trim item)

unfoldable pub sanitize_optional : Option String → Option String
sanitize_optional none = none
sanitize_optional (some item) = sanitize item

unfoldable pub save_plan : Env → AuthenticatedUser → SavingsPlan → Saving SavingsPlan
save_plan env actor plan = do
  saved ← write (create_plan_row env plan)
  record_audit env (plan_created env actor.user_id saved)
  pure saved

unfoldable pub new_plan : Env → AuthenticatedUser → CreatePlanInput → Money → SavingsPlan
new_plan env actor input target_amount = record {
  id = env.new_v4 NewId.entity;
  child_profile_id = input.child_profile_id;
  owner_user_id = actor.user_id;
  name = trim input.name;
  description = sanitize_optional input.description;
  target_amount = target_amount;
  status = PlanStatus.draft;
  created_at = env.utc_now;
  updated_at = env.utc_now;
}

unfoldable pub create_plan : Env → AuthenticatedUser → CreatePlanInput → Saving SavingsPlan
create_plan env actor input = do
  guard (eq_enum actor.role UserRole.parent) SavingsError.forbidden
  guard (not (is_empty (trim input.name))) (SavingsError.validation "name is required")
  found ← query (λ s. find_child env input.child_profile_id s.db)
  child ← attempt (ok_or found SavingsError.not_found)
  guard (child.owner_user_id == actor.user_id) SavingsError.forbidden
  target_amount ←
      attempt
        (map_error SavingsError.validation (money_new input.target_amount_minor input.currency))
  save_plan env actor (new_plan env actor input target_amount)

unfoldable pub save_milestone :
    Env → (ℕ → String) → AuthenticatedUser → Milestone → Saving Milestone
save_milestone env date_text actor milestone = do
  saved ← write (create_milestone_row env milestone)
  record_audit env (milestone_created env date_text actor.user_id saved)
  pure saved

unfoldable pub create_milestone :
    Env → (ℕ → String) → AuthenticatedUser → CreateMilestoneInput → Saving Milestone
create_milestone env date_text actor input = do
  found ← query (λ s. find_vault env input.vault_id s.db)
  vault ← attempt (ok_or found SavingsError.not_found)
  guard (vault.owner_user_id == actor.user_id) SavingsError.forbidden
  guard (not (is_empty (trim input.title))) (SavingsError.validation "title is required")
  guard (str_eq vault.currency (currency_as_str input.currency))
      (SavingsError.validation "milestone currency must match vault")
  target_amount ←
      attempt
        (map_error SavingsError.validation (money_new input.target_amount_minor input.currency))
  funded_amount ←
      attempt (map_error SavingsError.validation (money_new (pos 0) (Currency.fiat vault.currency)))
  save_milestone env date_text actor (record {
    id = env.new_v4 NewId.entity;
    vault_id = input.vault_id;
    title = trim input.title;
    description = sanitize_optional input.description;
    due_date = input.due_date;
    target_amount = target_amount;
    funded_amount = funded_amount;
    payout_type = input.payout_type;
    status = MilestoneStatus.planned;
    created_at = env.utc_now;
    updated_at = env.utc_now;
  })

unfoldable pub save_contributor :
    Env → AuthenticatedUser → VaultContributor → Saving VaultContributor
save_contributor env actor contributor = do
  saved ← write (add_contributor_row env contributor)
  record_audit env (contributor_added env actor.user_id saved)
  pure saved

unfoldable pub add_contributor :
    Env → AuthenticatedUser → AddContributorInput → Saving VaultContributor
add_contributor env actor input = do
  found ← query (λ s. find_vault env input.vault_id s.db)
  vault ← attempt (ok_or found SavingsError.not_found)
  guard (vault.owner_user_id == actor.user_id) SavingsError.forbidden
  guard (not (is_empty (trim input.role_label))) (SavingsError.validation "role_label is required")
  save_contributor env actor (record {
    id = env.new_v4 NewId.entity;
    vault_id = input.vault_id;
    contributor_user_id = input.contributor_user_id;
    role_label = trim input.role_label;
    created_at = env.utc_now;
    updated_at = env.utc_now;
  })
