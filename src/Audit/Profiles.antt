-- ===== src/Audit/Profiles.antt =====
-- The events of schools, identity checks, savings plans, milestones and contributors
-- (crates/application/src/audit.rs). The text of a date is chrono's.
use edustell.Common.{ℕ, String, Option}
use edustell.Domain.StringEnum.{as_str}
use edustell.Domain.Money.{currency_as_str}
use edustell.Domain.Json.{Json, end, member, optional_string}
use edustell.Domain.Status.{
  school_verification_status_enum, school_payout_method_enum, kyc_status_enum, plan_status_enum,
  payout_type_enum,
}
use edustell.Domain.Records.{School, KycProfile, SavingsPlan, Milestone, VaultContributor}
use edustell.Store.Env.{Env}
use edustell.Audit.Event.{AuditEntityType, AuditAction, AuditEvent, new_event}

unfoldable pub school_verified : Env → ℕ → School → AuditEvent
unfolding new_event
school_verified env actor school =
    new_event env actor AuditEntityType.school school.id AuditAction.school_verified (
      Json.object (
        member "verification_status" (Json.string (as_str school.verification_status)) (
          member "country" (Json.string school.country)
            (member "payout_method" (Json.string (as_str school.payout_method)) end))))

unfoldable pub kyc_status_changed : Env → ℕ → KycProfile → Option String → AuditEvent
unfolding new_event
kyc_status_changed env actor profile previous_status =
    new_event env actor AuditEntityType.kyc_profile profile.id AuditAction.kyc_status_changed (
      Json.object (
        member "user_id" (Json.uuid profile.user_id) (
          member "from_status" (optional_string previous_status)
            (member "to_status" (Json.string (as_str profile.status)) end))))

unfoldable pub plan_created : Env → ℕ → SavingsPlan → AuditEvent
unfolding new_event
plan_created env actor plan =
    new_event env actor AuditEntityType.savings_plan plan.id AuditAction.plan_created (
      Json.object (
        member "child_profile_id" (Json.uuid plan.child_profile_id) (
          member "owner_user_id" (Json.uuid plan.owner_user_id) (
            member "target_amount_minor" (Json.number plan.target_amount.amount_minor) (
              member "currency" (Json.string (currency_as_str plan.target_amount.currency))
                (member "status" (Json.string (as_str plan.status)) end))))))

unfoldable pub milestone_created : Env → (ℕ → String) → ℕ → Milestone → AuditEvent
unfolding new_event
milestone_created env date_text actor milestone =
    new_event env actor AuditEntityType.milestone milestone.id AuditAction.milestone_created (
      Json.object (
        member "vault_id" (Json.uuid milestone.vault_id) (
          member "due_date" (Json.string (date_text milestone.due_date)) (
            member "target_amount_minor" (Json.number milestone.target_amount.amount_minor) (
              member "currency" (Json.string (currency_as_str milestone.target_amount.currency))
                (member "payout_type" (Json.string (as_str milestone.payout_type)) end))))))

unfoldable pub contributor_added : Env → ℕ → VaultContributor → AuditEvent
unfolding new_event
contributor_added env actor contributor =
    new_event env actor AuditEntityType.vault_contributor contributor.id
      AuditAction.contributor_added
      (Json.object (
        member "vault_id" (Json.uuid contributor.vault_id) (
          member "contributor_user_id" (Json.uuid contributor.contributor_user_id)
            (member "role_label" (Json.string contributor.role_label) end))))
