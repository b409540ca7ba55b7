-- ===== src/Audit/Events.antt =====
-- The events of contributions, payouts and scholarship decisions (crates/application/src/audit.rs).
use edustell.Common.{
  ℕ, String, Bool, not, Option, none, some, str_eq, is_empty, is_some, if◌then◌else◌,
}
use edustell.Domain.StringEnum.{as_str}
use edustell.Domain.Money.{currency_as_str}
use edustell.Domain.Json.{Json, end, member}
use edustell.Domain.Status.{
  contribution_status_enum, contribution_source_type_enum, payout_status_enum,
  scholarship_award_status_enum,
}
use edustell.Domain.Records.{Contribution, PayoutRequest, ScholarshipAward, ScholarshipPool}
use edustell.Store.Env.{Env}
use edustell.Audit.Event.{AuditEntityType, AuditAction, AuditEvent, new_event}

unfoldable pub contribution_recorded : Env → ℕ → Contribution → AuditEvent
unfolding new_event
contribution_recorded env actor c =
    new_event env actor AuditEntityType.contribution c.id AuditAction.contribution_recorded (
      Json.object (
        member "vault_id" (Json.uuid c.vault_id) (
          member "contributor_user_id" (Json.uuid c.contributor_user_id) (
            member "amount_minor" (Json.number c.amount.amount_minor) (
              member "currency" (Json.string (currency_as_str c.amount.currency)) (
                member "source_type" (Json.string (as_str c.source_type))
                  (member "status" (Json.string (as_str c.status)) end)))))))

unfoldable pub contribution_status_changed : Env → ℕ → Contribution → String → Bool → AuditEvent
unfolding new_event
contribution_status_changed env actor c to_status external_reference_present =
    new_event env actor AuditEntityType.contribution c.id AuditAction.contribution_status_changed (
      Json.object (
        member "vault_id" (Json.uuid c.vault_id) (
          member "from_status" (Json.string (as_str c.status)) (
            member "to_status" (Json.string to_status)
              (member "external_reference_present" (Json.bool external_reference_present) end)))))

unfoldable pub payout_requested : Env → ℕ → PayoutRequest → AuditEvent
unfolding new_event
payout_requested env actor p =
    new_event env actor AuditEntityType.payout_request p.id AuditAction.payout_requested (
      Json.object (
        member "vault_id" (Json.uuid p.vault_id) (
          member "milestone_id" (Json.uuid p.milestone_id) (
            member "school_id" (Json.uuid p.school_id) (
              member "amount_minor" (Json.number p.amount.amount_minor) (
                member "currency" (Json.string (currency_as_str p.amount.currency))
                  (member "status" (Json.string (as_str p.status)) end)))))))

-- `value.as_ref().map(|v| !v.is_empty()).unwrap_or(false)`
abbrev pub is_present : Option String → Bool
is_present none = Bool.false
is_present (some v) = not (is_empty v)

pub decision_action : String → AuditAction
decision_action to_status =
    if str_eq to_status "approved"
    then AuditAction.payout_approved
    else (if str_eq to_status "rejected"
        then AuditAction.payout_rejected
        else AuditAction.payout_status_changed)

unfoldable pub payout_decision : Env → ℕ → PayoutRequest → String → AuditEvent
unfolding new_event decision_action
payout_decision env actor p to_status =
    new_event env actor AuditEntityType.payout_request p.id (decision_action to_status) (
      Json.object (
        member "vault_id" (Json.uuid p.vault_id) (
          member "milestone_id" (Json.uuid p.milestone_id) (
            member "school_id" (Json.uuid p.school_id) (
              member "from_status" (Json.string (as_str p.status)) (
                member "to_status" (Json.string to_status) (
                  member "review_notes_present" (Json.bool (is_present p.review_notes)) (
                    member "external_payout_reference_present"
                      (Json.bool (is_some p.external_payout_reference)) end))))))))

unfoldable pub scholarship_decision : Env → ℕ → ℕ → ScholarshipAward → ScholarshipPool → AuditEvent
unfolding new_event
scholarship_decision env actor application_id award pool =
    new_event env actor AuditEntityType.scholarship_award award.id AuditAction.scholarship_decision
      (Json.object (
        member "application_id" (Json.uuid application_id) (
          member "pool_id" (Json.uuid pool.id) (
            member "decision" (Json.string (as_str award.status)) (
              member "amount_minor" (Json.number award.amount.amount_minor)
                (member "currency" (Json.string (currency_as_str award.amount.currency)) end))))))
