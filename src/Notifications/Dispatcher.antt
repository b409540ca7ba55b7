-- ===== src/Notifications/Dispatcher.antt =====
-- `NotificationEventDispatcher` (crates/application/src/notifications.rs): the events of the other
-- parts. A dispatcher that reads a vault does so in the database of the other parts.
use edustell.Common.{ℕ, String, Option, ℤ, map_error, ok_or}
use edustell.Common.Actions.{attempt, ◌>>=◌}
use edustell.Domain.Money.{currency_as_str}
use edustell.Domain.Records.{Contribution, PayoutRequest, ScholarshipApplication, ScholarshipAward}
use edustell.Store.Db.{Db}
use edustell.Store.Contributions.{find_vault}
use edustell.Notifications.Entities.{
  Notification, NotificationError, NotificationEnv, ApplicationEvent, from_persistence,
}
use edustell.Notifications.Repository.{Notifying}
use edustell.Notifications.Handlers.{handle_application_event}

abbrev pub Dispatched : Type 0
Dispatched = Notifying (Option Notification)

unfoldable pub contribution_received_for_vault_owner :
    NotificationEnv → Contribution → Db → Dispatched
contribution_received_for_vault_owner env contribution db = do
  found ← attempt (map_error from_persistence (find_vault env.env contribution.vault_id db))
  vault ← attempt (ok_or found NotificationError.not_found)
  handle_application_event env (
      ApplicationEvent.contribution_received vault.owner_user_id contribution.id
        contribution.vault_id contribution.amount.amount_minor
        (currency_as_str contribution.amount.currency))

unfoldable pub payout_approved : NotificationEnv → PayoutRequest → Dispatched
payout_approved env payout = handle_application_event env (
    ApplicationEvent.payout_approved payout.requested_by payout.id payout.vault_id
      payout.amount.amount_minor (currency_as_str payout.amount.currency))

unfoldable pub payout_completed : NotificationEnv → PayoutRequest → Dispatched
payout_completed env payout = handle_application_event env (
    ApplicationEvent.payout_completed payout.requested_by payout.id payout.vault_id
      payout.amount.amount_minor (currency_as_str payout.amount.currency))

unfoldable pub scholarship_awarded :
    NotificationEnv → ScholarshipApplication → ScholarshipAward → Dispatched
scholarship_awarded env application award = handle_application_event env (
    ApplicationEvent.scholarship_awarded application.applicant_user_id award.id application.id
      award.amount.amount_minor (currency_as_str award.amount.currency))

unfoldable pub milestone_due_soon : NotificationEnv → ℕ → ℕ → ℕ → String → String → Dispatched
milestone_due_soon env recipient_user_id milestone_id vault_id due_date title =
    handle_application_event env
      (ApplicationEvent.milestone_due_soon recipient_user_id milestone_id vault_id due_date title)

unfoldable pub milestone_underfunded :
    NotificationEnv → ℕ → ℕ → ℕ → ℤ → String → String → Dispatched
milestone_underfunded env recipient_user_id milestone_id vault_id shortfall_minor currency title =
    handle_application_event env (
      ApplicationEvent.milestone_underfunded recipient_user_id milestone_id vault_id shortfall_minor
        currency title)

unfoldable pub kyc_action_required : NotificationEnv → ℕ → String → Dispatched
kyc_action_required env recipient_user_id reason =
    handle_application_event env (ApplicationEvent.kyc_action_required recipient_user_id reason)
