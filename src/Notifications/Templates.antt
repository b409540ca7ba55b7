-- ===== src/Notifications/Templates.antt =====
-- What a notification says (crates/application/src/notifications.rs).
pub mod Digits
use Prim.Native.String.{◌++◌, char_at}
use edustell.Common.{ℕ, zero, suc, ◌+◌, ◌/◌, ◌%◌, String, ℤ, pos, negsuc, ltb, if◌then◌else◌}
use edustell.Domain.Json.{Json, end, member}
use edustell.Domain.Status.{NotificationType}
use edustell.Notifications.Entities.{ApplicationEvent}

abbrev pub digit : ℕ → String
digit n = String.◌∷◌ (char_at "0123456789" n) String.[]

-- The decimal digits of a number: the fuel is their number, at most 20 for what an `i64` holds.
unfoldable pub decimal : ℕ → ℕ → String
decimal zero n = digit (n % 10)
decimal (suc fuel) n =
    let high = decimal fuel (n / 10) in if ltb n 10 then digit n else high ++ digit (n % 10)

-- `Display` of an `i64`
unfoldable pub display_i64 : ℤ → String
unfolding decimal
display_i64 (pos n) = decimal 20 n
display_i64 (negsuc n) = "-" ++ decimal 20 (n + 1)

pub record RenderedNotificationTemplate : Type 0 where
  pub notification_type : NotificationType
  pub title : String
  pub body : String
  pub metadata : Json

-- An event of an amount, with its two identifiers.
abbrev money_metadata : String → ℕ → String → ℕ → ℤ → String → Json
money_metadata first_name first second_name second amount_minor currency = Json.object (
    member first_name (Json.uuid first) (
      member second_name (Json.uuid second) (
        member "amount_minor" (Json.number amount_minor)
          (member "currency" (Json.string currency) end))))

unfoldable pub render_notification_template : ApplicationEvent → RenderedNotificationTemplate
unfolding display_i64
render_notification_template
      (ApplicationEvent.contribution_received _ contribution_id vault_id amount_minor currency) =
    record {
      notification_type = NotificationType.contribution_received;
      title = "Contribution received";
      body =
          "A contribution of "
          ++ (display_i64 amount_minor ++ (" " ++ (currency ++ " was received.")));
      metadata =
          money_metadata "contribution_id" contribution_id "vault_id" vault_id amount_minor
            currency;
    }
render_notification_template
      (ApplicationEvent.milestone_due_soon _ milestone_id vault_id due_date title) =
    record {
      notification_type = NotificationType.milestone_due_soon;
      title = "Milestone due soon";
      body = "Milestone \"" ++ (title ++ ("\" is due on " ++ (due_date ++ ".")));
      metadata = Json.object (
          member "milestone_id" (Json.uuid milestone_id) (
            member "vault_id" (Json.uuid vault_id) (
              member "due_date" (Json.string due_date)
                (member "milestone_title" (Json.string title) end))));
    }
render_notification_template
      (ApplicationEvent.milestone_underfunded _ milestone_id vault_id shortfall_minor currency
        title) =
    record {
      notification_type = NotificationType.milestone_underfunded;
      title = "Milestone underfunded";
      body =
          "Milestone \""
          ++ (title
              ++ ("\" is short by "
                  ++ (display_i64 shortfall_minor ++ (" " ++ (currency ++ ".")))));
      metadata = Json.object (
          member "milestone_id" (Json.uuid milestone_id) (
            member "vault_id" (Json.uuid vault_id) (
              member "shortfall_minor" (Json.number shortfall_minor) (
                member "currency" (Json.string currency)
                  (member "milestone_title" (Json.string title) end)))));
    }
render_notification_template
      (ApplicationEvent.payout_approved _ payout_id vault_id amount_minor currency) =
    record {
      notification_type = NotificationType.payout_approved;
      title = "Payout approved";
      body =
          "Payout of "
          ++ (display_i64 amount_minor ++ (" " ++ (currency ++ " has been approved.")));
      metadata = money_metadata "payout_id" payout_id "vault_id" vault_id amount_minor currency;
    }
render_notification_template
      (ApplicationEvent.payout_completed _ payout_id vault_id amount_minor currency) =
    record {
      notification_type = NotificationType.payout_completed;
      title = "Payout completed";
      body = "Payout of " ++ (display_i64 amount_minor ++ (" " ++ (currency ++ " has completed.")));
      metadata = money_metadata "payout_id" payout_id "vault_id" vault_id amount_minor currency;
    }
render_notification_template
      (ApplicationEvent.scholarship_awarded _ award_id application_id amount_minor currency) =
    record {
      notification_type = NotificationType.scholarship_awarded;
      title = "Scholarship awarded";
      body =
          "A scholarship award of "
          ++ (display_i64 amount_minor ++ (" " ++ (currency ++ " has been approved.")));
      metadata =
          money_metadata "award_id" award_id "application_id" application_id amount_minor currency;
    }
render_notification_template (ApplicationEvent.kyc_action_required _ reason) = record {
  notification_type = NotificationType.kyc_action_required;
  title = "KYC action required";
  body = reason;
  metadata = Json.object (member "reason" (Json.string reason) end);
}

abbrev pub event_recipient : ApplicationEvent → ℕ
event_recipient (ApplicationEvent.contribution_received recipient_user_id _ _ _ _) =
    recipient_user_id
event_recipient (ApplicationEvent.milestone_due_soon recipient_user_id _ _ _ _) = recipient_user_id
event_recipient (ApplicationEvent.milestone_underfunded recipient_user_id _ _ _ _ _) =
    recipient_user_id
event_recipient (ApplicationEvent.payout_approved recipient_user_id _ _ _ _) = recipient_user_id
event_recipient (ApplicationEvent.payout_completed recipient_user_id _ _ _ _) = recipient_user_id
event_recipient (ApplicationEvent.scholarship_awarded recipient_user_id _ _ _ _) = recipient_user_id
event_recipient (ApplicationEvent.kyc_action_required recipient_user_id _) = recipient_user_id
