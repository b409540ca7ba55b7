-- ===== src/Notifications/Entities.antt =====
-- Notifications, preferences and emails (crates/domain/src/persistence.rs,
-- crates/application/src/notifications.rs), and what their handlers use from outside.
use edustell.Common.{ℕ, String, Option, Bool, ℤ, Result}
use edustell.Domain.Json.{Json}
use edustell.Domain.Status.{NotificationType, NotificationStatus}
use edustell.Store.Env.{Env, PersistenceError, SqlxError}

pub record Notification : Type 0 where
  pub id : ℕ
  pub user_id : ℕ
  pub notification_type : NotificationType
  pub title : String
  pub body : String
  pub metadata : Json
  pub status : NotificationStatus
  pub read_at : Option ℕ
  pub created_at : ℕ
  pub updated_at : ℕ

pub record NotificationPreference : Type 0 where
  pub id : ℕ
  pub user_id : ℕ
  pub notification_type : NotificationType
  pub in_app_enabled : Bool
  pub email_enabled : Bool
  pub created_at : ℕ
  pub updated_at : ℕ

pub data NotificationError : Type 0 where
  validation repository : String → NotificationError
  forbidden not_found : NotificationError

unfoldable pub from_persistence : PersistenceError → NotificationError
from_persistence PersistenceError.not_found = NotificationError.not_found
from_persistence (PersistenceError.conflict message) = NotificationError.validation message
from_persistence (PersistenceError.validation message) = NotificationError.validation message
from_persistence (PersistenceError.repository message) = NotificationError.repository message

pub record EmailMessage : Type 0 where
  pub to_user_id : ℕ
  pub notification_type : NotificationType
  pub subject : String
  pub body : String
  pub metadata : Json

pub data ApplicationEvent : Type 0 where
  contribution_received : ℕ → ℕ → ℕ → ℤ → String → ApplicationEvent
  milestone_due_soon : ℕ → ℕ → ℕ → String → String → ApplicationEvent
  milestone_underfunded : ℕ → ℕ → ℕ → ℤ → String → String → ApplicationEvent
  payout_approved payout_completed scholarship_awarded : ℕ → ℕ → ℕ → ℤ → String → ApplicationEvent
  kyc_action_required : ℕ → String → ApplicationEvent

pub data NotificationStatement : Type 0 where
  insert_notification select_notification select_notifications : NotificationStatement
  update_notification upsert_preference select_preference : NotificationStatement
  select_preferences : NotificationStatement

-- An `EmailSender` may refuse a message.
pub record NotificationEnv : Type 0 where
  pub env : Env
  pub failure : NotificationStatement → Option SqlxError
  pub send : EmailMessage → Result NotificationError (Unit {0})
