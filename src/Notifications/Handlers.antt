-- ===== src/Notifications/Handlers.antt =====
-- The handlers of notifications (crates/application/src/notifications.rs).
use edustell.Common.{ℕ, Option, none, some, Bool, true, false, List, ◌∷◌, ok, err, ok_or, ◌==◌}
use edustell.Common.Actions.{attempt, pure, guard, ◌>>=◌, ◌>>◌}
use edustell.Domain.StringEnum.{as_str}
use edustell.Domain.Auth.{AuthenticatedUser}
use edustell.Domain.Status.{NotificationType, NotificationStatus, notification_type_enum}
use edustell.Store.Env.{NewId}
use edustell.Notifications.Entities.{
  Notification, NotificationPreference, NotificationError, NotificationEnv, EmailMessage,
  ApplicationEvent,
}
use edustell.Notifications.Templates.{
  RenderedNotificationTemplate, render_notification_template, event_recipient,
}
use edustell.Notifications.Repository.{
  NotificationPreferenceRow, Notifying, create, find_by_id, list_by_user, mark_read, mark_unread,
  find_by_user_and_type, list_preferences_by_user, upsert,
}

unfoldable pub default_preference : NotificationEnv → ℕ → NotificationType → NotificationPreference
default_preference env user_id notification_type = record {
  id = env.env.new_v4 NewId.entity;
  user_id = user_id;
  notification_type = notification_type;
  in_app_enabled = true;
  email_enabled = false;
  created_at = env.env.utc_now;
  updated_at = env.env.utc_now;
}

unfoldable pub new_notification : NotificationEnv → ℕ → RenderedNotificationTemplate → Notification
new_notification env recipient_user_id rendered = record {
  id = env.env.new_v4 NewId.entity;
  user_id = recipient_user_id;
  notification_type = rendered.notification_type;
  title = rendered.title;
  body = rendered.body;
  metadata = rendered.metadata;
  status = NotificationStatus.pending;
  read_at = none;
  created_at = env.env.utc_now;
  updated_at = env.env.utc_now;
}

unfoldable pub email_message : ℕ → RenderedNotificationTemplate → EmailMessage
email_message recipient_user_id rendered = record {
  to_user_id = recipient_user_id;
  notification_type = rendered.notification_type;
  subject = rendered.title;
  body = rendered.body;
  metadata = rendered.metadata;
}

-- `if preference.in_app_enabled`
unfoldable pub store_if : NotificationEnv → Bool → Notification → Notifying (Option Notification)
store_if env false n = pure none
store_if env true n = do stored ← create env n; pure (some stored)

-- `if preference.email_enabled`; a message that the sender takes is one that was sent.
unfoldable pub email_if : NotificationEnv → Bool → EmailMessage → Notifying (Unit {0})
email_if env false message s = (ok tt, s)
email_if env true message s = elim (env.send message) [
  | err e ↦ (err e, s)
  | ok _ ↦ (ok tt, record s { sent = message ∷ s.sent })
]

abbrev pub or_default :
    Option NotificationPreference → NotificationPreference → NotificationPreference
or_default none p = p
or_default (some stored) p = stored

unfoldable pub deliver :
    NotificationEnv
    → ℕ
    → RenderedNotificationTemplate
    → NotificationPreference
    → Notifying (Option Notification)
deliver env recipient_user_id rendered preference = do
  stored ← store_if env preference.in_app_enabled (new_notification env recipient_user_id rendered)
  email_if env preference.email_enabled (email_message recipient_user_id rendered)
  pure stored

unfoldable pub handle_application_event :
    NotificationEnv → ApplicationEvent → Notifying (Option Notification)
handle_application_event env event = do
  found ←
      find_by_user_and_type env (event_recipient event)
        (as_str (render_notification_template event).notification_type)
  deliver env (event_recipient event) (render_notification_template event) (
      or_default found (
        default_preference env (event_recipient event)
          (render_notification_template event).notification_type))

unfoldable pub list_notifications :
    NotificationEnv → AuthenticatedUser → Notifying (List Notification)
list_notifications env actor = list_by_user env actor.user_id

-- The notification of an identifier, if it is the actor's.
unfoldable pub own_notification : NotificationEnv → AuthenticatedUser → ℕ → Notifying (Unit {0})
own_notification env actor notification_id = do
  found ← find_by_id env notification_id
  notification ← attempt (ok_or found NotificationError.not_found)
  guard (notification.user_id == actor.user_id) NotificationError.forbidden

unfoldable pub mark_notification_read :
    NotificationEnv → AuthenticatedUser → ℕ → Notifying (Unit {0})
mark_notification_read env actor notification_id = do
  own_notification env actor notification_id
  mark_read env notification_id

unfoldable pub mark_notification_unread :
    NotificationEnv → AuthenticatedUser → ℕ → Notifying (Unit {0})
mark_notification_unread env actor notification_id = do
  own_notification env actor notification_id
  mark_unread env notification_id

unfoldable pub list_notification_preferences :
    NotificationEnv
    → (List NotificationPreferenceRow → List NotificationPreferenceRow)
    → AuthenticatedUser
    → Notifying (List NotificationPreference)
list_notification_preferences env order actor = list_preferences_by_user env order actor.user_id

unfoldable pub new_preference :
    NotificationEnv
    → ℕ
    → NotificationType
    → Bool
    → Bool
    → Option NotificationPreference
    → NotificationPreference
new_preference env user_id notification_type in_app_enabled email_enabled existing = record {
  id = elim existing [ none ↦ env.env.new_v4 NewId.entity | some item ↦ item.id ];
  user_id = user_id;
  notification_type = notification_type;
  in_app_enabled = in_app_enabled;
  email_enabled = email_enabled;
  created_at = elim existing [ none ↦ env.env.utc_now | some item ↦ item.created_at ];
  updated_at = env.env.utc_now;
}

unfoldable pub upsert_notification_preference :
    NotificationEnv
    → AuthenticatedUser
    → NotificationType
    → Bool
    → Bool
    → Notifying NotificationPreference
upsert_notification_preference env actor notification_type in_app_enabled email_enabled = do
  existing ← find_by_user_and_type env actor.user_id (as_str notification_type)
  upsert env
      (new_preference env actor.user_id notification_type in_app_enabled email_enabled existing)
