-- ===== src/Tests/Notices.antt =====
-- The properties of notifications at a sample event, with a user who wants both ways.
use edustell.Common.{
  ◌⊎◌, ◌≡◌, refl, true, false, some, none, [], ◌∷◌, ok, err, pos, succeeds, Option,
}
use edustell.Domain.StringEnum.{as_str}
use edustell.Domain.Status.{notification_type_enum}
use edustell.Notifications.Entities.{
  ApplicationEvent, NotificationEnv, NotificationError, NotificationPreference,
}
use edustell.Notifications.Templates.{render_notification_template, event_recipient}
use edustell.Notifications.Repository.{
  NotificationRow, NotificationDb, NotificationPreferenceRow, create, notification_row,
  find_by_user_and_type,
}
use edustell.Notifications.Handlers.{
  handle_application_event, upsert_notification_preference, deliver, new_notification,
  default_preference, or_default,
}
use edustell.Notifications.Delivery.{
  handle_application_event-failed, Delivered, handle_application_event-Delivered,
  upsert_notification_preference-off,
}
use edustell.Tests.Accounts.{taken, taken_lem}
use edustell.Tests.Data.{env, parent}

abbrev event : ApplicationEvent
event = ApplicationEvent.payout_approved 10 6 1 (pos 20) "USDC"

abbrev preference_row : NotificationPreferenceRow
preference_row = record {
  id = 50;
  user_id = 10;
  notification_type = "payout_approved";
  in_app_enabled = true;
  email_enabled = true;
  created_at = 0;
  updated_at = 0;
}

abbrev notices : NotificationDb
notices = record { notifications = []; preferences = preference_row ∷ []; sent = [] }

abbrev mail : NotificationEnv
mail = record { env = env; failure = λ s. none; send = λ m. ok tt }

abbrev refused : NotificationEnv
refused = record mail { send = λ m. err NotificationError.forbidden }

event_runs : succeeds ((handle_application_event mail event notices).0) ≡ true
unfolding edustell.Notifications.Handlers.default_preference
    edustell.Notifications.Handlers.new_notification edustell.Notifications.Handlers.email_message
    edustell.Notifications.Handlers.store_if edustell.Notifications.Handlers.email_if
    edustell.Notifications.Handlers.deliver edustell.Notifications.Handlers.handle_application_event
    edustell.Notifications.Handlers.list_notifications
    edustell.Notifications.Handlers.own_notification
    edustell.Notifications.Handlers.mark_notification_read
    edustell.Notifications.Handlers.mark_notification_unread
    edustell.Notifications.Handlers.list_notification_preferences
    edustell.Notifications.Handlers.new_preference
    edustell.Notifications.Handlers.upsert_notification_preference
    edustell.Notifications.Templates.display_i64
    edustell.Notifications.Templates.render_notification_template
    edustell.Notifications.Repository.send_statement edustell.Notifications.Repository.constrain
    edustell.Notifications.Repository.try_notification
    edustell.Notifications.Repository.try_preference
    edustell.Notifications.Repository.notification_row edustell.Notifications.Repository.create
    edustell.Notifications.Repository.find_by_id edustell.Notifications.Repository.list_by_user
    edustell.Notifications.Repository.set_read edustell.Notifications.Repository.mark_read
    edustell.Notifications.Repository.mark_unread
    edustell.Notifications.Repository.find_by_user_and_type
    edustell.Notifications.Repository.list_preferences_by_user
    edustell.Notifications.Repository.preference_row edustell.Notifications.Repository.overwrite
    edustell.Notifications.Repository.overwrite_first
    edustell.Notifications.Repository.saved_preference edustell.Notifications.Repository.upsert
    edustell.Notifications.Entities.from_persistence edustell.Store.Env.map_err
    edustell.Store.Env.violation edustell.Store.Env.execute edustell.Store.Env.require
    edustell.Domain.StringEnum.from_str edustell.Store.Rows.parse_money
    edustell.Store.Rows.parse_status edustell.Store.Rows.try_vault
    edustell.Store.Rows.try_contribution edustell.Store.Rows.try_ledger_entry
    edustell.Store.Rows.try_milestone edustell.Store.Rows.try_school edustell.Store.Rows.try_payout
    edustell.Common.select edustell.Common.update edustell.Common.find edustell.Common.filter
    edustell.Common.any edustell.Common.total edustell.Common.trim
    edustell.Common.to_ascii_lowercase edustell.Common.starts_with edustell.Common.before
    edustell.Common.second_piece edustell.Common.contains edustell.Common.add_i64
    edustell.Common.sub_i64
event_runs = refl

handle_application_event-Delivered_example :
    (found : Option NotificationPreference) × (find_by_user_and_type mail
        (event_recipient event)
        (as_str (render_notification_template event).notification_type)
        notices
      ≡ (ok found, notices))
    × Delivered mail
        (event_recipient event)
        (render_notification_template event)
        (or_default found (
          default_preference mail
            (event_recipient event)
            (render_notification_template event).notification_type))
        notices
        ((handle_application_event mail event notices).1)
handle_application_event-Delivered_example =
    handle_application_event-Delivered mail event notices
      ((handle_application_event mail event notices).1)
      (taken (handle_application_event mail event notices) event_runs)
      (taken_lem (handle_application_event mail event notices) event_runs)

off_runs :
    succeeds (
      (upsert_notification_preference mail parent
        ((render_notification_template event).notification_type)
        false
        false
        notices).0)
    ≡ true
unfolding edustell.Notifications.Handlers.default_preference
    edustell.Notifications.Handlers.new_notification edustell.Notifications.Handlers.email_message
    edustell.Notifications.Handlers.store_if edustell.Notifications.Handlers.email_if
    edustell.Notifications.Handlers.deliver edustell.Notifications.Handlers.handle_application_event
    edustell.Notifications.Handlers.list_notifications
    edustell.Notifications.Handlers.own_notification
    edustell.Notifications.Handlers.mark_notification_read
    edustell.Notifications.Handlers.mark_notification_unread
    edustell.Notifications.Handlers.list_notification_preferences
    edustell.Notifications.Handlers.new_preference
    edustell.Notifications.Handlers.upsert_notification_preference
    edustell.Notifications.Templates.display_i64
    edustell.Notifications.Templates.render_notification_template
    edustell.Notifications.Repository.send_statement edustell.Notifications.Repository.constrain
    edustell.Notifications.Repository.try_notification
    edustell.Notifications.Repository.try_preference
    edustell.Notifications.Repository.notification_row edustell.Notifications.Repository.create
    edustell.Notifications.Repository.find_by_id edustell.Notifications.Repository.list_by_user
    edustell.Notifications.Repository.set_read edustell.Notifications.Repository.mark_read
    edustell.Notifications.Repository.mark_unread
    edustell.Notifications.Repository.find_by_user_and_type
    edustell.Notifications.Repository.list_preferences_by_user
    edustell.Notifications.Repository.preference_row edustell.Notifications.Repository.overwrite
    edustell.Notifications.Repository.overwrite_first
    edustell.Notifications.Repository.saved_preference edustell.Notifications.Repository.upsert
    edustell.Notifications.Entities.from_persistence edustell.Store.Env.map_err
    edustell.Store.Env.violation edustell.Store.Env.execute edustell.Store.Env.require
    edustell.Domain.StringEnum.from_str edustell.Store.Rows.parse_money
    edustell.Store.Rows.parse_status edustell.Store.Rows.try_vault
    edustell.Store.Rows.try_contribution edustell.Store.Rows.try_ledger_entry
    edustell.Store.Rows.try_milestone edustell.Store.Rows.try_school edustell.Store.Rows.try_payout
    edustell.Common.select edustell.Common.update edustell.Common.find edustell.Common.filter
    edustell.Common.any edustell.Common.total edustell.Common.trim
    edustell.Common.to_ascii_lowercase edustell.Common.starts_with edustell.Common.before
    edustell.Common.second_piece edustell.Common.contains edustell.Common.add_i64
    edustell.Common.sub_i64
off_runs = refl

upsert_notification_preference-off_example :
    (handle_application_event mail event (
      (upsert_notification_preference mail parent
        ((render_notification_template event).notification_type)
        false
        false
        notices).1)).1
    ≡ (upsert_notification_preference mail parent
        ((render_notification_template event).notification_type)
        false
        false
        notices).1
upsert_notification_preference-off_example =
    upsert_notification_preference-off mail mail parent event notices
      ((upsert_notification_preference mail parent
        ((render_notification_template event).notification_type) false false notices).1)
      (taken
        (upsert_notification_preference mail parent
          ((render_notification_template event).notification_type) false false notices)
        off_runs)
      (taken_lem
        (upsert_notification_preference mail parent
          ((render_notification_template event).notification_type) false false notices)
        off_runs)
      refl

refused_fails :
    handle_application_event refused event notices
    ≡ (err NotificationError.forbidden, (handle_application_event refused event notices).1)
unfolding edustell.Notifications.Handlers.default_preference
    edustell.Notifications.Handlers.new_notification edustell.Notifications.Handlers.email_message
    edustell.Notifications.Handlers.store_if edustell.Notifications.Handlers.email_if
    edustell.Notifications.Handlers.deliver edustell.Notifications.Handlers.handle_application_event
    edustell.Notifications.Handlers.list_notifications
    edustell.Notifications.Handlers.own_notification
    edustell.Notifications.Handlers.mark_notification_read
    edustell.Notifications.Handlers.mark_notification_unread
    edustell.Notifications.Handlers.list_notification_preferences
    edustell.Notifications.Handlers.new_preference
    edustell.Notifications.Handlers.upsert_notification_preference
    edustell.Notifications.Templates.display_i64
    edustell.Notifications.Templates.render_notification_template
    edustell.Notifications.Repository.send_statement edustell.Notifications.Repository.constrain
    edustell.Notifications.Repository.try_notification
    edustell.Notifications.Repository.try_preference
    edustell.Notifications.Repository.notification_row edustell.Notifications.Repository.create
    edustell.Notifications.Repository.find_by_id edustell.Notifications.Repository.list_by_user
    edustell.Notifications.Repository.set_read edustell.Notifications.Repository.mark_read
    edustell.Notifications.Repository.mark_unread
    edustell.Notifications.Repository.find_by_user_and_type
    edustell.Notifications.Repository.list_preferences_by_user
    edustell.Notifications.Repository.preference_row edustell.Notifications.Repository.overwrite
    edustell.Notifications.Repository.overwrite_first
    edustell.Notifications.Repository.saved_preference edustell.Notifications.Repository.upsert
    edustell.Notifications.Entities.from_persistence edustell.Store.Env.map_err
    edustell.Store.Env.violation edustell.Store.Env.execute edustell.Store.Env.require
    edustell.Domain.StringEnum.from_str edustell.Store.Rows.parse_money
    edustell.Store.Rows.parse_status edustell.Store.Rows.try_vault
    edustell.Store.Rows.try_contribution edustell.Store.Rows.try_ledger_entry
    edustell.Store.Rows.try_milestone edustell.Store.Rows.try_school edustell.Store.Rows.try_payout
    edustell.Common.select edustell.Common.update edustell.Common.find edustell.Common.filter
    edustell.Common.any edustell.Common.total edustell.Common.trim
    edustell.Common.to_ascii_lowercase edustell.Common.starts_with edustell.Common.before
    edustell.Common.second_piece edustell.Common.contains edustell.Common.add_i64
    edustell.Common.sub_i64
refused_fails = refl

handle_application_event-failed_example :
    ((handle_application_event refused event notices).1.sent ≡ notices.sent)
    × ((handle_application_event refused event notices).1.preferences ≡ notices.preferences)
    × (((handle_application_event refused event notices).1.notifications ≡ notices.notifications)
        ⊎ ((row : NotificationRow) × ((handle_application_event refused event
                notices).1.notifications
              ≡ row ∷ notices.notifications)
            × (row.user_id ≡ event_recipient event)
            × (row.status ≡ "pending")))
handle_application_event-failed_example =
    handle_application_event-failed refused event notices
      ((handle_application_event refused event notices).1) NotificationError.forbidden refused_fails
