-- ===== src/Notifications/Delivery.antt =====
-- What reaches the recipient of an event.
use edustell.Common.{
  refl, inr, inl, ◌⊎◌, ℕ, String, ◌≡◌, Option, some, false, List, [], ◌∷◌, ok, err, arith, find,
  str_eq_iff, if◌then◌else◌,
}
use edustell.Common.Actions.{continue-eq-ok}
use edustell.Domain.StringEnum.{as_str}
use edustell.Domain.Auth.{AuthenticatedUser}
use edustell.Domain.Status.{notification_type_enum}
use edustell.Notifications.Entities.{
  Notification, NotificationPreference, NotificationError, NotificationEnv, ApplicationEvent,
}
use edustell.Notifications.Templates.{
  RenderedNotificationTemplate, render_notification_template, event_recipient,
}
use edustell.Notifications.Repository.{
  NotificationRow, NotificationDb, NotificationPreferenceRow, notification_key, preference_key,
  create, notification_row, find_by_user_and_type, upsert, overwrite_first, overwrite,
  preference_row, is_for, send_statement, constrain, try_preference, saved_preference,
}
use edustell.Notifications.Handlers.{
  default_preference, new_notification, email_message, store_if, email_if, or_default, deliver,
  handle_application_event, new_preference, upsert_notification_preference,
}

-- The state after a delivery: a row exactly if the preference is for the app, an email exactly if it
-- is for emails.
abbrev pub Delivered :
    NotificationEnv
    → ℕ
    → RenderedNotificationTemplate
    → NotificationPreference
    → NotificationDb
    → NotificationDb
    → Type 0
Delivered env user rendered p s t =
    (t.notifications ≡ (
      if p.in_app_enabled
      then notification_row env (new_notification env user rendered) ∷ s.notifications
      else s.notifications))
    × (t.sent ≡ (if p.email_enabled then email_message user rendered ∷ s.sent else s.sent))
    × (t.preferences ≡ s.preferences)

deliver-Delivered :
    (env : NotificationEnv) (user : ℕ) (rendered : RenderedNotificationTemplate)
    (p : NotificationPreference) (s t : NotificationDb) (n : Option Notification)
    → deliver env user rendered p s ≡ (ok n, t)
    → Delivered env user rendered p s t
unfolding deliver store_if email_if create send_statement constrain
deliver-Delivered env user rendered p s t n h = ground arith

find_by_user_and_type-same :
    (env : NotificationEnv) (user : ℕ) (text : String) (s t : NotificationDb)
    (r : Option NotificationPreference)
    → find_by_user_and_type env user text s ≡ (ok r, t)
    → t ≡ s
unfolding find_by_user_and_type send_statement
find_by_user_and_type-same env user text s t r h = ground arith

-- An event that is handled has a preference, the stored one or the default: a row is added exactly if
-- it is for the app, and an email sent exactly if it is for emails.
pub handle_application_event-Delivered :
    (env : NotificationEnv) (event : ApplicationEvent) (s t : NotificationDb)
    (n : Option Notification)
    → handle_application_event env event s ≡ (ok n, t)
    → (found : Option NotificationPreference) × (find_by_user_and_type env
          (event_recipient event)
          (as_str (render_notification_template event).notification_type)
          s
        ≡ (ok found, s))
      × Delivered env
          (event_recipient event)
          (render_notification_template event)
          (or_default found (
            default_preference env
              (event_recipient event)
              (render_notification_template event).notification_type))
          s
          t
unfolding handle_application_event
handle_application_event-Delivered env event s t n h =
    let user = event_recipient event in
    let text = as_str ((render_notification_template event).notification_type) in
    let (found, u, looked, rest) = continue-eq-ok (find_by_user_and_type env user text s) _ n t h in
    let same = find_by_user_and_type-same env user text s u found looked in
    (
      found,
      ground (arith, looked, same),
      deliver-Delivered env user (render_notification_template event)
          (or_default found
            (default_preference env user ((render_notification_template event).notification_type)))
          s t n (ground (arith, rest, same)),
    )

-- The preference of a user and a type after an upsert.
overwrite_first-found :
    (env : NotificationEnv) (p : NotificationPreference) (l : List NotificationPreferenceRow)
    → find (is_for p.user_id (as_str p.notification_type)) (overwrite_first env p l)
      ≡ some (saved_preference env p (find (is_for p.user_id (as_str p.notification_type)) l))
unfolding find overwrite_first overwrite preference_row saved_preference
overwrite_first-found env p [] =
    ground (arith, str_eq_iff (as_str p.notification_type) (as_str p.notification_type))
overwrite_first-found env p (r ∷ t) = ground (arith, overwrite_first-found env p t)

-- A row that enables nothing: whatever the delivery answers, nothing changes.
silent :
    (env : NotificationEnv) (event : ApplicationEvent) (s : NotificationDb)
    (row : NotificationPreferenceRow)
    → find
        (is_for
          (event_recipient event)
          (as_str (render_notification_template event).notification_type))
        s.preferences
      ≡ some row
    → row.in_app_enabled ≡ false
    → row.email_enabled ≡ false
    → (handle_application_event env event s).1 ≡ s
unfolding handle_application_event deliver store_if email_if find_by_user_and_type send_statement
    try_preference
silent env event s row found no_app no_email = ground arith

upsert-preferences :
    (env : NotificationEnv) (p q : NotificationPreference) (s t : NotificationDb)
    → upsert env p s ≡ (ok q, t)
    → t.preferences ≡ overwrite_first env p s.preferences
unfolding upsert send_statement constrain
upsert-preferences env p q s t h = ground arith

saved_preference-flags :
    (env : NotificationEnv) (p : NotificationPreference) (o : Option NotificationPreferenceRow)
    → ((saved_preference env p o).in_app_enabled ≡ p.in_app_enabled)
      × ((saved_preference env p o).email_enabled ≡ p.email_enabled)
unfolding saved_preference preference_row overwrite
saved_preference-flags env p o = ground arith

-- After a user has switched a type of notifications off, the events of that type to that user change
-- nothing: no row is added and no email sent.
pub upsert_notification_preference-off :
    (env later : NotificationEnv) (actor : AuthenticatedUser) (event : ApplicationEvent)
    (s t : NotificationDb) (q : NotificationPreference)
    → upsert_notification_preference env actor
        ((render_notification_template event).notification_type)
        false
        false
        s
      ≡ (ok q, t)
    → event_recipient event ≡ actor.user_id
    → (handle_application_event later event t).1 ≡ t
unfolding upsert_notification_preference new_preference
upsert_notification_preference-off env later actor event s t q h same =
    let kind = (render_notification_template event).notification_type in
    let (existing, u, looked, rest) =
      continue-eq-ok (find_by_user_and_type env actor.user_id (as_str kind) s) _ q t h in
    let p = new_preference env actor.user_id kind false false existing in
    let row = saved_preference env p (find (is_for actor.user_id (as_str kind)) u.preferences) in
    let wrote = upsert-preferences env p q u t rest in
    let flags =
      saved_preference-flags env p (find (is_for actor.user_id (as_str kind)) u.preferences) in
    silent later event t row
      (ground (arith, wrote, overwrite_first-found env p u.preferences, same))
      (ground (arith, flags)) (ground (arith, flags))

failed-rows :
    (env : NotificationEnv) (event : ApplicationEvent) (s t : NotificationDb)
    (e : NotificationError)
    → handle_application_event env event s ≡ (err e, t)
    → (t.sent ≡ s.sent)
      × (t.preferences ≡ s.preferences)
      × ((t.notifications ≡ s.notifications)
          ⊎ (t.notifications
              ≡ notification_row env (
                  new_notification env (event_recipient event) (render_notification_template event))
                ∷ s.notifications))
unfolding handle_application_event deliver store_if email_if create find_by_user_and_type
    send_statement constrain
failed-rows env event s t e h = ground arith

-- An event whose handling fails sends no email and leaves the preferences as they are. At most one
-- notification is left, pending for the event's recipient.
pub handle_application_event-failed :
    (env : NotificationEnv) (event : ApplicationEvent) (s t : NotificationDb)
    (e : NotificationError)
    → handle_application_event env event s ≡ (err e, t)
    → (t.sent ≡ s.sent)
      × (t.preferences ≡ s.preferences)
      × ((t.notifications ≡ s.notifications)
          ⊎ ((row : NotificationRow) × (t.notifications ≡ row ∷ s.notifications)
              × (row.user_id ≡ event_recipient event)
              × (row.status ≡ "pending")))
unfolding notification_row new_notification
handle_application_event-failed env event s t e h =
    let (sent, preferences, way) = failed-rows env event s t e h in
    (sent, preferences, elim way [ inl same ↦ inl same | inr added ↦ inr (_, added, refl, refl) ])
