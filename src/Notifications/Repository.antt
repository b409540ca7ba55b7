-- ===== src/Notifications/Repository.antt =====
-- `PgNotificationRepository` and `PgNotificationPreferenceRepository`
-- (crates/infrastructure/src/persistence/repos.rs): each method is one statement, which commits at once.
use edustell.Common.{
  ℕ, String, Option, none, some, Bool, not, List, [], ◌∷◌, ◌&&◌, ◌||◌, ok, err, map_error,
  transpose, Keyed, select, update, find, filter, is_some, ◌==◌, str_eq, if◌then◌else◌,
}
use edustell.Common.Actions.{Action, attempt, gets, modify, guard, ◌>>=◌, ◌>>◌}
use edustell.Domain.StringEnum.{as_str}
use edustell.Domain.Json.{Json}
use edustell.Domain.Status.{notification_type_enum, notification_status_enum}
use edustell.Store.Env.{Constraint, Stored, map_err, violation}
use edustell.Store.Rows.{parse_status}
use edustell.Notifications.Entities.{
  Notification, NotificationPreference, NotificationError, NotificationEnv, NotificationStatement,
  EmailMessage, from_persistence,
}

pub record NotificationRow : Type 0 where
  pub id : ℕ
  pub user_id : ℕ
  pub notification_type : String
  pub title : String
  pub body : String
  pub metadata : Json
  pub status : String
  pub read_at : Option ℕ
  pub created_at : ℕ
  pub updated_at : ℕ

pub record NotificationPreferenceRow : Type 0 where
  pub id : ℕ
  pub user_id : ℕ
  pub notification_type : String
  pub in_app_enabled : Bool
  pub email_enabled : Bool
  pub created_at : ℕ
  pub updated_at : ℕ

-- The two tables, newest first, and the emails that were sent.
pub record NotificationDb : Type 0 where
  pub notifications : List NotificationRow
  pub preferences : List NotificationPreferenceRow
  pub sent : List EmailMessage

instance abbrev pub notification_key : Keyed NotificationRow
notification_key = record { key = λ r. r.id }

instance abbrev pub preference_key : Keyed NotificationPreferenceRow
preference_key = record { key = λ r. r.id }

abbrev pub Notifying : Type 0 → Type 0
Notifying A = Action NotificationDb NotificationError A

unfoldable pub send_statement : NotificationEnv → NotificationStatement → Notifying (Unit {0})
send_statement env s =
    attempt (elim (env.failure s) [ none ↦ ok tt | some e ↦ err (from_persistence (map_err e)) ])

unfoldable pub constrain : NotificationEnv → Bool → Constraint → Notifying (Unit {0})
constrain env test c = guard test (from_persistence (map_err (violation env.env c)))

-- What a query found is converted.
abbrev pub parse : {A : Type 0} → Stored A → Notifying A
parse result = attempt (map_error from_persistence result)

unfoldable pub try_notification : NotificationRow → Stored Notification
try_notification v = elim (parse_status ⦃e = notification_type_enum⦄ v.notification_type) [
  | err e ↦ err e
  | ok notification_type ↦ elim (parse_status ⦃e = notification_status_enum⦄ v.status) [
    | err e ↦ err e
    | ok status ↦ ok (record {
      id = v.id;
      user_id = v.user_id;
      notification_type = notification_type;
      title = v.title;
      body = v.body;
      metadata = v.metadata;
      status = status;
      read_at = v.read_at;
      created_at = v.created_at;
      updated_at = v.updated_at;
    })
  ]
]

unfoldable pub try_preference : NotificationPreferenceRow → Stored NotificationPreference
try_preference v = elim (parse_status ⦃e = notification_type_enum⦄ v.notification_type) [
  | err e ↦ err e
  | ok notification_type ↦ ok (record {
    id = v.id;
    user_id = v.user_id;
    notification_type = notification_type;
    in_app_enabled = v.in_app_enabled;
    email_enabled = v.email_enabled;
    created_at = v.created_at;
    updated_at = v.updated_at;
  })
]

unfoldable pub notification_row : NotificationEnv → Notification → NotificationRow
notification_row env n = record {
  id = n.id;
  user_id = n.user_id;
  notification_type = as_str n.notification_type;
  title = n.title;
  body = n.body;
  metadata = n.metadata;
  status = as_str n.status;
  read_at = n.read_at;
  created_at = env.env.db_now;
  updated_at = env.env.db_now;
}

unfoldable pub create : NotificationEnv → Notification → Notifying Notification
create env n = do
  send_statement env NotificationStatement.insert_notification
  known ← gets (λ s. is_some (select n.id s.notifications))
  constrain env (not known) Constraint.unique_key
  modify (λ s. record s { notifications = notification_row env n ∷ s.notifications })
  parse (try_notification (notification_row env n))

unfoldable pub find_by_id : NotificationEnv → ℕ → Notifying (Option Notification)
find_by_id env id = do
  send_statement env NotificationStatement.select_notification
  row ← gets (λ s. select id s.notifications)
  parse (transpose try_notification row)

pub try_notifications : List NotificationRow → Stored (List Notification)
try_notifications [] = ok []
try_notifications (r ∷ t) =
    let rest = try_notifications t in
    elim (try_notification r) [
      | err e ↦ err e
      | ok n ↦ elim rest [ err e ↦ err e | ok more ↦ ok (n ∷ more) ]
    ]

unfoldable pub list_by_user : NotificationEnv → ℕ → Notifying (List Notification)
unfolding try_notifications
list_by_user env user_id = do
  send_statement env NotificationStatement.select_notifications
  rows ← gets (λ s. filter (λ r. r.user_id == user_id) s.notifications)
  parse (try_notifications rows)

-- A trigger sets `updated_at` with every update.
unfoldable pub set_read : NotificationEnv → String → Option ℕ → NotificationRow → NotificationRow
set_read env status read_at r = record r {
  status = status;
  read_at = read_at;
  updated_at = env.env.db_now;
}

unfoldable pub mark_read : NotificationEnv → ℕ → Notifying (Unit {0})
mark_read env id = do
  send_statement env NotificationStatement.update_notification
  modify (λ s. record s {
    notifications = update id (set_read env "read" (some env.env.db_now)) s.notifications;
  })

unfoldable pub mark_unread : NotificationEnv → ℕ → Notifying (Unit {0})
mark_unread env id = do
  send_statement env NotificationStatement.update_notification
  modify (λ s. record s { notifications = update id (set_read env "pending" none) s.notifications })

-- The unique key of the preferences.
abbrev pub is_for : ℕ → String → NotificationPreferenceRow → Bool
is_for user_id notification_type r =
    r.user_id == user_id && str_eq r.notification_type notification_type

unfoldable pub find_by_user_and_type :
    NotificationEnv → ℕ → String → Notifying (Option NotificationPreference)
find_by_user_and_type env user_id notification_type = do
  send_statement env NotificationStatement.select_preference
  row ← gets (λ s. find (is_for user_id notification_type) s.preferences)
  parse (transpose try_preference row)

pub try_preferences : List NotificationPreferenceRow → Stored (List NotificationPreference)
try_preferences [] = ok []
try_preferences (r ∷ t) =
    let rest = try_preferences t in
    elim (try_preference r) [
      | err e ↦ err e
      | ok p ↦ elim rest [ err e ↦ err e | ok more ↦ ok (p ∷ more) ]
    ]

-- The order by the type's text is a parameter.
unfoldable pub list_preferences_by_user :
    NotificationEnv
    → (List NotificationPreferenceRow → List NotificationPreferenceRow)
    → ℕ
    → Notifying (List NotificationPreference)
unfolding try_preferences
list_preferences_by_user env order user_id = do
  send_statement env NotificationStatement.select_preferences
  rows ← gets (λ s. order (filter (λ r. r.user_id == user_id) s.preferences))
  parse (try_preferences rows)

unfoldable pub preference_row : NotificationPreference → NotificationPreferenceRow
preference_row p = record {
  id = p.id;
  user_id = p.user_id;
  notification_type = as_str p.notification_type;
  in_app_enabled = p.in_app_enabled;
  email_enabled = p.email_enabled;
  created_at = p.created_at;
  updated_at = p.updated_at;
}

-- `ON CONFLICT (user_id, notification_type) DO UPDATE`; a trigger sets `updated_at`.
unfoldable pub overwrite :
    NotificationEnv → NotificationPreference → NotificationPreferenceRow → NotificationPreferenceRow
overwrite env p r = record r {
  in_app_enabled = p.in_app_enabled;
  email_enabled = p.email_enabled;
  updated_at = env.env.db_now;
}

unfoldable pub overwrite_first :
    NotificationEnv
    → NotificationPreference
    → List NotificationPreferenceRow
    → List NotificationPreferenceRow
overwrite_first env p [] = preference_row p ∷ []
overwrite_first env p (r ∷ t) =
    let rest = overwrite_first env p t in
    if is_for p.user_id (as_str p.notification_type) r then overwrite env p r ∷ t else r ∷ rest

-- What `RETURNING` shows.
unfoldable pub saved_preference :
    NotificationEnv
    → NotificationPreference
    → Option NotificationPreferenceRow
    → NotificationPreferenceRow
saved_preference env p none = preference_row p
saved_preference env p (some r) = overwrite env p r

unfoldable pub upsert : NotificationEnv → NotificationPreference → Notifying NotificationPreference
upsert env p = do
  send_statement env NotificationStatement.upsert_preference
  existing ← gets (λ s. find (is_for p.user_id (as_str p.notification_type)) s.preferences)
  taken ← gets (λ s. is_some (select p.id s.preferences))
  constrain env (is_some existing || not taken) Constraint.unique_key
  modify (λ s. record s { preferences = overwrite_first env p s.preferences })
  parse (try_preference (saved_preference env p existing))
