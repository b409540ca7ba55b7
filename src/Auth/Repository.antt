-- ===== src/Auth/Repository.antt =====
-- `PgAuthRepository` (crates/infrastructure/src/auth/repo.rs): each method is one statement, which
-- commits at once. The constraints are those of migrations/0001_init.sql and 0002_auth.sql.
use edustell.Common.{
  ℕ, String, Option, none, some, Bool, true, false, List, ◌∷◌, Result, ok, err, map_error,
  transpose, Keyed, select, update, find, any, is_some, is_none, str_eq, contains, not, ◌&&◌,
  if◌then◌else◌,
}
use edustell.Common.Actions.{Action, attempt, gets, modify, guard, ◌>>=◌, ◌>>◌}
use edustell.Domain.StringEnum.{as_str, from_str}
use edustell.Domain.Auth.{user_role_enum, User, NewUser, RefreshSession, EmailVerificationToken}
use edustell.Store.Env.{SqlxError, Constraint, violation}
use edustell.Store.Db.{Db}
use edustell.Auth.Ports.{AuthError, AuthStatement, AuthEnv}

pub record UserRow : Type 0 where
  pub id : ℕ
  pub email : String
  pub password_hash : String
  pub role : String
  pub email_verified : Bool
  pub mfa_enabled : Bool
  pub status : String
  pub created_at : ℕ
  pub updated_at : ℕ

-- The rows of sessions and of tokens have the fields of their entities, and `From` copies them.
pub record AuthDb : Type 0 where
  pub users : List UserRow
  pub sessions : List RefreshSession
  pub tokens : List EmailVerificationToken
  pub db : Db

instance abbrev pub user_key : Keyed UserRow
user_key = record { key = λ r. r.id }

instance abbrev pub session_key : Keyed RefreshSession
session_key = record { key = λ r. r.id }

instance abbrev pub token_key : Keyed EmailVerificationToken
token_key = record { key = λ r. r.id }

unfoldable pub map_repo_error : AuthEnv → SqlxError → AuthError
map_repo_error env (SqlxError.database code message) =
    if str_eq code "23505" && contains message "users"
    then AuthError.email_already_exists
    else AuthError.repository (env.error_text (SqlxError.database code message))
map_repo_error env (SqlxError.other message) =
    AuthError.repository (env.error_text (SqlxError.other message))

-- A statement is sent: it fails, or the rest reads its answer.
unfoldable pub send : AuthEnv → AuthStatement → Action AuthDb AuthError (Unit {0})
send env s = attempt (elim (env.failure s) [ none ↦ ok tt | some e ↦ err (map_repo_error env e) ])

unfoldable pub constrain : AuthEnv → Bool → Constraint → Action AuthDb AuthError (Unit {0})
constrain env test c = guard test (map_repo_error env (violation env.env c))

-- `TryFrom<UserRow> for User`
unfoldable pub try_user : UserRow → Result AuthError User
try_user r = elim (map_error AuthError.repository (from_str r.role)) [
  | err e ↦ err e
  | ok role ↦ ok (record {
    id = r.id;
    email = r.email;
    password_hash = r.password_hash;
    role = role;
    email_verified = r.email_verified;
    mfa_enabled = r.mfa_enabled;
    status = r.status;
    created_at = r.created_at;
    updated_at = r.updated_at;
  })
]

unfoldable pub find_user_by_email : AuthEnv → String → Action AuthDb AuthError (Option User)
find_user_by_email env email = do
  send env AuthStatement.select_user_by_email
  row ← gets (λ s. find (λ r. str_eq (env.lower r.email) (env.lower email)) s.users)
  attempt (transpose try_user row)

unfoldable pub find_user_by_id : AuthEnv → ℕ → Action AuthDb AuthError (Option User)
find_user_by_id env user_id = do
  send env AuthStatement.select_user
  row ← gets (λ s. select user_id s.users)
  attempt (transpose try_user row)

unfoldable pub user_row : AuthEnv → NewUser → UserRow
user_row env new_user = record {
  id = env.new_user_id;
  email = new_user.email;
  password_hash = new_user.password_hash;
  role = as_str new_user.role;
  email_verified = false;
  mfa_enabled = false;
  status = "active";
  created_at = env.env.db_now;
  updated_at = env.env.db_now;
}

unfoldable pub create_user : AuthEnv → NewUser → Action AuthDb AuthError User
create_user env new_user = do
  send env AuthStatement.insert_user
  taken ← gets (λ s. any (λ r. str_eq r.email new_user.email) s.users)
  known ← gets (λ s. is_some (select env.new_user_id s.users))
  constrain env (not taken && not known) Constraint.unique_key
  modify (λ s. record s { users = user_row env new_user ∷ s.users })
  attempt (try_user (user_row env new_user))

unfoldable pub store_refresh_session : AuthEnv → RefreshSession → Action AuthDb AuthError (Unit {0})
store_refresh_session env session = do
  send env AuthStatement.insert_session
  known ← gets (λ s. is_some (select session.id s.sessions))
  taken ← gets (λ s. any (λ r. str_eq r.token_hash session.token_hash) s.sessions)
  constrain env (not known && not taken) Constraint.unique_key
  owner ← gets (λ s. is_some (select session.user_id s.users))
  constrain env owner Constraint.foreign_key
  modify (λ s. record s { sessions = session ∷ s.sessions })

unfoldable pub find_refresh_session : AuthEnv → ℕ → Action AuthDb AuthError (Option RefreshSession)
find_refresh_session env session_id = do
  send env AuthStatement.select_session
  gets (λ s. select session_id s.sessions)

-- `SET revoked_at = NOW() WHERE id = $1 AND revoked_at IS NULL`, on a row of that key.
unfoldable pub revoke : AuthEnv → RefreshSession → RefreshSession
revoke env session =
    if is_none session.revoked_at
    then record session { revoked_at = some env.env.db_now }
    else session

unfoldable pub revoke_refresh_session : AuthEnv → ℕ → Action AuthDb AuthError (Unit {0})
revoke_refresh_session env session_id = do
  send env AuthStatement.update_session
  modify (λ s. record s { sessions = update session_id (revoke env) s.sessions })

unfoldable pub store_email_verification_token :
    AuthEnv → EmailVerificationToken → Action AuthDb AuthError (Unit {0})
store_email_verification_token env token = do
  send env AuthStatement.insert_token
  known ← gets (λ s. is_some (select token.id s.tokens))
  constrain env (not known) Constraint.unique_key
  owner ← gets (λ s. is_some (select token.user_id s.users))
  constrain env owner Constraint.foreign_key
  modify (λ s. record s { tokens = token ∷ s.tokens })

unfoldable pub find_email_verification_token :
    AuthEnv → ℕ → Action AuthDb AuthError (Option EmailVerificationToken)
find_email_verification_token env token_id = do
  send env AuthStatement.select_token
  gets (λ s. select token_id s.tokens)

unfoldable pub consume : AuthEnv → EmailVerificationToken → EmailVerificationToken
consume env token =
    if is_none token.consumed_at then record token { consumed_at = some env.env.db_now } else token

unfoldable pub consume_email_verification_token : AuthEnv → ℕ → Action AuthDb AuthError (Unit {0})
consume_email_verification_token env token_id = do
  send env AuthStatement.update_token
  modify (λ s. record s { tokens = update token_id (consume env) s.tokens })

-- A trigger sets `updated_at` with every update of a user.
unfoldable pub mark_email_verified : AuthEnv → ℕ → Action AuthDb AuthError (Unit {0})
mark_email_verified env user_id = do
  send env AuthStatement.update_user
  modify (λ s. record s {
    users =
        update user_id (λ r. record r { email_verified = true; updated_at = env.env.db_now })
          s.users;
  })
