-- ===== src/Auth/Handlers.antt =====
-- The handlers of accounts and sessions (crates/application/src/auth.rs). A rotation of a session is
-- in two parts, its reads and its writes, so that another request can come between them.
use edustell.Common.{
  ℕ, String, Option, none, Bool, not, ◌||◌, ◌&&◌, List, [], ◌∷◌, Result, ok, err, ok_or, is_some,
  str_eq, leb, ◌==◌, trim, to_ascii_lowercase, second_piece, if◌then◌else◌,
}
use edustell.Common.Actions.{Action, attempt, pure, guard, ◌>>=◌, ◌>>◌}
use edustell.Domain.StringEnum.{as_str, eq_enum}
use edustell.Domain.Json.{Json, end, member}
use edustell.Domain.Auth.{
  UserRole, user_role_enum, User, PublicUser, RefreshClaims, RefreshSession, to_public,
}
use edustell.Audit.Event.{AuditEntityType, AuditAction, AuditEvent, new_event}
use edustell.Audit.Service.{record_event}
use edustell.Store.Env.{Env}
use edustell.Auth.Ports.{AuthError, IssuedToken, AuthEnv}
use edustell.Auth.Repository.{
  AuthDb, find_user_by_email, find_user_by_id, create_user, store_refresh_session,
  find_refresh_session, revoke_refresh_session, store_email_verification_token,
  find_email_verification_token, consume_email_verification_token, mark_email_verified,
}

pub record RegisterInput : Type 0 where
  pub email : String
  pub password : String
  pub role : UserRole

pub record LoginInput : Type 0 where
  pub email : String
  pub password : String

pub record AuthTokens : Type 0 where
  pub access_token : String
  pub refresh_token : String
  pub access_expires_at : ℕ
  pub refresh_expires_at : ℕ

pub record AuthResponse : Type 0 where
  pub user : PublicUser
  pub tokens : AuthTokens

pub record EmailVerificationResponse : Type 0 where
  pub user : PublicUser
  pub verification_token : String
  pub verification_expires_at : ℕ

pub record MfaHooks : Type 0 where
  pub required : Bool
  pub methods : List String

abbrev pub Auth : Type 0 → Type 0
Auth A = Action AuthDb AuthError A

unfoldable pub normalize_email : String → String
normalize_email email = to_ascii_lowercase (trim email)

unfoldable pub ensure_registerable_role : UserRole → Result AuthError (Unit {0})
ensure_registerable_role role =
    if eq_enum role UserRole.platform_admin || eq_enum role UserRole.school_admin
    then err AuthError.forbidden
    else ok tt

unfoldable pub ensure_active_user : User → Result AuthError (Unit {0})
ensure_active_user user = if str_eq user.status "active" then ok tt else err AuthError.unauthorized

-- `Option::ok_or`, on what a query found.
abbrev pub expect : {A : Type 0} → Option A → AuthError → Auth A
expect found failure = attempt (ok_or found failure)

unfoldable pub new_session : AuthEnv → User → String → IssuedToken → RefreshSession
new_session env user token_hash refresh = record {
  id = env.new_session_id;
  user_id = user.id;
  token_hash = token_hash;
  expires_at = refresh.expires_at;
  revoked_at = none;
}

unfoldable pub issue_session : AuthEnv → User → Auth AuthResponse
issue_session env user = do
  access ← attempt (env.tokens.issue_access_token user env.new_session_id)
  refresh ← attempt (env.tokens.issue_refresh_token user env.new_session_id)
  refresh_token_hash ← attempt (env.hasher.hash_secret refresh.token)
  store_refresh_session env (new_session env user refresh_token_hash refresh)
  pure (record {
    user = to_public user;
    tokens = record {
      access_token = access.token;
      refresh_token = refresh.token;
      access_expires_at = access.expires_at;
      refresh_expires_at = refresh.expires_at;
    };
  })

-- `AuditEvent::user_registered`; 64 is the code of `@`.
unfoldable pub user_registered : Env → ℕ → String → String → AuditEvent
unfolding new_event
user_registered env user_id role email =
    new_event env user_id AuditEntityType.user user_id AuditAction.user_registered (
      Json.object (
        member "role" (Json.string role)
          (member "email_domain" (Json.string (second_piece 64 email)) end)))

-- `AuditService::record`, on the table of this state.
unfoldable pub record_audit : AuthEnv → AuditEvent → Auth (Unit {0})
record_audit env event s = elim (record_event env.env event s.db) [
  | err message ↦ (err (AuthError.repository message), s)
  | ok db' ↦ (ok tt, record s { db = db' })
]

unfoldable pub register : AuthEnv → RegisterInput → Auth AuthResponse
register env input = do
  attempt (ensure_registerable_role input.role)
  known ← find_user_by_email env (normalize_email input.email)
  guard (not (is_some known)) AuthError.email_already_exists
  password_hash ← attempt (env.hasher.hash_secret input.password)
  user ← create_user env (record {
    email = normalize_email input.email;
    password_hash = password_hash;
    role = input.role;
  })
  record_audit env
      (user_registered env.env user.id (as_str user.role) (normalize_email input.email))
  issue_session env user

-- A login, from what the query found.
unfoldable pub login_as : AuthEnv → LoginInput → Option User → Auth AuthResponse
login_as env input found = do
  user ← expect found AuthError.invalid_credentials
  attempt (ensure_active_user user)
  password_ok ← attempt (env.hasher.verify_secret input.password user.password_hash)
  guard password_ok AuthError.invalid_credentials
  issue_session env user

unfoldable pub login : AuthEnv → LoginInput → Auth AuthResponse
login env input = do
  found ← find_user_by_email env (normalize_email input.email)
  login_as env input found

-- The reads of a rotation: the token's claims, and the session that it may replace.
unfoldable pub check_session : AuthEnv → String → Auth (RefreshClaims × RefreshSession)
check_session env refresh_token = do
  claims ← attempt (env.tokens.decode_refresh_token refresh_token)
  found ← find_refresh_session env claims.session_id
  existing_session ← expect found AuthError.unauthorized
  guard (existing_session.user_id == claims.sub && not (is_some existing_session.revoked_at))
      AuthError.unauthorized
  guard (not (leb existing_session.expires_at env.env.utc_now)) AuthError.unauthorized
  matches ← attempt (env.hasher.verify_secret refresh_token existing_session.token_hash)
  guard matches AuthError.unauthorized
  pure (claims, existing_session)

-- Its writes: the session is revoked, and a new one issued.
unfoldable pub rotate_session : AuthEnv → RefreshClaims × RefreshSession → Auth AuthResponse
rotate_session env (claims, existing_session) = do
  revoke_refresh_session env existing_session.id
  found ← find_user_by_id env claims.sub
  user ← expect found AuthError.unauthorized
  attempt (ensure_active_user user)
  issue_session env user

unfoldable pub refresh : AuthEnv → String → Auth AuthResponse
refresh env refresh_token = do checked ← check_session env refresh_token; rotate_session env checked

unfoldable pub logout : AuthEnv → String → Auth (Unit {0})
logout env refresh_token = do
  claims ← attempt (env.tokens.decode_refresh_token refresh_token)
  revoke_refresh_session env claims.session_id

unfoldable pub current_user : AuthEnv → ℕ → Auth PublicUser
current_user env user_id = do
  found ← find_user_by_id env user_id
  user ← expect found AuthError.not_found
  attempt (ensure_active_user user)
  pure (to_public user)

unfoldable pub begin_email_verification : AuthEnv → ℕ → Auth EmailVerificationResponse
begin_email_verification env user_id = do
  found ← find_user_by_id env user_id
  user ← expect found AuthError.not_found
  attempt (ensure_active_user user)
  guard (not user.email_verified) AuthError.email_already_verified
  issued ← attempt (env.tokens.issue_email_verification_token user env.new_verification_id)
  token_hash ← attempt (env.hasher.hash_secret issued.token)
  store_email_verification_token env (record {
    id = env.new_verification_id;
    user_id = user.id;
    token_hash = token_hash;
    expires_at = issued.expires_at;
    consumed_at = none;
  })
  pure (record {
    user = to_public user;
    verification_token = issued.token;
    verification_expires_at = issued.expires_at;
  })

unfoldable pub verify_email : AuthEnv → String → Auth PublicUser
verify_email env token = do
  (user_id, (verification_id, expires_at)) ←
      attempt (env.tokens.decode_email_verification_token token)
  guard (not (leb expires_at env.env.utc_now)) AuthError.invalid_verification_token
  found ← find_email_verification_token env verification_id
  stored ← expect found AuthError.invalid_verification_token
  guard
      (not (
        not (stored.user_id == user_id)
        || is_some stored.consumed_at
        || leb stored.expires_at env.env.utc_now))
      AuthError.invalid_verification_token
  matches ← attempt (env.hasher.verify_secret token stored.token_hash)
  guard matches AuthError.invalid_verification_token
  consume_email_verification_token env stored.id
  mark_email_verified env user_id
  found_user ← find_user_by_id env user_id
  user ← expect found_user AuthError.not_found
  attempt (ensure_active_user user)
  pure (to_public user)

unfoldable pub mfa_hooks : PublicUser → MfaHooks
mfa_hooks user = record {
  required = user.mfa_enabled;
  methods = if user.mfa_enabled then "totp" ∷ [] else [];
}
