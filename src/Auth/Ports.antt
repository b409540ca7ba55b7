-- ===== src/Auth/Ports.antt =====
-- What the handlers of accounts use from outside (crates/application/src/ports.rs): the hasher and
-- the token service, which stand on argon2 and jsonwebtoken, and the database. An environment is that
-- of one request, so that a salt or an issue time is the request's own.
use edustell.Common.{ℕ, String, Option, Bool, Result}
use edustell.Domain.Auth.{User, RefreshClaims}
use edustell.Store.Env.{Env, SqlxError}

pub data AuthError : Type 0 where
  email_already_exists invalid_credentials unauthorized forbidden not_found : AuthError
  email_already_verified invalid_verification_token : AuthError
  repository security : String → AuthError

pub record IssuedToken : Type 0 where
  pub token : String
  pub expires_at : ℕ

pub record PasswordHasher : Type 0 where
  pub hash_secret : String → Result AuthError String
  pub verify_secret : String → String → Result AuthError Bool

pub record TokenService : Type 0 where
  pub issue_access_token : User → ℕ → Result AuthError IssuedToken
  pub issue_refresh_token : User → ℕ → Result AuthError IssuedToken
  pub issue_email_verification_token : User → ℕ → Result AuthError IssuedToken
  pub decode_refresh_token : String → Result AuthError RefreshClaims
  pub decode_email_verification_token : String → Result AuthError (ℕ × (ℕ × ℕ))

-- The statements of the repository.
pub data AuthStatement : Type 0 where
  select_user_by_email select_user insert_user select_session insert_session : AuthStatement
  update_session select_token insert_token update_token update_user : AuthStatement

pub record AuthEnv : Type 0 where
  pub env : Env
  pub failure : AuthStatement → Option SqlxError
  pub error_text : SqlxError → String  -- `Display` of `sqlx::Error`
  pub lower : String → String  -- SQL's `lower`
  pub new_user_id : ℕ  -- the column's default
  pub new_session_id : ℕ  -- `Uuid::new_v4`
  pub new_verification_id : ℕ
  pub hasher : PasswordHasher
  pub tokens : TokenService
