-- ===== src/Tests/Accounts.antt =====
-- Sample accounts: a parent with one session, and services that keep the secrets as they are.
use edustell.Common.{
  ap, ◌≡◌, refl, true, false, some, none, ok, err, [], ◌∷◌, ℕ, String, Result, ◌&&◌, ◌==◌, str_eq,
  str_eq_iff, if◌then◌else◌, arith, select, update, is_some, succeeds, inl, inr, ◌⊎◌, ◌<◌,
}
use edustell.Domain.Auth.{UserRole, User, RefreshClaims, RefreshSession}
use edustell.Auth.Ports.{AuthError, AuthEnv, IssuedToken}
use edustell.Auth.Repository.{AuthDb, UserRow, session_key}
use edustell.Auth.Handlers.{RegisterInput, LoginInput, refresh}
use edustell.Auth.Lifetime.{Understands}
use edustell.Tests.Data.{env, db}

-- The value of an action that succeeds.
abbrev pub taken : {S E A : Type 0} (p : Result E A × S) → succeeds (p.0) ≡ true → A
taken (ok a, s) h = a
taken (err e, s) h = absurd (cc)

pub taken_lem :
    {S E A : Type 0} (p : Result E A × S) (h : succeeds (p.0) ≡ true) → p ≡ (ok (taken p h), p.1)
taken_lem (ok a, s) h = refl
taken_lem (err e, s) h = absurd (cc)

abbrev pub claims_of : ℕ → RefreshClaims
claims_of session = record {
  sub = 10;
  session_id = session;
  exp = edustell.Common.pos 5;
  iat = edustell.Common.pos 1;
  token_type = "refresh";
}

abbrev pub issued : IssuedToken
issued = record { token = "new"; expires_at = 5000 }

-- A token service that issues tokens for one session of one user, and a hasher that keeps the secret.
abbrev pub auth_env : AuthEnv
auth_env = record {
  env = env;
  failure = λ s. none;
  error_text = λ e. "error";
  lower = λ s. s;
  new_user_id = 11;
  new_session_id = 71;
  new_verification_id = 81;
  hasher = record { hash_secret = λ s. ok s; verify_secret = λ s h. ok (str_eq s h) };
  tokens = record {
    issue_access_token = λ u s. ok (record { token = "access"; expires_at = 2000 });
    issue_refresh_token = λ u s.
        if u.id == 10 && s == 71
        then ok issued
        else (if u.id == 11 then ok issued else err (AuthError.security "other"));
    issue_email_verification_token = λ u v. ok issued;
    decode_refresh_token = λ t.
        if str_eq t "old"
        then ok (claims_of 70)
        else (if str_eq t "new" then ok (claims_of 71) else err AuthError.unauthorized);
    decode_email_verification_token = λ t. err AuthError.invalid_verification_token;
  };
}

abbrev pub parent_row : UserRow
parent_row = record {
  id = 10;
  email = "a@b.c";
  password_hash = "pw";
  role = "parent";
  email_verified = false;
  mfa_enabled = false;
  status = "active";
  created_at = 0;
  updated_at = 0;
}

abbrev pub user : User
user = record {
  id = 10;
  email = "a@b.c";
  password_hash = "pw";
  role = UserRole.parent;
  email_verified = false;
  mfa_enabled = false;
  status = "active";
  created_at = 0;
  updated_at = 0;
}

abbrev pub old_session : RefreshSession
old_session = record {
  id = 70;
  user_id = 10;
  token_hash = "old";
  expires_at = 4000;
  revoked_at = none;
}

abbrev pub accounts : AuthDb
accounts = record { users = parent_row ∷ []; sessions = old_session ∷ []; tokens = []; db = db }

abbrev pub register_input : RegisterInput
register_input = record { email = " New@b.c "; password = "pw2"; role = UserRole.donor }

abbrev pub login_input : LoginInput
login_input = record { email = " A@b.c "; password = "pw" }

-- The services of this environment understand each other, at the user of the sample.
abbrev pub one_user : AuthEnv
one_user = record auth_env {
  tokens = record (auth_env.tokens) {
    issue_refresh_token =
        λ u s. if u.id == 10 && s == 71 then ok issued else err (AuthError.security "other");
  };
}

issued_once :
    (u : User) (s : ℕ) (t : IssuedToken)
    → one_user.tokens.issue_refresh_token u s ≡ ok t
    → (t ≡ issued) × (10 ≡ u.id) × (71 ≡ s)
issued_once u s t h = ground arith

pub one_user-Understands : Understands one_user one_user
one_user-Understands = record {
  decodes = λ u s t h.
      let (same, of_user, of_session) = issued_once u s t h in
      (
        claims_of 71,
        ap (λ (x : IssuedToken). one_user.tokens.decode_refresh_token x.token) same,
        of_user,
        of_session,
      );
  verifies = λ secret hash h. ground (arith, str_eq_iff secret hash);
}

abbrev pub refreshed : AuthDb
refreshed = (refresh auth_env "old" accounts).1
