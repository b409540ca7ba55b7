-- ===== src/Auth/Accounts.antt =====
-- Who can register, and who can log in.
use edustell.Common.{
  str_eq_iff, transpose, Result-cases, Option, refl, ◌≡◌, ◌≢◌, ◌⊎◌, inl, inr, String, some, none,
  true, false, ◌∷◌, ok, err, any, find, str_eq, arith,
}
use edustell.Common.Actions.{continue-eq-ok}
use edustell.Domain.StringEnum.{as_str}
use edustell.Domain.Auth.{UserRole, user_role_enum, to_public, User}
use edustell.Auth.Ports.{AuthError, AuthEnv}
use edustell.Auth.Repository.{
  AuthDb, user_key, UserRow, find_user_by_email, create_user, user_row, try_user,
  store_refresh_session, send, constrain,
}
use edustell.Auth.Handlers.{
  RegisterInput, LoginInput, AuthResponse, register, login, login_as, issue_session, record_audit,
  normalize_email, ensure_registerable_role, ensure_active_user,
}

-- What a registration adds to the users, whatever it answers: nothing, or one active account with the
-- role that was asked for, for an address that no account has.
abbrev pub AddedUser : AuthEnv → RegisterInput → String → AuthDb → AuthDb → Type 0
AddedUser env input hash s t =
    (env.hasher.hash_secret input.password ≡ ok hash)
    × (input.role ≢ UserRole.platform_admin)
    × (input.role ≢ UserRole.school_admin)
    × (any (λ r. str_eq r.email (normalize_email input.email)) s.users ≡ false)
    × ((row : UserRow) × (t.users ≡ row ∷ s.users)
        × (row.email ≡ normalize_email input.email)
        × (row.password_hash ≡ hash)
        × (row.role ≡ as_str input.role)
        × (row.status ≡ "active")
        × (row.email_verified ≡ false))

-- What the handler adds, as it makes it.
abbrev Added : AuthEnv → RegisterInput → String → AuthDb → AuthDb → Type 0
Added env input hash s t =
    (ensure_registerable_role input.role ≡ ok tt)
    × (any (λ r. str_eq r.email (normalize_email input.email)) s.users ≡ false)
    × (t.users
        ≡ user_row env (record {
          email = normalize_email input.email;
          password_hash = hash;
          role = input.role;
        })
          ∷ s.users)

registerable :
    (role : UserRole)
    → ensure_registerable_role role ≡ ok tt
    → (role ≢ UserRole.platform_admin) × (role ≢ UserRole.school_admin)
unfolding ensure_registerable_role
registerable role allowed = (λ same. ground arith, λ same. ground arith)

Added-AddedUser :
    (env : AuthEnv) (input : RegisterInput) (hash : String) (s t : AuthDb)
    → env.hasher.hash_secret input.password ≡ ok hash
    → Added env input hash s t
    → AddedUser env input hash s t
unfolding user_row
Added-AddedUser env input hash s t hashed (allowed, free, added) =
    let (not_platform, not_school) = registerable input.role allowed in
    (hashed, not_platform, not_school, free, (_, added, refl, refl, refl, refl, refl))

register-hashed :
    (env : AuthEnv) (input : RegisterInput) (hash : String) (s : AuthDb)
    → env.hasher.hash_secret input.password ≡ ok hash
    → ((register env input s).1.users ≡ s.users) ⊎ Added env input hash s ((register env input s).1)
unfolding register find_user_by_email create_user send constrain record_audit issue_session
    store_refresh_session
register-hashed env input hash s hashed = ground arith

register-unhashed :
    (env : AuthEnv) (input : RegisterInput) (e : AuthError) (s : AuthDb)
    → env.hasher.hash_secret input.password ≡ err e
    → (register env input s).1.users ≡ s.users
unfolding register find_user_by_email create_user send constrain record_audit issue_session
    store_refresh_session
register-unhashed env input e s failed = ground arith

-- A registration leaves the users as they are or adds one active account with the requested role, which
-- is neither that of a school admin nor of a platform admin, for an address that no account has.
pub register-AddedUser :
    (env : AuthEnv) (input : RegisterInput) (s : AuthDb)
    → ((register env input s).1.users ≡ s.users)
      ⊎ ((hash : String) × AddedUser env input hash s ((register env input s).1))
register-AddedUser env input s = elim (Result-cases (env.hasher.hash_secret input.password)) [
  | inl (hash, hashed) ↦ elim (register-hashed env input hash s hashed) [
    | inl same ↦ inl same
    | inr added ↦
        inr (hash, Added-AddedUser env input hash s ((register env input s).1) hashed added)
  ]
  | inr (e, failed) ↦ inl (register-unhashed env input e s failed)
]

transpose-found :
    (found : Option UserRow) (user : User)
    → transpose try_user found ≡ ok (some user)
    → (row : UserRow) × (found ≡ some row) × (try_user row ≡ ok user)
transpose-found none user h = absurd (cc)
transpose-found (some row) user h = (row, refl, ground arith)

find_user_by_email-found :
    (env : AuthEnv) (email : String) (s t : AuthDb) (user : User)
    → find_user_by_email env email s ≡ (ok (some user), t)
    → (row : UserRow) × (find (λ x. str_eq (env.lower x.email) (env.lower email)) s.users
        ≡ some row)
      × (try_user row ≡ ok user)
unfolding find_user_by_email send
find_user_by_email-found env email s t user h =
    transpose-found (find (λ x. str_eq (env.lower x.email) (env.lower email)) s.users) user
      (ground arith)

-- A login that succeeds: an active user of the normalized address, whose password hash accepts the
-- password.
abbrev pub LoggedIn : AuthEnv → LoginInput → AuthDb → AuthResponse → Type 0
LoggedIn env input s r =
    (row : UserRow) × (user : User) × (find
        (λ x. str_eq (env.lower x.email) (env.lower (normalize_email input.email))) s.users
      ≡ some row)
    × (try_user row ≡ ok user)
    × (user.status ≡ "active")
    × (env.hasher.verify_secret input.password user.password_hash ≡ ok true)
    × (r.user ≡ to_public user)

issue_session-user :
    (env : AuthEnv) (user : User) (s t : AuthDb) (r : AuthResponse)
    → issue_session env user s ≡ (ok r, t)
    → r.user ≡ to_public user
unfolding issue_session
issue_session-user env user s t r done = grind arith

-- The part of a login after its query.
login_as-checked :
    (env : AuthEnv) (input : LoginInput) (user : User) (s t : AuthDb) (r : AuthResponse)
    → login_as env input (some user) s ≡ (ok r, t)
    → (user.status ≡ "active")
      × (env.hasher.verify_secret input.password user.password_hash ≡ ok true)
      × (r.user ≡ to_public user)
unfolding login_as ensure_active_user
login_as-checked env input user s t r h =
    ground (arith, str_eq_iff user.status "active", issue_session-user env user s t r)

login_as-unknown :
    (env : AuthEnv) (input : LoginInput) (s t : AuthDb) (r : AuthResponse)
    → login_as env input none s ≡ (ok r, t)
    → ⊥
unfolding login_as
login_as-unknown env input s t r h = ground arith

login-found :
    (env : AuthEnv) (input : LoginInput) (found : Option User) (s u t : AuthDb) (r : AuthResponse)
    → find_user_by_email env (normalize_email input.email) s ≡ (ok found, u)
    → login_as env input found u ≡ (ok r, t)
    → LoggedIn env input s r
login-found env input none s u t r looked h = absurd (login_as-unknown env input u t r h)
login-found env input (some user) s u t r looked h =
    let (row, at_row, read) =
      find_user_by_email-found env (normalize_email input.email) s u user looked in
    let (active, accepted, answer) = login_as-checked env input user u t r h in
    (row, user, at_row, read, active, accepted, answer)

-- A login that succeeds is one of an active account of the given address, whose hash accepts the
-- password, and answers with that account.
pub login-LoggedIn :
    (env : AuthEnv) (input : LoginInput) (s t : AuthDb) (r : AuthResponse)
    → login env input s ≡ (ok r, t)
    → LoggedIn env input s r
unfolding login
login-LoggedIn env input s t r done =
    let (found, u, looked, rest) =
      continue-eq-ok (find_user_by_email env (normalize_email input.email) s) (login_as env input) r
        t done in
    login-found env input found s u t r looked rest
