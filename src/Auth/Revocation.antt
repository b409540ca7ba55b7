-- ===== src/Auth/Revocation.antt =====
-- A session that is revoked stays so, whatever the handlers do afterwards.
use edustell.Common.{
  List, [], ◌∷◌, ℕ, String, ◌≡◌, Option, none, some, Bool, true, false, select, update, select-∷,
  arith, is_some,
}
use edustell.Domain.Auth.{User, RefreshClaims, RefreshSession}
use edustell.Auth.Ports.{AuthEnv}
use edustell.Auth.Repository.{
  AuthDb, session_key, find_user_by_email, find_user_by_id, create_user, store_refresh_session,
  find_refresh_session, revoke_refresh_session, store_email_verification_token,
  find_email_verification_token, consume_email_verification_token, mark_email_verified, revoke,
  send, constrain,
}
use edustell.Auth.Handlers.{
  new_session, RegisterInput, LoginInput, issue_session, register, login, login_as, check_session,
  rotate_session, refresh, logout, begin_email_verification, verify_email, record_audit,
}

abbrev pub is_revoked : Option RefreshSession → Bool
is_revoked none = false
is_revoked (some session) = is_some session.revoked_at

-- The session of an identifier exists and is revoked.
abbrev pub IsRevoked : ℕ → AuthDb → Type 0
IsRevoked id s = is_revoked (select id s.sessions) ≡ true

update-revoked :
    (env : AuthEnv) (k id : ℕ) (l : List RefreshSession)
    → is_revoked (select id l) ≡ true
    → is_revoked (select id (update k (revoke env) l)) ≡ true
unfolding update select revoke
update-revoked env k id [] revoked = revoked
update-revoked env k id (x ∷ l) revoked = ground (arith, update-revoked env k id l)

-- The statements of the repository.
revoke_refresh_session-IsRevoked :
    (env : AuthEnv) (id : ℕ) (s : AuthDb)
    → IsRevoked id s
    → (k : ℕ) → IsRevoked id ((revoke_refresh_session env k s).1)
unfolding revoke_refresh_session send
revoke_refresh_session-IsRevoked env id s revoked k =
    ground (arith, update-revoked env k id s.sessions)

store_refresh_session-IsRevoked :
    (env : AuthEnv) (id : ℕ) (s : AuthDb)
    → IsRevoked id s
    → (x : RefreshSession) → IsRevoked id ((store_refresh_session env x s).1)
unfolding store_refresh_session send constrain
store_refresh_session-IsRevoked env id s revoked x = ground (arith, select-∷ id x s.sessions)

pub issue_session-IsRevoked :
    (env : AuthEnv) (id : ℕ) (s : AuthDb)
    → IsRevoked id s
    → (user : User) → IsRevoked id ((issue_session env user s).1)
unfolding issue_session
issue_session-IsRevoked env id s revoked user =
    grind (arith, store_refresh_session-IsRevoked env id s revoked)

rotate_session-IsRevoked :
    (env : AuthEnv) (id : ℕ) (s : AuthDb)
    → IsRevoked id s
    → (c : RefreshClaims × RefreshSession) → IsRevoked id ((rotate_session env c s).1)
unfolding rotate_session find_user_by_id send
rotate_session-IsRevoked env id s revoked (claims, old) = grind (
  arith,
  issue_session-IsRevoked env id ((revoke_refresh_session env old.id s).1),
  revoke_refresh_session-IsRevoked env id s revoked old.id,
)

-- A rotation only begins where the session is not revoked, and does not write before it does.
check_session-same :
    (env : AuthEnv) (token : String) (s : AuthDb) → (check_session env token s).1 ≡ s
unfolding check_session find_refresh_session send
check_session-same env token s = ground arith

-- What the handlers do to the state.
pub data Step : AuthDb → AuthDb → Type 0 where
  registered :
      (env : AuthEnv) (input : RegisterInput) (s : AuthDb) → Step s ((register env input s).1)
  logged_in : (env : AuthEnv) (input : LoginInput) (s : AuthDb) → Step s ((login env input s).1)
  refreshed : (env : AuthEnv) (token : String) (s : AuthDb) → Step s ((refresh env token s).1)
  rotated :
      (env : AuthEnv) (checked : RefreshClaims × RefreshSession) (s : AuthDb)
      → Step s ((rotate_session env checked s).1)
  logged_out : (env : AuthEnv) (token : String) (s : AuthDb) → Step s ((logout env token s).1)
  verification_begun :
      (env : AuthEnv) (user_id : ℕ) (s : AuthDb)
      → Step s ((begin_email_verification env user_id s).1)
  verified : (env : AuthEnv) (token : String) (s : AuthDb) → Step s ((verify_email env token s).1)

register-IsRevoked :
    (env : AuthEnv) (input : RegisterInput) (id : ℕ) (s : AuthDb)
    → IsRevoked id s
    → IsRevoked id ((register env input s).1)
unfolding register find_user_by_email send create_user constrain record_audit issue_session
    store_refresh_session new_session select
register-IsRevoked env input id s revoked = ground arith

login-IsRevoked :
    (env : AuthEnv) (input : LoginInput) (id : ℕ) (s : AuthDb)
    → IsRevoked id s
    → IsRevoked id ((login env input s).1)
unfolding login login_as find_user_by_email send issue_session store_refresh_session new_session
    select constrain
login-IsRevoked env input id s revoked = ground arith

refresh-IsRevoked :
    (env : AuthEnv) (token : String) (id : ℕ) (s : AuthDb)
    → IsRevoked id s
    → IsRevoked id ((refresh env token s).1)
unfolding refresh
refresh-IsRevoked env token id s revoked =
    grind (arith, check_session-same env token s, rotate_session-IsRevoked env id s revoked)

logout-IsRevoked :
    (env : AuthEnv) (token : String) (id : ℕ) (s : AuthDb)
    → IsRevoked id s
    → IsRevoked id ((logout env token s).1)
unfolding logout
logout-IsRevoked env token id s revoked =
    grind (arith, revoke_refresh_session-IsRevoked env id s revoked)

begin-IsRevoked :
    (env : AuthEnv) (user_id id : ℕ) (s : AuthDb)
    → IsRevoked id s
    → IsRevoked id ((begin_email_verification env user_id s).1)
unfolding begin_email_verification find_user_by_id send constrain store_email_verification_token
begin-IsRevoked env user_id id s revoked = ground arith

verify-IsRevoked :
    (env : AuthEnv) (token : String) (id : ℕ) (s : AuthDb)
    → IsRevoked id s
    → IsRevoked id ((verify_email env token s).1)
unfolding verify_email find_user_by_id send find_email_verification_token
    consume_email_verification_token mark_email_verified
verify-IsRevoked env token id s revoked = ground arith

-- The state after some requests.
pub data Run : AuthDb → AuthDb → Type 0 where
  done : (s : AuthDb) → Run s s
  next : (s t u : AuthDb) → Step s t → Run t u → Run s u

step-IsRevoked : (id : ℕ) (s t : AuthDb) → Step s t → IsRevoked id s → IsRevoked id t
step-IsRevoked id s _ (Step.registered env input _) revoked =
    register-IsRevoked env input id s revoked
step-IsRevoked id s _ (Step.logged_in env input _) revoked = login-IsRevoked env input id s revoked
step-IsRevoked id s _ (Step.refreshed env token _) revoked =
    refresh-IsRevoked env token id s revoked
step-IsRevoked id s _ (Step.rotated env checked _) revoked =
    rotate_session-IsRevoked env id s revoked checked
step-IsRevoked id s _ (Step.logged_out env token _) revoked =
    logout-IsRevoked env token id s revoked
step-IsRevoked id s _ (Step.verification_begun env user_id _) revoked =
    begin-IsRevoked env user_id id s revoked
step-IsRevoked id s _ (Step.verified env token _) revoked = verify-IsRevoked env token id s revoked

pub Run-IsRevoked : (id : ℕ) (s t : AuthDb) → Run s t → IsRevoked id s → IsRevoked id t
Run-IsRevoked id s _ (Run.done _) revoked = revoked
Run-IsRevoked id s u (Run.next _ t _ step run) revoked =
    Run-IsRevoked id t u run (step-IsRevoked id s t step revoked)
