-- ===== src/Auth/Sessions.antt =====
-- What a session is good for: one rotation, and none after a logout.
use edustell.Common.{
  subst, refl, str_eq, [], ◌∷◌, ℕ, String, ◌≡◌, Bool, true, none, some, ok, err, is_some, select,
  update, List, arith, any, select-key,
}
use edustell.Domain.Auth.{User, RefreshClaims, RefreshSession}
use edustell.Common.Actions.{continue-eq-ok}
use edustell.Auth.Ports.{AuthError, AuthEnv, AuthStatement}
use edustell.Auth.Repository.{
  constrain, store_refresh_session, AuthDb, session_key, send, find_refresh_session, revoke,
  revoke_refresh_session, find_user_by_id,
}
use edustell.Auth.Handlers.{
  AuthResponse, check_session, rotate_session, refresh, issue_session, logout,
}
use edustell.Auth.Revocation.{IsRevoked, is_revoked, Run, Run-IsRevoked, issue_session-IsRevoked}

-- After a revocation the session is revoked, if it exists.
update-is_revoked :
    (env : AuthEnv) (id : ℕ) (l : List RefreshSession)
    → is_some (select id l) ≡ true
    → is_revoked (select id (update id (revoke env) l)) ≡ true
unfolding select update revoke
update-is_revoked env id [] known = cc
update-is_revoked env id (y ∷ l) known = ground (arith, update-is_revoked env id l)

-- A token whose session is revoked is refused.
refresh-refused :
    (env : AuthEnv) (token : String) (claims : RefreshClaims) (s : AuthDb)
    → env.tokens.decode_refresh_token token ≡ ok claims
    → env.failure AuthStatement.select_session ≡ none
    → IsRevoked claims.session_id s
    → refresh env token s ≡ (err AuthError.unauthorized, s)
unfolding refresh check_session send find_refresh_session
refresh-refused env token claims s decoded answered revoked = ground arith

-- A rotation passes its checks at a session that the token names and that is not revoked.
check_session-found :
    (env : AuthEnv) (token : String) (claims c : RefreshClaims) (old : RefreshSession)
    (s t : AuthDb)
    → env.tokens.decode_refresh_token token ≡ ok claims
    → check_session env token s ≡ (ok (c, old), t)
    → (c ≡ claims)
      × (select claims.session_id s.sessions ≡ some old)
      × (old.revoked_at ≡ none)
      × (t ≡ s)
unfolding check_session send find_refresh_session
check_session-found env token claims c old s t decoded done = ground arith

rotate_session-revokes :
    (env : AuthEnv) (claims : RefreshClaims) (old : RefreshSession) (s t : AuthDb)
    (r : AuthResponse)
    → is_some (select old.id s.sessions) ≡ true
    → rotate_session env (claims, old) s ≡ (ok r, t)
    → IsRevoked old.id t
unfolding rotate_session revoke_refresh_session send find_user_by_id
rotate_session-revokes env claims old s t r known done = grind (
  arith,
  issue_session-IsRevoked env old.id (record s { sessions = update old.id (revoke env) s.sessions })
      (update-is_revoked env old.id s.sessions known),
)

rotated-revokes :
    (env : AuthEnv) (token : String) (claims c : RefreshClaims) (old : RefreshSession)
    (s u t : AuthDb) (r : AuthResponse)
    → env.tokens.decode_refresh_token token ≡ ok claims
    → check_session env token s ≡ (ok (c, old), u)
    → rotate_session env (c, old) u ≡ (ok r, t)
    → IsRevoked claims.session_id t
rotated-revokes env token claims c old s u t r decoded checked rotated =
    let (same, found, unrevoked, kept) =
      check_session-found env token claims c old s u decoded checked in
    let known : is_some (select old.id u.sessions) ≡ true =
      grind (arith, select-key claims.session_id s.sessions old found) in
    subst (λ k. IsRevoked k t) (select-key claims.session_id s.sessions old found)
      (rotate_session-revokes env c old u t r known rotated)

refresh-revokes :
    (env : AuthEnv) (token : String) (claims : RefreshClaims) (s t : AuthDb) (r : AuthResponse)
    → env.tokens.decode_refresh_token token ≡ ok claims
    → refresh env token s ≡ (ok r, t)
    → IsRevoked claims.session_id t
unfolding refresh
refresh-revokes env token claims s t r decoded done =
    let (checked, u, check_done, rotated) =
      continue-eq-ok (check_session env token s) (rotate_session env) r t done in
    rotated-revokes env token claims (checked.0) (checked.1) s u t r decoded check_done rotated

logout-revokes :
    (env : AuthEnv) (token : String) (claims : RefreshClaims) (s t : AuthDb)
    → env.tokens.decode_refresh_token token ≡ ok claims
    → is_some (select claims.session_id s.sessions) ≡ true
    → logout env token s ≡ (ok tt, t)
    → IsRevoked claims.session_id t
unfolding logout send revoke_refresh_session
logout-revokes env token claims s t decoded known done =
    ground (arith, update-is_revoked env claims.session_id s.sessions)

update-any :
    (p : RefreshSession → Bool) (k : ℕ) (f : RefreshSession → RefreshSession)
    (l : List RefreshSession)
    → ((x : RefreshSession) → p (f x) ≡ p x)
    → any p (update k f l) ≡ any p l
unfolding any update
update-any p k f [] same = refl
update-any p k f (x ∷ l) same = ground (arith, same x, update-any p k f l same)

update-known :
    (env : AuthEnv) (k j : ℕ) (l : List RefreshSession)
    → is_some (select j (update k (revoke env) l)) ≡ is_some (select j l)
unfolding select update revoke
update-known env k j [] = refl
update-known env k j (x ∷ l) = ground (arith, update-known env k j l)

revoke-hash :
    (env : AuthEnv) (h : String) (x : RefreshSession)
    → str_eq ((revoke env x).token_hash) h ≡ str_eq x.token_hash h
unfolding revoke
revoke-hash env h x = ground arith

-- Whether a session can be stored does not depend on what is revoked.
store-same :
    (env other : AuthEnv) (id : ℕ) (x : RefreshSession) (s : AuthDb)
    → (store_refresh_session env x (record s { sessions = update id (revoke other) s.sessions })).0
      ≡ (store_refresh_session env x s).0
unfolding store_refresh_session send constrain
store-same env other id x s = ground (
  arith,
  update-known other id x.id s.sessions,
  update-any (λ r. str_eq r.token_hash x.token_hash) id (revoke other) s.sessions
      (revoke-hash other x.token_hash),
)

-- So a session that another request has just revoked leaves as much room for a new one.
issue-same :
    (env first second : AuthEnv) (id : ℕ) (user : User) (s : AuthDb)
    → (issue_session env user
        (record s { sessions = update id (revoke first) (update id (revoke second) s.sessions) })).0
      ≡ (issue_session env user (record s { sessions = update id (revoke first) s.sessions })).0
unfolding issue_session
issue-same env first second id user s =
    let once : AuthDb = record s { sessions = update id (revoke second) s.sessions } in
    grind (
      arith,
      λ (x : RefreshSession). store-same env first id x once,
      λ (x : RefreshSession). store-same env second id x s,
      λ (x : RefreshSession). store-same env first id x s,
    )

-- Between its checks and its writes another request may revoke the session: the writes of a rotation
-- give the same answer, a new session included, whether or not that happened.
pub rotate_session-unchecked :
    (env other : AuthEnv) (claims : RefreshClaims) (old : RefreshSession) (s : AuthDb)
    → (rotate_session env
        (claims, old)
        (record s { sessions = update old.id (revoke other) s.sessions })).0
      ≡ (rotate_session env (claims, old) s).0
unfolding rotate_session revoke_refresh_session send find_user_by_id
rotate_session-unchecked env other claims old s =
    grind (arith, λ (user : User). issue-same env env other old.id user s)

-- Once a refresh with a token has succeeded, another one after any further requests is refused as
-- unauthorized and writes nothing, when the token is read as before and the session is found by its query.
pub refresh-once :
    (env later : AuthEnv) (token : String) (claims : RefreshClaims) (s t u : AuthDb)
    (r : AuthResponse)
    → env.tokens.decode_refresh_token token ≡ ok claims
    → later.tokens.decode_refresh_token token ≡ ok claims
    → later.failure AuthStatement.select_session ≡ none
    → refresh env token s ≡ (ok r, t)
    → Run t u
    → refresh later token u ≡ (err AuthError.unauthorized, u)
refresh-once env later token claims s t u r decoded decoded_later answered done run =
    refresh-refused later token claims u decoded_later answered (
      Run-IsRevoked claims.session_id t u run (refresh-revokes env token claims s t r decoded done))

-- After a logout that succeeds at a stored session, a refresh with its token after any further requests
-- is refused as unauthorized and writes nothing, when the token is read as before and the query is answered.
pub logout-final :
    (env later : AuthEnv) (token : String) (claims : RefreshClaims) (s t u : AuthDb)
    → env.tokens.decode_refresh_token token ≡ ok claims
    → later.tokens.decode_refresh_token token ≡ ok claims
    → later.failure AuthStatement.select_session ≡ none
    → is_some (select claims.session_id s.sessions) ≡ true
    → logout env token s ≡ (ok tt, t)
    → Run t u
    → refresh later token u ≡ (err AuthError.unauthorized, u)
logout-final env later token claims s t u decoded decoded_later answered known done run =
    refresh-refused later token claims u decoded_later answered (
      Run-IsRevoked claims.session_id t u run
        (logout-revokes env token claims s t decoded known done))
