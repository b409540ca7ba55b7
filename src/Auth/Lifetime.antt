-- ===== src/Auth/Lifetime.antt =====
-- A session that was issued can be used.
use edustell.Common.{
  some, select, inr, inl, Result-cases, ℕ, String, ◌≡◌, none, true, ok, arith, ◌<◌,
}
use edustell.Domain.Auth.{User, RefreshClaims, RefreshSession}
use edustell.Auth.Ports.{AuthEnv, AuthStatement, IssuedToken}
use edustell.Auth.Repository.{
  AuthDb, session_key, send, constrain, store_refresh_session, find_refresh_session,
}
use edustell.Auth.Handlers.{AuthResponse, issue_session, new_session, check_session}

-- The services of a later request read what those of an earlier one have issued.
pub record Understands (env later : AuthEnv) : Type 0 where
  pub decodes :
      (user : User) (session_id : ℕ) (issued : IssuedToken)
      → env.tokens.issue_refresh_token user session_id ≡ ok issued
      → (claims : RefreshClaims) × (later.tokens.decode_refresh_token issued.token ≡ ok claims)
        × (claims.sub ≡ user.id)
        × (claims.session_id ≡ session_id)
  pub verifies :
      (secret hash : String)
      → env.hasher.hash_secret secret ≡ ok hash
      → later.hasher.verify_secret secret hash ≡ ok true

-- What is stored when a session is issued.
issue_session-stored :
    (env : AuthEnv) (user : User) (s t : AuthDb) (r : AuthResponse)
    → issue_session env user s ≡ (ok r, t)
    → (issued : IssuedToken) × (hash : String) × (env.tokens.issue_refresh_token user
          env.new_session_id
        ≡ ok issued)
      × (env.hasher.hash_secret issued.token ≡ ok hash)
      × (r.tokens.refresh_token ≡ issued.token)
      × (r.tokens.refresh_expires_at ≡ issued.expires_at)
      × (select env.new_session_id t.sessions ≡ some (new_session env user hash issued))
unfolding issue_session store_refresh_session send constrain select new_session
issue_session-stored env user s t r done =
    elim (Result-cases (env.tokens.issue_refresh_token user env.new_session_id)) [
      | inr (e, failed) ↦ absurd (ground arith)
      | inl (issued, ok_issued) ↦ elim (Result-cases (env.hasher.hash_secret issued.token)) [
        | inr (e, failed) ↦ absurd (ground arith)
        | inl (hash, hashed) ↦
            (issued, hash, ok_issued, hashed, ground arith, ground arith, ground arith)
      ]
    ]

-- The refresh token of a session that was just issued passes the checks of a refresh until it expires,
-- when the later request understands the tokens and hashes of the earlier one and its query is answered.
pub check_session-issued :
    (env later : AuthEnv) (user : User) (s t : AuthDb) (r : AuthResponse)
    → Understands env later
    → later.failure AuthStatement.select_session ≡ none
    → issue_session env user s ≡ (ok r, t)
    → later.env.utc_now < r.tokens.refresh_expires_at
    → (checked : RefreshClaims × RefreshSession) × (check_session later r.tokens.refresh_token t
        ≡ (ok checked, t))
unfolding check_session send find_refresh_session new_session
check_session-issued env later user s t r understands answered done fresh =
    let (issued, hash, ok_issued, hashed, at_token, at_expiry, stored) =
      issue_session-stored env user s t r done in
    let (claims, decoded, sub, session_id) =
      understands.decodes user env.new_session_id issued ok_issued in
    let verified = understands.verifies issued.token hash hashed in
    ((claims, new_session env user hash issued), ground arith)
