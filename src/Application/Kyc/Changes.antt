-- ===== src/Application/Kyc/Changes.antt =====
-- What an identity check that is updated leaves behind.
use edustell.Common.{
  Result-cases, ◌∙◌, subst, ℕ, String, ◌≡◌, ◌≢◌, inl, inr, Option, none, some, ok, arith, select,
  refl, select-update_self, select-update_ne, select-∷, Option-cases,
}
use edustell.Common.Actions.{continue-eq-ok, guard}
use edustell.Domain.StringEnum.{as_str, eq_enum}
use edustell.Domain.Auth.{UserRole, user_role_enum, AuthenticatedUser}
use edustell.Domain.Status.{kyc_status_enum}
use edustell.Domain.Records.{KycProfile}
use edustell.Store.Env.{Env, Stored}
use edustell.Store.Savings.{
  SavingsDb, KycProfileRow, kyc_user_key, find_kyc_by_user, upsert_kyc, upserted, overwrite_kyc,
  kyc_row,
}
use edustell.Application.Kyc.{
  KycError, UpdateKycStatusInput, new_profile, update_kyc_status, record_change, previous_status,
  query, write,
}

overwrite_kyc-key :
    (env : Env) (p : KycProfile) (r : KycProfileRow) → (overwrite_kyc env p r).user_id ≡ r.user_id
unfolding overwrite_kyc
overwrite_kyc-key env p r = refl

-- The row of a user after an upsert, and those of the others.
upsert_kyc-row :
    (env : Env) (p : KycProfile) (saved : Stored KycProfile) (s t : SavingsDb)
    → upsert_kyc env p s ≡ ok (saved, t)
    → (select p.user_id t.kyc_profiles ≡ some (upserted env p (select p.user_id s.kyc_profiles)))
      × (t.db ≡ s.db)
unfolding upsert_kyc kyc_row upserted
upsert_kyc-row env p saved s t h = elim (Option-cases (select p.user_id s.kyc_profiles)) [
  | inl missing ↦ ground (arith, select-∷ p.user_id (kyc_row env p) s.kyc_profiles, missing)
  | inr (r, found) ↦ ground (
    arith,
    found,
    select-update_self p.user_id (overwrite_kyc env p) s.kyc_profiles r (overwrite_kyc-key env p)
        found,
  )
]

upsert_kyc-others :
    (env : Env) (p : KycProfile) (saved : Stored KycProfile) (s t : SavingsDb) (j : ℕ)
    → upsert_kyc env p s ≡ ok (saved, t)
    → j ≢ p.user_id
    → select j t.kyc_profiles ≡ select j s.kyc_profiles
unfolding upsert_kyc kyc_row
upsert_kyc-others env p saved s t j h other =
    elim (Option-cases (select p.user_id s.kyc_profiles)) [
      | inl missing ↦ ground (arith, select-∷ j (kyc_row env p) s.kyc_profiles, missing)
      | inr (r, found) ↦ ground (
        arith,
        found,
        select-update_ne j p.user_id (overwrite_kyc env p) s.kyc_profiles (overwrite_kyc-key env p)
            other,
      )
    ]

record_change-kept :
    (env : Env) (actor : AuthenticatedUser) (saved : KycProfile) (previous : Option String)
    (s : SavingsDb)
    → ((record_change env actor saved previous s).1.kyc_profiles ≡ s.kyc_profiles)
unfolding record_change
record_change-kept env actor saved previous s = ground arith

-- The columns that an upsert writes.
upserted-columns :
    (env : Env) (p : KycProfile) (o : Option KycProfileRow)
    → ((upserted env p o).status ≡ as_str p.status)
      × ((upserted env p o).provider_reference ≡ p.provider_reference)
      × ((upserted env p o).reviewed_at ≡ p.reviewed_at)
unfolding upserted kyc_row overwrite_kyc
upserted-columns env p none = (refl, refl, refl)
upserted-columns env p (some r) = (refl, refl, refl)

-- The row of the user, as it is stored afterwards, and those of the others.
abbrev pub Updated : Env → AuthenticatedUser → UpdateKycStatusInput → SavingsDb → SavingsDb → Type 0
Updated env actor input s t =
    (actor.role ≡ UserRole.platform_admin)
    × ((row : KycProfileRow) × (select input.user_id t.kyc_profiles ≡ some row)
        × (row.status ≡ as_str input.status)
        × (row.provider_reference ≡ input.provider_reference)
        × (row.reviewed_at ≡ some env.utc_now))
    × ((j : ℕ) → j ≢ input.user_id → select j t.kyc_profiles ≡ select j s.kyc_profiles)

upsert-Updated :
    (env : Env) (actor : AuthenticatedUser) (input : UpdateKycStatusInput)
    (existing : Option KycProfile) (saved : Stored KycProfile) (s t u : SavingsDb)
    → actor.role ≡ UserRole.platform_admin
    → upsert_kyc env (new_profile env input existing) s ≡ ok (saved, t)
    → u.kyc_profiles ≡ t.kyc_profiles
    → Updated env actor input s u
unfolding new_profile
upsert-Updated env actor input existing saved s t u admin wrote kept =
    let before = select input.user_id s.kyc_profiles in
    let (status, reference, reviewed) =
      upserted-columns env (new_profile env input existing) before in
    (
      admin,
      (
        upserted env (new_profile env input existing) before,
        ground (arith, upsert_kyc-row env (new_profile env input existing) saved s t wrote),
        status,
        reference,
        reviewed,
      ),
      λ j other.
          ground
            (arith, upsert_kyc-others env (new_profile env input existing) saved s t j wrote other),
    )

guard-admin :
    (actor : AuthenticatedUser) (s t : SavingsDb) (u : Unit {0})
    → guard (eq_enum actor.role UserRole.platform_admin) KycError.forbidden s ≡ (ok u, t)
    → (actor.role ≡ UserRole.platform_admin) × (t ≡ s)
guard-admin actor s t u h = ground arith

query-eq-ok :
    (env : Env) (user : ℕ) (s t : SavingsDb) (existing : Option KycProfile)
    → query (find_kyc_by_user env user) s ≡ (ok existing, t)
    → (find_kyc_by_user env user s ≡ ok existing) × (t ≡ s)
query-eq-ok env user s t existing h = ground arith

write-eq-ok :
    (env : Env) (p saved : KycProfile) (s t : SavingsDb)
    → write (upsert_kyc env p) s ≡ (ok saved, t)
    → (stored : Stored KycProfile) × (upsert_kyc env p s ≡ ok (stored, t))
write-eq-ok env p saved s t h = elim (Result-cases (upsert_kyc env p s)) [
  | inl ((stored, u), done) ↦ (stored, ground (arith, done))
  | inr (e, failed) ↦ absurd (ground (arith, failed))
]

-- An update that succeeds was made by a platform admin. The row of the user then has the status and the
-- reference that were asked for and the present as its review time; the rows of other users stay.
pub update_kyc_status-Updated :
    (env : Env) (actor : AuthenticatedUser) (input : UpdateKycStatusInput) (s t : SavingsDb)
    (p : KycProfile)
    → update_kyc_status env actor input s ≡ (ok p, t)
    → Updated env actor input s t
unfolding update_kyc_status
update_kyc_status-Updated env actor input s t p h =
    let (u0, s0, e0, h0) =
      continue-eq-ok (guard (eq_enum actor.role UserRole.platform_admin) KycError.forbidden s) _ p t
        h in
    let (existing, s1, e1, h1) =
      continue-eq-ok (query (find_kyc_by_user env input.user_id) s0) _ p t h0 in
    let (saved, s2, e2, h2) =
      continue-eq-ok (write (upsert_kyc env (new_profile env input existing)) s1) _ p t h1 in
    let (u3, s3, e3, h3) =
      continue-eq-ok (record_change env actor saved (previous_status existing) s2) _ p t h2 in
    let (admin, same0) = guard-admin actor s s0 u0 e0 in
    let (read, same1) = query-eq-ok env input.user_id s0 s1 existing e1 in
    let (stored, wrote) = write-eq-ok env (new_profile env input existing) saved s1 s2 e2 in
    let same : s1 ≡ s = same1 ∙ same0 in
    upsert-Updated env actor input existing stored s s2 t admin
      (subst (λ x. upsert_kyc env (new_profile env input existing) x ≡ ok (stored, s2)) same wrote)
      (ground (arith, h3, e3, record_change-kept env actor saved (previous_status existing) s2))
