-- ===== src/Store/Savings.antt =====
-- Plans, milestones, contributors and identity checks in the database
-- (crates/infrastructure/src/persistence/repos.rs). Each method is one statement, which commits at
-- once; the state has the tables of plans and of identity checks beside those of `Db`.
use edustell.Common.{
  ℕ, String, Option, none, some, not, List, ◌∷◌, ◌&&◌, ◌||◌, ℤ, pos, leb_ℤ, ltb_ℤ, ok, ◌>>=◌, ◌>>◌,
  transpose, is_none, is_some, ◌==◌, Keyed, select, update, any, if◌then◌else◌,
}
use edustell.Domain.StringEnum.{as_str}
use edustell.Domain.Money.{currency_as_str}
use edustell.Domain.Status.{
  plan_status_enum, kyc_status_enum, payout_type_enum, milestone_status_enum,
}
use edustell.Domain.Records.{SavingsPlan, KycProfile, Milestone, VaultContributor}
use edustell.Store.Env.{Env, Statement, Constraint, Stored, execute, require}
use edustell.Store.Rows.{MilestoneRow, parse_money, parse_status, try_milestone}
use edustell.Store.Db.{Db, milestone_key, contributor_key, vault_key}

pub record SavingsPlanRow : Type 0 where
  pub id : ℕ
  pub child_profile_id : ℕ
  pub owner_user_id : ℕ
  pub name : String
  pub description : Option String
  pub target_amount_minor : ℤ
  pub target_currency : String
  pub status : String
  pub created_at : ℕ
  pub updated_at : ℕ

pub record KycProfileRow : Type 0 where
  pub id : ℕ
  pub user_id : ℕ
  pub status : String
  pub provider_reference : Option String
  pub reviewed_at : Option ℕ
  pub created_at : ℕ
  pub updated_at : ℕ

pub record SavingsDb : Type 0 where
  pub plans : List SavingsPlanRow
  pub kyc_profiles : List KycProfileRow
  pub db : Db

instance abbrev pub plan_key : Keyed SavingsPlanRow
plan_key = record { key = λ r. r.id }

-- The table of identity checks is read and written by its unique user.
instance abbrev pub kyc_user_key : Keyed KycProfileRow
kyc_user_key = record { key = λ r. r.user_id }

unfoldable pub try_plan : SavingsPlanRow → Stored SavingsPlan
try_plan v = do
  target_amount ← parse_money v.target_amount_minor v.target_currency
  status ← parse_status ⦃e = plan_status_enum⦄ v.status
  ok (record {
    id = v.id;
    child_profile_id = v.child_profile_id;
    owner_user_id = v.owner_user_id;
    name = v.name;
    description = v.description;
    target_amount = target_amount;
    status = status;
    created_at = v.created_at;
    updated_at = v.updated_at;
  })

unfoldable pub try_kyc_profile : KycProfileRow → Stored KycProfile
try_kyc_profile v = do
  status ← parse_status ⦃e = kyc_status_enum⦄ v.status
  ok (record {
    id = v.id;
    user_id = v.user_id;
    status = status;
    provider_reference = v.provider_reference;
    reviewed_at = v.reviewed_at;
    created_at = v.created_at;
    updated_at = v.updated_at;
  })

unfoldable pub plan_row : Env → SavingsPlan → SavingsPlanRow
plan_row env plan = record {
  id = plan.id;
  child_profile_id = plan.child_profile_id;
  owner_user_id = plan.owner_user_id;
  name = plan.name;
  description = plan.description;
  target_amount_minor = plan.target_amount.amount_minor;
  target_currency = currency_as_str plan.target_amount.currency;
  status = as_str plan.status;
  created_at = env.db_now;
  updated_at = env.db_now;
}

-- A statement that commits, and then the conversion of the row that it returned: when that fails, the
-- row stays.
abbrev pub Committed : Type 0 → Type 0
Committed A = Stored (Stored A × SavingsDb)

-- `SavingsPlanRepository::create`
unfoldable pub create_plan_row : Env → SavingsPlan → SavingsDb → Committed SavingsPlan
create_plan_row env plan s = do
  execute env Statement.insert_plan
  require env (is_none (select plan.id s.plans)) Constraint.unique_key
  require env (leb_ℤ (pos 0) plan.target_amount.amount_minor) Constraint.check_amount
  ok (try_plan (plan_row env plan), record s { plans = plan_row env plan ∷ s.plans })

unfoldable pub milestone_row : Env → Milestone → MilestoneRow
milestone_row env m = record {
  id = m.id;
  vault_id = m.vault_id;
  title = m.title;
  description = m.description;
  due_date = m.due_date;
  target_amount_minor = m.target_amount.amount_minor;
  funded_amount_minor = m.funded_amount.amount_minor;
  currency = currency_as_str m.target_amount.currency;
  payout_type = as_str m.payout_type;
  status = as_str m.status;
  created_at = env.db_now;
  updated_at = env.db_now;
}

-- `MilestoneRepository::create`; the checks are those of migrations/0003_education_core.sql.
unfoldable pub create_milestone_row : Env → Milestone → SavingsDb → Committed Milestone
create_milestone_row env m s = do
  execute env Statement.insert_milestone
  require env (is_none (select m.id s.db.milestones)) Constraint.unique_key
  require env (is_some (select m.vault_id s.db.vaults)) Constraint.foreign_key
  require env (ltb_ℤ (pos 0) m.target_amount.amount_minor) Constraint.check_amount
  require env (leb_ℤ (pos 0) m.funded_amount.amount_minor) Constraint.check_amount
  ok (
    try_milestone (milestone_row env m),
    record s { db = record (s.db) { milestones = milestone_row env m ∷ s.db.milestones } },
  )

-- The row of a contributor has the fields of its entity.
unfoldable pub contributor_row : Env → VaultContributor → VaultContributor
contributor_row env c = record c { created_at = env.db_now; updated_at = env.db_now }

-- `VaultRepository::add_contributor`: one row for a vault and a user.
unfoldable pub add_contributor_row : Env → VaultContributor → SavingsDb → Committed VaultContributor
add_contributor_row env c s = do
  execute env Statement.insert_contributor
  require env (is_none (select c.id s.db.contributors)) Constraint.unique_key
  require env
      (not (
        any (λ r. r.vault_id == c.vault_id && r.contributor_user_id == c.contributor_user_id)
          s.db.contributors))
      Constraint.unique_key
  require env (is_some (select c.vault_id s.db.vaults)) Constraint.foreign_key
  ok (
    ok (contributor_row env c),
    record s { db = record (s.db) { contributors = contributor_row env c ∷ s.db.contributors } },
  )

-- `KycRepository::find_by_user`
unfoldable pub find_kyc_by_user : Env → ℕ → SavingsDb → Stored (Option KycProfile)
find_kyc_by_user env user_id s = do
  execute env Statement.select_kyc_profile
  transpose try_kyc_profile (select user_id s.kyc_profiles)

unfoldable pub kyc_row : Env → KycProfile → KycProfileRow
kyc_row env p = record {
  id = p.id;
  user_id = p.user_id;
  status = as_str p.status;
  provider_reference = p.provider_reference;
  reviewed_at = p.reviewed_at;
  created_at = env.db_now;
  updated_at = env.db_now;
}

-- `ON CONFLICT (user_id) DO UPDATE`; a trigger sets `updated_at`.
unfoldable pub overwrite_kyc : Env → KycProfile → KycProfileRow → KycProfileRow
overwrite_kyc env p r = record r {
  status = as_str p.status;
  provider_reference = p.provider_reference;
  reviewed_at = p.reviewed_at;
  updated_at = env.db_now;
}

unfoldable pub upserted : Env → KycProfile → Option KycProfileRow → KycProfileRow
upserted env p none = kyc_row env p
upserted env p (some r) = overwrite_kyc env p r

-- `KycRepository::upsert`
unfoldable pub upsert_kyc : Env → KycProfile → SavingsDb → Committed KycProfile
upsert_kyc env p s = do
  execute env Statement.upsert_kyc_profile
  require env
      (is_some (select p.user_id s.kyc_profiles) || not (any (λ r. r.id == p.id) s.kyc_profiles))
      Constraint.unique_key
  ok (
    try_kyc_profile (upserted env p (select p.user_id s.kyc_profiles)),
    record s {
      kyc_profiles =
          if is_some (select p.user_id s.kyc_profiles)
          then update p.user_id (overwrite_kyc env p) s.kyc_profiles
          else kyc_row env p ∷ s.kyc_profiles;
    },
  )
