-- ===== src/Store/Vaults/Steps.antt =====
-- What a vault's read and write leave behind when they succeed.
use edustell.Common.{
  inr, inl, Option-cases, ℕ, some, ◌≡◌, true, pos, leb_ℤ, ok, arith, select, update,
}
use edustell.Domain.Records.{SavingsVault}
use edustell.Store.Env.{Env, execute, require}
use edustell.Store.Rows.{SavingsVaultRow, try_vault}
use edustell.Store.Db.{Db, vault_key}
use edustell.Store.Vaults.{find_vault_for_update, update_vault}

-- The fields of an entity are those of its row.
pub record IsVaultOf (r : SavingsVaultRow) (v : SavingsVault) : Type 0 where
  pub id : v.id ≡ r.id
  pub contributed : v.total_contributed_minor ≡ r.total_contributed_minor
  pub locked : v.total_locked_minor ≡ r.total_locked_minor
  pub disbursed : v.total_disbursed_minor ≡ r.total_disbursed_minor
  pub owner : v.owner_user_id ≡ r.owner_user_id
  pub currency : v.currency ≡ r.currency

pub try_vault-IsVaultOf :
    (r : SavingsVaultRow) (v : SavingsVault) → try_vault r ≡ ok v → IsVaultOf r v
unfolding try_vault
try_vault-IsVaultOf r v h = ground arith

pub find_vault_for_update-eq-some :
    (env : Env) (id : ℕ) (db : Db) (v : SavingsVault)
    → find_vault_for_update env id db ≡ ok (some v)
    → (r : SavingsVaultRow) × (select id db.vaults ≡ some r) × (try_vault r ≡ ok v)
unfolding find_vault_for_update
find_vault_for_update-eq-some env id db v h = elim (Option-cases (select id db.vaults)) [
  | inl missing ↦ absurd (ground arith)
  | inr (r, found) ↦ (r, found, ground arith)
]

pub update_vault-eq-ok :
    (env : Env) (id : ℕ) (change : SavingsVaultRow → SavingsVaultRow) (db db' : Db)
    (v : SavingsVault)
    → update_vault env id change db ≡ ok (v, db')
    → (r : SavingsVaultRow) × (select id db.vaults ≡ some r)
      × (try_vault (change r) ≡ ok v)
      × (leb_ℤ (pos 0) (change r).total_contributed_minor ≡ true)
      × (leb_ℤ (pos 0) (change r).total_locked_minor ≡ true)
      × (leb_ℤ (pos 0) (change r).total_disbursed_minor ≡ true)
      × (db' ≡ record db { vaults = update id change db.vaults })
unfolding update_vault require execute
update_vault-eq-ok env id change db db' v h = elim (Option-cases (select id db.vaults)) [
  | inl missing ↦ absurd (ground arith)
  | inr (r, found) ↦
      (r, found, ground arith, ground arith, ground arith, ground arith, ground arith)
]
