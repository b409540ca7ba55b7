-- ===== src/Store/Vaults.antt =====
-- The vault's row: it is locked and read, and its balances are written
-- (crates/infrastructure/src/persistence/repos.rs, the checks of migrations/0003_education_core.sql
-- and migrations/0006_school_payouts.sql).
pub mod Steps
use edustell.Common.{
  ℕ, Option, ◌&&◌, ℤ, pos, ◌+ℤ◌, leb_ℤ, ltb, pos_part, i64_half, ok, ◌>>=◌, ◌>>◌, transpose, ok_or,
  select, update,
}
use edustell.Domain.Records.{SavingsVault}
use edustell.Store.Env.{Env, Statement, Constraint, Stored, execute, require, map_err, violation}
use edustell.Store.Rows.{SavingsVaultRow, try_vault}
use edustell.Store.Db.{Db, vault_key}

unfoldable pub find_vault_for_update : Env → ℕ → Db → Stored (Option SavingsVault)
find_vault_for_update env id db = do
  execute env Statement.select_vault
  transpose try_vault (select id db.vaults)

-- The checks of a vault's columns, on the row that an update leaves.
abbrev pub checks_vault : Env → SavingsVaultRow → Stored (Unit {0})
checks_vault env r = do
  require env
      (leb_ℤ (pos 0) r.total_contributed_minor
        && leb_ℤ (pos 0) r.total_locked_minor
        && leb_ℤ (pos 0) r.total_disbursed_minor)
      Constraint.check_amount
  require env (ltb (pos_part r.version) i64_half) Constraint.out_of_range

-- `UPDATE savings_vaults ... WHERE id = $1 RETURNING ...`, read by `fetch_one`.
unfoldable pub update_vault :
    Env → ℕ → (SavingsVaultRow → SavingsVaultRow) → Db → Stored (SavingsVault × Db)
update_vault env id change db = do
  execute env Statement.update_vault
  row ← ok_or (select id db.vaults) (map_err (violation env Constraint.row_not_found))
  checks_vault env (change row)
  vault ← try_vault (change row)
  ok (vault, record db { vaults = update id change db.vaults })

abbrev pub set_totals : Env → ℤ → SavingsVaultRow → SavingsVaultRow
set_totals env total_contributed r = record r {
  total_contributed_minor = total_contributed;
  version = r.version +ℤ pos 1;
  updated_at = env.db_now;
}

abbrev pub set_locked_and_disbursed : Env → ℤ → ℤ → SavingsVaultRow → SavingsVaultRow
set_locked_and_disbursed env total_locked total_disbursed r = record r {
  total_locked_minor = total_locked;
  total_disbursed_minor = total_disbursed;
  version = r.version +ℤ pos 1;
  updated_at = env.db_now;
}

unfoldable pub update_vault_totals : Env → SavingsVault → ℤ → Db → Stored (SavingsVault × Db)
update_vault_totals env vault total_contributed =
    update_vault env vault.id (set_totals env total_contributed)

unfoldable pub update_vault_locked_and_disbursed :
    Env → SavingsVault → ℤ → ℤ → Db → Stored (SavingsVault × Db)
update_vault_locked_and_disbursed env vault total_locked total_disbursed =
    update_vault env vault.id (set_locked_and_disbursed env total_locked total_disbursed)
