-- ===== src/Ledger/Balance.antt =====
-- What a vault's balance should be: the sum of its confirmed contributions.
pub mod Moves
pub mod Settle
pub mod Handlers
pub mod Intents
use edustell.Common.{
  ℕ, ◌<◌, ◌≡◌, ◌&&◌, some, pos, pos_part, i64_half, str_eq, ◌==◌, if◌then◌else◌, select, total,
}
use edustell.Store.Rows.{SavingsVaultRow, ContributionRow}
use edustell.Store.Db.{Db, vault_key, contribution_key}

-- What a row adds to the balance of a vault.
abbrev pub confirmed_amount : ℕ → ContributionRow → ℕ
confirmed_amount vault_id r =
    if r.vault_id == vault_id && str_eq r.status "confirmed" then pos_part r.amount_minor else 0

abbrev pub confirmed_total : ℕ → Db → ℕ
confirmed_total vault_id db = total (confirmed_amount vault_id) db.contributions

-- The balance of the vault is the sum of its confirmed contributions. The other fields say that the
-- columns hold values of their type, `BIGINT`.
pub record IsReconciled (vault_id : ℕ) (db : Db) : Type 0 where
  pub balanced :
      (r : SavingsVaultRow)
      → select vault_id db.vaults ≡ some r
      → r.total_contributed_minor ≡ pos (confirmed_total vault_id db)
  pub bounded :
      (r : SavingsVaultRow)
      → select vault_id db.vaults ≡ some r
      → pos_part r.total_contributed_minor < i64_half
  pub amounts :
      (id : ℕ) (r : ContributionRow)
      → select id db.contributions ≡ some r
      → pos_part r.amount_minor < i64_half
