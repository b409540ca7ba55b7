-- ===== src/Ledger/Reserves.antt =====
-- What a vault holds back and has paid: the sums of its approved and of its completed payouts.
pub mod Moves
pub mod Weights
pub mod Cases
pub mod Completion
pub mod Requests
pub mod Handlers
use edustell.Common.{
  true, leb_ℤ, ℕ, ◌<◌, ◌≤◌, ◌+◌, ◌≡◌, ◌&&◌, ◌||◌, some, pos, pos_part, i64_half, str_eq, ◌==◌,
  if◌then◌else◌, select, total,
}
use edustell.Store.Rows.{SavingsVaultRow, PayoutRequestRow}
use edustell.Store.Db.{Db, vault_key, payout_key}

-- The funds of an approved payout are locked until it is completed or fails.
abbrev pub locked_amount : ℕ → PayoutRequestRow → ℕ
locked_amount vault_id r =
    if r.vault_id == vault_id && (str_eq r.status "approved" || str_eq r.status "processing")
    then pos_part r.amount_minor
    else 0

abbrev pub disbursed_amount : ℕ → PayoutRequestRow → ℕ
disbursed_amount vault_id r =
    if r.vault_id == vault_id && str_eq r.status "completed" then pos_part r.amount_minor else 0

abbrev pub locked_total : ℕ → Db → ℕ
locked_total vault_id db = total (locked_amount vault_id) db.payouts

abbrev pub disbursed_total : ℕ → Db → ℕ
disbursed_total vault_id db = total (disbursed_amount vault_id) db.payouts

-- The two columns of the vault are these sums, and together they are at most what was contributed.
-- The last two fields say that the columns hold values of their type,
-- `BIGINT`, and that the check of `total_contributed_minor` holds.
pub record IsReserved (vault_id : ℕ) (db : Db) : Type 0 where
  pub locked :
      (r : SavingsVaultRow)
      → select vault_id db.vaults ≡ some r
      → r.total_locked_minor ≡ pos (locked_total vault_id db)
  pub disbursed :
      (r : SavingsVaultRow)
      → select vault_id db.vaults ≡ some r
      → r.total_disbursed_minor ≡ pos (disbursed_total vault_id db)
  pub funded :
      (r : SavingsVaultRow)
      → select vault_id db.vaults ≡ some r
      → locked_total vault_id db + disbursed_total vault_id db ≤ pos_part r.total_contributed_minor
  pub bounded :
      (r : SavingsVaultRow)
      → select vault_id db.vaults ≡ some r
      → (leb_ℤ (pos 0) r.total_contributed_minor ≡ true)
        × (pos_part r.total_contributed_minor < i64_half)
  pub amounts :
      (id : ℕ) (r : PayoutRequestRow)
      → select id db.payouts ≡ some r
      → pos_part r.amount_minor < i64_half
