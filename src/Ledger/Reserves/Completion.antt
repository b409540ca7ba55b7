-- ===== src/Ledger/Reserves/Completion.antt =====
-- A completion finds its amount among the locked funds.
use edustell.Common.{total-member, ℕ, ◌≡◌, some, add_i64, sub_i64, ok, arith, select}
use edustell.Domain.Status.{PayoutStatus, payout_status_enum}
use edustell.Domain.Records.{PayoutRequest, SavingsVault}
use edustell.Store.Env.{Env}
use edustell.Store.Rows.{SavingsVaultRow, PayoutRequestRow, try_payout, try_vault}
use edustell.Store.Rows.Fields.{try_payout-IsPayoutOf}
use edustell.Store.Db.{Db, vault_key, payout_key}
use edustell.Store.Vaults.{update_vault_locked_and_disbursed}
use edustell.Store.Vaults.Steps.{try_vault-IsVaultOf}
use edustell.Store.Payouts.{move_funds}
use edustell.Ledger.Reserves.{locked_amount, IsReserved}
use edustell.Ledger.Reserves.Weights.{locked_status, row_text}

-- When the reserves of the vault are in order, the completion of one of its payouts that is being
-- processed never meets the "vault locked balance underflow" conflict: it writes the two columns.
pub move_funds-completed :
    (v : ℕ) (env : Env) (db : Db) (id : ℕ) (r : PayoutRequestRow) (p : PayoutRequest)
    (vr : SavingsVaultRow) (vault : SavingsVault)
    → IsReserved v db
    → select id db.payouts ≡ some r
    → try_payout r ≡ ok p
    → p.status ≡ PayoutStatus.processing
    → p.vault_id ≡ v
    → select v db.vaults ≡ some vr
    → try_vault vr ≡ ok vault
    → move_funds env PayoutStatus.completed vault p db
      ≡ update_vault_locked_and_disbursed env vault
          (sub_i64 vault.total_locked_minor p.amount.amount_minor)
          (add_i64 vault.total_disbursed_minor p.amount.amount_minor)
          db
unfolding move_funds
move_funds-completed v env db id r p vr vault R found parsed status at found_vault parsed_vault =
    let read = try_payout-IsPayoutOf r p parsed in
    let vault_read = try_vault-IsVaultOf vr vault parsed_vault in
    let weight =
      locked_status v r PayoutStatus.processing
        (row_text r p PayoutStatus.processing read status) in
    ground (
      arith,
      R.locked vr found_vault,
      vault_read.locked,
      read.amount,
      read.nonneg,
      read.vault,
      weight,
      total-member (locked_amount v) id db.payouts r found,
    )
