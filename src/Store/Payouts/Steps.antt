-- ===== src/Store/Payouts/Steps.antt =====
-- A transition that succeeds, taken apart: the rows that it read and those that it wrote.
use edustell.Common.{
  Bool-cases, ℕ, String, Option, some, ◌≡◌, true, false, ℤ, pos, leb_ℤ, ltb_ℤ, add_i64, sub_i64, ok,
  arith, select, update, Option-cases, inl, inr, ◌⊎◌,
}
use edustell.Domain.StringEnum.{as_str}
use edustell.Domain.Status.{PayoutStatus, payout_status_enum}
use edustell.Domain.Records.{PayoutRequest, SavingsVault}
use edustell.Store.Env.{Env, execute}
use edustell.Store.Rows.{SavingsVaultRow, PayoutRequestRow, try_payout}
use edustell.Store.Db.{Db, vault_key, payout_key}
use edustell.Store.Vaults.{set_locked_and_disbursed, update_vault_locked_and_disbursed}
use edustell.Store.Vaults.Steps.{update_vault-eq-ok}
use edustell.Store.Payouts.{set_review, update_payout, move_funds}

pub update_payout-eq-ok :
    (env : Env) (id : ℕ) (target : PayoutStatus) (actor : ℕ) (notes ref : Option String)
    (db db' : Db) (p : PayoutRequest)
    → update_payout env id target actor notes ref db ≡ ok (p, db')
    → (r : PayoutRequestRow) × (select id db.payouts ≡ some r)
      × (try_payout (set_review env (as_str target) actor notes ref r) ≡ ok p)
      × (db' ≡ record db {
        payouts = update id (set_review env (as_str target) actor notes ref) db.payouts;
      })
unfolding update_payout execute
update_payout-eq-ok env id target actor notes ref db db' p h =
    elim (Option-cases (select id db.payouts)) [
      | inl missing ↦ absurd (ground arith)
      | inr (r, found) ↦ (r, found, ground arith, ground arith)
    ]

-- The vaults after the columns of one of them are written: neither column is negative.
abbrev pub VaultsWritten : Env → ℤ → ℤ → ℕ → Db → Db → Type 0
VaultsWritten env locked disbursed id db db' =
    (leb_ℤ (pos 0) locked ≡ true)
    × (leb_ℤ (pos 0) disbursed ≡ true)
    × (db'.vaults ≡ update id (set_locked_and_disbursed env locked disbursed) db.vaults)

-- How the vaults change with the target status.
abbrev pub VaultsMoved : Env → PayoutStatus → SavingsVaultRow → ℤ → ℕ → Db → Db → Type 0
VaultsMoved env PayoutStatus.approved vr amount id db db' =
    VaultsWritten env (add_i64 vr.total_locked_minor amount) vr.total_disbursed_minor id db db'
VaultsMoved env PayoutStatus.completed vr amount id db db' =
    (ltb_ℤ vr.total_locked_minor amount ≡ false)
    × VaultsWritten env (sub_i64 vr.total_locked_minor amount)
        (add_i64 vr.total_disbursed_minor amount) id db db'
VaultsMoved env PayoutStatus.failed vr amount id db db' =
    ((leb_ℤ amount vr.total_locked_minor ≡ true)
      × VaultsWritten env (sub_i64 vr.total_locked_minor amount) vr.total_disbursed_minor id db db')
    ⊎ ((leb_ℤ amount vr.total_locked_minor ≡ false) × (db'.vaults ≡ db.vaults))
VaultsMoved env PayoutStatus.pending vr amount id db db' = db'.vaults ≡ db.vaults
VaultsMoved env PayoutStatus.under_review vr amount id db db' = db'.vaults ≡ db.vaults
VaultsMoved env PayoutStatus.rejected vr amount id db db' = db'.vaults ≡ db.vaults
VaultsMoved env PayoutStatus.processing vr amount id db db' = db'.vaults ≡ db.vaults

write-VaultsWritten :
    (env : Env) (v v' : SavingsVault) (locked disbursed : ℤ) (db db' : Db)
    → update_vault_locked_and_disbursed env v locked disbursed db ≡ ok (v', db')
    → VaultsWritten env locked disbursed v.id db db'
      × (db'.payouts ≡ db.payouts)
      × (db'.contributions ≡ db.contributions)
unfolding update_vault_locked_and_disbursed
write-VaultsWritten env v v' locked disbursed db db' h =
    let (r, found, parsed, contributed, l, d, moved) =
      update_vault-eq-ok env v.id (set_locked_and_disbursed env locked disbursed) db db' v' h in
    ((l, d, ground arith), ground arith, ground arith)

abbrev pub Moved : Env → PayoutStatus → SavingsVaultRow → ℤ → ℕ → Db → Db → Type 0
Moved env target vr amount id db db' =
    VaultsMoved env target vr amount id db db'
    × (db'.payouts ≡ db.payouts)
    × (db'.contributions ≡ db.contributions)

pub move_funds-Moved :
    (env : Env) (target : PayoutStatus) (v : SavingsVault) (vr : SavingsVaultRow)
    (p : PayoutRequest) (db db' : Db) (v' : SavingsVault)
    → v.total_locked_minor ≡ vr.total_locked_minor
    → v.total_disbursed_minor ≡ vr.total_disbursed_minor
    → move_funds env target v p db ≡ ok (v', db')
    → Moved env target vr p.amount.amount_minor v.id db db'
unfolding move_funds
move_funds-Moved env PayoutStatus.pending v vr p db db' v' l d h = ground arith
move_funds-Moved env PayoutStatus.under_review v vr p db db' v' l d h = ground arith
move_funds-Moved env PayoutStatus.rejected v vr p db db' v' l d h = ground arith
move_funds-Moved env PayoutStatus.processing v vr p db db' v' l d h = ground arith
move_funds-Moved env PayoutStatus.approved v vr p db db' v' l d h = ground (
  arith,
  write-VaultsWritten env v v' (add_i64 v.total_locked_minor p.amount.amount_minor)
      v.total_disbursed_minor db db' h,
)
move_funds-Moved env PayoutStatus.completed v vr p db db' v' l d h = ground (
  arith,
  write-VaultsWritten env v v' (sub_i64 v.total_locked_minor p.amount.amount_minor)
      (add_i64 v.total_disbursed_minor p.amount.amount_minor) db db',
)
move_funds-Moved env PayoutStatus.failed v vr p db db' v' l d h =
    elim (Bool-cases (leb_ℤ p.amount.amount_minor v.total_locked_minor)) [
      | inl fits ↦
          let written =
            write-VaultsWritten env v v' (sub_i64 v.total_locked_minor p.amount.amount_minor)
              v.total_disbursed_minor db db' (ground (arith, h, fits)) in
          (
            inl (ground (arith, fits, l), ground (arith, written)),
            ground (arith, written),
            ground (arith, written),
          )
      | inr more ↦ (
        inr (ground (arith, more, l), ground (arith, h, more)),
        ground (arith, h, more),
        ground (arith, h, more),
      )
    ]
