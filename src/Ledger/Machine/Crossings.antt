-- ===== src/Ledger/Machine/Crossings.antt =====
-- A review leaves the contributions of a vault alone.
use edustell.Common.{
  ℕ, ◌≡◌, ◌∙◌, inl, inr, some, ℤ, arith, select, map_option, select-update_column,
  map_option-eq-some, ap, refl, sym,
}
use edustell.Domain.Status.{PayoutStatus, payout_status_enum, contribution_status_enum}
use edustell.Store.Env.{Env}
use edustell.Store.Rows.{SavingsVaultRow}
use edustell.Store.Db.{Db, vault_key}
use edustell.Store.Vaults.{set_locked_and_disbursed}
use edustell.Store.Payouts.Steps.{VaultsMoved, VaultsWritten}
use edustell.Store.Payouts.Runs.{transition_with_audit-Decided, Run-IsMoved, move_row-Run}
use edustell.Ledger.Balance.{IsReconciled}
use edustell.Ledger.Machine.Workflows.{Reviewed}

-- A column of every vault is kept.
abbrev pub SameColumn : {C : Type 0} → (SavingsVaultRow → C) → Db → Db → Type 0
SameColumn column db db' =
    (v : ℕ) → map_option column (select v db'.vaults) ≡ map_option column (select v db.vaults)

-- Then what a row of the new state has in it, a row of the old one had.
pub SameColumn-back :
    {C : Type 0} (column : SavingsVaultRow → C) (db db' : Db) (v : ℕ) (x : SavingsVaultRow)
    → SameColumn column db db'
    → select v db'.vaults ≡ some x
    → (y : SavingsVaultRow) × (select v db.vaults ≡ some y) × (column y ≡ column x)
SameColumn-back column db db' v x same h =
    map_option-eq-some column (select v db.vaults) (column x)
      (sym (same v) ∙ ap (map_option column) h)

written-contributed :
    (env : Env) (locked disbursed : ℤ) (id : ℕ) (db db' : Db)
    → VaultsWritten env locked disbursed id db db'
    → SameColumn (λ r. r.total_contributed_minor) db db'
written-contributed env locked disbursed id db db' (_, _, wrote) v = rw wrote (
    select-update_column (λ (r : SavingsVaultRow). r.total_contributed_minor) v id
      (set_locked_and_disbursed env locked disbursed) db.vaults (λ r. refl) (λ r. refl))

kept-column :
    {C : Type 0} (column : SavingsVaultRow → C) (db db' : Db)
    → db'.vaults ≡ db.vaults
    → SameColumn column db db'
kept-column column db db' same v = rw same refl

moved-contributed :
    (env : Env) (target : PayoutStatus) (vr : SavingsVaultRow) (amount : ℤ) (id : ℕ) (db db' : Db)
    → VaultsMoved env target vr amount id db db'
    → SameColumn (λ r. r.total_contributed_minor) db db'
moved-contributed env PayoutStatus.approved vr amount id db db' h =
    written-contributed env _ _ id db db' h
moved-contributed env PayoutStatus.completed vr amount id db db' (_, h) =
    written-contributed env _ _ id db db' h
moved-contributed env PayoutStatus.failed vr amount id db db' (inl (_, h)) =
    written-contributed env _ _ id db db' h
moved-contributed env PayoutStatus.failed vr amount id db db' (inr (_, h)) = kept-column _ db db' h
moved-contributed env PayoutStatus.pending vr amount id db db' h = kept-column _ db db' h
moved-contributed env PayoutStatus.under_review vr amount id db db' h = kept-column _ db db' h
moved-contributed env PayoutStatus.rejected vr amount id db db' h = kept-column _ db db' h
moved-contributed env PayoutStatus.processing vr amount id db db' h = kept-column _ db db' h

IsReconciled-kept :
    (v : ℕ) (db db' : Db)
    → db'.contributions ≡ db.contributions
    → SameColumn (λ r. r.total_contributed_minor) db db'
    → IsReconciled v db
    → IsReconciled v db'
IsReconciled-kept v db db' rows same R = record {
  balanced = λ x h.
      let (y, found, column) = SameColumn-back (λ r. r.total_contributed_minor) db db' v x same h in
      ground (arith, R.balanced y found, column, rows);
  bounded = λ x h.
      let (y, found, column) = SameColumn-back (λ r. r.total_contributed_minor) db db' v x same h in
      ground (arith, R.bounded y found, column);
  amounts = λ id r h. R.amounts id r (rw rows at h);
}

pub Reviewed-IsReconciled :
    (v : ℕ) (env : Env) (db db' : Db) → Reviewed env db db' → IsReconciled v db → IsReconciled v db'
Reviewed-IsReconciled v env db db' w R =
    let d =
      transition_with_audit-Decided env w.id w.target w.actor w.notes w.ref w.log db db' w.res
        w.ran in
    elim d.way [
      | inl (same, kept) ↦ rw kept R
      | inr (other, moved) ↦
          let (r, vr, s, posted) =
            Run-IsMoved env d.current w.target w.actor w.notes w.ref w.log db db' w.res (
              move_row-Run env d.current w.target w.actor w.notes w.ref w.log db db' w.res moved) in
          IsReconciled-kept v db db' s.contributions
            (moved-contributed env w.target vr r.amount_minor d.current.vault_id db db' posted) R
    ]
