-- ===== src/Ledger/Balance/Moves.antt =====
-- How the sum of the confirmed contributions moves with one row, and what keeps a vault reconciled.
use edustell.Common.{
  ℕ, ◌<◌, ◌+◌, ◌≡◌, ◌≢◌, some, pos, pos_part, i64_half, arith, select, update, total-update,
  select-update_self, select-update_ne, ℕ_discrete, sym, ◌∙◌,
}
use edustell.Store.Rows.{SavingsVaultRow, ContributionRow}
use edustell.Store.Db.{Db, vault_key, contribution_key}
use edustell.Ledger.Balance.{confirmed_amount, confirmed_total, IsReconciled}

-- A change of a row that stays in its vault moves the sum of no other vault.
other_vault : (v : ℕ) (r : ContributionRow) → v ≢ r.vault_id → confirmed_amount v r ≡ 0
other_vault v r h = ground arith

module _ (v : ℕ) (db db' : Db) (id : ℕ) (f : ContributionRow → ContributionRow)
    (r : ContributionRow) (found : select id db.contributions ≡ some r)
    (wrote : db'.contributions ≡ update id f db.contributions) where
  pub confirmed_total-update :
      confirmed_total v db' + confirmed_amount v r ≡ confirmed_total v db + confirmed_amount v (f r)
  confirmed_total-update =
      rw wrote (total-update (confirmed_amount v) id f db.contributions r found)

  -- The amounts of the rows stay in their range.
  pub amounts-update :
      ((x : ContributionRow) → (f x).id ≡ x.id)
      → (f r).amount_minor ≡ r.amount_minor
      → IsReconciled v db
      → (j : ℕ) (x : ContributionRow) → select j db'.contributions ≡ some x
      → pos_part x.amount_minor < i64_half
  amounts-update keeps same R j x h = elim (ℕ_discrete j id) [
    | yes e ↦
        ground (arith, select-update_self id f db.contributions r keeps found, R.amounts id r found)
    | no ne ↦ ground (arith, select-update_ne j id f db.contributions keeps ne, R.amounts j x)
  ]

  module _ (keeps : (x : ContributionRow) → (f x).id ≡ x.id) (R : IsReconciled v db)
      (same_vault : (f r).vault_id ≡ r.vault_id)
      (same_amount : (f r).amount_minor ≡ r.amount_minor) where
    -- The row changes, the vaults do not, and what the row adds to this vault stays.
    pub IsReconciled-still :
        db'.vaults ≡ db.vaults
        → confirmed_amount v (f r) ≡ confirmed_amount v r
        → IsReconciled v db'
    IsReconciled-still vaults weight = record {
      balanced =
          λ x h. ground (arith, R.balanced x (rw vaults at h), confirmed_total-update, weight);
      bounded = λ x h. R.bounded x (rw vaults at h);
      amounts = amounts-update keeps same_amount R;
    }

    -- The row and its vault change: the vault's new balance has to be the new sum.
    pub IsReconciled-posted :
        (k : ℕ) (g : SavingsVaultRow → SavingsVaultRow) (vr : SavingsVaultRow)
        → ((x : SavingsVaultRow) → (g x).id ≡ x.id)
        → select k db.vaults ≡ some vr
        → k ≡ r.vault_id
        → db'.vaults ≡ update k g db.vaults
        → (v ≡ k → (g vr).total_contributed_minor ≡ pos (confirmed_total v db'))
        → pos_part (g vr).total_contributed_minor < i64_half
        → IsReconciled v db'
    IsReconciled-posted k g vr keeps_vault found_vault at vaults balance bound = record {
      balanced = λ x h. elim (ℕ_discrete v k) [
        | yes e ↦ ground (
          arith,
          balance,
          select-update_self k g db.vaults vr keeps_vault found_vault,
          rw vaults at h,
        )
        | no ne ↦ ground (
          arith,
          R.balanced x,
          select-update_ne v k g db.vaults keeps_vault ne,
          confirmed_total-update,
          other_vault v r (λ e. ne (e ∙ sym at)),
          other_vault v (f r) (λ e. ne (e ∙ same_vault ∙ sym at)),
        )
      ];
      bounded = λ x h. elim (ℕ_discrete v k) [
        | yes e ↦ ground (arith, select-update_self k g db.vaults vr keeps_vault found_vault)
        | no ne ↦ ground (arith, R.bounded x, select-update_ne v k g db.vaults keeps_vault ne)
      ];
      amounts = amounts-update keeps same_amount R;
    }
