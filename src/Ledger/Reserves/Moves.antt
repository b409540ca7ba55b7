-- ===== src/Ledger/Reserves/Moves.antt =====
-- How the sums of the payouts move with one row, and what keeps a vault's reserves in order.
use edustell.Common.{
  ℕ, ◌<◌, ◌≤◌, ◌+◌, ◌≡◌, ◌≢◌, some, pos, pos_part, i64_half, arith, select, update, total-update,
  select-update_self, select-update_ne, ℕ_discrete, sym, ◌∙◌,
}
use edustell.Store.Rows.{SavingsVaultRow, PayoutRequestRow}
use edustell.Store.Db.{Db, vault_key, payout_key}
use edustell.Ledger.Reserves.{
  locked_amount, disbursed_amount, locked_total, disbursed_total, IsReserved,
}

other_locked : (v : ℕ) (r : PayoutRequestRow) → v ≢ r.vault_id → locked_amount v r ≡ 0
other_locked v r h = ground arith

other_disbursed : (v : ℕ) (r : PayoutRequestRow) → v ≢ r.vault_id → disbursed_amount v r ≡ 0
other_disbursed v r h = ground arith

module _ (v : ℕ) (db db' : Db) (id : ℕ) (f : PayoutRequestRow → PayoutRequestRow)
    (r : PayoutRequestRow) (found : select id db.payouts ≡ some r)
    (wrote : db'.payouts ≡ update id f db.payouts) where
  pub locked_total-update :
      locked_total v db' + locked_amount v r ≡ locked_total v db + locked_amount v (f r)
  locked_total-update = rw wrote (total-update (locked_amount v) id f db.payouts r found)

  pub disbursed_total-update :
      disbursed_total v db' + disbursed_amount v r ≡ disbursed_total v db + disbursed_amount v (f r)
  disbursed_total-update = rw wrote (total-update (disbursed_amount v) id f db.payouts r found)

  -- The amounts of the rows stay in their range.
  amounts-update :
      ((x : PayoutRequestRow) → (f x).id ≡ x.id)
      → (f r).amount_minor ≡ r.amount_minor
      → IsReserved v db
      → (j : ℕ) (x : PayoutRequestRow) → select j db'.payouts ≡ some x
      → pos_part x.amount_minor < i64_half
  amounts-update keeps same R j x h = elim (ℕ_discrete j id) [
    | yes e ↦ ground (arith, select-update_self id f db.payouts r keeps found, R.amounts id r found)
    | no ne ↦ ground (arith, select-update_ne j id f db.payouts keeps ne, R.amounts j x)
  ]

  module _ (keeps : (x : PayoutRequestRow) → (f x).id ≡ x.id) (R : IsReserved v db)
      (same_vault : (f r).vault_id ≡ r.vault_id)
      (same_amount : (f r).amount_minor ≡ r.amount_minor) where
    -- The row changes, the vaults do not, and what the row adds to this vault stays.
    pub IsReserved-still :
        db'.vaults ≡ db.vaults
        → locked_amount v (f r) ≡ locked_amount v r
        → disbursed_amount v (f r) ≡ disbursed_amount v r
        → IsReserved v db'
    IsReserved-still vaults lock paid = record {
      locked = λ x h. ground (arith, R.locked x (rw vaults at h), locked_total-update, lock);
      disbursed =
          λ x h. ground (arith, R.disbursed x (rw vaults at h), disbursed_total-update, paid);
      funded = λ x h. ground (
        arith,
        R.funded x (rw vaults at h),
        locked_total-update,
        disbursed_total-update,
        lock,
        paid,
      );
      bounded = λ x h. R.bounded x (rw vaults at h);
      amounts = amounts-update keeps same_amount R;
    }

    -- The row and its vault change: the vault's new columns have to be the new sums.
    pub IsReserved-moved :
        (k : ℕ) (g : SavingsVaultRow → SavingsVaultRow) (vr : SavingsVaultRow)
        → ((x : SavingsVaultRow) → (g x).id ≡ x.id)
        → select k db.vaults ≡ some vr
        → k ≡ r.vault_id
        → db'.vaults ≡ update k g db.vaults
        → (g vr).total_contributed_minor ≡ vr.total_contributed_minor
        → (v ≡ k
            → ((g vr).total_locked_minor ≡ pos (locked_total v db'))
              × ((g vr).total_disbursed_minor ≡ pos (disbursed_total v db'))
              × (locked_total v db' + disbursed_total v db' ≤ pos_part vr.total_contributed_minor))
        → IsReserved v db'
    IsReserved-moved k g vr keeps_vault found_vault at vaults contributed sums =
        let here = λ (e : v ≡ k). select-update_self k g db.vaults vr keeps_vault found_vault in
        let away : (ne : v ≢ k)
            → (select v (update k g db.vaults) ≡ select v db.vaults)
              × (locked_amount v r ≡ 0)
              × (locked_amount v (f r) ≡ 0)
              × (disbursed_amount v r ≡ 0)
              × (disbursed_amount v (f r) ≡ 0) =
          λ ne. (
            select-update_ne v k g db.vaults keeps_vault ne,
            other_locked v r (λ e. ne (e ∙ sym at)),
            other_locked v (f r) (λ e. ne (e ∙ same_vault ∙ sym at)),
            other_disbursed v r (λ e. ne (e ∙ sym at)),
            other_disbursed v (f r) (λ e. ne (e ∙ same_vault ∙ sym at)),
          ) in
        record {
          locked = λ x h. elim (ℕ_discrete v k) [
            | yes e ↦ ground (arith, here e, sums e, rw vaults at h)
            | no ne ↦ ground (arith, away ne, R.locked x, locked_total-update, rw vaults at h)
          ];
          disbursed = λ x h. elim (ℕ_discrete v k) [
            | yes e ↦ ground (arith, here e, sums e, rw vaults at h)
            | no ne ↦ ground (arith, away ne, R.disbursed x, disbursed_total-update, rw vaults at h)
          ];
          funded = λ x h. elim (ℕ_discrete v k) [
            | yes e ↦ ground (arith, here e, sums e, contributed, rw vaults at h)
            | no ne ↦ ground (
              arith,
              away ne,
              R.funded x,
              locked_total-update,
              disbursed_total-update,
              rw vaults at h,
            )
          ];
          bounded = λ x h. elim (ℕ_discrete v k) [
            | yes e ↦
                ground (arith, here e, contributed, R.bounded vr (rw e found_vault), rw vaults at h)
            | no ne ↦ ground (arith, away ne, R.bounded x, rw vaults at h)
          ];
          amounts = amounts-update keeps same_amount R;
        }
