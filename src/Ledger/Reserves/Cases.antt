-- ===== src/Ledger/Reserves/Cases.antt =====
-- Each transition of the domain keeps a vault's reserves in order.
use edustell.Common.{
  ◌≢◌, ◌⊎◌, ℕ, String, Option, ◌≤◌, ◌+◌, ◌≡◌, some, refl, sym, ◌∙◌, pos, pos_part, leb_ℤ, add_i64,
  sub_i64, arith, inl, inr, select, true, false, ok,
}
use edustell.Domain.StringEnum.{as_str, eq_enum}
use edustell.Domain.Status.{PayoutStatus, payout_status_enum}
use edustell.Domain.Records.{PayoutRequest}
use edustell.Domain.Payouts.{check_transition}
use edustell.Store.Env.{Env}
use edustell.Store.Rows.{SavingsVaultRow, PayoutRequestRow}
use edustell.Store.Rows.Fields.{IsPayoutOf}
use edustell.Store.Db.{Db, vault_key, payout_key}
use edustell.Store.Vaults.{set_locked_and_disbursed}
use edustell.Store.Payouts.{set_review}
use edustell.Store.Payouts.Steps.{VaultsMoved}
use edustell.Store.Payouts.Runs.{IsMoved}
use edustell.Ledger.Reserves.{locked_total, disbursed_total, IsReserved}
use edustell.Ledger.Reserves.Moves.{
  locked_total-update, disbursed_total-update, IsReserved-still, IsReserved-moved,
}
use edustell.Ledger.Reserves.Weights.{
  locked_status, disbursed_status, row_text, approve_columns, release_columns, pay_columns,
  idle_weights,
}

module _ (v : ℕ) (env : Env) (p saved : PayoutRequest) (actor : ℕ) (notes ref : Option String)
    (db db' : Db) (r : PayoutRequestRow) (vr : SavingsVaultRow) (cur : IsPayoutOf r p)
    (R : IsReserved v db) where
  -- The transitions that move no funds.
  pub idle-IsReserved :
      (from target : PayoutStatus)
      → p.status ≡ from
      → check_transition from target ≡ ok target
      → eq_enum from target ≡ false
      → (target ≡ PayoutStatus.under_review)
        ⊎ (target ≡ PayoutStatus.rejected)
        ⊎ (target ≡ PayoutStatus.processing)
      → IsMoved env p saved target actor notes ref db db' r vr
      → db'.vaults ≡ db.vaults
      → IsReserved v db'
  idle-IsReserved from target was moves other which s vaults =
      let f = set_review env (as_str target) actor notes ref in
      let (lock, pay) = idle_weights from target moves other which in
      let text = row_text r p from cur was in
      IsReserved-still v db db' p.id f r s.found_row s.payouts (λ x. refl) R refl refl vaults
        (ground (arith, lock, locked_status v r from text, locked_status v (f r) target refl))
        (ground (arith, pay, disbursed_status v r from text, disbursed_status v (f r) target refl))

  pub approve-IsReserved :
      p.status ≡ PayoutStatus.under_review
      → leb_ℤ r.amount_minor (
          sub_i64
            (sub_i64 vr.total_contributed_minor vr.total_locked_minor)
            vr.total_disbursed_minor)
        ≡ true
      → IsMoved env p saved PayoutStatus.approved actor notes ref db db' r vr
      → VaultsMoved env PayoutStatus.approved vr r.amount_minor p.vault_id db db'
      → IsReserved v db'
  approve-IsReserved was avail s (nonneg, d, vaults) =
      let f = set_review env "approved" actor notes ref in
      let text = row_text r p PayoutStatus.under_review cur was in
      IsReserved-moved v db db' p.id f r s.found_row s.payouts (λ x. refl) R refl refl p.vault_id
        (set_locked_and_disbursed env (add_i64 vr.total_locked_minor r.amount_minor)
          vr.total_disbursed_minor)
        vr (λ x. refl) s.found_vault cur.vault vaults refl
        (λ at.
          let found : select v db.vaults ≡ some vr = rw at s.found_vault in
          let columns =
            approve_columns (locked_total v db) (disbursed_total v db) vr.total_locked_minor
              vr.total_disbursed_minor vr.total_contributed_minor r.amount_minor (R.locked vr found)
              (R.disbursed vr found) (R.funded vr found) (R.bounded vr found).0
              (R.bounded vr found).1 cur.nonneg (R.amounts p.id r s.found_row) avail nonneg in
          ground (
            arith,
            columns,
            R.disbursed vr found,
            at,
            cur.vault,
            locked_total-update v db db' p.id f r s.found_row s.payouts,
            disbursed_total-update v db db' p.id f r s.found_row s.payouts,
            locked_status v r PayoutStatus.under_review text,
            locked_status v (f r) PayoutStatus.approved refl,
            disbursed_status v r PayoutStatus.under_review text,
            disbursed_status v (f r) PayoutStatus.approved refl,
          ))

  -- What a completion writes, in the vault of the payout.
  complete-columns :
      p.status ≡ PayoutStatus.processing
      → IsMoved env p saved PayoutStatus.completed actor notes ref db db' r vr
      → leb_ℤ (pos 0) (add_i64 vr.total_disbursed_minor r.amount_minor) ≡ true
      → v ≡ p.vault_id
      → (sub_i64 vr.total_locked_minor r.amount_minor ≡ pos (locked_total v db'))
        × (add_i64 vr.total_disbursed_minor r.amount_minor ≡ pos (disbursed_total v db'))
        × (locked_total v db' + disbursed_total v db' ≤ pos_part vr.total_contributed_minor)
  complete-columns was s nonneg at =
      let f = set_review env "completed" actor notes ref in
      let text = row_text r p PayoutStatus.processing cur was in
      let found : select v db.vaults ≡ some vr = rw at s.found_vault in
      let lock = locked_total-update v db db' p.id f r s.found_row s.payouts in
      let paid = disbursed_total-update v db db' p.id f r s.found_row s.payouts in
      let was_locked = locked_status v r PayoutStatus.processing text in
      let is_locked = locked_status v (f r) PayoutStatus.completed refl in
      let was_paid = disbursed_status v r PayoutStatus.processing text in
      let is_paid = disbursed_status v (f r) PayoutStatus.completed refl in
      let small = R.amounts p.id r s.found_row in
      let fund = R.funded vr found in
      let room = R.bounded vr found in
      let here : r.vault_id ≡ v = sym (at ∙ cur.vault) in
      ground (
        arith,
        release_columns (locked_total v db) vr.total_locked_minor r.amount_minor (R.locked vr found)
            (ground (arith, fund, room)) cur.nonneg
            (ground (arith, lock, was_locked, is_locked, here)),
        pay_columns (disbursed_total v db) vr.total_disbursed_minor r.amount_minor
            (R.disbursed vr found) (ground (arith, fund, room)) cur.nonneg small nonneg,
        lock,
        paid,
        was_locked,
        is_locked,
        was_paid,
        is_paid,
        fund,
      )

  pub complete-IsReserved :
      p.status ≡ PayoutStatus.processing
      → IsMoved env p saved PayoutStatus.completed actor notes ref db db' r vr
      → VaultsMoved env PayoutStatus.completed vr r.amount_minor p.vault_id db db'
      → IsReserved v db'
  complete-IsReserved was s (covered, (l, d, vaults)) =
      IsReserved-moved v db db' p.id (set_review env "completed" actor notes ref) r s.found_row
        s.payouts (λ x. refl) R refl refl p.vault_id
        (set_locked_and_disbursed env (sub_i64 vr.total_locked_minor r.amount_minor)
          (add_i64 vr.total_disbursed_minor r.amount_minor))
        vr (λ x. refl) s.found_vault cur.vault vaults refl (λ at. complete-columns was s d at)

  -- What a failure writes, in the vault of the payout: the amount is locked, so it is released.
  fail-columns :
      p.status ≡ PayoutStatus.processing
      → IsMoved env p saved PayoutStatus.failed actor notes ref db db' r vr
      → v ≡ p.vault_id
      → (leb_ℤ r.amount_minor vr.total_locked_minor ≡ true)
        × (sub_i64 vr.total_locked_minor r.amount_minor ≡ pos (locked_total v db'))
        × (vr.total_disbursed_minor ≡ pos (disbursed_total v db'))
        × (locked_total v db' + disbursed_total v db' ≤ pos_part vr.total_contributed_minor)
  fail-columns was s at =
      let f = set_review env "failed" actor notes ref in
      let text = row_text r p PayoutStatus.processing cur was in
      let found : select v db.vaults ≡ some vr = rw at s.found_vault in
      let lock = locked_total-update v db db' p.id f r s.found_row s.payouts in
      let paid = disbursed_total-update v db db' p.id f r s.found_row s.payouts in
      let was_locked = locked_status v r PayoutStatus.processing text in
      let is_locked = locked_status v (f r) PayoutStatus.failed refl in
      let was_paid = disbursed_status v r PayoutStatus.processing text in
      let is_paid = disbursed_status v (f r) PayoutStatus.failed refl in
      let fund = R.funded vr found in
      let room = R.bounded vr found in
      let here : r.vault_id ≡ v = sym (at ∙ cur.vault) in
      ground (
        arith,
        release_columns (locked_total v db) vr.total_locked_minor r.amount_minor (R.locked vr found)
            (ground (arith, fund, room)) cur.nonneg
            (ground (arith, lock, was_locked, is_locked, here)),
        R.locked vr found,
        R.disbursed vr found,
        lock,
        paid,
        was_locked,
        is_locked,
        was_paid,
        is_paid,
        fund,
        cur.nonneg,
      )

  pub fail-IsReserved :
      p.status ≡ PayoutStatus.processing
      → IsMoved env p saved PayoutStatus.failed actor notes ref db db' r vr
      → VaultsMoved env PayoutStatus.failed vr r.amount_minor p.vault_id db db'
      → IsReserved v db'
  fail-IsReserved was s (inl (fits, (l, d, vaults))) =
      IsReserved-moved v db db' p.id (set_review env "failed" actor notes ref) r s.found_row
        s.payouts (λ x. refl) R refl refl p.vault_id
        (set_locked_and_disbursed env (sub_i64 vr.total_locked_minor r.amount_minor)
          vr.total_disbursed_minor)
        vr (λ x. refl) s.found_vault cur.vault vaults refl
        (λ at. ground (arith, fail-columns was s at))
  fail-IsReserved was s (inr (more, vaults)) =
      let f = set_review env "failed" actor notes ref in
      let text = row_text r p PayoutStatus.processing cur was in
      let elsewhere : v ≢ r.vault_id =
        λ e. ground (arith, more, fail-columns was s (e ∙ sym cur.vault)) in
      IsReserved-still v db db' p.id f r s.found_row s.payouts (λ x. refl) R refl refl vaults
        (ground (
          arith,
          elsewhere,
          locked_status v r PayoutStatus.processing text,
          locked_status v (f r) PayoutStatus.failed refl,
        ))
        (ground (
          arith,
          elsewhere,
          disbursed_status v r PayoutStatus.processing text,
          disbursed_status v (f r) PayoutStatus.failed refl,
        ))
