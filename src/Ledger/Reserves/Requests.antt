-- ===== src/Ledger/Reserves/Requests.antt =====
-- A new payout request is pending and leaves the reserves as they are.
use edustell.Common.{
  ℕ, ◌≡◌, ◌<◌, pos_part, i64_half, ok, arith, subst, sym, select-∷, total-∷, ◌∷◌, inl, inr,
}
use edustell.Domain.Auth.{AuthenticatedUser}
use edustell.Domain.Status.{PayoutStatus, payout_status_enum}
use edustell.Domain.Records.{PayoutRequest}
use edustell.Store.Env.{Env}
use edustell.Store.Rows.{PayoutRequestRow}
use edustell.Store.Db.{Db, vault_key, payout_key}
use edustell.Store.Payouts.{payout_row}
use edustell.Application.Payouts.{CreatePayoutRequestInput, create_payout_request}
use edustell.Application.Payouts.Safety.{Requested, create_payout_request-Requested}
use edustell.Ledger.Reserves.{IsReserved, locked_amount, disbursed_amount}
use edustell.Ledger.Reserves.Weights.{locked_status, disbursed_status}

insert-IsReserved :
    (v : ℕ) (db db' : Db) (r : PayoutRequestRow)
    → IsReserved v db
    → r.status ≡ "pending"
    → pos_part r.amount_minor < i64_half
    → db'.vaults ≡ db.vaults
    → db'.payouts ≡ r ∷ db.payouts
    → IsReserved v db'
insert-IsReserved v db db' r R pending bound vaults rows =
    let lock = total-∷ (locked_amount v) r db.payouts in
    let paid = total-∷ (disbursed_amount v) r db.payouts in
    let none_locked = locked_status v r PayoutStatus.pending pending in
    let none_paid = disbursed_status v r PayoutStatus.pending pending in
    record {
      locked = λ x h. ground (arith, R.locked x (rw vaults at h), rows, lock, none_locked);
      disbursed = λ x h. ground (arith, R.disbursed x (rw vaults at h), rows, paid, none_paid);
      funded = λ x h.
          ground (arith, R.funded x (rw vaults at h), rows, lock, paid, none_locked, none_paid);
      bounded = λ x h. R.bounded x (rw vaults at h);
      amounts = λ j x h. ground (arith, R.amounts j x, select-∷ j r db.payouts);
    }

Requested-IsReserved :
    (v : ℕ) (env : Env) (actor : AuthenticatedUser) (input : CreatePayoutRequestInput) (db db' : Db)
    → IsReserved v db
    → pos_part input.amount_minor < i64_half
    → Requested env actor input db db'
    → IsReserved v db'
unfolding payout_row
Requested-IsReserved v env actor input db db' R bound q =
    insert-IsReserved v db db' (payout_row env q.request) R (ground (arith, q.pending))
      (ground (arith, q.amount, bound)) q.vaults q.payouts

-- A payout request for an amount of type `i64` keeps a vault's reserves in order.
pub create_payout_request-IsReserved :
    (v : ℕ) (env : Env) (actor : AuthenticatedUser) (input : CreatePayoutRequestInput) (db db' : Db)
    (p : PayoutRequest)
    → IsReserved v db
    → pos_part input.amount_minor < i64_half
    → create_payout_request env actor input db ≡ ok (p, db')
    → IsReserved v db'
create_payout_request-IsReserved v env actor input db db' p R bound h =
    let (role, positive, way) = create_payout_request-Requested env actor input db db' p h in
    elim way [
      | inl q ↦ subst (IsReserved v) (sym q.unchanged) R
      | inr q ↦ Requested-IsReserved v env actor input db db' R bound q
    ]
