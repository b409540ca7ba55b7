-- ===== src/Ledger/Machine/Refinement.antt =====
-- Every settlement and every review that succeeds is a move of the books.
use edustell.Common.{
  ℕ, String, ◌≡◌, inl, inr, ok, ◌+◌, ◌≤◌, arith, some, pos_part, ◌==◌, select, select-key, sym,
  subst, refl,
}
use edustell.Domain.StringEnum.{as_str}
use edustell.Domain.Status.{payout_status_enum, contribution_status_enum}
use edustell.Domain.Auth.{AuthenticatedUser}
use edustell.Domain.Records.{PayoutRequest, Contribution}
use edustell.Domain.Contributions.{ContributionTransition}
use edustell.Domain.Payouts.{PayoutTransition}
use edustell.Store.Env.{Env}
use edustell.Store.Rows.{SavingsVaultRow}
use edustell.Store.Rows.Fields.{
  IsPayoutOf, IsContributionOf, try_contribution-IsContributionOf, try_payout-IsPayoutOf,
}
use edustell.Store.Db.{Db, vault_key, contribution_key, payout_key}
use edustell.Store.Contributions.{set_status}
use edustell.Store.Contributions.Settlement.{settle_row-Run, Run-IsSettled}
use edustell.Store.Contributions.Decided.{settle_with_audit-Decided}
use edustell.Store.Payouts.{set_review}
use edustell.Store.Payouts.Runs.{transition_with_audit-Decided, Run-IsMoved, move_row-Run}
use edustell.Application.Contributions.{SettlementInput, settle_contribution}
use edustell.Application.Payouts.{ReviewPayoutInput}
use edustell.Application.Reviews.{review_transition}
use edustell.Ledger.Balance.{confirmed_total}
use edustell.Ledger.Balance.Moves.{confirmed_total-update}
use edustell.Ledger.Reserves.{locked_total, disbursed_total}
use edustell.Ledger.Reserves.Moves.{locked_total-update, disbursed_total-update}
use edustell.Ledger.Reserves.Weights.{locked_status, disbursed_status}
use edustell.Ledger.Reserves.Handlers.{review_transition-IsReserved}
use edustell.Ledger.Machine.{funds, Move, InOrder}
use edustell.Ledger.Machine.Workflows.{
  Settled, Reviewed, settle_contribution-Settled, review_transition-Reviewed,
}
use edustell.Ledger.Machine.Crossings.{Reviewed-IsReconciled}
use edustell.Ledger.Machine.Sums.{Sums-Move, review-Sums, settle-Sums, confirmed_status}

Settled-Move :
    (v : ℕ) (env : Env) (db db' : Db) → Settled env db db' → Move (funds v db) (funds v db')
Settled-Move v env db db' w =
    let d = settle_with_audit-Decided env w.id w.target w.actor w.ref w.log db db' w.res w.ran in
    elim d.way [
      | inl (same, kept) ↦
          subst (λ x. Move (funds v db) (funds v x)) (sym kept) (Move.idle (funds v db))
      | inr (other, settled) ↦
          let (r, vr, s, posted) =
            Run-IsSettled env d.current w.target w.actor w.ref w.log db db' w.res
              (settle_row-Run env d.current w.target w.actor w.ref w.log db db' w.res settled) in
          let read = try_contribution-IsContributionOf d.row d.current d.parsed in
          let same : d.row ≡ r = ground (
            arith,
            d.found,
            s.found_row,
            read.id,
            select-key w.id db.contributions d.row d.found,
          ) in
          let f = set_status env (as_str w.target) w.ref in
          let cur : IsContributionOf r d.current =
            subst (λ x. IsContributionOf x d.current) same read in
          Sums-Move (funds v db) (funds v db') (pos_part r.amount_minor) (
            settle-Sums d.current.status w.target (r.vault_id == v) (pos_part r.amount_minor)
              (funds v db) (funds v db') (w.moves d.row d.current d.found d.parsed)
              (ground (
                arith,
                confirmed_total-update v db db' d.current.id f r s.found_row s.contributions,
                confirmed_status v r d.current.status (sym cur.status),
                confirmed_status v (f r) w.target refl,
              ))
              (ground (arith, s.payouts)) (ground (arith, s.payouts)))
    ]

Reviewed-Move :
    (v : ℕ) (env : Env) (db db' : Db)
    → Reviewed env db db'
    → locked_total v db' + disbursed_total v db' ≤ confirmed_total v db'
    → Move (funds v db) (funds v db')
Reviewed-Move v env db db' w covered =
    let d =
      transition_with_audit-Decided env w.id w.target w.actor w.notes w.ref w.log db db' w.res
        w.ran in
    elim d.way [
      | inl (same, kept) ↦
          subst (λ x. Move (funds v db) (funds v x)) (sym kept) (Move.idle (funds v db))
      | inr (other, moved) ↦
          let (r, vr, s, posted) =
            Run-IsMoved env d.current w.target w.actor w.notes w.ref w.log db db' w.res (
              move_row-Run env d.current w.target w.actor w.notes w.ref w.log db db' w.res moved) in
          let read = try_payout-IsPayoutOf d.row d.current d.parsed in
          let same : d.row ≡ r =
            ground
              (arith, d.found, s.found_row, read.id, select-key w.id db.payouts d.row d.found) in
          let f = set_review env (as_str w.target) w.actor w.notes w.ref in
          let cur : IsPayoutOf r d.current = subst (λ x. IsPayoutOf x d.current) same read in
          Sums-Move (funds v db) (funds v db') (pos_part r.amount_minor) (
            review-Sums d.current.status w.target (r.vault_id == v) (pos_part r.amount_minor)
              (funds v db) (funds v db') (w.moves d.row d.current d.found d.parsed)
              (ground (arith, s.contributions))
              (ground (
                arith,
                locked_total-update v db db' d.current.id f r s.found_row s.payouts,
                locked_status v r d.current.status (sym cur.status),
                locked_status v (f r) w.target refl,
              ))
              (ground (
                arith,
                disbursed_total-update v db db' d.current.id f r s.found_row s.payouts,
                disbursed_status v r d.current.status (sym cur.status),
                disbursed_status v (f r) w.target refl,
              ))
              covered)
    ]

-- The requests that move money.
pub data Request : Db → Db → Type 0 where
  settlement :
      (env : Env) (actor : AuthenticatedUser) (input : SettlementInput)
      (move : ContributionTransition) (action : String) (db db' : Db) (c : Contribution)
      → settle_contribution env actor input move action db ≡ ok (c, db')
      → Request db db'
  review :
      (env : Env) (actor : AuthenticatedUser) (input : ReviewPayoutInput) (move : PayoutTransition)
      (action : String) (db db' : Db) (q : PayoutRequest)
      → review_transition env actor input move action db ≡ ok (q, db')
      → Request db db'

-- A vault that the books of a state are about.
abbrev pub Has : ℕ → Db → Type 0
Has v db = (vr : SavingsVaultRow) × (select v db.vaults ≡ some vr)

-- A settlement or a review that succeeds moves the sums of a vault in order by one of the moves of the books.
pub request-Move :
    (v : ℕ) (db db' : Db)
    → InOrder v db
    → Has v db'
    → Request db db'
    → Move (funds v db) (funds v db')
request-Move v db db' (C, R) has (Request.settlement env actor input move action _ _ c done) =
    elim (settle_contribution-Settled env actor input move action db db' c done) [
      | inl same ↦ subst (λ x. Move (funds v db) (funds v x)) same (Move.idle (funds v db))
      | inr w ↦ Settled-Move v env db db' w
    ]
request-Move v db db' (C, R) (vr, found) (Request.review env actor input move action _ _ q done) =
    elim (review_transition-Reviewed env actor input move action db db' q done) [
      | inl same ↦ subst (λ x. Move (funds v db) (funds v x)) same (Move.idle (funds v db))
      | inr w ↦
          let R' = review_transition-IsReserved v env actor input move action db db' q R done in
          let C' = Reviewed-IsReconciled v env db db' w C in
          Reviewed-Move v env db db' w (ground (arith, R'.funded vr found, C'.balanced vr found))
    ]
