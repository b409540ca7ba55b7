-- ===== src/Ledger/Reserves/Handlers.antt =====
-- The reviews of payouts keep a vault's reserves in order.
use edustell.Common.{
  ℕ, String, Option, some, ◌≡◌, refl, sym, ap, subst, ◌∙◌, true, false, ℤ, leb_ℤ, sub_i64, ok,
  arith, select, select-key, >>=-eq-ok, map_error-eq-ok, map_error, inl, inr,
}
use edustell.Domain.StringEnum.{as_str, eq_enum}
use edustell.Domain.Status.{PayoutStatus, payout_status_enum}
use edustell.Domain.Records.{PayoutRequest, AuditLog}
use edustell.Domain.Auth.{AuthenticatedUser, user_role_enum}
use edustell.Domain.Payouts.{
  check_transition, PayoutTransition, target_status, ensure_available_funds,
}
use edustell.Store.Env.{Env}
use edustell.Store.Rows.{SavingsVaultRow, PayoutRequestRow, try_payout}
use edustell.Store.Rows.Fields.{try_payout-IsPayoutOf, IsPayoutOf}
use edustell.Store.Db.{Db, vault_key, payout_key}
use edustell.Store.Vaults.Steps.{try_vault-IsVaultOf}
use edustell.Store.Contributions.{find_vault}
use edustell.Store.Payouts.{TransitionResult, transition_with_audit}
use edustell.Store.Payouts.Steps.{VaultsMoved}
use edustell.Store.Payouts.Runs.{IsMoved, Run-IsMoved, move_row-Run, transition_with_audit-Decided}
use edustell.Application.Payouts.{ReviewPayoutInput, from_persistence}
use edustell.Application.Reviews.{ReviewPlan, plan_review, run_review, review_transition}
use edustell.Application.Reviews.Checks.{Checks, Planned, plan_review-Planned}
use edustell.Ledger.Reserves.{IsReserved}
use edustell.Ledger.Reserves.Cases.{
  idle-IsReserved, approve-IsReserved, complete-IsReserved, fail-IsReserved,
}

-- What is left of the vault, as `ensure_available_funds` sees it, covers the amount.
abbrev pub Covers : SavingsVaultRow → ℤ → Type 0
Covers vr amount =
    leb_ℤ amount
      (sub_i64 (sub_i64 vr.total_contributed_minor vr.total_locked_minor) vr.total_disbursed_minor)
    ≡ true

-- The moves of the domain's transition table that change the status.
change_cases :
    (v : ℕ) (env : Env) (from target : PayoutStatus) (p saved : PayoutRequest) (actor : ℕ)
    (notes ref : Option String) (db db' : Db) (r : PayoutRequestRow) (vr : SavingsVaultRow)
    → p.status ≡ from
    → check_transition from target ≡ ok target
    → eq_enum from target ≡ false
    → (target ≡ PayoutStatus.approved → Covers vr r.amount_minor)
    → IsPayoutOf r p
    → IsReserved v db
    → IsMoved env p saved target actor notes ref db db' r vr
    → VaultsMoved env target vr r.amount_minor p.vault_id db db'
    → IsReserved v db'
unfolding check_transition
change_cases v env from PayoutStatus.under_review p saved actor notes ref db db' r vr was moves
      other funds cur R s h =
    idle-IsReserved v env p saved actor notes ref db db' r vr cur R from PayoutStatus.under_review
      was moves other (inl refl) s h
change_cases v env from PayoutStatus.rejected p saved actor notes ref db db' r vr was moves other
      funds cur R s h =
    idle-IsReserved v env p saved actor notes ref db db' r vr cur R from PayoutStatus.rejected was
      moves other (inr (inl refl)) s h
change_cases v env from PayoutStatus.processing p saved actor notes ref db db' r vr was moves other
      funds cur R s h =
    idle-IsReserved v env p saved actor notes ref db db' r vr cur R from PayoutStatus.processing was
      moves other (inr (inr refl)) s h
change_cases v env PayoutStatus.under_review PayoutStatus.approved p saved actor notes ref db db' r
      vr was moves other funds cur R s h =
    approve-IsReserved v env p saved actor notes ref db db' r vr cur R was (funds refl) s h
change_cases v env PayoutStatus.processing PayoutStatus.completed p saved actor notes ref db db' r
      vr was moves other funds cur R s h =
    complete-IsReserved v env p saved actor notes ref db db' r vr cur R was s h
change_cases v env PayoutStatus.processing PayoutStatus.failed p saved actor notes ref db db' r vr
      was moves other funds cur R s h =
    fail-IsReserved v env p saved actor notes ref db db' r vr cur R was s h
change_cases v env from target p saved actor notes ref db db' r vr was moves other funds cur R s h =
    absurd (ground arith)

-- The workflow keeps the reserves in order, when the row that it locks may make the move and, for
-- an approval, the vault covers it.
pub transition_with_audit-IsReserved :
    (v : ℕ) (env : Env) (id : ℕ) (target : PayoutStatus) (actor : ℕ) (notes ref : Option String)
    (log : AuditLog) (db db' : Db) (res : TransitionResult)
    → IsReserved v db
    → ((r : PayoutRequestRow) (p : PayoutRequest)
        → select id db.payouts ≡ some r
        → try_payout r ≡ ok p
        → check_transition p.status target ≡ ok target)
    → ((r : PayoutRequestRow) (vr : SavingsVaultRow)
        → target ≡ PayoutStatus.approved
        → select id db.payouts ≡ some r
        → select r.vault_id db.vaults ≡ some vr
        → Covers vr r.amount_minor)
    → transition_with_audit env id (as_str target) actor notes ref log db ≡ ok (res, db')
    → IsReserved v db'
transition_with_audit-IsReserved v env id target actor notes ref log db db' res R moves funds h =
    let d = transition_with_audit-Decided env id target actor notes ref log db db' res h in
    elim d.way [
      | inl (same, kept) ↦ rw kept R
      | inr (other, moved) ↦
          let (r, vr, s, posted) =
            Run-IsMoved env d.current target actor notes ref log db db' res
              (move_row-Run env d.current target actor notes ref log db db' res moved) in
          let read = try_payout-IsPayoutOf d.row d.current d.parsed in
          let same : d.row ≡ r =
            ground (arith, d.found, s.found_row, read.id, select-key id db.payouts d.row d.found) in
          let cur = subst (λ x. IsPayoutOf x d.current) same read in
          change_cases v env d.current.status target d.current res.payout actor notes ref db db' r
            vr (λ i. d.current.status) (moves d.row d.current d.found d.parsed) other
            (λ approve.
              funds r vr approve (d.found ∙ ap some same)
                (ground (arith, cur.vault, s.found_vault)))
            cur R s posted
    ]

-- The funds that a review has checked, as the columns of the vault's row.
funds-Covers :
    (env : Env) (p : PayoutRequest) (db : Db) (r : PayoutRequestRow) (vr : SavingsVaultRow)
    → Checks env PayoutTransition.approve p db
    → IsPayoutOf r p
    → select r.vault_id db.vaults ≡ some vr
    → Covers vr r.amount_minor
unfolding find_vault ensure_available_funds
funds-Covers env p db r vr checks read found = ground (
  arith,
  checks.funds refl,
  checks.read_vault,
  read.vault,
  read.amount,
  try_vault-IsVaultOf vr checks.vault,
)

approved-move :
    (move : PayoutTransition)
    → target_status move ≡ PayoutStatus.approved
    → move ≡ PayoutTransition.approve
unfolding target_status
approved-move move h = ground arith

run_review-IsReserved :
    (v : ℕ) (env : Env) (actor : AuthenticatedUser) (input : ReviewPayoutInput)
    (move : PayoutTransition) (plan : ReviewPlan) (db db' : Db) (q : PayoutRequest)
    → IsReserved v db
    → Planned env actor input move db plan
    → run_review env actor input plan db ≡ ok (q, db')
    → IsReserved v db'
unfolding run_review
run_review-IsReserved v env actor input move (ReviewPlan.unchanged p) db db' q R planned h =
    let same : db ≡ db' = ground arith in subst (IsReserved v) same R
run_review-IsReserved v env actor input move (ReviewPlan.transition p target log) db db' q R planned
      h =
    let (res, e, done) =
      >>=-eq-ok
        (map_error from_persistence (
          transition_with_audit env p.id (as_str target) actor.user_id input.review_notes
            input.external_payout_reference log db))
        _ h in
    let same : res.1 ≡ db' = ground arith in
    let same_p : p ≡ planned.current = ground (arith, planned.way) in
    let same_target : target ≡ planned.target = ground (arith, planned.way) in
    let read = try_payout-IsPayoutOf planned.row planned.current planned.parsed in
    let key = select-key input.payout_id db.payouts planned.row planned.found in
    let id_same : p.id ≡ input.payout_id = ground (arith, read.id, same_p, key) in
    let row_same : (r : PayoutRequestRow) → select p.id db.payouts ≡ some r → planned.row ≡ r =
      λ r found. ground (arith, planned.found, found, id_same) in
    subst (IsReserved v) same (
      transition_with_audit-IsReserved v env p.id target actor.user_id input.review_notes
        input.external_payout_reference log db res.1 res.0 R
        (λ r x found parsed.
          ground (arith, planned.moves, planned.found, planned.parsed, same_target, id_same))
        (λ r vr approve found vault. elim planned.way [
          | inl (unmoved, other) ↦ absurd (ground (arith, other))
          | inr (moved, checks, l, other) ↦
              let is_approve : move ≡ PayoutTransition.approve =
                approved-move move (sym planned.aimed ∙ sym same_target ∙ approve) in
              funds-Covers env planned.current db r vr
                (subst (λ m. Checks env m planned.current db) is_approve checks)
                (subst (λ x. IsPayoutOf x planned.current) (row_same r found) read) vault
        ])
        (map_error-eq-ok from_persistence
          (transition_with_audit env p.id (as_str target) actor.user_id input.review_notes
            input.external_payout_reference log db)
          e))

-- A review that succeeds keeps a vault's reserves in order: the locked and the disbursed columns are
-- the sums of its payouts, and together at most what was contributed.
pub review_transition-IsReserved :
    (v : ℕ) (env : Env) (actor : AuthenticatedUser) (input : ReviewPayoutInput)
    (move : PayoutTransition) (action : String) (db db' : Db) (q : PayoutRequest)
    → IsReserved v db
    → review_transition env actor input move action db ≡ ok (q, db')
    → IsReserved v db'
unfolding review_transition
review_transition-IsReserved v env actor input move action db db' q R h =
    let (plan, planned, rest) = >>=-eq-ok (plan_review env actor input move action db) _ h in
    run_review-IsReserved v env actor input move plan db db' q R
      (plan_review-Planned env actor input move action db plan planned) rest
