-- ===== src/Application/Reviews/Outcomes.antt =====
-- What a review that succeeds leaves of the payout.
use edustell.Common.{
  update, ℕ, String, Option, some, ◌≡◌, ◌⊎◌, inl, inr, ◌∙◌, ap, sym, subst, true, false, ok, arith,
  refl, select, select-key, select-update_self, >>=-eq-ok, map_error, map_error-eq-ok,
}
use edustell.Domain.StringEnum.{as_str, eq_enum}
use edustell.Domain.Auth.{AuthenticatedUser, UserRole}
use edustell.Domain.Status.{PayoutStatus, payout_status_enum}
use edustell.Domain.Records.{PayoutRequest, AuditLog}
use edustell.Domain.Payouts.{PayoutTransition, check_transition, target_status}
use edustell.Store.Env.{Env}
use edustell.Store.Rows.{PayoutRequestRow, try_payout}
use edustell.Store.Rows.Fields.{try_payout-IsPayoutOf}
use edustell.Store.Db.{Db, payout_key}
use edustell.Store.Payouts.{TransitionResult, transition_with_audit, set_review}
use edustell.Store.Payouts.Runs.{transition_with_audit-Decided, move_row-Run, Run-IsMoved}
use edustell.Application.Payouts.{ReviewPayoutInput, from_persistence}
use edustell.Application.Reviews.{ReviewPlan, plan_review, run_review, review_transition}
use edustell.Application.Reviews.Checks.{Planned, plan_review-Planned}

-- The statuses that a move starts from, and the one that it leads to.
abbrev pub MayStart : PayoutTransition → String → Type 0
MayStart PayoutTransition.move_to_review status = status ≡ "pending"
MayStart PayoutTransition.approve status = status ≡ "under_review"
MayStart PayoutTransition.reject status = (status ≡ "pending") ⊎ (status ≡ "under_review")
MayStart PayoutTransition.mark_processing status = status ≡ "approved"
MayStart PayoutTransition.complete status = status ≡ "processing"
MayStart PayoutTransition.fail status = status ≡ "processing"

abbrev pub target_text : PayoutTransition → String
target_text PayoutTransition.move_to_review = "under_review"
target_text PayoutTransition.approve = "approved"
target_text PayoutTransition.reject = "rejected"
target_text PayoutTransition.mark_processing = "processing"
target_text PayoutTransition.complete = "completed"
target_text PayoutTransition.fail = "failed"

-- The rows of a payout before and after a move: it has been made before and nothing is written, or the
-- status goes from one that the move starts from to its target, the reviewer is noted, and what is to be
-- paid to whom stays.
abbrev pub Moves : ℕ → ℕ → PayoutTransition → Db → Db → Type 0
Moves id reviewer move db db' =
    (row : PayoutRequestRow) × (after : PayoutRequestRow) × (select id db.payouts ≡ some row)
    × (select id db'.payouts ≡ some after)
    × (after.status ≡ target_text move)
    × (after.vault_id ≡ row.vault_id)
    × (after.school_id ≡ row.school_id)
    × (after.amount_minor ≡ row.amount_minor)
    × (((row.status ≡ target_text move) × (db' ≡ db))
        ⊎ (MayStart move row.status × (after.reviewed_by ≡ some reviewer)))

target_text_lem : (move : PayoutTransition) → as_str (target_status move) ≡ target_text move
unfolding target_status
target_text_lem move = ground arith

same_status : (a b : PayoutStatus) → eq_enum a b ≡ true → as_str a ≡ as_str b
same_status a b same = ground arith

check_transition-MayStart :
    (from : PayoutStatus) (move : PayoutTransition)
    → check_transition from (target_status move) ≡ ok (target_status move)
    → eq_enum from (target_status move) ≡ false
    → MayStart move (as_str from)
unfolding check_transition target_status
check_transition-MayStart from PayoutTransition.move_to_review moves other = ground arith
check_transition-MayStart from PayoutTransition.approve moves other = ground arith
check_transition-MayStart from PayoutTransition.reject moves other = ground arith
check_transition-MayStart from PayoutTransition.mark_processing moves other = ground arith
check_transition-MayStart from PayoutTransition.complete moves other = ground arith
check_transition-MayStart from PayoutTransition.fail moves other = ground arith

transition_with_audit-Moves :
    (env : Env) (id actor : ℕ) (move : PayoutTransition) (notes ref : Option String)
    (log : AuditLog) (db db' : Db) (res : TransitionResult) (row : PayoutRequestRow)
    (p : PayoutRequest)
    → select id db.payouts ≡ some row
    → try_payout row ≡ ok p
    → check_transition p.status (target_status move) ≡ ok (target_status move)
    → transition_with_audit env id (as_str (target_status move)) actor notes ref log db
      ≡ ok (res, db')
    → Moves id actor move db db'
transition_with_audit-Moves env id actor move notes ref log db db' res row p at_row parsed moves h =
    let d =
      transition_with_audit-Decided env id (target_status move) actor notes ref log db db' res h in
    let same_row : d.row ≡ row = ground (arith, d.found, at_row) in
    let same : d.current ≡ p = ground (arith, d.parsed, parsed, same_row) in
    let read = try_payout-IsPayoutOf d.row d.current d.parsed in
    elim d.way [
      | inl (reached, kept) ↦
          let status : d.row.status ≡ target_text move =
            sym read.status
            ∙ same_status d.current.status (target_status move) reached
            ∙ target_text_lem move in
          (
            d.row,
            d.row,
            d.found,
            ap (λ x. select id x.payouts) kept ∙ d.found,
            status,
            refl,
            refl,
            refl,
            inl (status, kept),
          )
      | inr (other, ran) ↦
          let (r, vr, s, moved) =
            Run-IsMoved env d.current (target_status move) actor notes ref log db db' res (
              move_row-Run env d.current (target_status move) actor notes ref log db db' res ran) in
          let set = set_review env (as_str (target_status move)) actor notes ref in
          let at_id : d.current.id ≡ id = read.id ∙ select-key id db.payouts d.row d.found in
          let found : select id db.payouts ≡ some r =
            subst (λ k. select k db.payouts ≡ some r) at_id s.found_row in
          let written : select id db'.payouts ≡ some (set r) =
            ap (λ x. select id x) s.payouts
            ∙ ap (λ k. select id (update k set db.payouts)) at_id
            ∙ select-update_self id set db.payouts r (λ x. refl) found in
          let same_r : r ≡ d.row = ground (arith, found, d.found) in
          let of_row : as_str d.current.status ≡ r.status =
            read.status ∙ ap (λ x. x.status) (sym same_r) in
          let starts : MayStart move r.status =
            subst (MayStart move) of_row (
              check_transition-MayStart d.current.status move (ground (arith, moves, same))
                other) in
          (r, set r, found, written, target_text_lem move, refl, refl, refl, inr (starts, refl))
    ]

run_review-Moves :
    (env : Env) (actor : AuthenticatedUser) (input : ReviewPayoutInput) (move : PayoutTransition)
    (plan : ReviewPlan) (db db' : Db) (q : PayoutRequest)
    → Planned env actor input move db plan
    → run_review env actor input plan db ≡ ok (q, db')
    → Moves input.payout_id actor.user_id move db db'
unfolding run_review
run_review-Moves env actor input move (ReviewPlan.unchanged current) db db' q p h =
    let kept : db' ≡ db = ground arith in
    let reached : eq_enum p.current.status p.target ≡ true = ground (arith, p.way) in
    let status : p.row.status ≡ target_text move =
      sym (try_payout-IsPayoutOf p.row p.current p.parsed).status
      ∙ same_status p.current.status p.target reached
      ∙ ap (λ x. as_str x) p.aimed
      ∙ target_text_lem move in
    (
      p.row,
      p.row,
      p.found,
      ap (λ x. select input.payout_id x.payouts) kept ∙ p.found,
      status,
      refl,
      refl,
      refl,
      inl (status, kept),
    )
run_review-Moves env actor input move (ReviewPlan.transition current target log) db db' q p h =
    let (res, e, done) =
      >>=-eq-ok
        (map_error from_persistence (
          transition_with_audit env current.id (as_str target) actor.user_id input.review_notes
            input.external_payout_reference log db))
        _ h in
    let same : res.1 ≡ db' = ground arith in
    let current_same : current ≡ p.current = ground (arith, p.way) in
    let target_same : target ≡ target_status move = ground (arith, p.way, p.aimed) in
    let read = try_payout-IsPayoutOf p.row p.current p.parsed in
    let id_same : current.id ≡ input.payout_id =
      ap (λ x. x.id) current_same ∙ read.id ∙ select-key input.payout_id db.payouts p.row p.found in
    let ran : transition_with_audit env input.payout_id (as_str (target_status move)) actor.user_id
          input.review_notes input.external_payout_reference log db
        ≡ ok res =
      ap
        (λ k.
          transition_with_audit env k (as_str (target_status move)) actor.user_id input.review_notes
            input.external_payout_reference log db)
        (sym id_same)
      ∙ ap
          (λ x.
            transition_with_audit env current.id (as_str x) actor.user_id input.review_notes
              input.external_payout_reference log db)
          (sym target_same)
      ∙ map_error-eq-ok from_persistence _ e in
    subst (λ x. Moves input.payout_id actor.user_id move db x) same
      (transition_with_audit-Moves env input.payout_id actor.user_id move input.review_notes
        input.external_payout_reference log db res.1 res.0 p.row p.current p.found p.parsed
        (subst (λ x. check_transition p.current.status x ≡ ok x) p.aimed p.moves) ran)

-- A review that succeeds was made by a platform admin, and the payout then has the status of the move.
-- Either it had it before and nothing is written, or it had one that the move starts from, and the
-- reviewer is noted; its vault, school and amount stay.
pub review_transition-Moves :
    (env : Env) (actor : AuthenticatedUser) (input : ReviewPayoutInput) (move : PayoutTransition)
    (action : String) (db db' : Db) (q : PayoutRequest)
    → review_transition env actor input move action db ≡ ok (q, db')
    → (actor.role ≡ UserRole.platform_admin) × Moves input.payout_id actor.user_id move db db'
unfolding review_transition
review_transition-Moves env actor input move action db db' q h =
    let (plan, planned, rest) = >>=-eq-ok (plan_review env actor input move action db) _ h in
    let p = plan_review-Planned env actor input move action db plan planned in
    (p.admin, run_review-Moves env actor input move plan db db' q p rest)
