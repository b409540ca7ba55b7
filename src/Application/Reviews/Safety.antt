-- ===== src/Application/Reviews/Safety.antt =====
-- What an approval needs.
use edustell.Common.{some, ◌≡◌, true, false, ok, arith, select, >>=-eq-ok, inl, inr, ◌⊎◌}
use edustell.Domain.StringEnum.{eq_enum}
use edustell.Domain.Auth.{AuthenticatedUser, UserRole, user_role_enum}
use edustell.Domain.Status.{PayoutStatus, payout_status_enum}
use edustell.Domain.Records.{PayoutRequest}
use edustell.Domain.Payouts.{PayoutTransition, check_transition, target_status}
use edustell.Store.Env.{Env}
use edustell.Store.Rows.{PayoutRequestRow, try_payout}
use edustell.Store.Db.{Db, payout_key}
use edustell.Application.Payouts.{ReviewPayoutInput}
use edustell.Application.Reviews.{
  ReviewPlan, plan_review, review_transition, run_review, approve_payout,
}
use edustell.Application.Reviews.Checks.{Checks, plan_review-Planned}

-- What an approval that succeeds has made sure of.
pub record Approved (env : Env) (actor : AuthenticatedUser) (input : ReviewPayoutInput)
    (db db' : Db) : Type 0 where
  pub admin : actor.role ≡ UserRole.platform_admin
  pub row : PayoutRequestRow
  pub current : PayoutRequest
  pub found : select input.payout_id db.payouts ≡ some row
  pub parsed : try_payout row ≡ ok current
  pub way :
      ((current.status ≡ PayoutStatus.approved) × (db' ≡ db))
      ⊎ ((current.status ≡ PayoutStatus.under_review)
          × Checks env PayoutTransition.approve current db)

approved_way :
    (from target : PayoutStatus)
    → target ≡ PayoutStatus.approved
    → check_transition from target ≡ ok target
    → ((eq_enum from target ≡ true) → from ≡ PayoutStatus.approved)
      × ((eq_enum from target ≡ false) → from ≡ PayoutStatus.under_review)
unfolding check_transition
approved_way from target aimed moves = (λ same. ground arith, λ other. ground arith)

run_unchanged :
    (env : Env) (actor : AuthenticatedUser) (input : ReviewPayoutInput) (plan : ReviewPlan)
    (p q : PayoutRequest) (db db' : Db)
    → plan ≡ ReviewPlan.unchanged p
    → run_review env actor input plan db ≡ ok (q, db')
    → db' ≡ db
unfolding run_review
run_unchanged env actor input plan p q db db' same h = ground arith

-- An approval that succeeds was made by a platform admin. Either the payout was approved before and
-- nothing is written, or it was under review, its school is verified, its milestone belongs to the
-- vault and is payable, and the vault's available funds cover it.
pub approve_payout-Approved :
    (env : Env) (actor : AuthenticatedUser) (input : ReviewPayoutInput) (db db' : Db)
    (q : PayoutRequest)
    → approve_payout env actor input db ≡ ok (q, db')
    → Approved env actor input db db'
unfolding approve_payout review_transition target_status
approve_payout-Approved env actor input db db' q h =
    let (plan, planned, rest) =
      >>=-eq-ok (plan_review env actor input PayoutTransition.approve "payout.approved" db) _ h in
    let p =
      plan_review-Planned env actor input PayoutTransition.approve "payout.approved" db plan
        planned in
    let ways = approved_way p.current.status p.target p.aimed p.moves in
    record {
      admin = p.admin;
      row = p.row;
      current = p.current;
      found = p.found;
      parsed = p.parsed;
      way = elim p.way [
        | inl (same, unmoved) ↦
            inl (ways.0 same, run_unchanged env actor input plan p.current q db db' unmoved rest)
        | inr (other, checks, log, moved) ↦ inr (ways.1 other, checks)
      ];
    }
