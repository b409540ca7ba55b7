-- ===== src/Ledger/Machine/Workflows.antt =====
-- The transactions behind a settlement and behind a review that succeed: none, or one at a row that
-- may make the move.
use edustell.Common.{
  ℕ, String, Option, some, ◌≡◌, ◌⊎◌, inl, inr, ok, arith, select, >>=-eq-ok, map_error-eq-ok,
  map_error, select-key,
}
use edustell.Domain.StringEnum.{as_str}
use edustell.Domain.Status.{
  ContributionStatus, contribution_status_enum, PayoutStatus, payout_status_enum,
}
use edustell.Domain.Records.{Contribution, PayoutRequest, AuditLog}
use edustell.Domain.Auth.{AuthenticatedUser}
use edustell.Domain.Contributions.{ContributionTransition}
use edustell.Domain.Contributions.{check_transition as may_settle}
use edustell.Domain.Payouts.{PayoutTransition}
use edustell.Domain.Payouts.{check_transition as may_review}
use edustell.Store.Env.{Env}
use edustell.Store.Rows.{ContributionRow, PayoutRequestRow, try_contribution, try_payout}
use edustell.Store.Rows.Fields.{try_contribution-IsContributionOf, try_payout-IsPayoutOf}
use edustell.Store.Db.{Db, contribution_key, payout_key}
use edustell.Store.Contributions.{settle_with_audit, SettlementResult}
use edustell.Store.Payouts.{transition_with_audit, TransitionResult}
use edustell.Application.Contributions.{
  SettlementInput, SettlementPlan, settle_contribution, plan_settlement, run_settlement,
}
use edustell.Application.Contributions.{from_persistence as settlement_error}
use edustell.Application.Payouts.{ReviewPayoutInput}
use edustell.Application.Payouts.{from_persistence as review_error}
use edustell.Application.Reviews.{ReviewPlan, review_transition, plan_review, run_review}
use edustell.Application.Reviews.Checks.{plan_review-Planned}
use edustell.Application.Reviews.Checks.{Planned as ReviewPlanned}
use edustell.Ledger.Balance.Handlers.{plan_settlement-Planned}
use edustell.Ledger.Balance.Handlers.{Planned as SettlementPlanned}

pub record Settled (env : Env) (db db' : Db) : Type 0 where
  pub id : ℕ
  pub target : ContributionStatus
  pub actor : ℕ
  pub ref : Option String
  pub log : AuditLog
  pub res : SettlementResult
  pub moves :
      (r : ContributionRow) (c : Contribution)
      → select id db.contributions ≡ some r
      → try_contribution r ≡ ok c
      → may_settle c.status target ≡ ok target
  pub ran : settle_with_audit env id (as_str target) actor ref log db ≡ ok (res, db')

pub record Reviewed (env : Env) (db db' : Db) : Type 0 where
  pub id : ℕ
  pub target : PayoutStatus
  pub actor : ℕ
  pub notes : Option String
  pub ref : Option String
  pub log : AuditLog
  pub res : TransitionResult
  pub moves :
      (r : PayoutRequestRow) (p : PayoutRequest)
      → select id db.payouts ≡ some r
      → try_payout r ≡ ok p
      → may_review p.status target ≡ ok target
  pub ran : transition_with_audit env id (as_str target) actor notes ref log db ≡ ok (res, db')

run_settlement-Settled :
    (env : Env) (actor : AuthenticatedUser) (input : SettlementInput)
    (move : ContributionTransition) (plan : SettlementPlan) (db db' : Db) (c : Contribution)
    → SettlementPlanned env actor input move db plan
    → run_settlement env actor input plan db ≡ ok (c, db')
    → (db ≡ db') ⊎ Settled env db db'
unfolding run_settlement
run_settlement-Settled env actor input move (SettlementPlan.settled current) db db' c p h =
    inl (ground arith)
run_settlement-Settled env actor input move (SettlementPlan.settle current target log) db db' c p
      h =
    let (res, e, done) =
      >>=-eq-ok
        (map_error settlement_error (
          settle_with_audit env current.id (as_str target) actor.user_id input.external_reference
            log db))
        _ h in
    let current_same : current ≡ p.current = ground (arith, p.way) in
    let target_same : target ≡ p.target = ground (arith, p.way) in
    let read = try_contribution-IsContributionOf p.row p.current p.parsed in
    let id_same : p.row.id ≡ current.id = ground (arith, read.id, current_same) in
    let key_same : p.row.id ≡ input.contribution_id =
      select-key input.contribution_id db.contributions p.row p.found in
    let ran =
      map_error-eq-ok settlement_error
        (settle_with_audit env current.id (as_str target) actor.user_id input.external_reference log
          db)
        e in
    inr (record {
      id = current.id;
      target = target;
      actor = actor.user_id;
      ref = input.external_reference;
      log = log;
      res = res.0;
      moves = λ r x found parsed.
          ground (arith, p.moves, p.found, p.parsed, target_same, id_same, key_same);
      ran = ground (arith, ran, done);
    })

pub settle_contribution-Settled :
    (env : Env) (actor : AuthenticatedUser) (input : SettlementInput)
    (move : ContributionTransition) (action : String) (db db' : Db) (c : Contribution)
    → settle_contribution env actor input move action db ≡ ok (c, db')
    → (db ≡ db') ⊎ Settled env db db'
unfolding settle_contribution
settle_contribution-Settled env actor input move action db db' c h =
    let (plan, planned, rest) = >>=-eq-ok (plan_settlement env actor input move action db) _ h in
    run_settlement-Settled env actor input move plan db db' c
      (plan_settlement-Planned env actor input move action db plan planned) rest

run_review-Reviewed :
    (env : Env) (actor : AuthenticatedUser) (input : ReviewPayoutInput) (move : PayoutTransition)
    (plan : ReviewPlan) (db db' : Db) (q : PayoutRequest)
    → ReviewPlanned env actor input move db plan
    → run_review env actor input plan db ≡ ok (q, db')
    → (db ≡ db') ⊎ Reviewed env db db'
unfolding run_review
run_review-Reviewed env actor input move (ReviewPlan.unchanged p) db db' q planned h =
    inl (ground arith)
run_review-Reviewed env actor input move (ReviewPlan.transition p target log) db db' q planned h =
    let (res, e, done) =
      >>=-eq-ok
        (map_error review_error (
          transition_with_audit env p.id (as_str target) actor.user_id input.review_notes
            input.external_payout_reference log db))
        _ h in
    let same_p : p ≡ planned.current = ground (arith, planned.way) in
    let same_target : target ≡ planned.target = ground (arith, planned.way) in
    let read = try_payout-IsPayoutOf planned.row planned.current planned.parsed in
    let key = select-key input.payout_id db.payouts planned.row planned.found in
    let id_same : p.id ≡ input.payout_id = ground (arith, read.id, same_p, key) in
    let ran =
      map_error-eq-ok review_error
        (transition_with_audit env p.id (as_str target) actor.user_id input.review_notes
          input.external_payout_reference log db)
        e in
    inr (record {
      id = p.id;
      target = target;
      actor = actor.user_id;
      notes = input.review_notes;
      ref = input.external_payout_reference;
      log = log;
      res = res.0;
      moves = λ r x found parsed.
          ground (arith, planned.moves, planned.found, planned.parsed, same_target, id_same);
      ran = ground (arith, ran, done);
    })

pub review_transition-Reviewed :
    (env : Env) (actor : AuthenticatedUser) (input : ReviewPayoutInput) (move : PayoutTransition)
    (action : String) (db db' : Db) (q : PayoutRequest)
    → review_transition env actor input move action db ≡ ok (q, db')
    → (db ≡ db') ⊎ Reviewed env db db'
unfolding review_transition
review_transition-Reviewed env actor input move action db db' q h =
    let (plan, planned, rest) = >>=-eq-ok (plan_review env actor input move action db) _ h in
    run_review-Reviewed env actor input move plan db db' q
      (plan_review-Planned env actor input move action db plan planned) rest
