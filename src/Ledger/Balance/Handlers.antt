-- ===== src/Ledger/Balance/Handlers.antt =====
-- The handlers of contributions keep a vault reconciled.
use edustell.Common.{
  refl, if◌then◌else◌, Bool, ok_or-eq-ok, ap, ◌∙◌, ◌⊎◌, ok_or, Option-cases, subst, select-key, ℕ,
  String, Option, some, ◌≡◌, true, false, ok, arith, select, >>=-eq-ok, map_error-eq-ok, map_error,
  inl, inr,
}
use edustell.Domain.StringEnum.{as_str, eq_enum}
use edustell.Domain.Status.{ContributionStatus, contribution_status_enum}
use edustell.Domain.Records.{Contribution, AuditLog}
use edustell.Domain.Auth.{UserRole, AuthenticatedUser}
use edustell.Domain.Contributions.{
  can_settle_contribution, check_transition, ContributionTransition, validate_transition,
  target_status,
}
use edustell.Store.Env.{Env}
use edustell.Store.Rows.Fields.{try_contribution-IsContributionOf, IsContributionOf}
use edustell.Store.Rows.{try_contribution, SavingsVaultRow, ContributionRow}
use edustell.Store.Db.{Db, contribution_key}
use edustell.Store.Contributions.{find_contribution, SettlementResult, settle_with_audit}
use edustell.Store.Contributions.Settlement.{IsSettled, VaultsPosted, settle_row-Run, Run-IsSettled}
use edustell.Store.Contributions.Decided.{settle_with_audit-Decided}
use edustell.Ledger.Balance.{IsReconciled}
use edustell.Application.Contributions.{
  Handled, run_settlement, settle_contribution, SettlementInput, SettlementPlan, plan_settlement,
  from_violation, from_persistence, ContributionError,
}
use edustell.Ledger.Balance.Settle.{confirm-IsReconciled, reverse-IsReconciled, fail-IsReconciled}

-- The three moves of the domain's transition table that change the status.
change_cases :
    (v : ℕ) (env : Env) (from target : ContributionStatus) (c saved : Contribution)
    (ref : Option String) (db db' : Db) (r : ContributionRow) (vr : SavingsVaultRow)
    → c.status ≡ from
    → check_transition from target ≡ ok target
    → eq_enum from target ≡ false
    → IsContributionOf r c
    → IsReconciled v db
    → IsSettled env c saved target ref db db' r vr
    → VaultsPosted env target vr r.amount_minor c.vault_id db db'
    → IsReconciled v db'
unfolding check_transition
change_cases v env ContributionStatus.pending ContributionStatus.confirmed c saved ref db db' r vr
      was _ _ cur R s p =
    confirm-IsReconciled v env c saved ref db db' r vr cur R was s p
change_cases v env ContributionStatus.pending ContributionStatus.failed c saved ref db db' r vr was
      _ _ cur R s p =
    fail-IsReconciled v env c saved ref db db' r vr cur R was s p
change_cases v env ContributionStatus.confirmed ContributionStatus.reversed c saved ref db db' r vr
      was _ _ cur R s p =
    reverse-IsReconciled v env c saved ref db db' r vr cur R was s p
change_cases v env from target c saved ref db db' r vr was moves other cur R s p =
    absurd (ground arith)

-- The workflow keeps a vault reconciled, when the row that it locks may make the move.
pub settle_with_audit-IsReconciled :
    (v : ℕ) (env : Env) (id : ℕ) (target : ContributionStatus) (actor : ℕ) (ref : Option String)
    (log : AuditLog) (db db' : Db) (res : SettlementResult)
    → IsReconciled v db
    → ((r : ContributionRow) (c : Contribution)
        → select id db.contributions ≡ some r
        → try_contribution r ≡ ok c
        → check_transition c.status target ≡ ok target)
    → settle_with_audit env id (as_str target) actor ref log db ≡ ok (res, db')
    → IsReconciled v db'
settle_with_audit-IsReconciled v env id target actor ref log db db' res R moves h =
    let d = settle_with_audit-Decided env id target actor ref log db db' res h in
    elim d.way [
      | inl (same, kept) ↦ rw kept R
      | inr (other, settled) ↦
          let (r, vr, s, posted) =
            Run-IsSettled env d.current target actor ref log db db' res
              (settle_row-Run env d.current target actor ref log db db' res settled) in
          let read = try_contribution-IsContributionOf d.row d.current d.parsed in
          let same : d.row ≡ r =
            ground (
              arith,
              d.found,
              s.found_row,
              read.id,
              select-key id db.contributions d.row d.found,
            ) in
          change_cases v env d.current.status target d.current res.contribution ref db db' r vr
            (λ i. d.current.status) (moves d.row d.current d.found d.parsed) other
            (subst (λ x. IsContributionOf x d.current) same read) R s posted
    ]

-- What the domain answers is the target.
check_transition-target :
    (from to target : ContributionStatus)
    → check_transition from to ≡ ok target
    → check_transition from target ≡ ok target
unfolding check_transition
check_transition-target from to target h = ground arith

check_transition-aims :
    (from to target : ContributionStatus) → check_transition from to ≡ ok target → target ≡ to
unfolding check_transition
check_transition-aims from to target h = ground arith

find_contribution-eq-some :
    (env : Env) (id : ℕ) (db : Db) (c : Contribution)
    → find_contribution env id db ≡ ok (some c)
    → (r : ContributionRow) × (select id db.contributions ≡ some r) × (try_contribution r ≡ ok c)
unfolding find_contribution
find_contribution-eq-some env id db c h = elim (Option-cases (select id db.contributions)) [
  | inl missing ↦ absurd (ground arith)
  | inr (r, found) ↦ (r, found, ground arith)
]

-- What the first part of a settlement has read.
pub record Planned (env : Env) (actor : AuthenticatedUser) (input : SettlementInput)
    (move : ContributionTransition) (db : Db) (plan : SettlementPlan) : Type 0 where
  pub row : ContributionRow
  pub current : Contribution
  pub found : select input.contribution_id db.contributions ≡ some row
  pub parsed : try_contribution row ≡ ok current
  pub target : ContributionStatus
  pub aims : target ≡ target_status move
  pub admin : actor.role ≡ UserRole.platform_admin
  pub moves : check_transition current.status target ≡ ok target
  pub way :
      ((plan ≡ SettlementPlan.settled current) × (eq_enum current.status target ≡ true))
      ⊎ ((log : AuditLog) × (plan ≡ SettlementPlan.settle current target log))

can_settle_contribution-admin :
    (role : UserRole) → can_settle_contribution role ≡ ok tt → role ≡ UserRole.platform_admin
unfolding can_settle_contribution
can_settle_contribution-admin role h = ground arith

two_ways :
    (b : Bool) (c : Contribution) (target : ContributionStatus) (log : AuditLog)
    (plan : SettlementPlan)
    → ◌≡◌ {A = Handled SettlementPlan}
        (ok (if b then SettlementPlan.settled c else SettlementPlan.settle c target log))
        (ok plan)
    → ((plan ≡ SettlementPlan.settled c) × (b ≡ true))
      ⊎ ((log' : AuditLog) × (plan ≡ SettlementPlan.settle c target log'))
two_ways true c target log plan h = inl (ground arith, refl)
two_ways false c target log plan h = inr (log, ground arith)

pub plan_settlement-Planned :
    (env : Env) (actor : AuthenticatedUser) (input : SettlementInput)
    (move : ContributionTransition) (action : String) (db : Db) (plan : SettlementPlan)
    → plan_settlement env actor input move action db ≡ ok plan
    → Planned env actor input move db plan
unfolding plan_settlement find_contribution validate_transition
plan_settlement-Planned env actor input move action db plan h =
    let (u, e0, h0) =
      >>=-eq-ok (map_error from_violation (can_settle_contribution actor.role)) _ h in
    let (found, e1, h1) =
      >>=-eq-ok (map_error from_persistence (find_contribution env input.contribution_id db)) _
        h0 in
    let (c, e2, h2) = >>=-eq-ok (ok_or found ContributionError.not_found) _ h1 in
    let (target, e3, h3) =
      >>=-eq-ok (map_error from_violation (validate_transition c.status move)) _ h2 in
    let read =
      map_error-eq-ok from_persistence (find_contribution env input.contribution_id db) e1 in
    let moves = map_error-eq-ok from_violation (validate_transition c.status move) e3 in
    let (r, found_row, row) =
      find_contribution-eq-some env input.contribution_id db c
        (read ∙ ap ok (ok_or-eq-ok found ContributionError.not_found e2)) in
    record {
      row = r;
      current = c;
      found = found_row;
      parsed = row;
      target = target;
      aims = check_transition-aims c.status (target_status move) target moves;
      admin =
          can_settle_contribution-admin actor.role
            (map_error-eq-ok from_violation (can_settle_contribution actor.role) e0);
      moves = check_transition-target c.status (target_status move) target moves;
      way = two_ways (eq_enum c.status target) c target _ plan h3;
    }

run_settlement-IsReconciled :
    (v : ℕ) (env : Env) (actor : AuthenticatedUser) (input : SettlementInput)
    (move : ContributionTransition) (plan : SettlementPlan) (db db' : Db) (c : Contribution)
    → IsReconciled v db
    → Planned env actor input move db plan
    → run_settlement env actor input plan db ≡ ok (c, db')
    → IsReconciled v db'
unfolding run_settlement
run_settlement-IsReconciled v env actor input move (SettlementPlan.settled current) db db' c R p h =
    let same : db ≡ db' = ground arith in subst (IsReconciled v) same R
run_settlement-IsReconciled v env actor input move (SettlementPlan.settle current target log) db db'
      c R p h =
    let (res, e, done) =
      >>=-eq-ok
        (map_error from_persistence (
          settle_with_audit env current.id (as_str target) actor.user_id input.external_reference
            log db))
        _ h in
    let same : res.1 ≡ db' = ground arith in
    let current_same : current ≡ p.current = ground (arith, p.way) in
    let target_same : target ≡ p.target = ground (arith, p.way) in
    let read = try_contribution-IsContributionOf p.row p.current p.parsed in
    let id_same : p.row.id ≡ current.id = ground (arith, read.id, current_same) in
    let key_same : p.row.id ≡ input.contribution_id =
      select-key input.contribution_id db.contributions p.row p.found in
    subst (IsReconciled v) same (
      settle_with_audit-IsReconciled v env current.id target actor.user_id input.external_reference
        log db res.1 res.0 R
        (λ r x found parsed.
          ground (arith, p.moves, p.found, p.parsed, target_same, id_same, key_same))
        (map_error-eq-ok from_persistence
          (settle_with_audit env current.id (as_str target) actor.user_id input.external_reference
            log db)
          e))

-- A settlement that succeeds keeps a vault reconciled: its balance is the sum of its confirmed
-- contributions.
pub settle_contribution-IsReconciled :
    (v : ℕ) (env : Env) (actor : AuthenticatedUser) (input : SettlementInput)
    (move : ContributionTransition) (action : String) (db db' : Db) (c : Contribution)
    → IsReconciled v db
    → settle_contribution env actor input move action db ≡ ok (c, db')
    → IsReconciled v db'
unfolding settle_contribution
settle_contribution-IsReconciled v env actor input move action db db' c R h =
    let (plan, planned, rest) = >>=-eq-ok (plan_settlement env actor input move action db) _ h in
    run_settlement-IsReconciled v env actor input move plan db db' c R
      (plan_settlement-Planned env actor input move action db plan planned) rest
