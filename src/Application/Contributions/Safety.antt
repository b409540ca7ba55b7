-- ===== src/Application/Contributions/Safety.antt =====
-- What a settlement that succeeds has made sure of, and what it leaves of the contribution.
use edustell.Common.{
  update, ℕ, String, some, ◌≡◌, ◌⊎◌, inl, inr, ◌∙◌, ap, sym, subst, true, false, ok, arith, refl,
  select, select-key, select-update_self, >>=-eq-ok, map_error, map_error-eq-ok,
}
use edustell.Domain.StringEnum.{as_str, eq_enum}
use edustell.Domain.Auth.{AuthenticatedUser, UserRole}
use edustell.Domain.Status.{ContributionStatus, contribution_status_enum}
use edustell.Domain.Records.{Contribution, AuditLog}
use edustell.Domain.Contributions.{ContributionTransition, check_transition, target_status}
use edustell.Store.Env.{Env}
use edustell.Store.Rows.{try_contribution, ContributionRow}
use edustell.Store.Rows.Fields.{try_contribution-IsContributionOf}
use edustell.Store.Db.{Db, contribution_key}
use edustell.Store.Contributions.{SettlementResult, settle_with_audit, set_status}
use edustell.Store.Contributions.Settlement.{settle_row-Run, Run-IsSettled}
use edustell.Store.Contributions.Decided.{settle_with_audit-Decided}
use edustell.Application.Contributions.{
  Option, SettlementInput, SettlementPlan, plan_settlement, run_settlement, settle_contribution,
  from_persistence,
}
use edustell.Ledger.Balance.Handlers.{Planned, plan_settlement-Planned}

-- The status that a move starts from, and the one that it leads to.
abbrev pub origin_text : ContributionTransition → String
origin_text ContributionTransition.confirm = "pending"
origin_text ContributionTransition.fail = "pending"
origin_text ContributionTransition.reverse = "confirmed"

abbrev pub target_text : ContributionTransition → String
target_text ContributionTransition.confirm = "confirmed"
target_text ContributionTransition.fail = "failed"
target_text ContributionTransition.reverse = "reversed"

-- The rows of a contribution before and after a move: it has been made before and nothing is written,
-- or the status goes from the origin to the target, at the same vault and amount.
abbrev pub Settles : ℕ → ContributionTransition → Db → Db → Type 0
Settles id move db db' =
    (row : ContributionRow) × (after : ContributionRow) × (select id db.contributions ≡ some row)
    × (select id db'.contributions ≡ some after)
    × (after.status ≡ target_text move)
    × (after.vault_id ≡ row.vault_id)
    × (after.amount_minor ≡ row.amount_minor)
    × (((row.status ≡ target_text move) × (db' ≡ db)) ⊎ (row.status ≡ origin_text move))

target_text_lem : (move : ContributionTransition) → as_str (target_status move) ≡ target_text move
unfolding target_status
target_text_lem move = ground arith

same_status : (a b : ContributionStatus) → eq_enum a b ≡ true → as_str a ≡ as_str b
same_status a b same = ground arith

origin_text_lem :
    (from : ContributionStatus) (move : ContributionTransition)
    → check_transition from (target_status move) ≡ ok (target_status move)
    → eq_enum from (target_status move) ≡ false
    → as_str from ≡ origin_text move
unfolding check_transition target_status
origin_text_lem from move moves other = ground arith

settle_with_audit-Settles :
    (env : Env) (id actor : ℕ) (move : ContributionTransition) (ref : Option String)
    (log : AuditLog) (db db' : Db) (res : SettlementResult) (row : ContributionRow)
    (c : Contribution)
    → select id db.contributions ≡ some row
    → try_contribution row ≡ ok c
    → check_transition c.status (target_status move) ≡ ok (target_status move)
    → settle_with_audit env id (as_str (target_status move)) actor ref log db ≡ ok (res, db')
    → Settles id move db db'
settle_with_audit-Settles env id actor move ref log db db' res row c at_row parsed moves h =
    let d = settle_with_audit-Decided env id (target_status move) actor ref log db db' res h in
    let same_row : d.row ≡ row = ground (arith, d.found, at_row) in
    let same : d.current ≡ c = ground (arith, d.parsed, parsed, same_row) in
    let read = try_contribution-IsContributionOf d.row d.current d.parsed in
    elim d.way [
      | inl (reached, kept) ↦
          let status : d.row.status ≡ target_text move =
            sym read.status
            ∙ same_status d.current.status (target_status move) reached
            ∙ target_text_lem move in
          (
            d.row,
            d.row,
            d.found,
            ap (λ x. select id x.contributions) kept ∙ d.found,
            status,
            refl,
            refl,
            inl (status, kept),
          )
      | inr (other, settled) ↦
          let (r, vr, s, posted) =
            Run-IsSettled env d.current (target_status move) actor ref log db db' res (
              settle_row-Run env d.current (target_status move) actor ref log db db' res settled) in
          let set = set_status env (as_str (target_status move)) ref in
          let at_id : d.current.id ≡ id = read.id ∙ select-key id db.contributions d.row d.found in
          let found : select id db.contributions ≡ some r =
            subst (λ k. select k db.contributions ≡ some r) at_id s.found_row in
          let written : select id db'.contributions ≡ some (set r) =
            ap (λ x. select id x) s.contributions
            ∙ ap (λ k. select id (update k set db.contributions)) at_id
            ∙ select-update_self id set db.contributions r (λ x. refl) found in
          let same_r : r ≡ d.row = ground (arith, found, d.found) in
          let status : r.status ≡ origin_text move =
            ap (λ x. x.status) same_r
            ∙ sym read.status
            ∙ origin_text_lem d.current.status move (ground (arith, moves, same)) other in
          (r, set r, found, written, target_text_lem move, refl, refl, inr status)
    ]

run_settlement-Settles :
    (env : Env) (actor : AuthenticatedUser) (input : SettlementInput)
    (move : ContributionTransition) (plan : SettlementPlan) (db db' : Db) (c : Contribution)
    → Planned env actor input move db plan
    → run_settlement env actor input plan db ≡ ok (c, db')
    → Settles input.contribution_id move db db'
unfolding run_settlement
run_settlement-Settles env actor input move (SettlementPlan.settled current) db db' c p h =
    let kept : db' ≡ db = ground arith in
    let reached : eq_enum p.current.status p.target ≡ true = ground (arith, p.way) in
    let status : p.row.status ≡ target_text move =
      sym (try_contribution-IsContributionOf p.row p.current p.parsed).status
      ∙ same_status p.current.status p.target reached
      ∙ ap (λ x. as_str x) p.aims
      ∙ target_text_lem move in
    (
      p.row,
      p.row,
      p.found,
      ap (λ x. select input.contribution_id x.contributions) kept ∙ p.found,
      status,
      refl,
      refl,
      inl (status, kept),
    )
run_settlement-Settles env actor input move (SettlementPlan.settle current target log) db db' c p
      h =
    let (res, e, done) =
      >>=-eq-ok
        (map_error from_persistence (
          settle_with_audit env current.id (as_str target) actor.user_id input.external_reference
            log db))
        _ h in
    let same : res.1 ≡ db' = ground arith in
    let current_same : current ≡ p.current = ground (arith, p.way) in
    let target_same : target ≡ target_status move = ground (arith, p.way, p.aims) in
    let read = try_contribution-IsContributionOf p.row p.current p.parsed in
    let key_same : p.row.id ≡ input.contribution_id =
      select-key input.contribution_id db.contributions p.row p.found in
    let id_same : current.id ≡ input.contribution_id =
      ap (λ x. x.id) current_same ∙ read.id ∙ key_same in
    let ran : settle_with_audit env input.contribution_id (as_str (target_status move))
          actor.user_id input.external_reference log db
        ≡ ok res =
      ap
        (λ k.
          settle_with_audit env k (as_str (target_status move)) actor.user_id
            input.external_reference log db)
        (sym id_same)
      ∙ ap
          (λ x.
            settle_with_audit env current.id (as_str x) actor.user_id input.external_reference log
              db)
          (sym target_same)
      ∙ map_error-eq-ok from_persistence _ e in
    subst (λ x. Settles input.contribution_id move db x) same
      (settle_with_audit-Settles env input.contribution_id actor.user_id move
        input.external_reference log db res.1 res.0 p.row p.current p.found p.parsed
        (subst (λ x. check_transition p.current.status x ≡ ok x) p.aims p.moves) ran)

-- A settlement that succeeds was made by a platform admin, and the contribution then has the status of
-- the move. Either it had it before and nothing is written, or it had the status that the move starts
-- from, pending or for a reversal confirmed; its vault and amount stay.
pub settle_contribution-Settles :
    (env : Env) (actor : AuthenticatedUser) (input : SettlementInput)
    (move : ContributionTransition) (action : String) (db db' : Db) (c : Contribution)
    → settle_contribution env actor input move action db ≡ ok (c, db')
    → (actor.role ≡ UserRole.platform_admin) × Settles input.contribution_id move db db'
unfolding settle_contribution
settle_contribution-Settles env actor input move action db db' c h =
    let (plan, planned, rest) = >>=-eq-ok (plan_settlement env actor input move action db) _ h in
    let p = plan_settlement-Planned env actor input move action db plan planned in
    (p.admin, run_settlement-Settles env actor input move plan db db' c p rest)
