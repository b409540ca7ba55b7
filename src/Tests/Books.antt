-- ===== src/Tests/Books.antt =====
-- The refinement of the books at the sample data: a confirmation is a deposit.
use edustell.Common.{
  ◌≡◌, refl, true, some, none, leb, ◌+◌, ◌≤◌, is_some, select, arith, Option, total,
}
use edustell.Domain.Contributions.{ContributionTransition}
use edustell.Store.Db.{Db, vault_key, contribution_key, payout_key}
use edustell.Application.Contributions.{settle_contribution}
use edustell.Ledger.Machine.{Move, funds}
use edustell.Ledger.Machine.Refinement.{Request, Has, request-Move}
use edustell.Tests.Runs.{confirm_runs}
use edustell.Tests.Data.{env, admin, db, confirm_input}
use edustell.Tests.Initial.{got, got_lem, db-IsReconciled, db-IsReserved}

abbrev confirmed_db : Db
confirmed_db =
    (got
      (settle_contribution env admin confirm_input ContributionTransition.confirm
        "contribution.confirmed" db)
      confirm_runs).1

abbrev request : Request db confirmed_db
request =
    Request.settlement env admin confirm_input ContributionTransition.confirm
      "contribution.confirmed" db confirmed_db _
      (got_lem
        (settle_contribution env admin confirm_input ContributionTransition.confirm
          "contribution.confirmed" db)
        confirm_runs)

has_vault : is_some (select 1 confirmed_db.vaults) ≡ true
unfolding edustell.Application.Contributions.from_persistence
    edustell.Application.Contributions.from_violation
    edustell.Application.Contributions.ensure_same_intent
    edustell.Application.Contributions.check_vault_access
    edustell.Application.Contributions.intent_log edustell.Application.Contributions.submit_intent
    edustell.Application.Contributions.replay_or_submit
    edustell.Application.Contributions.record_contribution_intent
    edustell.Application.Contributions.list_vault_contributions
    edustell.Application.Contributions.plan_settlement
    edustell.Application.Contributions.run_settlement
    edustell.Application.Contributions.settle_contribution
    edustell.Application.Contributions.confirm_contribution
    edustell.Application.Contributions.fail_contribution
    edustell.Application.Contributions.reverse_contribution edustell.Store.Contributions.find_vault
    edustell.Store.Contributions.list_contributors edustell.Store.Contributions.find_contribution
    edustell.Store.Contributions.find_contribution_by_key
    edustell.Store.Contributions.list_contributions edustell.Store.Contributions.contribution_row
    edustell.Store.Contributions.insert_contribution
    edustell.Store.Contributions.create_intent_with_audit
    edustell.Store.Contributions.update_contribution edustell.Store.Contributions.ledger_row
    edustell.Store.Contributions.insert_ledger_entry edustell.Store.Contributions.post_entry
    edustell.Store.Contributions.post_to_ledger edustell.Store.Contributions.settled_already
    edustell.Store.Contributions.settle_row edustell.Store.Contributions.settle_with_audit
    edustell.Store.Vaults.find_vault_for_update edustell.Store.Vaults.update_vault
    edustell.Store.Vaults.update_vault_totals
    edustell.Store.Vaults.update_vault_locked_and_disbursed
    edustell.Domain.Contributions.target_status
    edustell.Domain.Contributions.validate_contribution_amount
    edustell.Domain.Contributions.validate_contribution_currency
    edustell.Domain.Contributions.can_view_or_fund_vault
    edustell.Domain.Contributions.can_settle_contribution
    edustell.Domain.Contributions.check_transition edustell.Domain.Contributions.validate_transition
    edustell.Audit.Events.contribution_recorded edustell.Audit.Events.contribution_status_changed
    edustell.Audit.Events.payout_requested edustell.Audit.Events.payout_decision
    edustell.Audit.Events.scholarship_decision edustell.Audit.Event.new_event
    edustell.Audit.Event.into_log edustell.Audit.Redaction.is_sensitive_key
    edustell.Audit.Redaction.sanitize_audit_log edustell.Store.AuditLogs.append_audit_log
    edustell.Store.Env.map_err edustell.Store.Env.violation edustell.Store.Env.execute
    edustell.Store.Env.require edustell.Domain.StringEnum.from_str
    edustell.Domain.Money.currency_as_str edustell.Domain.Money.currency_from_str
    edustell.Domain.Money.eq_currency edustell.Domain.Money.money_new
    edustell.Store.Rows.parse_money edustell.Store.Rows.parse_status edustell.Store.Rows.try_vault
    edustell.Store.Rows.try_contribution edustell.Store.Rows.try_ledger_entry
    edustell.Store.Rows.try_milestone edustell.Store.Rows.try_school edustell.Store.Rows.try_payout
    edustell.Common.select edustell.Common.update edustell.Common.find edustell.Common.filter
    edustell.Common.any edustell.Common.total edustell.Common.trim
    edustell.Common.to_ascii_lowercase edustell.Common.starts_with edustell.Common.before
    edustell.Common.second_piece edustell.Common.contains edustell.Common.add_i64
    edustell.Common.sub_i64
has_vault = refl

is_some-Has : (v : edustell.Common.ℕ) (d : Db) → is_some (select v d.vaults) ≡ true → Has v d
is_some-Has v d h = elim (edustell.Common.Option-cases (select v d.vaults)) [
  | edustell.Common.inl missing ↦ absurd (ground (arith, missing, h))
  | edustell.Common.inr found ↦ found
]

request-Move_example : Move (funds 1 db) (funds 1 confirmed_db)
request-Move_example =
    request-Move 1 db confirmed_db (db-IsReconciled, db-IsReserved)
      (is_some-Has 1 confirmed_db has_vault) request
