-- ===== src/Tests/Runs.antt =====
-- The handlers succeed at the sample data.
use edustell.Common.{◌≡◌, refl, true}
use edustell.Domain.Contributions.{ContributionTransition}
use edustell.Domain.Payouts.{PayoutTransition}
use edustell.Application.Contributions.{settle_contribution, record_contribution_intent}
use edustell.Application.Payouts.{create_payout_request}
use edustell.Application.Reviews.{review_transition, approve_payout}
use edustell.Application.Awards.{approve_application}
use edustell.Tests.Data.{
  env, admin, parent, db, confirm_input, intent_input, review_input, request_input, decide_input,
  is_ok,
}

pub confirm_runs :
    is_ok (
      settle_contribution env admin confirm_input ContributionTransition.confirm
        "contribution.confirmed" db)
    ≡ true
unfolding edustell.Store.Contributions.find_vault edustell.Store.Rows.try_contribution
    edustell.Domain.Contributions.validate_transition edustell.Domain.Contributions.check_transition
    edustell.Domain.Contributions.target_status
    edustell.Application.Contributions.settle_contribution
    edustell.Application.Contributions.plan_settlement
    edustell.Application.Contributions.run_settlement
    edustell.Application.Contributions.from_persistence
    edustell.Application.Contributions.from_violation
    edustell.Domain.Contributions.can_settle_contribution
    edustell.Audit.Events.contribution_status_changed edustell.Store.Rows.try_ledger_entry
    edustell.Store.Vaults.update_vault_totals edustell.Store.Contributions.find_contribution
    edustell.Store.Contributions.settle_with_audit edustell.Store.Contributions.settle_row
    edustell.Store.Contributions.insert_ledger_entry edustell.Store.Contributions.ledger_row
    edustell.Store.Contributions.post_entry edustell.Store.Contributions.post_to_ledger
    edustell.Store.Contributions.settled_already edustell.Store.Contributions.update_contribution
    edustell.Store.Env.execute edustell.Common.select edustell.Common.update edustell.Common.find
    edustell.Common.filter edustell.Common.any edustell.Store.Rows.parse_money
    edustell.Domain.Money.currency_from_str edustell.Domain.Money.money_new
    edustell.Store.Rows.parse_status edustell.Domain.StringEnum.from_str
    edustell.Store.Vaults.find_vault_for_update edustell.Store.Rows.try_vault
    edustell.Audit.Event.into_log edustell.Audit.Event.new_event
    edustell.Audit.Redaction.is_sensitive_key edustell.Audit.Redaction.sanitize_audit_log
    edustell.Audit.Redaction.sanitize_json_value edustell.Common.add_i64 edustell.Common.sub_i64
    edustell.Domain.Money.currency_as_str edustell.Store.AuditLogs.append_audit_log
    edustell.Store.Env.require edustell.Store.Vaults.update_vault edustell.Store.Env.map_err
    edustell.Store.Env.violation
confirm_runs = refl

pub intent_runs : is_ok (record_contribution_intent env parent intent_input db) ≡ true
unfolding edustell.Store.Contributions.find_vault edustell.Store.Rows.try_contribution
    edustell.Domain.Contributions.validate_transition edustell.Domain.Contributions.check_transition
    edustell.Domain.Contributions.target_status
    edustell.Application.Contributions.record_contribution_intent
    edustell.Application.Contributions.check_vault_access
    edustell.Application.Contributions.intent_log edustell.Application.Contributions.submit_intent
    edustell.Application.Contributions.replay_or_submit
    edustell.Application.Contributions.from_persistence
    edustell.Application.Contributions.from_violation
    edustell.Domain.Contributions.validate_contribution_amount
    edustell.Domain.Contributions.validate_contribution_currency
    edustell.Domain.Contributions.can_view_or_fund_vault edustell.Audit.Events.contribution_recorded
    edustell.Store.Contributions.list_contributors
    edustell.Store.Contributions.find_contribution_by_key
    edustell.Store.Contributions.contribution_row edustell.Store.Contributions.insert_contribution
    edustell.Store.Contributions.create_intent_with_audit edustell.Store.Env.execute
    edustell.Common.select edustell.Common.update edustell.Common.find edustell.Common.filter
    edustell.Common.any edustell.Store.Rows.parse_money edustell.Domain.Money.currency_from_str
    edustell.Domain.Money.money_new edustell.Store.Rows.parse_status
    edustell.Domain.StringEnum.from_str edustell.Store.Vaults.find_vault_for_update
    edustell.Store.Rows.try_vault edustell.Audit.Event.into_log edustell.Audit.Event.new_event
    edustell.Audit.Redaction.is_sensitive_key edustell.Audit.Redaction.sanitize_audit_log
    edustell.Audit.Redaction.sanitize_json_value edustell.Common.add_i64 edustell.Common.sub_i64
    edustell.Domain.Money.currency_as_str edustell.Store.AuditLogs.append_audit_log
    edustell.Store.Env.require edustell.Store.Vaults.update_vault edustell.Store.Env.map_err
    edustell.Store.Env.violation
intent_runs = refl

pub approve_runs : is_ok (approve_payout env admin (review_input 5) db) ≡ true
unfolding edustell.Store.Contributions.find_vault edustell.Store.Rows.try_payout
    edustell.Store.Rows.try_school edustell.Store.Rows.try_milestone
    edustell.Store.Payouts.find_milestone edustell.Store.Payouts.find_school
    edustell.Store.Payouts.find_payout edustell.Application.Payouts.from_persistence
    edustell.Application.Payouts.from_violation edustell.Domain.Payouts.ensure_available_funds
    edustell.Domain.Payouts.validate_milestone_association
    edustell.Domain.Payouts.validate_milestone_payable
    edustell.Domain.Payouts.validate_school_verified edustell.Application.Reviews.approve_payout
    edustell.Application.Reviews.review_transition edustell.Application.Reviews.plan_review
    edustell.Application.Reviews.check_review edustell.Application.Reviews.check_funds
    edustell.Application.Reviews.needs_verified_school edustell.Application.Reviews.review_log
    edustell.Application.Reviews.run_review edustell.Domain.Payouts.validate_reviewer_role
    edustell.Domain.Payouts.validate_transition edustell.Domain.Payouts.check_transition
    edustell.Domain.Payouts.target_status edustell.Audit.Events.payout_decision
    edustell.Store.Vaults.update_vault_locked_and_disbursed edustell.Store.Payouts.update_payout
    edustell.Store.Payouts.move_funds edustell.Store.Payouts.moved_already
    edustell.Store.Payouts.move_row edustell.Store.Payouts.transition_with_audit
    edustell.Store.Env.execute edustell.Common.select edustell.Common.update edustell.Common.find
    edustell.Common.filter edustell.Common.any edustell.Store.Rows.parse_money
    edustell.Domain.Money.currency_from_str edustell.Domain.Money.money_new
    edustell.Store.Rows.parse_status edustell.Domain.StringEnum.from_str
    edustell.Store.Vaults.find_vault_for_update edustell.Store.Rows.try_vault
    edustell.Audit.Event.into_log edustell.Audit.Event.new_event
    edustell.Audit.Redaction.is_sensitive_key edustell.Audit.Redaction.sanitize_audit_log
    edustell.Audit.Redaction.sanitize_json_value edustell.Common.add_i64 edustell.Common.sub_i64
    edustell.Domain.Money.currency_as_str edustell.Store.AuditLogs.append_audit_log
    edustell.Store.Env.require edustell.Store.Vaults.update_vault edustell.Store.Env.map_err
    edustell.Store.Env.violation
approve_runs = refl

pub complete_runs :
    is_ok
      (review_transition env admin (review_input 6) PayoutTransition.complete "payout.completed" db)
    ≡ true
unfolding edustell.Store.Contributions.find_vault edustell.Store.Rows.try_payout
    edustell.Store.Rows.try_school edustell.Store.Rows.try_milestone
    edustell.Store.Payouts.find_milestone edustell.Store.Payouts.find_school
    edustell.Store.Payouts.find_payout edustell.Application.Payouts.from_persistence
    edustell.Application.Payouts.from_violation edustell.Domain.Payouts.ensure_available_funds
    edustell.Domain.Payouts.validate_milestone_association
    edustell.Domain.Payouts.validate_milestone_payable
    edustell.Domain.Payouts.validate_school_verified edustell.Application.Reviews.approve_payout
    edustell.Application.Reviews.review_transition edustell.Application.Reviews.plan_review
    edustell.Application.Reviews.check_review edustell.Application.Reviews.check_funds
    edustell.Application.Reviews.needs_verified_school edustell.Application.Reviews.review_log
    edustell.Application.Reviews.run_review edustell.Domain.Payouts.validate_reviewer_role
    edustell.Domain.Payouts.validate_transition edustell.Domain.Payouts.check_transition
    edustell.Domain.Payouts.target_status edustell.Audit.Events.payout_decision
    edustell.Store.Vaults.update_vault_locked_and_disbursed edustell.Store.Payouts.update_payout
    edustell.Store.Payouts.move_funds edustell.Store.Payouts.moved_already
    edustell.Store.Payouts.move_row edustell.Store.Payouts.transition_with_audit
    edustell.Store.Env.execute edustell.Common.select edustell.Common.update edustell.Common.find
    edustell.Common.filter edustell.Common.any edustell.Store.Rows.parse_money
    edustell.Domain.Money.currency_from_str edustell.Domain.Money.money_new
    edustell.Store.Rows.parse_status edustell.Domain.StringEnum.from_str
    edustell.Store.Vaults.find_vault_for_update edustell.Store.Rows.try_vault
    edustell.Audit.Event.into_log edustell.Audit.Event.new_event
    edustell.Audit.Redaction.is_sensitive_key edustell.Audit.Redaction.sanitize_audit_log
    edustell.Audit.Redaction.sanitize_json_value edustell.Common.add_i64 edustell.Common.sub_i64
    edustell.Domain.Money.currency_as_str edustell.Store.AuditLogs.append_audit_log
    edustell.Store.Env.require edustell.Store.Vaults.update_vault edustell.Store.Env.map_err
    edustell.Store.Env.violation
complete_runs = refl

pub request_runs : is_ok (create_payout_request env parent request_input db) ≡ true
unfolding edustell.Store.Contributions.find_vault edustell.Store.Rows.try_payout
    edustell.Store.Rows.try_school edustell.Store.Rows.try_milestone
    edustell.Store.Payouts.find_milestone edustell.Store.Payouts.find_school
    edustell.Store.Payouts.find_payout edustell.Application.Payouts.from_persistence
    edustell.Application.Payouts.from_violation edustell.Domain.Payouts.ensure_available_funds
    edustell.Domain.Payouts.validate_milestone_association
    edustell.Domain.Payouts.validate_milestone_payable
    edustell.Domain.Payouts.validate_school_verified
    edustell.Application.Payouts.create_payout_request edustell.Application.Payouts.replay_request
    edustell.Application.Payouts.submit_request edustell.Application.Payouts.replay_or_submit
    edustell.Application.Payouts.read_request edustell.Application.Payouts.check_request
    edustell.Application.Payouts.new_request edustell.Application.Payouts.request_log
    edustell.Domain.Payouts.validate_requester_role edustell.Domain.Payouts.validate_payout_amount
    edustell.Domain.Payouts.validate_currency_match edustell.Audit.Events.payout_requested
    edustell.Store.Payouts.find_payout_by_key edustell.Store.Payouts.payout_row
    edustell.Store.Payouts.insert_payout edustell.Store.Payouts.create_request_with_audit
    edustell.Store.Env.execute edustell.Common.select edustell.Common.update edustell.Common.find
    edustell.Common.filter edustell.Common.any edustell.Store.Rows.parse_money
    edustell.Domain.Money.currency_from_str edustell.Domain.Money.money_new
    edustell.Store.Rows.parse_status edustell.Domain.StringEnum.from_str
    edustell.Store.Vaults.find_vault_for_update edustell.Store.Rows.try_vault
    edustell.Audit.Event.into_log edustell.Audit.Event.new_event
    edustell.Audit.Redaction.is_sensitive_key edustell.Audit.Redaction.sanitize_audit_log
    edustell.Audit.Redaction.sanitize_json_value edustell.Common.add_i64 edustell.Common.sub_i64
    edustell.Domain.Money.currency_as_str edustell.Store.AuditLogs.append_audit_log
    edustell.Store.Env.require edustell.Store.Vaults.update_vault edustell.Store.Env.map_err
    edustell.Store.Env.violation
request_runs = refl

pub decide_runs : is_ok (approve_application env admin decide_input db) ≡ true
unfolding edustell.Application.Scholarships.from_persistence
    edustell.Application.Scholarships.from_violation
    edustell.Application.Scholarships.sanitize_optional
    edustell.Application.Awards.approve_application edustell.Application.Awards.read_reviewable
    edustell.Application.Awards.new_award edustell.Application.Awards.approved_log
    edustell.Domain.Scholarships.can_review edustell.Domain.Scholarships.validate_positive_amount
    edustell.Domain.Scholarships.validate_currency edustell.Domain.Scholarships.ensure_pool_balance
    edustell.Domain.Scholarships.validate_application_reviewable
    edustell.Audit.Events.scholarship_decision edustell.Store.Scholarships.find_pool
    edustell.Store.Scholarships.find_application edustell.Store.Scholarships.update_pool
    edustell.Store.Awards.update_application edustell.Store.Awards.insert_award
    edustell.Store.Awards.award_row edustell.Store.Awards.decide_application_with_audit
    edustell.Store.ScholarshipRows.try_pool edustell.Store.ScholarshipRows.try_application
    edustell.Store.ScholarshipRows.try_award edustell.Store.Env.execute edustell.Common.select
    edustell.Common.update edustell.Common.find edustell.Common.filter edustell.Common.any
    edustell.Store.Rows.parse_money edustell.Domain.Money.currency_from_str
    edustell.Domain.Money.money_new edustell.Store.Rows.parse_status
    edustell.Domain.StringEnum.from_str edustell.Store.Vaults.find_vault_for_update
    edustell.Store.Rows.try_vault edustell.Audit.Event.into_log edustell.Audit.Event.new_event
    edustell.Audit.Redaction.is_sensitive_key edustell.Audit.Redaction.sanitize_audit_log
    edustell.Audit.Redaction.sanitize_json_value edustell.Common.add_i64 edustell.Common.sub_i64
    edustell.Domain.Money.currency_as_str edustell.Store.AuditLogs.append_audit_log
    edustell.Store.Env.require edustell.Store.Vaults.update_vault edustell.Store.Env.map_err
    edustell.Store.Env.violation
decide_runs = refl
