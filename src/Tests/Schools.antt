-- ===== src/Tests/Schools.antt =====
-- The property of schools at the sample data: a request is repeated after its school was rejected.
use edustell.Common.{◌≡◌, refl, true, some, [], ◌∷◌}
use edustell.Domain.Status.{SchoolVerificationStatus}
use edustell.Store.Db.{Db}
use edustell.Application.Payouts.{create_payout_request}
use edustell.Application.Schools.{VerifySchoolInput, verify_school}
use edustell.Application.Schools.Verification.{verify_school-blocks}
use edustell.Tests.Data.{env, admin, parent, db, payout, request_input, is_ok}
use edustell.Tests.Initial.{got, got_lem}

abbrev requested_db : Db
requested_db = record db {
  payouts = record (payout 9 40 "pending") { idempotency_key = some "k2" } ∷ db.payouts;
}

abbrev reject_input : VerifySchoolInput
reject_input = record { school_id = 7; verification_status = SchoolVerificationStatus.rejected }

reject_runs : is_ok (verify_school env admin reject_input requested_db) ≡ true
unfolding edustell.Application.Schools.from_persistence
    edustell.Application.Schools.require_platform_admin edustell.Application.Schools.required
    edustell.Application.Schools.validate_school_fields edustell.Application.Schools.new_school
    edustell.Application.Schools.school_log edustell.Application.Schools.create_school
    edustell.Application.Schools.verification_log edustell.Application.Schools.verify_school
    edustell.Application.Schools.search_verified_schools edustell.Store.Schools.school_row
    edustell.Store.Schools.insert_school edustell.Store.Schools.create_school_with_audit
    edustell.Store.Schools.update_school edustell.Store.Schools.verify_with_audit
    edustell.Store.Schools.search_verified edustell.Audit.Profiles.school_verified
    edustell.Audit.Profiles.kyc_status_changed edustell.Audit.Profiles.plan_created
    edustell.Audit.Profiles.milestone_created edustell.Audit.Profiles.contributor_added
    edustell.Audit.Event.new_event edustell.Audit.Event.into_log
    edustell.Audit.Redaction.is_sensitive_key edustell.Audit.Redaction.sanitize_audit_log
    edustell.Store.AuditLogs.append_audit_log edustell.Store.Env.map_err
    edustell.Store.Env.violation edustell.Store.Env.execute edustell.Store.Env.require
    edustell.Domain.StringEnum.from_str edustell.Domain.Money.currency_as_str
    edustell.Domain.Money.currency_from_str edustell.Domain.Money.eq_currency
    edustell.Domain.Money.money_new edustell.Store.Rows.parse_money edustell.Store.Rows.parse_status
    edustell.Store.Rows.try_vault edustell.Store.Rows.try_contribution
    edustell.Store.Rows.try_ledger_entry edustell.Store.Rows.try_milestone
    edustell.Store.Rows.try_school edustell.Store.Rows.try_payout edustell.Common.select
    edustell.Common.update edustell.Common.find edustell.Common.filter edustell.Common.any
    edustell.Common.total edustell.Common.trim edustell.Common.to_ascii_lowercase
    edustell.Common.starts_with edustell.Common.before edustell.Common.second_piece
    edustell.Common.contains edustell.Common.add_i64 edustell.Common.sub_i64
reject_runs = refl

abbrev rejected_db : Db
rejected_db = (got (verify_school env admin reject_input requested_db) reject_runs).1

repeat_runs : is_ok (create_payout_request env parent request_input rejected_db) ≡ true
unfolding edustell.Application.Payouts.from_persistence edustell.Application.Payouts.from_violation
    edustell.Application.Payouts.replay_request edustell.Application.Payouts.request_log
    edustell.Application.Payouts.read_request edustell.Application.Payouts.check_request
    edustell.Application.Payouts.new_request edustell.Application.Payouts.submit_request
    edustell.Application.Payouts.replay_or_submit edustell.Application.Payouts.create_payout_request
    edustell.Application.Payouts.get_payout edustell.Application.Payouts.list_vault_payouts
    edustell.Store.Payouts.find_milestone edustell.Store.Payouts.find_school
    edustell.Store.Payouts.find_payout edustell.Store.Payouts.find_payout_by_key
    edustell.Store.Payouts.list_payouts edustell.Store.Payouts.payout_row
    edustell.Store.Payouts.insert_payout edustell.Store.Payouts.create_request_with_audit
    edustell.Store.Payouts.update_payout edustell.Store.Payouts.move_funds
    edustell.Store.Payouts.moved_already edustell.Store.Payouts.move_row
    edustell.Store.Payouts.transition_with_audit edustell.Domain.Payouts.target_status
    edustell.Domain.Payouts.validate_requester_role edustell.Domain.Payouts.validate_reviewer_role
    edustell.Domain.Payouts.validate_school_verified edustell.Domain.Payouts.validate_payout_amount
    edustell.Domain.Payouts.validate_currency_match
    edustell.Domain.Payouts.validate_milestone_association
    edustell.Domain.Payouts.validate_milestone_payable
    edustell.Domain.Payouts.ensure_available_funds edustell.Domain.Payouts.check_transition
    edustell.Domain.Payouts.validate_transition edustell.Audit.Event.new_event
    edustell.Audit.Event.into_log edustell.Audit.Redaction.is_sensitive_key
    edustell.Audit.Redaction.sanitize_audit_log edustell.Store.AuditLogs.append_audit_log
    edustell.Store.Env.map_err edustell.Store.Env.violation edustell.Store.Env.execute
    edustell.Store.Env.require edustell.Domain.StringEnum.from_str
    edustell.Domain.Money.currency_as_str edustell.Domain.Money.currency_from_str
    edustell.Domain.Money.eq_currency edustell.Domain.Money.money_new
    edustell.Store.Rows.parse_money edustell.Store.Rows.parse_status edustell.Store.Rows.try_vault
    edustell.Store.Rows.try_contribution edustell.Store.Rows.try_ledger_entry
    edustell.Store.Rows.try_milestone edustell.Store.Rows.try_school edustell.Store.Rows.try_payout
    edustell.Store.Vaults.find_vault_for_update edustell.Store.Vaults.update_vault
    edustell.Store.Vaults.update_vault_totals
    edustell.Store.Vaults.update_vault_locked_and_disbursed
    edustell.Application.Schools.from_persistence
    edustell.Application.Schools.require_platform_admin edustell.Application.Schools.required
    edustell.Application.Schools.validate_school_fields edustell.Application.Schools.new_school
    edustell.Application.Schools.school_log edustell.Application.Schools.create_school
    edustell.Application.Schools.verification_log edustell.Application.Schools.verify_school
    edustell.Application.Schools.search_verified_schools edustell.Store.Schools.school_row
    edustell.Store.Schools.insert_school edustell.Store.Schools.create_school_with_audit
    edustell.Store.Schools.update_school edustell.Store.Schools.verify_with_audit
    edustell.Store.Schools.search_verified edustell.Audit.Profiles.school_verified
    edustell.Audit.Profiles.kyc_status_changed edustell.Audit.Profiles.plan_created
    edustell.Audit.Profiles.milestone_created edustell.Audit.Profiles.contributor_added
    edustell.Store.Contributions.find_vault edustell.Common.select edustell.Common.update
    edustell.Common.find edustell.Common.filter edustell.Common.any edustell.Common.total
    edustell.Common.trim edustell.Common.to_ascii_lowercase edustell.Common.starts_with
    edustell.Common.before edustell.Common.second_piece edustell.Common.contains
    edustell.Common.add_i64 edustell.Common.sub_i64
repeat_runs = refl

verify_school-blocks_example :
    (got (create_payout_request env parent request_input rejected_db) repeat_runs).1 ≡ rejected_db
verify_school-blocks_example =
    verify_school-blocks env env admin parent reject_input request_input requested_db rejected_db _
      _ _ refl (got_lem (verify_school env admin reject_input requested_db) reject_runs) refl
      (got_lem (create_payout_request env parent request_input rejected_db) repeat_runs)
