-- ===== src/Tests/Savings.antt =====
-- The properties of savings and identity checks at the sample data.
use edustell.Common.{◌≡◌, refl, true, false, some, none, [], ◌∷◌, ◌⊎◌, String, ℕ, pos, succeeds}
use edustell.Domain.Money.{Currency, Money}
use edustell.Domain.Status.{KycStatus, PayoutType}
use edustell.Store.Savings.{SavingsDb}
use edustell.Application.Savings.{
  CreatePlanInput, CreateMilestoneInput, AddContributorInput, create_plan, create_milestone,
}
use edustell.Application.Savings.Outcomes.{AddedPlan, create_plan-AddedPlan, create_milestone-zero}
use edustell.Application.Kyc.{UpdateKycStatusInput, update_kyc_status}
use edustell.Application.Kyc.Changes.{Updated, update_kyc_status-Updated}
use edustell.Tests.Accounts.{taken, taken_lem}
use edustell.Tests.Data.{env, admin, parent, db}

abbrev savings : SavingsDb
savings = record { plans = []; kyc_profiles = []; db = db }

abbrev plan_input : CreatePlanInput
plan_input = record {
  child_profile_id = 33;
  name = "Plan";
  description = none;
  target_amount_minor = pos 100;
  currency = Currency.usdc;
}

abbrev milestone_input : CreateMilestoneInput
milestone_input = record {
  vault_id = 1;
  title = "Term";
  description = none;
  due_date = 9;
  target_amount_minor = pos 0;
  currency = Currency.usdc;
  payout_type = PayoutType.tuition;
}

abbrev contributor_input : AddContributorInput
contributor_input = record { vault_id = 1; contributor_user_id = 12; role_label = "aunt" }

abbrev date_text : ℕ → String
date_text day = "2026-01-01"

create_plan-AddedPlan_example :
    ((create_plan env parent plan_input savings).1.plans ≡ savings.plans)
    ⊎ AddedPlan parent plan_input savings ((create_plan env parent plan_input savings).1)
create_plan-AddedPlan_example = create_plan-AddedPlan env parent plan_input savings

create_milestone-zero_example :
    (succeeds ((create_milestone env date_text parent milestone_input savings).0) ≡ false)
    × ((create_milestone env date_text parent milestone_input savings).1 ≡ savings)
create_milestone-zero_example =
    create_milestone-zero env date_text parent milestone_input savings refl

abbrev kyc_input : UpdateKycStatusInput
kyc_input = record { user_id = 10; status = KycStatus.approved; provider_reference = none }

kyc_runs : succeeds ((update_kyc_status env admin kyc_input savings).0) ≡ true
unfolding edustell.Application.Kyc.from_persistence edustell.Application.Kyc.new_profile
    edustell.Application.Kyc.record_change edustell.Application.Kyc.update_kyc_status
    edustell.Store.Savings.try_plan edustell.Store.Savings.try_kyc_profile
    edustell.Store.Savings.plan_row edustell.Store.Savings.create_plan_row
    edustell.Store.Savings.milestone_row edustell.Store.Savings.create_milestone_row
    edustell.Store.Savings.contributor_row edustell.Store.Savings.add_contributor_row
    edustell.Store.Savings.find_kyc_by_user edustell.Store.Savings.kyc_row
    edustell.Store.Savings.overwrite_kyc edustell.Store.Savings.upserted
    edustell.Store.Savings.upsert_kyc edustell.Audit.Profiles.school_verified
    edustell.Audit.Profiles.kyc_status_changed edustell.Audit.Profiles.plan_created
    edustell.Audit.Profiles.milestone_created edustell.Audit.Profiles.contributor_added
    edustell.Audit.Event.new_event edustell.Audit.Event.into_log
    edustell.Audit.Service.from_persistence edustell.Audit.Service.error_text
    edustell.Audit.Service.record_event edustell.Audit.Redaction.is_sensitive_key
    edustell.Audit.Redaction.sanitize_audit_log edustell.Store.AuditLogs.append_audit_log
    edustell.Store.Env.map_err edustell.Store.Env.violation edustell.Store.Env.execute
    edustell.Store.Env.require edustell.Domain.StringEnum.from_str
    edustell.Domain.Money.currency_as_str edustell.Domain.Money.currency_from_str
    edustell.Domain.Money.eq_currency edustell.Domain.Money.money_new
    edustell.Store.Rows.parse_money edustell.Store.Rows.parse_status edustell.Store.Rows.try_vault
    edustell.Store.Rows.try_contribution edustell.Store.Rows.try_ledger_entry
    edustell.Store.Rows.try_milestone edustell.Store.Rows.try_school edustell.Store.Rows.try_payout
    edustell.Common.select edustell.Common.update edustell.Common.find edustell.Common.filter
    edustell.Common.any edustell.Common.total edustell.Common.trim
    edustell.Common.to_ascii_lowercase edustell.Common.starts_with edustell.Common.before
    edustell.Common.second_piece edustell.Common.contains edustell.Common.add_i64
    edustell.Common.sub_i64
kyc_runs = refl

update_kyc_status-Updated_example :
    Updated env admin kyc_input savings ((update_kyc_status env admin kyc_input savings).1)
update_kyc_status-Updated_example =
    update_kyc_status-Updated env admin kyc_input savings
      ((update_kyc_status env admin kyc_input savings).1)
      (taken (update_kyc_status env admin kyc_input savings) kyc_runs)
      (taken_lem (update_kyc_status env admin kyc_input savings) kyc_runs)
