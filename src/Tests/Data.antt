-- ===== src/Tests/Data.antt =====
-- Sample data: a vault with a confirmed and a pending contribution, a payout under review and one
-- that is being processed, and a scholarship pool with a submitted application.
use edustell.Common.{ℕ, String, Option, none, some, [], ◌∷◌, ℤ, pos, Result, ok, err}
use edustell.Domain.Money.{Currency}
use edustell.Domain.Json.{Json, end, member}
use edustell.Domain.Auth.{UserRole, AuthenticatedUser}
use edustell.Domain.Status.{ContributionSourceType}
use edustell.Domain.Records.{AuditLog}
use edustell.Store.Env.{Env, NewId}
use edustell.Store.Rows.{
  SavingsVaultRow, ContributionRow, MilestoneRow, SchoolRow, PayoutRequestRow,
}
use edustell.Store.ScholarshipRows.{ScholarshipPoolRow, ScholarshipApplicationRow}
use edustell.Store.Db.{Db}
use edustell.Application.Contributions.{SettlementInput, RecordContributionIntentInput}
use edustell.Application.Payouts.{CreatePayoutRequestInput, ReviewPayoutInput}
use edustell.Application.Awards.{DecideScholarshipApplicationInput}

abbrev pub env : Env
env = record {
  utc_now = 1000;
  db_now = 1001;
  new_v4 = elim [ NewId.entity ↦ 90 | NewId.audit_log ↦ 91 | NewId.ledger_entry ↦ 92 ];
  failure = λ s. none;
  message = λ c. "violation";
  audit_context = none;
}

abbrev pub admin : AuthenticatedUser
admin = record { user_id = 1; role = UserRole.platform_admin; session_id = 2 }

abbrev pub parent : AuthenticatedUser
parent = record { user_id = 10; role = UserRole.parent; session_id = 3 }

abbrev pub vault_row : SavingsVaultRow
vault_row = record {
  id = 1;
  plan_id = 2;
  owner_user_id = 10;
  currency = "USDC";
  status = "active";
  total_contributed_minor = pos 100;
  total_locked_minor = pos 20;
  total_disbursed_minor = pos 0;
  external_wallet_account_id = none;
  external_contract_ref = none;
  version = pos 1;
  created_at = 0;
  updated_at = 0;
}

abbrev pub contribution : ℕ → ℕ → String → ContributionRow
contribution id amount status = record {
  id = id;
  vault_id = 1;
  contributor_user_id = 10;
  amount_minor = pos amount;
  currency = "USDC";
  status = status;
  source_type = "usdc";
  external_reference = none;
  idempotency_key = none;
  created_at = 0;
  updated_at = 0;
}

abbrev pub milestone_row : MilestoneRow
milestone_row = record {
  id = 8;
  vault_id = 1;
  title = "Term";
  description = none;
  due_date = 5;
  target_amount_minor = pos 200;
  funded_amount_minor = pos 0;
  currency = "USDC";
  payout_type = "tuition";
  status = "planned";
  created_at = 0;
  updated_at = 0;
}

abbrev pub school_row : SchoolRow
school_row = record {
  id = 7;
  legal_name = "School";
  display_name = "School";
  country = "NG";
  payout_method = "stellar";
  payout_reference = "G";
  verification_status = "verified";
  verified_by = some 1;
  verified_at = some 4;
  created_at = 0;
  updated_at = 0;
}

abbrev pub payout : ℕ → ℕ → String → PayoutRequestRow
payout id amount status = record {
  id = id;
  vault_id = 1;
  milestone_id = 8;
  school_id = 7;
  requested_by = 10;
  amount_minor = pos amount;
  currency = "USDC";
  idempotency_key = none;
  status = status;
  review_notes = none;
  external_payout_reference = none;
  reviewed_by = none;
  reviewed_at = none;
  created_at = 0;
  updated_at = 0;
}

abbrev pub pool_row : ScholarshipPoolRow
pool_row = record {
  id = 30;
  owner_user_id = 20;
  name = "Pool";
  description = none;
  status = "open";
  available_funds_minor = pos 70;
  currency = "USDC";
  geography_restriction = none;
  education_level_restriction = none;
  school_id_restriction = none;
  category_restriction = none;
  created_at = 0;
  updated_at = 0;
}

abbrev pub application_row : ScholarshipApplicationRow
application_row = record {
  id = 31;
  pool_id = 30;
  applicant_user_id = 10;
  child_profile_id = 32;
  student_country = none;
  education_level = none;
  school_id = none;
  category = none;
  status = "submitted";
  notes = none;
  created_at = 0;
  updated_at = 0;
}

abbrev pub db : Db
db = record {
  vaults = vault_row ∷ [];
  contributors = [];
  milestones = milestone_row ∷ [];
  schools = school_row ∷ [];
  contributions = contribution 4 50 "pending" ∷ contribution 3 100 "confirmed" ∷ [];
  ledger = [];
  payouts = payout 5 30 "under_review" ∷ payout 6 20 "processing" ∷ [];
  child_profiles = [];
  pools = pool_row ∷ [];
  applications = application_row ∷ [];
  awards = [];
  donor_contributions = [];
  audit_logs = [];
}

abbrev pub log : AuditLog
log = record {
  id = 93;
  actor_user_id = some 1;
  entity_type = "payout_request";
  entity_id = some 5;
  action = "payout.approved";
  request_id = none;
  correlation_id = none;
  metadata =
      Json.object (member "Secret" (Json.string "x") (member "amount" (Json.number (pos 3)) end));
  created_at = 0;
  updated_at = 0;
}

abbrev pub confirm_input : SettlementInput
confirm_input = record { contribution_id = 4; external_reference = none }

abbrev pub intent_input : RecordContributionIntentInput
intent_input = record {
  vault_id = 1;
  amount_minor = pos 25;
  currency = Currency.usdc;
  source_type = ContributionSourceType.usdc;
  external_reference = none;
  idempotency_key = "k1";
}

abbrev pub review_input : ℕ → ReviewPayoutInput
review_input id = record { payout_id = id; review_notes = none; external_payout_reference = none }

abbrev pub request_input : CreatePayoutRequestInput
request_input = record {
  vault_id = 1;
  milestone_id = 8;
  school_id = 7;
  amount_minor = pos 40;
  currency = Currency.usdc;
  idempotency_key = "k2";
}

abbrev pub decide_input : DecideScholarshipApplicationInput
decide_input = record {
  application_id = 31;
  amount_minor = pos 60;
  currency = Currency.usdc;
  decision_notes = none;
}

-- The state and the value after a call that succeeds.
abbrev pub state_of : {E A : Type 0} → Result E (A × Db) → Db
state_of (ok (a, after)) = after
state_of (err e) = db

abbrev pub value_of : {E A : Type 0} → A → Result E (A × Db) → A
value_of other (ok (a, after)) = a
value_of other (err e) = other

abbrev pub is_ok : {E A : Type 0} → Result E A → edustell.Common.Bool
is_ok (ok a) = edustell.Common.true
is_ok (err e) = edustell.Common.false
