-- ===== src/Store/Rows.antt =====
-- The rows of the tables, and their conversions to entities (`TryFrom<...Row>`,
-- crates/infrastructure/src/persistence/repos.rs). Columns of enums and currencies are texts.
pub mod Fields
use edustell.Common.{ℕ, String, Option, ℤ, ok, map_error, ◌>>=◌}
use edustell.Domain.StringEnum.{StringEnum, from_str}
use edustell.Domain.Money.{Money, currency_from_str, money_new}
use edustell.Domain.Json.{Json}
use edustell.Domain.Status.{
  vault_status_enum, milestone_status_enum, payout_type_enum, school_payout_method_enum,
  school_verification_status_enum, contribution_status_enum, contribution_source_type_enum,
  payout_status_enum,
}
use edustell.Domain.Records.{
  SavingsVault, Milestone, Contribution, VaultLedgerEntry, School, PayoutRequest,
  vault_ledger_entry_type_enum,
}
use edustell.Store.Env.{PersistenceError, Stored}

unfoldable pub parse_money : ℤ → String → Stored Money
parse_money amount_minor currency = do
  c ← map_error PersistenceError.repository (currency_from_str currency)
  map_error PersistenceError.repository (money_new amount_minor c)

unfoldable pub parse_status : {A : Type 0} ⦃e : StringEnum A⦄ → String → Stored A
parse_status value = map_error PersistenceError.repository (from_str value)

pub record SavingsVaultRow : Type 0 where
  pub id : ℕ
  pub plan_id : ℕ
  pub owner_user_id : ℕ
  pub currency : String
  pub status : String
  pub total_contributed_minor : ℤ
  pub total_locked_minor : ℤ
  pub total_disbursed_minor : ℤ
  pub external_wallet_account_id : Option ℕ
  pub external_contract_ref : Option String
  pub version : ℤ
  pub created_at : ℕ
  pub updated_at : ℕ

unfoldable pub try_vault : SavingsVaultRow → Stored SavingsVault
try_vault v = do
  status ← parse_status ⦃e = vault_status_enum⦄ v.status
  ok (record {
    id = v.id;
    plan_id = v.plan_id;
    owner_user_id = v.owner_user_id;
    currency = v.currency;
    status = status;
    total_contributed_minor = v.total_contributed_minor;
    total_locked_minor = v.total_locked_minor;
    total_disbursed_minor = v.total_disbursed_minor;
    external_wallet_account_id = v.external_wallet_account_id;
    external_contract_ref = v.external_contract_ref;
    version = v.version;
    created_at = v.created_at;
    updated_at = v.updated_at;
  })

pub record ContributionRow : Type 0 where
  pub id : ℕ
  pub vault_id : ℕ
  pub contributor_user_id : ℕ
  pub amount_minor : ℤ
  pub currency : String
  pub status : String
  pub source_type : String
  pub external_reference : Option String
  pub idempotency_key : Option String
  pub created_at : ℕ
  pub updated_at : ℕ

unfoldable pub try_contribution : ContributionRow → Stored Contribution
try_contribution v = do
  amount ← parse_money v.amount_minor v.currency
  status ← parse_status ⦃e = contribution_status_enum⦄ v.status
  source_type ← parse_status ⦃e = contribution_source_type_enum⦄ v.source_type
  ok (record {
    id = v.id;
    vault_id = v.vault_id;
    contributor_user_id = v.contributor_user_id;
    amount = amount;
    status = status;
    source_type = source_type;
    external_reference = v.external_reference;
    idempotency_key = v.idempotency_key;
    created_at = v.created_at;
    updated_at = v.updated_at;
  })

pub record VaultLedgerEntryRow : Type 0 where
  pub id : ℕ
  pub vault_id : ℕ
  pub contribution_id : Option ℕ
  pub actor_user_id : Option ℕ
  pub entry_type : String
  pub amount_minor : ℤ
  pub currency : String
  pub balance_after_minor : ℤ
  pub external_reference : Option String
  pub metadata : Json
  pub created_at : ℕ
  pub updated_at : ℕ

unfoldable pub try_ledger_entry : VaultLedgerEntryRow → Stored VaultLedgerEntry
try_ledger_entry v = do
  entry_type ← parse_status ⦃e = vault_ledger_entry_type_enum⦄ v.entry_type
  amount ← parse_money v.amount_minor v.currency
  ok (record {
    id = v.id;
    vault_id = v.vault_id;
    contribution_id = v.contribution_id;
    actor_user_id = v.actor_user_id;
    entry_type = entry_type;
    amount = amount;
    balance_after_minor = v.balance_after_minor;
    external_reference = v.external_reference;
    metadata = v.metadata;
    created_at = v.created_at;
    updated_at = v.updated_at;
  })

pub record MilestoneRow : Type 0 where
  pub id : ℕ
  pub vault_id : ℕ
  pub title : String
  pub description : Option String
  pub due_date : ℕ
  pub target_amount_minor : ℤ
  pub funded_amount_minor : ℤ
  pub currency : String
  pub payout_type : String
  pub status : String
  pub created_at : ℕ
  pub updated_at : ℕ

unfoldable pub try_milestone : MilestoneRow → Stored Milestone
try_milestone v = do
  target_amount ← parse_money v.target_amount_minor v.currency
  funded_amount ← parse_money v.funded_amount_minor v.currency
  payout_type ← parse_status ⦃e = payout_type_enum⦄ v.payout_type
  status ← parse_status ⦃e = milestone_status_enum⦄ v.status
  ok (record {
    id = v.id;
    vault_id = v.vault_id;
    title = v.title;
    description = v.description;
    due_date = v.due_date;
    target_amount = target_amount;
    funded_amount = funded_amount;
    payout_type = payout_type;
    status = status;
    created_at = v.created_at;
    updated_at = v.updated_at;
  })

pub record SchoolRow : Type 0 where
  pub id : ℕ
  pub legal_name : String
  pub display_name : String
  pub country : String
  pub payout_method : String
  pub payout_reference : String
  pub verification_status : String
  pub verified_by : Option ℕ
  pub verified_at : Option ℕ
  pub created_at : ℕ
  pub updated_at : ℕ

unfoldable pub try_school : SchoolRow → Stored School
try_school v = do
  payout_method ← parse_status ⦃e = school_payout_method_enum⦄ v.payout_method
  verification_status ← parse_status ⦃e = school_verification_status_enum⦄ v.verification_status
  ok (record {
    id = v.id;
    legal_name = v.legal_name;
    display_name = v.display_name;
    country = v.country;
    payout_method = payout_method;
    payout_reference = v.payout_reference;
    verification_status = verification_status;
    verified_by = v.verified_by;
    verified_at = v.verified_at;
    created_at = v.created_at;
    updated_at = v.updated_at;
  })

pub record PayoutRequestRow : Type 0 where
  pub id : ℕ
  pub vault_id : ℕ
  pub milestone_id : ℕ
  pub school_id : ℕ
  pub requested_by : ℕ
  pub amount_minor : ℤ
  pub currency : String
  pub idempotency_key : Option String
  pub status : String
  pub review_notes : Option String
  pub external_payout_reference : Option String
  pub reviewed_by : Option ℕ
  pub reviewed_at : Option ℕ
  pub created_at : ℕ
  pub updated_at : ℕ

unfoldable pub try_payout : PayoutRequestRow → Stored PayoutRequest
try_payout v = do
  amount ← parse_money v.amount_minor v.currency
  status ← parse_status ⦃e = payout_status_enum⦄ v.status
  ok (record {
    id = v.id;
    vault_id = v.vault_id;
    milestone_id = v.milestone_id;
    school_id = v.school_id;
    requested_by = v.requested_by;
    amount = amount;
    idempotency_key = v.idempotency_key;
    status = status;
    review_notes = v.review_notes;
    external_payout_reference = v.external_payout_reference;
    reviewed_by = v.reviewed_by;
    reviewed_at = v.reviewed_at;
    created_at = v.created_at;
    updated_at = v.updated_at;
  })
