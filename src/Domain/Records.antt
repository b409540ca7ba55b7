-- ===== src/Domain/Records.antt =====
-- The entities (crates/domain/src/persistence.rs, crates/domain/src/contributions.rs). A `Uuid`
-- and a `DateTime<Utc>` are numbers: the code compares and copies them.
use edustell.Common.{ℕ, String, Option, ℤ}
use edustell.Domain.Money.{Money}
use edustell.Domain.Json.{Json}
use edustell.Domain.StringEnum.{StringEnum}
use edustell.Domain.Status.{
  PlanStatus, KycStatus, VaultStatus, MilestoneStatus, PayoutType, SchoolVerificationStatus,
  SchoolPayoutMethod, ContributionStatus, ContributionSourceType, PayoutStatus,
  ScholarshipPoolStatus, ScholarshipApplicationStatus, ScholarshipAwardStatus,
  DonorContributionStatus,
}
use edustell.Common.{[], ◌∷◌}

pub record ChildProfile : Type 0 where
  pub id : ℕ
  pub owner_user_id : ℕ
  pub full_name : String
  pub date_of_birth : Option ℕ
  pub education_level : Option String
  pub created_at : ℕ
  pub updated_at : ℕ

pub record SavingsPlan : Type 0 where
  pub id : ℕ
  pub child_profile_id : ℕ
  pub owner_user_id : ℕ
  pub name : String
  pub description : Option String
  pub target_amount : Money
  pub status : PlanStatus
  pub created_at : ℕ
  pub updated_at : ℕ

pub record SavingsVault : Type 0 where
  pub id : ℕ
  pub plan_id : ℕ
  pub owner_user_id : ℕ
  pub currency : String
  pub status : VaultStatus
  pub total_contributed_minor : ℤ
  pub total_locked_minor : ℤ
  pub total_disbursed_minor : ℤ
  pub external_wallet_account_id : Option ℕ
  pub external_contract_ref : Option String
  pub version : ℤ
  pub created_at : ℕ
  pub updated_at : ℕ

pub record VaultContributor : Type 0 where
  pub id : ℕ
  pub vault_id : ℕ
  pub contributor_user_id : ℕ
  pub role_label : String
  pub created_at : ℕ
  pub updated_at : ℕ

pub record Milestone : Type 0 where
  pub id : ℕ
  pub vault_id : ℕ
  pub title : String
  pub description : Option String
  pub due_date : ℕ
  pub target_amount : Money
  pub funded_amount : Money
  pub payout_type : PayoutType
  pub status : MilestoneStatus
  pub created_at : ℕ
  pub updated_at : ℕ

pub record Contribution : Type 0 where
  pub id : ℕ
  pub vault_id : ℕ
  pub contributor_user_id : ℕ
  pub amount : Money
  pub status : ContributionStatus
  pub source_type : ContributionSourceType
  pub external_reference : Option String
  pub idempotency_key : Option String
  pub created_at : ℕ
  pub updated_at : ℕ

pub data VaultLedgerEntryType : Type 0 where
  contribution_confirmed contribution_reversed : VaultLedgerEntryType

instance abbrev pub vault_ledger_entry_type_enum : StringEnum VaultLedgerEntryType
vault_ledger_entry_type_enum = record {
  as_str = elim [
    | VaultLedgerEntryType.contribution_confirmed ↦ "contribution_confirmed"
    | VaultLedgerEntryType.contribution_reversed ↦ "contribution_reversed"
  ];
  discriminant = elim [
    | VaultLedgerEntryType.contribution_confirmed ↦ 0
    | VaultLedgerEntryType.contribution_reversed ↦ 1
  ];
  variants =
      VaultLedgerEntryType.contribution_confirmed ∷ VaultLedgerEntryType.contribution_reversed ∷ [];
  invalid = "invalid vault ledger entry type";
}

pub record VaultLedgerEntry : Type 0 where
  pub id : ℕ
  pub vault_id : ℕ
  pub contribution_id : Option ℕ
  pub actor_user_id : Option ℕ
  pub entry_type : VaultLedgerEntryType
  pub amount : Money
  pub balance_after_minor : ℤ
  pub external_reference : Option String
  pub metadata : Json
  pub created_at : ℕ
  pub updated_at : ℕ

pub record School : Type 0 where
  pub id : ℕ
  pub legal_name : String
  pub display_name : String
  pub country : String
  pub payout_method : SchoolPayoutMethod
  pub payout_reference : String
  pub verification_status : SchoolVerificationStatus
  pub verified_by : Option ℕ
  pub verified_at : Option ℕ
  pub created_at : ℕ
  pub updated_at : ℕ

pub record KycProfile : Type 0 where
  pub id : ℕ
  pub user_id : ℕ
  pub status : KycStatus
  pub provider_reference : Option String
  pub reviewed_at : Option ℕ
  pub created_at : ℕ
  pub updated_at : ℕ

pub record PayoutRequest : Type 0 where
  pub id : ℕ
  pub vault_id : ℕ
  pub milestone_id : ℕ
  pub school_id : ℕ
  pub requested_by : ℕ
  pub amount : Money
  pub idempotency_key : Option String
  pub status : PayoutStatus
  pub review_notes : Option String
  pub external_payout_reference : Option String
  pub reviewed_by : Option ℕ
  pub reviewed_at : Option ℕ
  pub created_at : ℕ
  pub updated_at : ℕ

pub record ScholarshipPool : Type 0 where
  pub id : ℕ
  pub owner_user_id : ℕ
  pub name : String
  pub description : Option String
  pub status : ScholarshipPoolStatus
  pub available_funds : Money
  pub geography_restriction : Option String
  pub education_level_restriction : Option String
  pub school_id_restriction : Option ℕ
  pub category_restriction : Option String
  pub created_at : ℕ
  pub updated_at : ℕ

pub record ScholarshipApplication : Type 0 where
  pub id : ℕ
  pub pool_id : ℕ
  pub applicant_user_id : ℕ
  pub child_profile_id : ℕ
  pub student_country : Option String
  pub education_level : Option String
  pub school_id : Option ℕ
  pub category : Option String
  pub status : ScholarshipApplicationStatus
  pub notes : Option String
  pub created_at : ℕ
  pub updated_at : ℕ

pub record ScholarshipAward : Type 0 where
  pub id : ℕ
  pub application_id : ℕ
  pub decided_by : ℕ
  pub amount : Money
  pub status : ScholarshipAwardStatus
  pub decision_notes : Option String
  pub linked_payout_request_id : Option ℕ
  pub linked_vault_id : Option ℕ
  pub created_at : ℕ
  pub updated_at : ℕ

pub record DonorContribution : Type 0 where
  pub id : ℕ
  pub pool_id : ℕ
  pub donor_user_id : ℕ
  pub amount : Money
  pub status : DonorContributionStatus
  pub external_reference : Option String
  pub idempotency_key : Option String
  pub created_at : ℕ
  pub updated_at : ℕ

pub record AuditLog : Type 0 where
  pub id : ℕ
  pub actor_user_id : Option ℕ
  pub entity_type : String
  pub entity_id : Option ℕ
  pub action : String
  pub request_id : Option String
  pub correlation_id : Option String
  pub metadata : Json
  pub created_at : ℕ
  pub updated_at : ℕ
