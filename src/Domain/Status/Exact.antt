-- ===== src/Domain/Status/Exact.antt =====
-- The texts of the enums are read back as the same variants (`as_str` and `FromStr` of `string_enum!`,
-- crates/domain/src/persistence.rs).
use edustell.Common.{◌≡◌, refl, ok}
use edustell.Domain.StringEnum.{StringEnum, as_str, from_str}
use edustell.Domain.Status.{
  RecordStatus, record_status_enum, PlanStatus, plan_status_enum, VaultStatus, vault_status_enum,
  MilestoneStatus, milestone_status_enum, PayoutType, payout_type_enum, SchoolVerificationStatus,
  school_verification_status_enum, SchoolPayoutMethod, school_payout_method_enum,
  ContributionStatus, contribution_status_enum, ContributionSourceType,
  contribution_source_type_enum, PayoutStatus, payout_status_enum, KycStatus, kyc_status_enum,
  ScholarshipPoolStatus, scholarship_pool_status_enum, ScholarshipApplicationStatus,
  scholarship_application_status_enum, ScholarshipAwardStatus, scholarship_award_status_enum,
  AchievementCredentialType, achievement_credential_type_enum, AchievementCredentialStatus,
  achievement_credential_status_enum, DonorContributionStatus, donor_contribution_status_enum,
  NotificationStatus, notification_status_enum, NotificationType, notification_type_enum,
  ExternalReferenceEntityType, external_reference_entity_type_enum, ExternalReferenceKind,
  external_reference_kind_enum, BlockchainTransactionStatus, blockchain_transaction_status_enum,
}

-- Every variant is the result of parsing its own text.
abbrev pub IsExact : (A : Type 0) → ⦃e : StringEnum A⦄ → Type 0
IsExact A = (a : A) → from_str (as_str a) ≡ ok a

record_status-IsExact : IsExact RecordStatus
unfolding from_str
record_status-IsExact RecordStatus.active = refl
record_status-IsExact RecordStatus.inactive = refl
record_status-IsExact RecordStatus.suspended = refl

plan_status-IsExact : IsExact PlanStatus
unfolding from_str
plan_status-IsExact PlanStatus.draft = refl
plan_status-IsExact PlanStatus.active = refl
plan_status-IsExact PlanStatus.paused = refl
plan_status-IsExact PlanStatus.completed = refl
plan_status-IsExact PlanStatus.cancelled = refl

vault_status-IsExact : IsExact VaultStatus
unfolding from_str
vault_status-IsExact VaultStatus.active = refl
vault_status-IsExact VaultStatus.locked = refl
vault_status-IsExact VaultStatus.closed = refl

milestone_status-IsExact : IsExact MilestoneStatus
unfolding from_str
milestone_status-IsExact MilestoneStatus.planned = refl
milestone_status-IsExact MilestoneStatus.funded = refl
milestone_status-IsExact MilestoneStatus.partially_paid = refl
milestone_status-IsExact MilestoneStatus.paid = refl
milestone_status-IsExact MilestoneStatus.cancelled = refl

payout_type-IsExact : IsExact PayoutType
unfolding from_str
payout_type-IsExact PayoutType.tuition = refl
payout_type-IsExact PayoutType.exam_fee = refl
payout_type-IsExact PayoutType.deposit = refl
payout_type-IsExact PayoutType.supplies = refl

school_verification_status-IsExact : IsExact SchoolVerificationStatus
unfolding from_str
school_verification_status-IsExact SchoolVerificationStatus.pending = refl
school_verification_status-IsExact SchoolVerificationStatus.verified = refl
school_verification_status-IsExact SchoolVerificationStatus.rejected = refl

school_payout_method-IsExact : IsExact SchoolPayoutMethod
unfolding from_str
school_payout_method-IsExact SchoolPayoutMethod.stellar = refl
school_payout_method-IsExact SchoolPayoutMethod.bank_transfer = refl
school_payout_method-IsExact SchoolPayoutMethod.mobile_money = refl
school_payout_method-IsExact SchoolPayoutMethod.fiat_offramp = refl
school_payout_method-IsExact SchoolPayoutMethod.manual = refl

contribution_status-IsExact : IsExact ContributionStatus
unfolding from_str
contribution_status-IsExact ContributionStatus.pending = refl
contribution_status-IsExact ContributionStatus.confirmed = refl
contribution_status-IsExact ContributionStatus.failed = refl
contribution_status-IsExact ContributionStatus.reversed = refl

contribution_source_type-IsExact : IsExact ContributionSourceType
unfolding from_str
contribution_source_type-IsExact ContributionSourceType.fiat = refl
contribution_source_type-IsExact ContributionSourceType.usdc = refl
contribution_source_type-IsExact ContributionSourceType.manual = refl

payout_status-IsExact : IsExact PayoutStatus
unfolding from_str
payout_status-IsExact PayoutStatus.pending = refl
payout_status-IsExact PayoutStatus.under_review = refl
payout_status-IsExact PayoutStatus.approved = refl
payout_status-IsExact PayoutStatus.rejected = refl
payout_status-IsExact PayoutStatus.processing = refl
payout_status-IsExact PayoutStatus.completed = refl
payout_status-IsExact PayoutStatus.failed = refl

kyc_status-IsExact : IsExact KycStatus
unfolding from_str
kyc_status-IsExact KycStatus.pending = refl
kyc_status-IsExact KycStatus.under_review = refl
kyc_status-IsExact KycStatus.approved = refl
kyc_status-IsExact KycStatus.rejected = refl

scholarship_pool_status-IsExact : IsExact ScholarshipPoolStatus
unfolding from_str
scholarship_pool_status-IsExact ScholarshipPoolStatus.opened = refl
scholarship_pool_status-IsExact ScholarshipPoolStatus.closed = refl

scholarship_application_status-IsExact : IsExact ScholarshipApplicationStatus
unfolding from_str
scholarship_application_status-IsExact ScholarshipApplicationStatus.submitted = refl
scholarship_application_status-IsExact ScholarshipApplicationStatus.under_review = refl
scholarship_application_status-IsExact ScholarshipApplicationStatus.approved = refl
scholarship_application_status-IsExact ScholarshipApplicationStatus.rejected = refl

scholarship_award_status-IsExact : IsExact ScholarshipAwardStatus
unfolding from_str
scholarship_award_status-IsExact ScholarshipAwardStatus.approved = refl
scholarship_award_status-IsExact ScholarshipAwardStatus.rejected = refl
scholarship_award_status-IsExact ScholarshipAwardStatus.disbursed = refl
scholarship_award_status-IsExact ScholarshipAwardStatus.revoked = refl

achievement_credential_type-IsExact : IsExact AchievementCredentialType
unfolding from_str
achievement_credential_type-IsExact AchievementCredentialType.scholarship_recipient = refl
achievement_credential_type-IsExact AchievementCredentialType.fee_fully_funded = refl
achievement_credential_type-IsExact AchievementCredentialType.academic_excellence = refl
achievement_credential_type-IsExact AchievementCredentialType.attendance_recognition = refl

achievement_credential_status-IsExact : IsExact AchievementCredentialStatus
unfolding from_str
achievement_credential_status-IsExact AchievementCredentialStatus.issued = refl
achievement_credential_status-IsExact AchievementCredentialStatus.revoked = refl

donor_contribution_status-IsExact : IsExact DonorContributionStatus
unfolding from_str
donor_contribution_status-IsExact DonorContributionStatus.confirmed = refl
donor_contribution_status-IsExact DonorContributionStatus.reversed = refl

notification_status-IsExact : IsExact NotificationStatus
unfolding from_str
notification_status-IsExact NotificationStatus.pending = refl
notification_status-IsExact NotificationStatus.sent = refl
notification_status-IsExact NotificationStatus.read = refl
notification_status-IsExact NotificationStatus.failed = refl

notification_type-IsExact : IsExact NotificationType
unfolding from_str
notification_type-IsExact NotificationType.contribution_received = refl
notification_type-IsExact NotificationType.milestone_due_soon = refl
notification_type-IsExact NotificationType.milestone_underfunded = refl
notification_type-IsExact NotificationType.payout_approved = refl
notification_type-IsExact NotificationType.payout_completed = refl
notification_type-IsExact NotificationType.scholarship_awarded = refl
notification_type-IsExact NotificationType.kyc_action_required = refl

external_reference_entity_type-IsExact : IsExact ExternalReferenceEntityType
unfolding from_str
external_reference_entity_type-IsExact ExternalReferenceEntityType.wallet_account = refl
external_reference_entity_type-IsExact ExternalReferenceEntityType.savings_vault = refl
external_reference_entity_type-IsExact ExternalReferenceEntityType.contribution = refl
external_reference_entity_type-IsExact ExternalReferenceEntityType.payout_request = refl

external_reference_kind-IsExact : IsExact ExternalReferenceKind
unfolding from_str
external_reference_kind-IsExact ExternalReferenceKind.stellar_account_id = refl
external_reference_kind-IsExact ExternalReferenceKind.soroban_contract_id = refl
external_reference_kind-IsExact ExternalReferenceKind.transaction_hash = refl

blockchain_transaction_status-IsExact : IsExact BlockchainTransactionStatus
unfolding from_str
blockchain_transaction_status-IsExact BlockchainTransactionStatus.pending = refl
blockchain_transaction_status-IsExact BlockchainTransactionStatus.submitted = refl
blockchain_transaction_status-IsExact BlockchainTransactionStatus.confirmed = refl
blockchain_transaction_status-IsExact BlockchainTransactionStatus.failed = refl
blockchain_transaction_status-IsExact BlockchainTransactionStatus.retry_scheduled = refl

-- Every variant of the enums of records, plans, vaults, milestones, contributions, payouts, schools
-- and identity checks is the result of parsing its own text.
pub payment_enums-IsExact :
    IsExact RecordStatus
    × IsExact PlanStatus
    × IsExact VaultStatus
    × IsExact MilestoneStatus
    × IsExact PayoutType
    × IsExact SchoolVerificationStatus
    × IsExact SchoolPayoutMethod
    × IsExact ContributionStatus
    × IsExact ContributionSourceType
    × IsExact PayoutStatus
    × IsExact KycStatus
payment_enums-IsExact = (
  record_status-IsExact, plan_status-IsExact, vault_status-IsExact, milestone_status-IsExact,
  payout_type-IsExact, school_verification_status-IsExact, school_payout_method-IsExact,
  contribution_status-IsExact, contribution_source_type-IsExact, payout_status-IsExact,
  kyc_status-IsExact,
)

-- Every variant of the enums of scholarships, credentials, donations, notifications, external
-- references and blockchain transactions is the result of parsing its own text.
pub message_enums-IsExact :
    IsExact ScholarshipPoolStatus
    × IsExact ScholarshipApplicationStatus
    × IsExact ScholarshipAwardStatus
    × IsExact AchievementCredentialType
    × IsExact AchievementCredentialStatus
    × IsExact DonorContributionStatus
    × IsExact NotificationStatus
    × IsExact NotificationType
    × IsExact ExternalReferenceEntityType
    × IsExact ExternalReferenceKind
    × IsExact BlockchainTransactionStatus
message_enums-IsExact = (
  scholarship_pool_status-IsExact, scholarship_application_status-IsExact,
  scholarship_award_status-IsExact, achievement_credential_type-IsExact,
  achievement_credential_status-IsExact, donor_contribution_status-IsExact,
  notification_status-IsExact, notification_type-IsExact, external_reference_entity_type-IsExact,
  external_reference_kind-IsExact, blockchain_transaction_status-IsExact,
)
