-- ===== src/Domain/Status/Payments.antt =====
-- The enums of schools, contributions, payouts and KYC profiles
-- (crates/domain/src/persistence.rs).
use edustell.Common.{[], ◌∷◌}
use edustell.Domain.StringEnum.{StringEnum}

pub data SchoolVerificationStatus : Type 0 where
  pending verified rejected : SchoolVerificationStatus

instance abbrev pub school_verification_status_enum : StringEnum SchoolVerificationStatus
school_verification_status_enum = record {
  as_str = elim [
    | SchoolVerificationStatus.pending ↦ "pending"
    | SchoolVerificationStatus.verified ↦ "verified"
    | SchoolVerificationStatus.rejected ↦ "rejected"
  ];
  discriminant = elim [
    | SchoolVerificationStatus.pending ↦ 0
    | SchoolVerificationStatus.verified ↦ 1
    | SchoolVerificationStatus.rejected ↦ 2
  ];
  variants =
      SchoolVerificationStatus.pending ∷ SchoolVerificationStatus.verified
      ∷ SchoolVerificationStatus.rejected ∷ [];
  invalid = "invalid SchoolVerificationStatus";
}

pub data SchoolPayoutMethod : Type 0 where
  stellar bank_transfer mobile_money fiat_offramp manual : SchoolPayoutMethod

instance abbrev pub school_payout_method_enum : StringEnum SchoolPayoutMethod
school_payout_method_enum = record {
  as_str = elim [
    | SchoolPayoutMethod.stellar ↦ "stellar"
    | SchoolPayoutMethod.bank_transfer ↦ "bank_transfer"
    | SchoolPayoutMethod.mobile_money ↦ "mobile_money"
    | SchoolPayoutMethod.fiat_offramp ↦ "fiat_offramp"
    | SchoolPayoutMethod.manual ↦ "manual"
  ];
  discriminant = elim [
    | SchoolPayoutMethod.stellar ↦ 0
    | SchoolPayoutMethod.bank_transfer ↦ 1
    | SchoolPayoutMethod.mobile_money ↦ 2
    | SchoolPayoutMethod.fiat_offramp ↦ 3
    | SchoolPayoutMethod.manual ↦ 4
  ];
  variants =
      SchoolPayoutMethod.stellar ∷ SchoolPayoutMethod.bank_transfer
      ∷ SchoolPayoutMethod.mobile_money ∷ SchoolPayoutMethod.fiat_offramp
      ∷ SchoolPayoutMethod.manual ∷ [];
  invalid = "invalid SchoolPayoutMethod";
}

pub data ContributionStatus : Type 0 where
  pending confirmed failed reversed : ContributionStatus

instance abbrev pub contribution_status_enum : StringEnum ContributionStatus
contribution_status_enum = record {
  as_str = elim [
    | ContributionStatus.pending ↦ "pending"
    | ContributionStatus.confirmed ↦ "confirmed"
    | ContributionStatus.failed ↦ "failed"
    | ContributionStatus.reversed ↦ "reversed"
  ];
  discriminant = elim [
    | ContributionStatus.pending ↦ 0
    | ContributionStatus.confirmed ↦ 1
    | ContributionStatus.failed ↦ 2
    | ContributionStatus.reversed ↦ 3
  ];
  variants =
      ContributionStatus.pending ∷ ContributionStatus.confirmed ∷ ContributionStatus.failed
      ∷ ContributionStatus.reversed ∷ [];
  invalid = "invalid ContributionStatus";
}

pub data ContributionSourceType : Type 0 where
  fiat usdc manual : ContributionSourceType

instance abbrev pub contribution_source_type_enum : StringEnum ContributionSourceType
contribution_source_type_enum = record {
  as_str = elim [
    | ContributionSourceType.fiat ↦ "fiat"
    | ContributionSourceType.usdc ↦ "usdc"
    | ContributionSourceType.manual ↦ "manual"
  ];
  discriminant = elim [
    | ContributionSourceType.fiat ↦ 0
    | ContributionSourceType.usdc ↦ 1
    | ContributionSourceType.manual ↦ 2
  ];
  variants =
      ContributionSourceType.fiat ∷ ContributionSourceType.usdc ∷ ContributionSourceType.manual
      ∷ [];
  invalid = "invalid ContributionSourceType";
}

pub data PayoutStatus : Type 0 where
  pending under_review approved rejected processing completed failed : PayoutStatus

instance abbrev pub payout_status_enum : StringEnum PayoutStatus
payout_status_enum = record {
  as_str = elim [
    | PayoutStatus.pending ↦ "pending"
    | PayoutStatus.under_review ↦ "under_review"
    | PayoutStatus.approved ↦ "approved"
    | PayoutStatus.rejected ↦ "rejected"
    | PayoutStatus.processing ↦ "processing"
    | PayoutStatus.completed ↦ "completed"
    | PayoutStatus.failed ↦ "failed"
  ];
  discriminant = elim [
    | PayoutStatus.pending ↦ 0
    | PayoutStatus.under_review ↦ 1
    | PayoutStatus.approved ↦ 2
    | PayoutStatus.rejected ↦ 3
    | PayoutStatus.processing ↦ 4
    | PayoutStatus.completed ↦ 5
    | PayoutStatus.failed ↦ 6
  ];
  variants =
      PayoutStatus.pending ∷ PayoutStatus.under_review ∷ PayoutStatus.approved
      ∷ PayoutStatus.rejected ∷ PayoutStatus.processing ∷ PayoutStatus.completed
      ∷ PayoutStatus.failed ∷ [];
  invalid = "invalid PayoutStatus";
}

pub data KycStatus : Type 0 where
  pending under_review approved rejected : KycStatus

instance abbrev pub kyc_status_enum : StringEnum KycStatus
kyc_status_enum = record {
  as_str = elim [
    | KycStatus.pending ↦ "pending"
    | KycStatus.under_review ↦ "under_review"
    | KycStatus.approved ↦ "approved"
    | KycStatus.rejected ↦ "rejected"
  ];
  discriminant = elim [
    | KycStatus.pending ↦ 0
    | KycStatus.under_review ↦ 1
    | KycStatus.approved ↦ 2
    | KycStatus.rejected ↦ 3
  ];
  variants =
      KycStatus.pending ∷ KycStatus.under_review ∷ KycStatus.approved ∷ KycStatus.rejected ∷ [];
  invalid = "invalid KycStatus";
}
