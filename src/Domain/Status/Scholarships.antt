-- ===== src/Domain/Status/Scholarships.antt =====
-- The enums of scholarship pools, applications, awards, donor contributions and credentials
-- (crates/domain/src/persistence.rs).
use edustell.Common.{[], ◌∷◌}
use edustell.Domain.StringEnum.{StringEnum}

pub data ScholarshipPoolStatus : Type 0 where
  opened closed : ScholarshipPoolStatus

instance abbrev pub scholarship_pool_status_enum : StringEnum ScholarshipPoolStatus
scholarship_pool_status_enum = record {
  as_str = elim [ ScholarshipPoolStatus.opened ↦ "open" | ScholarshipPoolStatus.closed ↦ "closed" ];
  discriminant = elim [ ScholarshipPoolStatus.opened ↦ 0 | ScholarshipPoolStatus.closed ↦ 1 ];
  variants = ScholarshipPoolStatus.opened ∷ ScholarshipPoolStatus.closed ∷ [];
  invalid = "invalid ScholarshipPoolStatus";
}

pub data ScholarshipApplicationStatus : Type 0 where
  submitted under_review approved rejected : ScholarshipApplicationStatus

instance abbrev pub scholarship_application_status_enum : StringEnum ScholarshipApplicationStatus
scholarship_application_status_enum = record {
  as_str = elim [
    | ScholarshipApplicationStatus.submitted ↦ "submitted"
    | ScholarshipApplicationStatus.under_review ↦ "under_review"
    | ScholarshipApplicationStatus.approved ↦ "approved"
    | ScholarshipApplicationStatus.rejected ↦ "rejected"
  ];
  discriminant = elim [
    | ScholarshipApplicationStatus.submitted ↦ 0
    | ScholarshipApplicationStatus.under_review ↦ 1
    | ScholarshipApplicationStatus.approved ↦ 2
    | ScholarshipApplicationStatus.rejected ↦ 3
  ];
  variants =
      ScholarshipApplicationStatus.submitted ∷ ScholarshipApplicationStatus.under_review
      ∷ ScholarshipApplicationStatus.approved ∷ ScholarshipApplicationStatus.rejected ∷ [];
  invalid = "invalid ScholarshipApplicationStatus";
}

pub data ScholarshipAwardStatus : Type 0 where
  approved rejected disbursed revoked : ScholarshipAwardStatus

instance abbrev pub scholarship_award_status_enum : StringEnum ScholarshipAwardStatus
scholarship_award_status_enum = record {
  as_str = elim [
    | ScholarshipAwardStatus.approved ↦ "approved"
    | ScholarshipAwardStatus.rejected ↦ "rejected"
    | ScholarshipAwardStatus.disbursed ↦ "disbursed"
    | ScholarshipAwardStatus.revoked ↦ "revoked"
  ];
  discriminant = elim [
    | ScholarshipAwardStatus.approved ↦ 0
    | ScholarshipAwardStatus.rejected ↦ 1
    | ScholarshipAwardStatus.disbursed ↦ 2
    | ScholarshipAwardStatus.revoked ↦ 3
  ];
  variants =
      ScholarshipAwardStatus.approved ∷ ScholarshipAwardStatus.rejected
      ∷ ScholarshipAwardStatus.disbursed ∷ ScholarshipAwardStatus.revoked ∷ [];
  invalid = "invalid ScholarshipAwardStatus";
}

pub data AchievementCredentialType : Type 0 where
  scholarship_recipient fee_fully_funded academic_excellence attendance_recognition :
      AchievementCredentialType

instance abbrev pub achievement_credential_type_enum : StringEnum AchievementCredentialType
achievement_credential_type_enum = record {
  as_str = elim [
    | AchievementCredentialType.scholarship_recipient ↦ "scholarship_recipient"
    | AchievementCredentialType.fee_fully_funded ↦ "fee_fully_funded"
    | AchievementCredentialType.academic_excellence ↦ "academic_excellence"
    | AchievementCredentialType.attendance_recognition ↦ "attendance_recognition"
  ];
  discriminant = elim [
    | AchievementCredentialType.scholarship_recipient ↦ 0
    | AchievementCredentialType.fee_fully_funded ↦ 1
    | AchievementCredentialType.academic_excellence ↦ 2
    | AchievementCredentialType.attendance_recognition ↦ 3
  ];
  variants =
      AchievementCredentialType.scholarship_recipient ∷ AchievementCredentialType.fee_fully_funded
      ∷ AchievementCredentialType.academic_excellence
      ∷ AchievementCredentialType.attendance_recognition ∷ [];
  invalid = "invalid AchievementCredentialType";
}

pub data AchievementCredentialStatus : Type 0 where
  issued revoked : AchievementCredentialStatus

instance abbrev pub achievement_credential_status_enum : StringEnum AchievementCredentialStatus
achievement_credential_status_enum = record {
  as_str = elim [
    | AchievementCredentialStatus.issued ↦ "issued"
    | AchievementCredentialStatus.revoked ↦ "revoked"
  ];
  discriminant = elim [
    | AchievementCredentialStatus.issued ↦ 0
    | AchievementCredentialStatus.revoked ↦ 1
  ];
  variants = AchievementCredentialStatus.issued ∷ AchievementCredentialStatus.revoked ∷ [];
  invalid = "invalid AchievementCredentialStatus";
}

pub data DonorContributionStatus : Type 0 where
  confirmed reversed : DonorContributionStatus

instance abbrev pub donor_contribution_status_enum : StringEnum DonorContributionStatus
donor_contribution_status_enum = record {
  as_str = elim [
    | DonorContributionStatus.confirmed ↦ "confirmed"
    | DonorContributionStatus.reversed ↦ "reversed"
  ];
  discriminant = elim [
    | DonorContributionStatus.confirmed ↦ 0
    | DonorContributionStatus.reversed ↦ 1
  ];
  variants = DonorContributionStatus.confirmed ∷ DonorContributionStatus.reversed ∷ [];
  invalid = "invalid DonorContributionStatus";
}
