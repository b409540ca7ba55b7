-- ===== src/Domain/Scholarships.antt =====
-- The rules of scholarships (crates/domain/src/scholarships.rs).
use edustell.Common.{
  ℕ, String, ◌&&◌, ◌||◌, Option, none, some, Result, ok, err, ensure, ℤ, pos, leb_ℤ, ltb_ℤ, str_eq,
  ◌==◌, is_none, eq_option, trim, if◌then◌else◌, ◌>>◌,
}
use edustell.Domain.StringEnum.{eq_enum}
use edustell.Domain.Auth.{UserRole, user_role_enum}
use edustell.Domain.Status.{
  ScholarshipPoolStatus, ScholarshipApplicationStatus, ScholarshipAwardStatus,
  scholarship_pool_status_enum, scholarship_application_status_enum, scholarship_award_status_enum,
}
use edustell.Domain.Records.{ScholarshipPool}

pub data AwardTransition : Type 0 where
  approve reject disburse revoke : AwardTransition

unfoldable pub target_status : AwardTransition → ScholarshipAwardStatus
target_status AwardTransition.approve = ScholarshipAwardStatus.approved
target_status AwardTransition.reject = ScholarshipAwardStatus.rejected
target_status AwardTransition.disburse = ScholarshipAwardStatus.disbursed
target_status AwardTransition.revoke = ScholarshipAwardStatus.revoked

pub data ScholarshipRuleViolation : Type 0 where
  forbidden pool_closed amount_must_be_positive currency_mismatch : ScholarshipRuleViolation
  insufficient_pool_balance child_profile_access_denied : ScholarshipRuleViolation
  geography_restricted education_level_restricted : ScholarshipRuleViolation
  school_restricted category_restricted : ScholarshipRuleViolation
  invalid_award_transition missing_disbursement_target : ScholarshipRuleViolation

-- `Display for ScholarshipRuleViolation`
pub display : ScholarshipRuleViolation → String
display ScholarshipRuleViolation.forbidden = "actor is not allowed to perform this action"
display ScholarshipRuleViolation.pool_closed = "scholarship pool is not open"
display ScholarshipRuleViolation.amount_must_be_positive = "amount must be positive"
display ScholarshipRuleViolation.currency_mismatch = "currency must match scholarship pool currency"
display ScholarshipRuleViolation.insufficient_pool_balance =
    "award amount exceeds available scholarship pool balance"
display ScholarshipRuleViolation.child_profile_access_denied =
    "actor cannot apply with the specified child profile"
display ScholarshipRuleViolation.geography_restricted =
    "application does not satisfy geography restriction"
display ScholarshipRuleViolation.education_level_restricted =
    "application does not satisfy education level restriction"
display ScholarshipRuleViolation.school_restricted =
    "application does not satisfy school restriction"
display ScholarshipRuleViolation.category_restricted =
    "application does not satisfy category restriction"
display ScholarshipRuleViolation.invalid_award_transition = "invalid scholarship award transition"
display ScholarshipRuleViolation.missing_disbursement_target =
    "disbursed award must link to a payout request or vault earmark"

abbrev pub Checked : Type 0
Checked = Result ScholarshipRuleViolation (Unit {0})

unfoldable pub validate_pool_is_open : ScholarshipPool → Checked
validate_pool_is_open pool =
    ensure (eq_enum pool.status ScholarshipPoolStatus.opened) ScholarshipRuleViolation.pool_closed

unfoldable pub validate_positive_amount : ℤ → Checked
validate_positive_amount amount_minor =
    ensure (ltb_ℤ (pos 0) amount_minor) ScholarshipRuleViolation.amount_must_be_positive

unfoldable pub validate_currency : String → String → Checked
validate_currency pool_currency value_currency =
    ensure (str_eq pool_currency value_currency) ScholarshipRuleViolation.currency_mismatch

unfoldable pub ensure_pool_balance : ℤ → ℤ → Checked
ensure_pool_balance available_minor amount_minor =
    ensure (leb_ℤ amount_minor available_minor) ScholarshipRuleViolation.insufficient_pool_balance

unfoldable pub can_fund_pool : UserRole → Checked
can_fund_pool role =
    ensure (eq_enum role UserRole.donor || eq_enum role UserRole.platform_admin)
      ScholarshipRuleViolation.forbidden

unfoldable pub can_apply : UserRole → Checked
can_apply role =
    ensure (eq_enum role UserRole.parent || eq_enum role UserRole.student)
      ScholarshipRuleViolation.forbidden

unfoldable pub can_review : UserRole → Checked
can_review role = ensure (eq_enum role UserRole.platform_admin) ScholarshipRuleViolation.forbidden

unfoldable pub validate_child_profile_access : UserRole → ℕ → ℕ → Checked
validate_child_profile_access role actor_user_id child_owner_user_id =
    ensure (eq_enum role UserRole.student || actor_user_id == child_owner_user_id)
      ScholarshipRuleViolation.child_profile_access_denied

-- `value.map(str::trim) != Some(expected)` under `if let Some(expected)`.
unfoldable pub check_text_restriction :
    Option String → Option String → ScholarshipRuleViolation → Checked
check_text_restriction none value violation = ok tt
check_text_restriction (some expected) none violation = err violation
check_text_restriction (some expected) (some v) violation =
    ensure (str_eq (trim v) expected) violation

unfoldable pub check_school_restriction : Option ℕ → Option ℕ → Checked
check_school_restriction none school_id = ok tt
check_school_restriction (some expected) school_id =
    ensure (eq_option school_id (some expected)) ScholarshipRuleViolation.school_restricted

unfoldable pub validate_pool_restrictions :
    ScholarshipPool → Option String → Option String → Option ℕ → Option String → Checked
unfolding check_text_restriction check_school_restriction
validate_pool_restrictions pool geography education_level school_id category = do
  check_text_restriction pool.geography_restriction geography
      ScholarshipRuleViolation.geography_restricted
  check_text_restriction pool.education_level_restriction education_level
      ScholarshipRuleViolation.education_level_restricted
  check_school_restriction pool.school_id_restriction school_id
  check_text_restriction pool.category_restriction category
      ScholarshipRuleViolation.category_restricted

-- The `match (current, target)` of `validate_award_transition`.
unfoldable pub check_award_transition :
    ScholarshipAwardStatus
    → ScholarshipAwardStatus
    → Option ℕ
    → Option ℕ
    → Result ScholarshipRuleViolation ScholarshipAwardStatus
check_award_transition ScholarshipAwardStatus.approved ScholarshipAwardStatus.disbursed payout
      vault =
    if is_none payout && is_none vault
    then err ScholarshipRuleViolation.missing_disbursement_target
    else ok ScholarshipAwardStatus.disbursed
check_award_transition ScholarshipAwardStatus.approved ScholarshipAwardStatus.revoked payout vault =
    ok ScholarshipAwardStatus.revoked
check_award_transition from to payout vault =
    if eq_enum from to then ok to else err ScholarshipRuleViolation.invalid_award_transition

unfoldable pub validate_award_transition :
    ScholarshipAwardStatus
    → AwardTransition
    → Option ℕ
    → Option ℕ
    → Result ScholarshipRuleViolation ScholarshipAwardStatus
unfolding check_award_transition target_status
validate_award_transition current transition linked_payout_request_id linked_vault_id =
    check_award_transition current (target_status transition) linked_payout_request_id
      linked_vault_id

unfoldable pub validate_application_reviewable : ScholarshipApplicationStatus → Checked
validate_application_reviewable ScholarshipApplicationStatus.submitted = ok tt
validate_application_reviewable ScholarshipApplicationStatus.under_review = ok tt
validate_application_reviewable _ = err ScholarshipRuleViolation.invalid_award_transition
