-- ===== src/Domain/Payouts.antt =====
-- The rules of payouts (crates/domain/src/payouts.rs).
pub mod Paths
pub mod Funds
use Prim.Native.String.{◌++◌ as append}
use edustell.Common.{
  ℕ, String, Result, ok, err, ensure, ℤ, pos, leb_ℤ, sub_i64, str_eq, ◌==◌, if◌then◌else◌,
}
use edustell.Domain.StringEnum.{as_str, eq_enum}
use edustell.Domain.Auth.{UserRole, user_role_enum}
use edustell.Domain.Status.{
  MilestoneStatus, PayoutStatus, SchoolVerificationStatus, milestone_status_enum,
  payout_status_enum, school_verification_status_enum,
}

pub data PayoutTransition : Type 0 where
  move_to_review approve reject mark_processing complete fail : PayoutTransition

unfoldable pub target_status : PayoutTransition → PayoutStatus
target_status PayoutTransition.move_to_review = PayoutStatus.under_review
target_status PayoutTransition.approve = PayoutStatus.approved
target_status PayoutTransition.reject = PayoutStatus.rejected
target_status PayoutTransition.mark_processing = PayoutStatus.processing
target_status PayoutTransition.complete = PayoutStatus.completed
target_status PayoutTransition.fail = PayoutStatus.failed

pub data PayoutRuleViolation : Type 0 where
  amount_must_be_positive unauthorized_requester unauthorized_reviewer : PayoutRuleViolation
  school_not_verified milestone_does_not_belong_to_vault : PayoutRuleViolation
  milestone_not_payable currency_mismatch insufficient_available_funds : PayoutRuleViolation
  invalid_status_transition : PayoutStatus → PayoutStatus → PayoutRuleViolation

-- `Display for PayoutRuleViolation`
pub display : PayoutRuleViolation → String
display PayoutRuleViolation.amount_must_be_positive = "payout amount must be positive"
display PayoutRuleViolation.unauthorized_requester = "user cannot request payout"
display PayoutRuleViolation.unauthorized_reviewer = "user cannot review payout"
display PayoutRuleViolation.school_not_verified = "school is not verified"
display PayoutRuleViolation.milestone_does_not_belong_to_vault =
    "milestone does not belong to the specified vault"
display PayoutRuleViolation.milestone_not_payable = "milestone is not payable in its current state"
display PayoutRuleViolation.currency_mismatch = "payout currency must match vault currency"
display PayoutRuleViolation.insufficient_available_funds = "vault has insufficient available funds"
display (PayoutRuleViolation.invalid_status_transition from to) =
    append "invalid payout transition from " (append (as_str from) (append " to " (as_str to)))

abbrev pub Checked : Type 0
Checked = Result PayoutRuleViolation (Unit {0})

unfoldable pub validate_requester_role : UserRole → Checked
validate_requester_role role =
    ensure (eq_enum role UserRole.parent) PayoutRuleViolation.unauthorized_requester

unfoldable pub validate_reviewer_role : UserRole → Checked
validate_reviewer_role role =
    ensure (eq_enum role UserRole.platform_admin) PayoutRuleViolation.unauthorized_reviewer

unfoldable pub validate_school_verified : SchoolVerificationStatus → Checked
validate_school_verified status =
    ensure (eq_enum status SchoolVerificationStatus.verified)
      PayoutRuleViolation.school_not_verified

unfoldable pub validate_payout_amount : ℤ → Checked
validate_payout_amount amount_minor =
    if leb_ℤ amount_minor (pos 0) then err PayoutRuleViolation.amount_must_be_positive else ok tt

unfoldable pub validate_currency_match : String → String → Checked
validate_currency_match payout_currency vault_currency =
    ensure (str_eq payout_currency vault_currency) PayoutRuleViolation.currency_mismatch

unfoldable pub validate_milestone_association : ℕ → ℕ → Checked
validate_milestone_association milestone_vault_id requested_vault_id =
    ensure (milestone_vault_id == requested_vault_id)
      PayoutRuleViolation.milestone_does_not_belong_to_vault

unfoldable pub validate_milestone_payable : MilestoneStatus → Checked
validate_milestone_payable MilestoneStatus.planned = ok tt
validate_milestone_payable MilestoneStatus.funded = ok tt
validate_milestone_payable MilestoneStatus.partially_paid = ok tt
validate_milestone_payable _ = err PayoutRuleViolation.milestone_not_payable

unfoldable pub ensure_available_funds : ℤ → ℤ → ℤ → ℤ → Checked
ensure_available_funds total_contributed total_locked total_disbursed payout_amount =
    let available = sub_i64 (sub_i64 total_contributed total_locked) total_disbursed in
    ensure (leb_ℤ payout_amount available) PayoutRuleViolation.insufficient_available_funds

-- The `match (current, target)` of `validate_transition`.
unfoldable pub check_transition :
    PayoutStatus → PayoutStatus → Result PayoutRuleViolation PayoutStatus
check_transition PayoutStatus.pending PayoutStatus.under_review = ok PayoutStatus.under_review
check_transition PayoutStatus.pending PayoutStatus.rejected = ok PayoutStatus.rejected
check_transition PayoutStatus.under_review PayoutStatus.approved = ok PayoutStatus.approved
check_transition PayoutStatus.under_review PayoutStatus.rejected = ok PayoutStatus.rejected
check_transition PayoutStatus.approved PayoutStatus.processing = ok PayoutStatus.processing
check_transition PayoutStatus.processing PayoutStatus.completed = ok PayoutStatus.completed
check_transition PayoutStatus.processing PayoutStatus.failed = ok PayoutStatus.failed
check_transition from to =
    if eq_enum from to then ok to else err (PayoutRuleViolation.invalid_status_transition from to)

unfoldable pub validate_transition :
    PayoutStatus → PayoutTransition → Result PayoutRuleViolation PayoutStatus
unfolding check_transition target_status
validate_transition current transition = check_transition current (target_status transition)
