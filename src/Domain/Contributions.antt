-- ===== src/Domain/Contributions.antt =====
-- The rules of contributions (crates/domain/src/contributions.rs).
pub mod Paths
use Prim.Native.String.{◌++◌ as append}
use edustell.Common.{
  ℕ, String, Bool, ◌&&◌, ◌||◌, Result, ok, err, ensure, ℤ, pos, leb_ℤ, str_eq, ◌==◌, if◌then◌else◌,
}
use edustell.Domain.StringEnum.{as_str, eq_enum}
use edustell.Domain.Auth.{UserRole, user_role_enum}
use edustell.Domain.Status.{ContributionStatus, contribution_status_enum}

pub data ContributionTransition : Type 0 where
  confirm fail reverse : ContributionTransition

unfoldable pub target_status : ContributionTransition → ContributionStatus
target_status ContributionTransition.confirm = ContributionStatus.confirmed
target_status ContributionTransition.fail = ContributionStatus.failed
target_status ContributionTransition.reverse = ContributionStatus.reversed

pub data ContributionRuleViolation : Type 0 where
  amount_must_be_positive currency_mismatch : ContributionRuleViolation
  unauthorized_contributor unauthorized_settlement_actor : ContributionRuleViolation
  invalid_status_transition : ContributionStatus → ContributionStatus → ContributionRuleViolation

-- `Display for ContributionRuleViolation`
pub display : ContributionRuleViolation → String
display ContributionRuleViolation.amount_must_be_positive = "contribution amount must be positive"
display ContributionRuleViolation.currency_mismatch =
    "contribution currency must match vault currency"
display ContributionRuleViolation.unauthorized_contributor =
    "user is not allowed to contribute to this vault"
display ContributionRuleViolation.unauthorized_settlement_actor =
    "user is not allowed to settle contributions"
display (ContributionRuleViolation.invalid_status_transition from to) =
    append "invalid contribution transition from "
      (append (as_str from) (append " to " (as_str to)))

abbrev pub Checked : Type 0
Checked = Result ContributionRuleViolation (Unit {0})

unfoldable pub validate_contribution_amount : ℤ → Checked
validate_contribution_amount amount_minor =
    if leb_ℤ amount_minor (pos 0)
    then err ContributionRuleViolation.amount_must_be_positive
    else ok tt

unfoldable pub validate_contribution_currency : String → String → Checked
validate_contribution_currency contribution_currency vault_currency =
    ensure (str_eq contribution_currency vault_currency) ContributionRuleViolation.currency_mismatch

unfoldable pub can_view_or_fund_vault : UserRole → ℕ → ℕ → Bool → Checked
can_view_or_fund_vault actor_role actor_user_id vault_owner_user_id is_explicit_contributor =
    if actor_user_id == vault_owner_user_id && eq_enum actor_role UserRole.parent
    then ok tt
    else (if is_explicit_contributor
          && (eq_enum actor_role UserRole.contributor || eq_enum actor_role UserRole.parent)
        then ok tt
        else err ContributionRuleViolation.unauthorized_contributor)

unfoldable pub can_settle_contribution : UserRole → Checked
can_settle_contribution actor_role =
    ensure (eq_enum actor_role UserRole.platform_admin)
      ContributionRuleViolation.unauthorized_settlement_actor

-- The `match (current, target)` of `validate_transition`.
unfoldable pub check_transition :
    ContributionStatus → ContributionStatus → Result ContributionRuleViolation ContributionStatus
check_transition ContributionStatus.pending ContributionStatus.confirmed =
    ok ContributionStatus.confirmed
check_transition ContributionStatus.pending ContributionStatus.failed = ok ContributionStatus.failed
check_transition ContributionStatus.confirmed ContributionStatus.reversed =
    ok ContributionStatus.reversed
check_transition from to =
    if eq_enum from to
    then ok to
    else err (ContributionRuleViolation.invalid_status_transition from to)

unfoldable pub validate_transition :
    ContributionStatus
    → ContributionTransition
    → Result ContributionRuleViolation ContributionStatus
unfolding check_transition target_status
validate_transition current transition = check_transition current (target_status transition)
