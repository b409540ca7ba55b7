-- ===== src/Application/Scholarships.antt =====
-- The handlers of scholarship pools and applications (crates/application/src/scholarships.rs).
use edustell.Common.{
  ℕ, String, Option, none, some, Bool, not, ◌||◌, List, Result, ensure, map_error, ◌>>=◌, ◌>>◌,
  ok_or, or_option, is_some, ℤ, pos, is_empty, trim, if◌then◌else◌,
}
use edustell.Domain.StringEnum.{eq_enum}
use edustell.Domain.Money.{Currency, currency_as_str, money_new}
use edustell.Domain.Json.{Json, end, member}
use edustell.Domain.Auth.{UserRole, user_role_enum, AuthenticatedUser}
use edustell.Domain.Status.{
  ScholarshipPoolStatus, ScholarshipApplicationStatus, DonorContributionStatus,
}
use edustell.Domain.Records.{
  AuditLog, ScholarshipPool, ScholarshipApplication, ScholarshipAward, DonorContribution,
}
use edustell.Domain.Scholarships.{
  ScholarshipRuleViolation, display, validate_pool_is_open, validate_positive_amount,
  validate_currency, can_fund_pool, can_apply, can_review, validate_child_profile_access,
  validate_pool_restrictions,
}
use edustell.Store.Env.{Env, NewId, PersistenceError}
use edustell.Store.Db.{Db}
use edustell.Store.Scholarships.{
  find_child, find_pool, list_pools, list_applications, create_pool_with_audit,
  fund_pool_with_audit, create_application_with_audit,
}
use edustell.Store.Awards.{list_awards, list_donor_contributions}

pub data ScholarshipError : Type 0 where
  validation conflict repository : String → ScholarshipError
  forbidden not_found : ScholarshipError

unfoldable pub from_persistence : PersistenceError → ScholarshipError
from_persistence PersistenceError.not_found = ScholarshipError.not_found
from_persistence (PersistenceError.conflict message) = ScholarshipError.conflict message
from_persistence (PersistenceError.validation message) = ScholarshipError.validation message
from_persistence (PersistenceError.repository message) = ScholarshipError.repository message

unfoldable pub from_violation : ScholarshipRuleViolation → ScholarshipError
from_violation ScholarshipRuleViolation.forbidden = ScholarshipError.forbidden
from_violation ScholarshipRuleViolation.child_profile_access_denied = ScholarshipError.forbidden
from_violation ScholarshipRuleViolation.pool_closed =
    ScholarshipError.conflict (display ScholarshipRuleViolation.pool_closed)
from_violation ScholarshipRuleViolation.insufficient_pool_balance =
    ScholarshipError.conflict (display ScholarshipRuleViolation.insufficient_pool_balance)
from_violation ScholarshipRuleViolation.invalid_award_transition =
    ScholarshipError.conflict (display ScholarshipRuleViolation.invalid_award_transition)
from_violation ScholarshipRuleViolation.missing_disbursement_target =
    ScholarshipError.conflict (display ScholarshipRuleViolation.missing_disbursement_target)
from_violation other = ScholarshipError.validation (display other)

abbrev pub Handled : Type 0 → Type 0
Handled A = Result ScholarshipError A

abbrev pub checked : {A : Type 0} → Result ScholarshipRuleViolation A → Handled A
checked = map_error from_violation

pub record CreateScholarshipPoolInput : Type 0 where
  pub name : String
  pub description : Option String
  pub currency : Currency
  pub geography_restriction : Option String
  pub education_level_restriction : Option String
  pub school_id_restriction : Option ℕ
  pub category_restriction : Option String

pub record FundScholarshipPoolInput : Type 0 where
  pub pool_id : ℕ
  pub amount_minor : ℤ
  pub currency : Currency
  pub external_reference : Option String
  pub idempotency_key : String

pub record CreateScholarshipApplicationInput : Type 0 where
  pub pool_id : ℕ
  pub child_profile_id : ℕ
  pub student_country : Option String
  pub education_level : Option String
  pub school_id : Option ℕ
  pub category : Option String
  pub notes : Option String

unfoldable pub sanitize_optional : Option String → Option String
sanitize_optional none = none
sanitize_optional (some item) =
    let trimmed = trim item in if is_empty trimmed then none else some trimmed

-- How `json!` writes an optional value.
abbrev pub optional_text : Option String → Json
optional_text none = Json.null
optional_text (some s) = Json.string s

abbrev pub optional_uuid : Option ℕ → Json
optional_uuid none = Json.null
optional_uuid (some u) = Json.uuid u

unfoldable pub scholarship_audit : Env → ℕ → String → ℕ → Json → AuditLog
scholarship_audit env actor_user_id action entity_id metadata = record {
  id = env.new_v4 NewId.audit_log;
  actor_user_id = some actor_user_id;
  entity_type = "scholarship";
  entity_id = some entity_id;
  action = action;
  request_id = none;
  correlation_id = none;
  metadata = metadata;
  created_at = env.utc_now;
  updated_at = env.utc_now;
}

-- The actor is a donor or a platform admin.
abbrev pub is_funder : AuthenticatedUser → Bool
is_funder actor = eq_enum actor.role UserRole.donor || eq_enum actor.role UserRole.platform_admin

unfoldable pub pool_created_log : Env → AuthenticatedUser → ScholarshipPool → AuditLog
pool_created_log env actor pool =
    scholarship_audit env actor.user_id "scholarship_pool.created" pool.id (
      Json.object (
        member "owner_user_id" (Json.uuid pool.owner_user_id) (
          member "currency" (Json.string (currency_as_str pool.available_funds.currency)) (
            member "geography_restriction" (optional_text pool.geography_restriction) (
              member "education_level_restriction" (optional_text pool.education_level_restriction)
                (member "school_id_restriction" (optional_uuid pool.school_id_restriction) (
                  member "category_restriction" (optional_text pool.category_restriction) end)))))))

unfoldable pub create_scholarship_pool :
    Env → AuthenticatedUser → CreateScholarshipPoolInput → Db → Handled (ScholarshipPool × Db)
create_scholarship_pool env actor input db = do
  ensure (is_funder actor) ScholarshipError.forbidden
  ensure (not (is_empty (trim input.name))) (ScholarshipError.validation "name is required")
  available_funds ← map_error ScholarshipError.validation (money_new (pos 0) input.currency)
  let pool : ScholarshipPool = record {
    id = env.new_v4 NewId.entity;
    owner_user_id = actor.user_id;
    name = input.name;
    description = sanitize_optional input.description;
    status = ScholarshipPoolStatus.opened;
    available_funds = available_funds;
    geography_restriction = sanitize_optional input.geography_restriction;
    education_level_restriction = sanitize_optional input.education_level_restriction;
    school_id_restriction = input.school_id_restriction;
    category_restriction = sanitize_optional input.category_restriction;
    created_at = env.utc_now;
    updated_at = env.utc_now;
  }
  map_error from_persistence (create_pool_with_audit env pool (pool_created_log env actor pool) db)

unfoldable pub pool_funded_log : Env → AuthenticatedUser → ℕ → DonorContribution → AuditLog
pool_funded_log env actor pool_id c =
    scholarship_audit env actor.user_id "scholarship_pool.funded" pool_id (
      Json.object (
        member "donor_user_id" (Json.uuid actor.user_id) (
          member "amount_minor" (Json.number c.amount.amount_minor) (
            member "currency" (Json.string (currency_as_str c.amount.currency)) (
              member "external_reference_present" (Json.bool (is_some c.external_reference))
                end)))))

unfoldable pub fund_scholarship_pool :
    Env
    → AuthenticatedUser
    → FundScholarshipPoolInput
    → Db
    → Handled (ScholarshipPool × DonorContribution × Db)
fund_scholarship_pool env actor input db = do
  checked (can_fund_pool actor.role)
  checked (validate_positive_amount input.amount_minor)
  found ← map_error from_persistence (find_pool env input.pool_id db)
  pool ← ok_or found ScholarshipError.not_found
  checked (validate_pool_is_open pool)
  checked (
      validate_currency (currency_as_str pool.available_funds.currency)
        (currency_as_str input.currency))
  amount ← map_error ScholarshipError.validation (money_new input.amount_minor input.currency)
  let c : DonorContribution = record {
    id = env.new_v4 NewId.entity;
    pool_id = pool.id;
    donor_user_id = actor.user_id;
    amount = amount;
    status = DonorContributionStatus.confirmed;
    external_reference = sanitize_optional input.external_reference;
    idempotency_key = some input.idempotency_key;
    created_at = env.utc_now;
    updated_at = env.utc_now;
  }
  map_error from_persistence (fund_pool_with_audit env c (pool_funded_log env actor pool.id c) db)

unfoldable pub list_scholarship_pools :
    Env → AuthenticatedUser → Db → Handled (List ScholarshipPool)
list_scholarship_pools env actor db = map_error from_persistence (list_pools env db)

unfoldable pub get_scholarship_pool : Env → AuthenticatedUser → ℕ → Db → Handled ScholarshipPool
get_scholarship_pool env actor pool_id db = do
  found ← map_error from_persistence (find_pool env pool_id db)
  ok_or found ScholarshipError.not_found

unfoldable pub application_log : Env → AuthenticatedUser → ScholarshipApplication → AuditLog
application_log env actor a =
    scholarship_audit env actor.user_id "scholarship_application.submitted" a.id (
      Json.object (
        member "pool_id" (Json.uuid a.pool_id) (
          member "child_profile_id" (Json.uuid a.child_profile_id) (
            member "student_country" (optional_text a.student_country) (
              member "education_level" (optional_text a.education_level) (
                member "school_id" (optional_uuid a.school_id)
                  (member "category" (optional_text a.category) end)))))))

unfoldable pub create_scholarship_application :
    Env
    → AuthenticatedUser
    → CreateScholarshipApplicationInput
    → Db
    → Handled (ScholarshipApplication × Db)
create_scholarship_application env actor input db = do
  checked (can_apply actor.role)
  found ← map_error from_persistence (find_pool env input.pool_id db)
  pool ← ok_or found ScholarshipError.not_found
  checked (validate_pool_is_open pool)
  found_child ← map_error from_persistence (find_child env input.child_profile_id db)
  child ← ok_or found_child ScholarshipError.not_found
  checked (validate_child_profile_access actor.role actor.user_id child.owner_user_id)
  let education_level = or_option input.education_level child.education_level
  checked (
      validate_pool_restrictions pool input.student_country education_level input.school_id
        input.category)
  let a : ScholarshipApplication = record {
    id = env.new_v4 NewId.entity;
    pool_id = pool.id;
    applicant_user_id = actor.user_id;
    child_profile_id = child.id;
    student_country = sanitize_optional input.student_country;
    education_level = sanitize_optional education_level;
    school_id = input.school_id;
    category = sanitize_optional input.category;
    status = ScholarshipApplicationStatus.submitted;
    notes = sanitize_optional input.notes;
    created_at = env.utc_now;
    updated_at = env.utc_now;
  }
  map_error from_persistence (create_application_with_audit env a (application_log env actor a) db)

unfoldable pub list_pool_applications :
    Env → AuthenticatedUser → ℕ → Db → Handled (List ScholarshipApplication)
list_pool_applications env actor pool_id db = do
  checked (can_review actor.role)
  map_error from_persistence (list_applications env pool_id db)

unfoldable pub list_pool_awards : Env → AuthenticatedUser → ℕ → Db → Handled (List ScholarshipAward)
list_pool_awards env actor pool_id db = do
  checked (can_review actor.role)
  map_error from_persistence (list_awards env pool_id db)

unfoldable pub list_pool_donor_contributions :
    Env → AuthenticatedUser → ℕ → Db → Handled (List DonorContribution)
list_pool_donor_contributions env actor pool_id db = do
  ensure (is_funder actor) ScholarshipError.forbidden
  map_error from_persistence (list_donor_contributions env pool_id db)
