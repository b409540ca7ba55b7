-- ===== src/Application/Schools.antt =====
-- The handlers of schools (crates/application/src/schools.rs).
pub mod Verification
use edustell.Common.{
  ℕ, String, Option, none, Bool, true, false, not, ◌||◌, List, Result, ok, err, ensure, map_error,
  ◌>>=◌, ◌>>◌, trim, is_empty, if◌then◌else◌,
}
use edustell.Domain.StringEnum.{as_str, eq_enum}
use edustell.Domain.Json.{Json, end, member}
use edustell.Domain.Auth.{UserRole, user_role_enum, AuthenticatedUser}
use edustell.Domain.Status.{
  SchoolVerificationStatus, school_verification_status_enum, SchoolPayoutMethod,
  school_payout_method_enum,
}
use edustell.Domain.Records.{AuditLog, School}
use edustell.Audit.Event.{AuditEntityType, AuditAction, new_event, into_log}
use edustell.Audit.Profiles.{school_verified}
use edustell.Store.Env.{Env, NewId, PersistenceError}
use edustell.Store.Rows.{SchoolRow}
use edustell.Store.Db.{Db}
use edustell.Store.Schools.{create_school_with_audit, verify_with_audit, search_verified}

pub data SchoolError : Type 0 where
  validation conflict repository : String → SchoolError
  forbidden not_found : SchoolError

unfoldable pub from_persistence : PersistenceError → SchoolError
from_persistence PersistenceError.not_found = SchoolError.not_found
from_persistence (PersistenceError.conflict message) = SchoolError.conflict message
from_persistence (PersistenceError.validation message) = SchoolError.validation message
from_persistence (PersistenceError.repository message) = SchoolError.repository message

pub record CreateSchoolInput : Type 0 where
  pub legal_name : String
  pub display_name : String
  pub country : String
  pub payout_method : SchoolPayoutMethod
  pub payout_reference : String

pub record VerifySchoolInput : Type 0 where
  pub school_id : ℕ
  pub verification_status : SchoolVerificationStatus

unfoldable pub require_platform_admin : UserRole → Result SchoolError (Unit {0})
require_platform_admin role = ensure (eq_enum role UserRole.platform_admin) SchoolError.forbidden

unfoldable pub required : String → String → Result SchoolError (Unit {0})
required value message = ensure (not (is_empty (trim value))) (SchoolError.validation message)

unfoldable pub validate_school_fields : CreateSchoolInput → Result SchoolError (Unit {0})
validate_school_fields input = do
  required input.legal_name "legal_name is required"
  required input.display_name "display_name is required"
  required input.country "country is required"
  required input.payout_reference "payout_reference is required"

unfoldable pub new_school : Env → CreateSchoolInput → School
new_school env input = record {
  id = env.new_v4 NewId.entity;
  legal_name = input.legal_name;
  display_name = input.display_name;
  country = input.country;
  payout_method = input.payout_method;
  payout_reference = input.payout_reference;
  verification_status = SchoolVerificationStatus.pending;
  verified_by = none;
  verified_at = none;
  created_at = env.utc_now;
  updated_at = env.utc_now;
}

unfoldable pub school_log : Env → AuthenticatedUser → School → AuditLog
school_log env actor school = record (into_log env (school_verified env actor.user_id school)) {
  action = "school.created";
  metadata = Json.object (
      member "display_name" (Json.string school.display_name) (
        member "country" (Json.string school.country) (
          member "payout_method" (Json.string (as_str school.payout_method))
            (member "verification_status" (Json.string (as_str school.verification_status)) end))));
}

unfoldable pub create_school :
    Env → AuthenticatedUser → CreateSchoolInput → Db → Result SchoolError (School × Db)
create_school env actor input db = do
  require_platform_admin actor.role
  validate_school_fields input
  let school = new_school env input
  map_error from_persistence (create_school_with_audit env school (school_log env actor school) db)

unfoldable pub verification_log : Env → AuthenticatedUser → VerifySchoolInput → AuditLog
verification_log env actor input =
    record (into_log env (
      new_event env actor.user_id AuditEntityType.school input.school_id AuditAction.school_verified
        (Json.object
          (member "verification_status" (Json.string (as_str input.verification_status)) end)))) {
            action = "school.verification_status_changed";
          }

unfoldable pub verify_school :
    Env → AuthenticatedUser → VerifySchoolInput → Db → Result SchoolError (School × Db)
verify_school env actor input db = do
  require_platform_admin actor.role
  map_error from_persistence (
      verify_with_audit env input.school_id (as_str input.verification_status) actor.user_id
        (verification_log env actor input) db)

unfoldable pub search_verified_schools :
    Env
    → (Option String → SchoolRow → Bool)
    → (List SchoolRow → List SchoolRow)
    → AuthenticatedUser
    → Option String
    → Db
    → Result SchoolError (List School)
search_verified_schools env is_like order actor query db = do
  ensure (eq_enum actor.role UserRole.parent || eq_enum actor.role UserRole.platform_admin)
      SchoolError.forbidden
  map_error from_persistence (search_verified env is_like order query db)
