-- ===== src/Application/Kyc.antt =====
-- The identity checks (crates/application/src/kyc.rs): the profile is written first and the audit log
-- after it, if the status has changed.
pub mod Changes
use edustell.Common.{
  ℕ, String, Option, none, some, Bool, not, Result, ok, err, map_error, str_eq, if◌then◌else◌,
}
use edustell.Common.Actions.{Action, attempt, pure, guard, ◌>>=◌, ◌>>◌}
use edustell.Domain.StringEnum.{as_str, eq_enum}
use edustell.Domain.Auth.{UserRole, user_role_enum, AuthenticatedUser}
use edustell.Domain.Status.{KycStatus, kyc_status_enum}
use edustell.Domain.Records.{KycProfile}
use edustell.Audit.Profiles.{kyc_status_changed}
use edustell.Audit.Service.{record_event}
use edustell.Store.Env.{Env, NewId, PersistenceError, Stored}
use edustell.Store.Savings.{SavingsDb, Committed, find_kyc_by_user, upsert_kyc}

pub data KycError : Type 0 where
  validation repository : String → KycError
  forbidden : KycError

unfoldable pub from_persistence : PersistenceError → KycError
from_persistence PersistenceError.not_found = KycError.validation "profile not found"
from_persistence (PersistenceError.conflict message) = KycError.validation message
from_persistence (PersistenceError.validation message) = KycError.validation message
from_persistence (PersistenceError.repository message) = KycError.repository message

pub record UpdateKycStatusInput : Type 0 where
  pub user_id : ℕ
  pub status : KycStatus
  pub provider_reference : Option String

abbrev pub Checking : Type 0 → Type 0
Checking A = Action SavingsDb KycError A

abbrev pub query : {A : Type 0} → (SavingsDb → Stored A) → Checking A
query read s = (map_error from_persistence (read s), s)

abbrev pub written : {A : Type 0} → Committed A → SavingsDb → Result KycError A × SavingsDb
written (err e) s = (err (from_persistence e), s)
written (ok (saved, s')) s = (map_error from_persistence saved, s')

abbrev pub write : {A : Type 0} → (SavingsDb → Committed A) → Checking A
write statement s = written (statement s) s

abbrev pub previous_status : Option KycProfile → Option String
previous_status none = none
previous_status (some item) = some (as_str item.status)

unfoldable pub new_profile : Env → UpdateKycStatusInput → Option KycProfile → KycProfile
new_profile env input existing = record {
  id = elim existing [ none ↦ env.new_v4 NewId.entity | some item ↦ item.id ];
  user_id = input.user_id;
  status = input.status;
  provider_reference = input.provider_reference;
  reviewed_at = some env.utc_now;
  created_at = elim existing [ none ↦ env.utc_now | some item ↦ item.created_at ];
  updated_at = env.utc_now;
}

abbrev pub is_text : Option String → String → Bool
is_text none t = Bool.false
is_text (some s) t = str_eq s t

unfoldable pub record_change :
    Env → AuthenticatedUser → KycProfile → Option String → Checking (Unit {0})
record_change env actor saved previous s =
    if is_text previous (as_str saved.status)
    then (ok tt, s)
    else elim (record_event env (kyc_status_changed env actor.user_id saved previous) s.db) [
      | err message ↦ (err (KycError.repository message), s)
      | ok db' ↦ (ok tt, record s { db = db' })
    ]

unfoldable pub update_kyc_status :
    Env → AuthenticatedUser → UpdateKycStatusInput → Checking KycProfile
update_kyc_status env actor input = do
  guard (eq_enum actor.role UserRole.platform_admin) KycError.forbidden
  existing ← query (find_kyc_by_user env input.user_id)
  saved ← write (upsert_kyc env (new_profile env input existing))
  record_change env actor saved (previous_status existing)
  pure saved
