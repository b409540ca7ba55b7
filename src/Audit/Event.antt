-- ===== src/Audit/Event.antt =====
-- The audit events of contributions, payouts and scholarship decisions
-- (crates/application/src/audit.rs).
use edustell.Common.{ℕ, String, Option, none, some}
use edustell.Domain.Json.{Json}
use edustell.Domain.Status.{
  contribution_status_enum, contribution_source_type_enum, payout_status_enum,
  scholarship_award_status_enum,
}
use edustell.Domain.Records.{AuditLog}
use edustell.Store.Env.{Env, NewId}

pub data AuditEntityType : Type 0 where
  user kyc_profile savings_plan milestone vault_contributor contribution : AuditEntityType
  payout_request school scholarship_award achievement_credential : AuditEntityType
  external_reference : AuditEntityType

pub entity_type_str : AuditEntityType → String
entity_type_str AuditEntityType.user = "user"
entity_type_str AuditEntityType.kyc_profile = "kyc_profile"
entity_type_str AuditEntityType.savings_plan = "savings_plan"
entity_type_str AuditEntityType.milestone = "milestone"
entity_type_str AuditEntityType.vault_contributor = "vault_contributor"
entity_type_str AuditEntityType.contribution = "contribution"
entity_type_str AuditEntityType.payout_request = "payout_request"
entity_type_str AuditEntityType.school = "school"
entity_type_str AuditEntityType.scholarship_award = "scholarship_award"
entity_type_str AuditEntityType.achievement_credential = "achievement_credential"
entity_type_str AuditEntityType.external_reference = "external_reference"

pub data AuditAction : Type 0 where
  user_registered kyc_status_changed plan_created milestone_created : AuditAction
  contributor_added contribution_recorded contribution_status_changed : AuditAction
  payout_requested payout_approved payout_rejected payout_status_changed : AuditAction
  school_verified scholarship_decision achievement_credential_issued : AuditAction
  blockchain_reference_attached : AuditAction

pub action_str : AuditAction → String
action_str AuditAction.user_registered = "user.registered"
action_str AuditAction.kyc_status_changed = "kyc.status_changed"
action_str AuditAction.plan_created = "savings_plan.created"
action_str AuditAction.milestone_created = "milestone.created"
action_str AuditAction.contributor_added = "vault_contributor.added"
action_str AuditAction.contribution_recorded = "contribution.recorded"
action_str AuditAction.contribution_status_changed = "contribution.status_changed"
action_str AuditAction.payout_requested = "payout.requested"
action_str AuditAction.payout_approved = "payout.approved"
action_str AuditAction.payout_rejected = "payout.rejected"
action_str AuditAction.payout_status_changed = "payout.status_changed"
action_str AuditAction.school_verified = "school.verified"
action_str AuditAction.scholarship_decision = "scholarship.decision"
action_str AuditAction.achievement_credential_issued = "achievement_credential.issued"
action_str AuditAction.blockchain_reference_attached = "blockchain.reference_attached"

pub record AuditEvent : Type 0 where
  pub actor_user_id : Option ℕ
  pub entity_type : AuditEntityType
  pub entity_id : Option ℕ
  pub action : AuditAction
  pub metadata : Json
  pub occurred_at : ℕ

-- `AuditEvent::new`, called with an actor and an entity; `Utc::now()` is the environment's.
unfoldable pub new_event : Env → ℕ → AuditEntityType → ℕ → AuditAction → Json → AuditEvent
new_event env actor_user_id entity_type entity_id action metadata = record {
  actor_user_id = some actor_user_id;
  entity_type = entity_type;
  entity_id = some entity_id;
  action = action;
  metadata = metadata;
  occurred_at = env.utc_now;
}

-- `AuditEvent::into_log`
unfoldable pub into_log : Env → AuditEvent → AuditLog
unfolding entity_type_str action_str
into_log env e = record {
  id = env.new_v4 NewId.audit_log;
  actor_user_id = e.actor_user_id;
  entity_type = entity_type_str e.entity_type;
  entity_id = e.entity_id;
  action = action_str e.action;
  request_id = none;
  correlation_id = none;
  metadata = e.metadata;
  created_at = e.occurred_at;
  updated_at = e.occurred_at;
}
