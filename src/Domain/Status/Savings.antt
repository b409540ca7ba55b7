-- ===== src/Domain/Status/Savings.antt =====
-- The enums of savings plans, vaults, milestones and user records
-- (crates/domain/src/persistence.rs).
use edustell.Common.{[], ◌∷◌}
use edustell.Domain.StringEnum.{StringEnum}

pub data RecordStatus : Type 0 where
  active inactive suspended : RecordStatus

instance abbrev pub record_status_enum : StringEnum RecordStatus
record_status_enum = record {
  as_str = elim [
    | RecordStatus.active ↦ "active"
    | RecordStatus.inactive ↦ "inactive"
    | RecordStatus.suspended ↦ "suspended"
  ];
  discriminant = elim [
    | RecordStatus.active ↦ 0
    | RecordStatus.inactive ↦ 1
    | RecordStatus.suspended ↦ 2
  ];
  variants = RecordStatus.active ∷ RecordStatus.inactive ∷ RecordStatus.suspended ∷ [];
  invalid = "invalid RecordStatus";
}

pub data PlanStatus : Type 0 where
  draft active paused completed cancelled : PlanStatus

instance abbrev pub plan_status_enum : StringEnum PlanStatus
plan_status_enum = record {
  as_str = elim [
    | PlanStatus.draft ↦ "draft"
    | PlanStatus.active ↦ "active"
    | PlanStatus.paused ↦ "paused"
    | PlanStatus.completed ↦ "completed"
    | PlanStatus.cancelled ↦ "cancelled"
  ];
  discriminant = elim [
    | PlanStatus.draft ↦ 0
    | PlanStatus.active ↦ 1
    | PlanStatus.paused ↦ 2
    | PlanStatus.completed ↦ 3
    | PlanStatus.cancelled ↦ 4
  ];
  variants =
      PlanStatus.draft ∷ PlanStatus.active ∷ PlanStatus.paused ∷ PlanStatus.completed
      ∷ PlanStatus.cancelled ∷ [];
  invalid = "invalid PlanStatus";
}

pub data VaultStatus : Type 0 where
  active locked closed : VaultStatus

instance abbrev pub vault_status_enum : StringEnum VaultStatus
vault_status_enum = record {
  as_str = elim [
    | VaultStatus.active ↦ "active"
    | VaultStatus.locked ↦ "locked"
    | VaultStatus.closed ↦ "closed"
  ];
  discriminant = elim [ VaultStatus.active ↦ 0 | VaultStatus.locked ↦ 1 | VaultStatus.closed ↦ 2 ];
  variants = VaultStatus.active ∷ VaultStatus.locked ∷ VaultStatus.closed ∷ [];
  invalid = "invalid VaultStatus";
}

pub data MilestoneStatus : Type 0 where
  planned funded partially_paid paid cancelled : MilestoneStatus

instance abbrev pub milestone_status_enum : StringEnum MilestoneStatus
milestone_status_enum = record {
  as_str = elim [
    | MilestoneStatus.planned ↦ "planned"
    | MilestoneStatus.funded ↦ "funded"
    | MilestoneStatus.partially_paid ↦ "partially_paid"
    | MilestoneStatus.paid ↦ "paid"
    | MilestoneStatus.cancelled ↦ "cancelled"
  ];
  discriminant = elim [
    | MilestoneStatus.planned ↦ 0
    | MilestoneStatus.funded ↦ 1
    | MilestoneStatus.partially_paid ↦ 2
    | MilestoneStatus.paid ↦ 3
    | MilestoneStatus.cancelled ↦ 4
  ];
  variants =
      MilestoneStatus.planned ∷ MilestoneStatus.funded ∷ MilestoneStatus.partially_paid
      ∷ MilestoneStatus.paid ∷ MilestoneStatus.cancelled ∷ [];
  invalid = "invalid MilestoneStatus";
}

pub data PayoutType : Type 0 where
  tuition exam_fee deposit supplies : PayoutType

instance abbrev pub payout_type_enum : StringEnum PayoutType
payout_type_enum = record {
  as_str = elim [
    | PayoutType.tuition ↦ "tuition"
    | PayoutType.exam_fee ↦ "exam_fee"
    | PayoutType.deposit ↦ "deposit"
    | PayoutType.supplies ↦ "supplies"
  ];
  discriminant = elim [
    | PayoutType.tuition ↦ 0
    | PayoutType.exam_fee ↦ 1
    | PayoutType.deposit ↦ 2
    | PayoutType.supplies ↦ 3
  ];
  variants =
      PayoutType.tuition ∷ PayoutType.exam_fee ∷ PayoutType.deposit ∷ PayoutType.supplies ∷ [];
  invalid = "invalid PayoutType";
}
