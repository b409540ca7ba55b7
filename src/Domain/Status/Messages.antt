-- ===== src/Domain/Status/Messages.antt =====
-- The enums of notifications, external references and blockchain transactions
-- (crates/domain/src/persistence.rs).
use edustell.Common.{[], ◌∷◌}
use edustell.Domain.StringEnum.{StringEnum}

pub data NotificationStatus : Type 0 where
  pending sent read failed : NotificationStatus

instance abbrev pub notification_status_enum : StringEnum NotificationStatus
notification_status_enum = record {
  as_str = elim [
    | NotificationStatus.pending ↦ "pending"
    | NotificationStatus.sent ↦ "sent"
    | NotificationStatus.read ↦ "read"
    | NotificationStatus.failed ↦ "failed"
  ];
  discriminant = elim [
    | NotificationStatus.pending ↦ 0
    | NotificationStatus.sent ↦ 1
    | NotificationStatus.read ↦ 2
    | NotificationStatus.failed ↦ 3
  ];
  variants =
      NotificationStatus.pending ∷ NotificationStatus.sent ∷ NotificationStatus.read
      ∷ NotificationStatus.failed ∷ [];
  invalid = "invalid NotificationStatus";
}

pub data NotificationType : Type 0 where
  contribution_received milestone_due_soon milestone_underfunded payout_approved payout_completed
        scholarship_awarded kyc_action_required :
      NotificationType

instance abbrev pub notification_type_enum : StringEnum NotificationType
notification_type_enum = record {
  as_str = elim [
    | NotificationType.contribution_received ↦ "contribution_received"
    | NotificationType.milestone_due_soon ↦ "milestone_due_soon"
    | NotificationType.milestone_underfunded ↦ "milestone_underfunded"
    | NotificationType.payout_approved ↦ "payout_approved"
    | NotificationType.payout_completed ↦ "payout_completed"
    | NotificationType.scholarship_awarded ↦ "scholarship_awarded"
    | NotificationType.kyc_action_required ↦ "kyc_action_required"
  ];
  discriminant = elim [
    | NotificationType.contribution_received ↦ 0
    | NotificationType.milestone_due_soon ↦ 1
    | NotificationType.milestone_underfunded ↦ 2
    | NotificationType.payout_approved ↦ 3
    | NotificationType.payout_completed ↦ 4
    | NotificationType.scholarship_awarded ↦ 5
    | NotificationType.kyc_action_required ↦ 6
  ];
  variants =
      NotificationType.contribution_received ∷ NotificationType.milestone_due_soon
      ∷ NotificationType.milestone_underfunded ∷ NotificationType.payout_approved
      ∷ NotificationType.payout_completed ∷ NotificationType.scholarship_awarded
      ∷ NotificationType.kyc_action_required ∷ [];
  invalid = "invalid NotificationType";
}

pub data ExternalReferenceEntityType : Type 0 where
  wallet_account savings_vault contribution payout_request : ExternalReferenceEntityType

instance abbrev pub external_reference_entity_type_enum : StringEnum ExternalReferenceEntityType
external_reference_entity_type_enum = record {
  as_str = elim [
    | ExternalReferenceEntityType.wallet_account ↦ "wallet_account"
    | ExternalReferenceEntityType.savings_vault ↦ "savings_vault"
    | ExternalReferenceEntityType.contribution ↦ "contribution"
    | ExternalReferenceEntityType.payout_request ↦ "payout_request"
  ];
  discriminant = elim [
    | ExternalReferenceEntityType.wallet_account ↦ 0
    | ExternalReferenceEntityType.savings_vault ↦ 1
    | ExternalReferenceEntityType.contribution ↦ 2
    | ExternalReferenceEntityType.payout_request ↦ 3
  ];
  variants =
      ExternalReferenceEntityType.wallet_account ∷ ExternalReferenceEntityType.savings_vault
      ∷ ExternalReferenceEntityType.contribution ∷ ExternalReferenceEntityType.payout_request ∷ [];
  invalid = "invalid ExternalReferenceEntityType";
}

pub data ExternalReferenceKind : Type 0 where
  stellar_account_id soroban_contract_id transaction_hash : ExternalReferenceKind

instance abbrev pub external_reference_kind_enum : StringEnum ExternalReferenceKind
external_reference_kind_enum = record {
  as_str = elim [
    | ExternalReferenceKind.stellar_account_id ↦ "stellar_account_id"
    | ExternalReferenceKind.soroban_contract_id ↦ "soroban_contract_id"
    | ExternalReferenceKind.transaction_hash ↦ "transaction_hash"
  ];
  discriminant = elim [
    | ExternalReferenceKind.stellar_account_id ↦ 0
    | ExternalReferenceKind.soroban_contract_id ↦ 1
    | ExternalReferenceKind.transaction_hash ↦ 2
  ];
  variants =
      ExternalReferenceKind.stellar_account_id ∷ ExternalReferenceKind.soroban_contract_id
      ∷ ExternalReferenceKind.transaction_hash ∷ [];
  invalid = "invalid ExternalReferenceKind";
}

pub data BlockchainTransactionStatus : Type 0 where
  pending submitted confirmed failed retry_scheduled : BlockchainTransactionStatus

instance abbrev pub blockchain_transaction_status_enum : StringEnum BlockchainTransactionStatus
blockchain_transaction_status_enum = record {
  as_str = elim [
    | BlockchainTransactionStatus.pending ↦ "pending"
    | BlockchainTransactionStatus.submitted ↦ "submitted"
    | BlockchainTransactionStatus.confirmed ↦ "confirmed"
    | BlockchainTransactionStatus.failed ↦ "failed"
    | BlockchainTransactionStatus.retry_scheduled ↦ "retry_scheduled"
  ];
  discriminant = elim [
    | BlockchainTransactionStatus.pending ↦ 0
    | BlockchainTransactionStatus.submitted ↦ 1
    | BlockchainTransactionStatus.confirmed ↦ 2
    | BlockchainTransactionStatus.failed ↦ 3
    | BlockchainTransactionStatus.retry_scheduled ↦ 4
  ];
  variants =
      BlockchainTransactionStatus.pending ∷ BlockchainTransactionStatus.submitted
      ∷ BlockchainTransactionStatus.confirmed ∷ BlockchainTransactionStatus.failed
      ∷ BlockchainTransactionStatus.retry_scheduled ∷ [];
  invalid = "invalid BlockchainTransactionStatus";
}
