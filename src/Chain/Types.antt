-- ===== src/Chain/Types.antt =====
-- Records and references of the chain (crates/domain/src/persistence.rs, crates/blockchain/src/lib.rs),
-- and what the handlers use from outside: the client of the contract, the submitter and the lookup,
-- which call the network. What they prepare, sign and answer is theirs.
use edustell.Common.{ℕ, String, Option, Bool, ℤ, List, Result}
use edustell.Domain.Json.{Json}
use edustell.Domain.Money.{Money}
use edustell.Domain.Status.{
  ExternalReferenceEntityType, ExternalReferenceKind, BlockchainTransactionStatus,
}
use edustell.Store.Env.{Env, PersistenceError, SqlxError}
use edustell.Application.Contributions.{ContributionError}

pub record ExternalReference : Type 0 where
  pub id : ℕ
  pub entity_type : ExternalReferenceEntityType
  pub entity_id : ℕ
  pub reference_kind : ExternalReferenceKind
  pub value : String
  pub metadata : Json
  pub created_at : ℕ
  pub updated_at : ℕ

pub record BlockchainTransactionRecord : Type 0 where
  pub id : ℕ
  pub entity_type : ExternalReferenceEntityType
  pub entity_id : ℕ
  pub operation_kind : String
  pub idempotency_key : String
  pub status : BlockchainTransactionStatus
  pub tx_hash : Option String
  pub attempt_count : ℤ
  pub last_error_code : Option String
  pub last_error_message : Option String
  pub next_retry_at : Option ℕ
  pub metadata : Json
  pub created_at : ℕ
  pub updated_at : ℕ

pub data BlockchainErrorCode : Type 0 where
  validation unauthorized not_found conflict insufficient_funds : BlockchainErrorCode
  signature_required submission_rejected timeout rate_limited : BlockchainErrorCode
  unavailable internal : BlockchainErrorCode

-- The fields of the error that the facade reads.
pub record BlockchainError : Type 0 where
  pub code : BlockchainErrorCode
  pub message : String

pub data TransactionState : Type 0 where
  pending succeeded failed unknown : TransactionState

-- The fields of the status that the facade reads.
pub record TransactionStatus : Type 0 where
  pub state : TransactionState
  pub retryable : Bool
  pub error_code : Option String
  pub error_message : Option String

-- A `Uuid` among the arguments is its text, kept as its number.
pub data ContractArgument : Type 0 where
  uuid_text : ℕ → ContractArgument
  integer : ℤ → ContractArgument
  text : String → ContractArgument

pub record VaultContractCallRequest (Boundary : Type 0) : Type 0 where
  pub operation_id : String
  pub contract_id : String
  pub method : String
  pub args : List ContractArgument
  pub amount : Option Money
  pub signing_boundary : Boundary

pub data BlockchainFacadeError : Type 0 where
  validation conflict unavailable rejected repository : String → BlockchainFacadeError
  forbidden not_found : BlockchainFacadeError

unfoldable pub from_persistence : PersistenceError → BlockchainFacadeError
from_persistence PersistenceError.not_found = BlockchainFacadeError.not_found
from_persistence (PersistenceError.conflict message) = BlockchainFacadeError.conflict message
from_persistence (PersistenceError.validation message) = BlockchainFacadeError.validation message
from_persistence (PersistenceError.repository message) = BlockchainFacadeError.repository message

unfoldable pub from_code : BlockchainErrorCode → String → BlockchainFacadeError
from_code BlockchainErrorCode.validation message = BlockchainFacadeError.validation message
from_code BlockchainErrorCode.unauthorized message = BlockchainFacadeError.forbidden
from_code BlockchainErrorCode.not_found message = BlockchainFacadeError.not_found
from_code BlockchainErrorCode.conflict message = BlockchainFacadeError.conflict message
from_code BlockchainErrorCode.submission_rejected message = BlockchainFacadeError.rejected message
from_code BlockchainErrorCode.insufficient_funds message = BlockchainFacadeError.rejected message
from_code BlockchainErrorCode.signature_required message = BlockchainFacadeError.rejected message
from_code BlockchainErrorCode.timeout message = BlockchainFacadeError.unavailable message
from_code BlockchainErrorCode.rate_limited message = BlockchainFacadeError.unavailable message
from_code BlockchainErrorCode.unavailable message = BlockchainFacadeError.unavailable message
from_code BlockchainErrorCode.internal message = BlockchainFacadeError.unavailable message

abbrev pub from_blockchain : BlockchainError → BlockchainFacadeError
from_blockchain e = from_code e.code e.message

unfoldable pub from_contribution : ContributionError → BlockchainFacadeError
from_contribution (ContributionError.validation message) = BlockchainFacadeError.validation message
from_contribution ContributionError.forbidden = BlockchainFacadeError.forbidden
from_contribution ContributionError.not_found = BlockchainFacadeError.not_found
from_contribution (ContributionError.conflict message) = BlockchainFacadeError.conflict message
from_contribution (ContributionError.repository message) = BlockchainFacadeError.repository message

pub data ChainStatement : Type 0 where
  insert_reference select_reference insert_record update_record : ChainStatement
  select_record_by_key select_record_by_entity : ChainStatement

-- The places where the code calls `Uuid::new_v4`.
pub data ChainId : Type 0 where
  record_id reference_id contract_reference_id : ChainId

pub record ChainEnv (Boundary Prepared : Type 0) : Type 0 where
  pub env : Env
  pub failure : ChainStatement → Option SqlxError
  pub new_v4 : ChainId → ℕ
  pub prepare_vault_call : VaultContractCallRequest Boundary → Result BlockchainError Prepared
  pub submit_transaction : String → Prepared → Boundary → Result BlockchainError String  -- the hash
  pub lookup_transaction_status : String → Result BlockchainError TransactionStatus
