-- ===== src/Chain/Reconcile.antt =====
-- The reconciliation of a contribution with the chain (crates/application/src/blockchain.rs): what the
-- network answers is settled by the handlers of contributions, and then recorded.
use edustell.Common.{
  ℕ, String, Option, none, some, Bool, true, false, Result, ok, err, map_error, if◌then◌else◌,
}
use edustell.Common.Actions.{attempt, pure, ◌>>=◌, ◌>>◌}
use edustell.Domain.StringEnum.{as_str}
use edustell.Domain.Auth.{UserRole, AuthenticatedUser}
use edustell.Domain.Status.{
  ExternalReferenceEntityType, BlockchainTransactionStatus, external_reference_entity_type_enum,
}
use edustell.Domain.Records.{Contribution}
use edustell.Store.Db.{Db}
use edustell.Application.Contributions.{
  ContributionError, SettlementInput, confirm_contribution, fail_contribution,
}
use edustell.Chain.Types.{
  BlockchainTransactionRecord, BlockchainFacadeError, TransactionState, TransactionStatus, ChainEnv,
  from_blockchain, from_contribution,
}
use edustell.Chain.Repository.{ChainDb, Chained, find_by_entity, update_record}

-- `Uuid::nil` is 0.
abbrev pub system_admin_actor : ℕ → AuthenticatedUser
system_admin_actor user_id = record {
  user_id = user_id;
  role = UserRole.platform_admin;
  session_id = 0;
}

-- A settlement is a transaction on the tables of the other parts.
abbrev pub settled :
    Result ContributionError (Contribution × Db)
    → ChainDb
    → Result BlockchainFacadeError (Option Contribution) × ChainDb
settled (err e) s = (err (from_contribution e), s)
settled (ok (contribution, db')) s = (ok (some contribution), record s { db = db' })

module _ {Boundary Prepared : Type 0} (env : ChainEnv Boundary Prepared) where
  -- What the record becomes.
  unfoldable pub observed :
      TransactionStatus → BlockchainTransactionRecord → BlockchainTransactionRecord
  observed status r = elim (status.state) [
    | TransactionState.succeeded ↦ record r {
      status = BlockchainTransactionStatus.confirmed;
      last_error_code = none;
      last_error_message = none;
      next_retry_at = none;
      updated_at = env.env.utc_now;
    }
    | TransactionState.failed ↦ record r {
      status =
          if status.retryable
          then BlockchainTransactionStatus.retry_scheduled
          else BlockchainTransactionStatus.failed;
      last_error_code = status.error_code;
      last_error_message = status.error_message;
      next_retry_at = if status.retryable then some env.env.utc_now else none;
      updated_at = env.env.utc_now;
    }
    | TransactionState.pending ↦ record r {
      status = BlockchainTransactionStatus.submitted;
      updated_at = env.env.utc_now;
    }
    | TransactionState.unknown ↦ record r {
      status = BlockchainTransactionStatus.submitted;
      updated_at = env.env.utc_now;
    }
  ]

  -- What is settled: a success confirms, a failure for good fails.
  unfoldable pub settle_observed :
      AuthenticatedUser → SettlementInput → TransactionState → Bool → Chained (Option Contribution)
  settle_observed actor input TransactionState.succeeded retryable s =
      settled (confirm_contribution env.env actor input s.db) s
  settle_observed actor input TransactionState.failed false s =
      settled (fail_contribution env.env actor input s.db) s
  settle_observed actor input TransactionState.failed true s = (ok none, s)
  settle_observed actor input TransactionState.pending retryable s = (ok none, s)
  settle_observed actor input TransactionState.unknown retryable s = (ok none, s)

  unfoldable pub reconcile_hash :
      ℕ → ℕ → BlockchainTransactionRecord → Option String → Chained (Option Contribution)
  reconcile_hash system_actor_user_id contribution_id r none =
      attempt (err (BlockchainFacadeError.conflict "blockchain transaction record missing tx hash"))
  reconcile_hash system_actor_user_id contribution_id r (some tx_hash) = do
    status ← attempt (map_error from_blockchain (env.lookup_transaction_status tx_hash))
    contribution ←
        settle_observed (system_admin_actor system_actor_user_id)
          (record { contribution_id = contribution_id; external_reference = r.tx_hash })
          status.state status.retryable
    update_record env (observed status r)
    pure contribution

  unfoldable pub reconcile_record :
      ℕ → ℕ → Option BlockchainTransactionRecord → Chained (Option Contribution)
  reconcile_record system_actor_user_id contribution_id none = pure none
  reconcile_record system_actor_user_id contribution_id (some r) =
      reconcile_hash system_actor_user_id contribution_id r r.tx_hash

  unfoldable pub reconcile_contribution_transaction : ℕ → ℕ → Chained (Option Contribution)
  reconcile_contribution_transaction system_actor_user_id contribution_id = do
    found ←
        find_by_entity env (as_str ExternalReferenceEntityType.contribution) contribution_id
          "vault_contribution"
    reconcile_record system_actor_user_id contribution_id found
