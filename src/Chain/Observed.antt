-- ===== src/Chain/Observed.antt =====
-- What a reconciliation with the chain makes of the network's answer.
use edustell.Common.{ℕ, String, ◌≡◌, some, Bool, true, false, ok, select}
use edustell.Domain.Contributions.{ContributionTransition}
use edustell.Domain.Status.{blockchain_transaction_status_enum}
use edustell.Store.Db.{Db}
use edustell.Application.Contributions.Safety.{Settles}
use edustell.Chain.Types.{
  BlockchainTransactionRecord, TransactionState, TransactionStatus, ChainEnv,
}
use edustell.Chain.Repository.{ChainDb, BlockchainTransactionRecordRow, record_key}

-- What becomes of the contribution: a success confirms it, a failure for good fails it, and anything
-- else leaves the tables of the other parts as they are.
abbrev pub Follows : ℕ → TransactionState → Bool → Db → Db → Type 0
Follows id TransactionState.succeeded retryable db db' =
    Settles id ContributionTransition.confirm db db'
Follows id TransactionState.failed false db db' = Settles id ContributionTransition.fail db db'
Follows id TransactionState.failed true db db' = db' ≡ db
Follows id TransactionState.pending retryable db db' = db' ≡ db
Follows id TransactionState.unknown retryable db db' = db' ≡ db

-- What is recorded of the transaction.
abbrev pub observed_text : TransactionState → Bool → String
observed_text TransactionState.succeeded retryable = "confirmed"
observed_text TransactionState.failed false = "failed"
observed_text TransactionState.failed true = "retry_scheduled"
observed_text TransactionState.pending retryable = "submitted"
observed_text TransactionState.unknown retryable = "submitted"

module _ {Boundary Prepared : Type 0} (env : ChainEnv Boundary Prepared) where
  -- What a reconciliation of a record that is there leaves, by what the network answers.
  abbrev pub Reconciled : ℕ → BlockchainTransactionRecord → ChainDb → ChainDb → Type 0
  Reconciled id r s t =
      (tx_hash : String) × (status : TransactionStatus) × (r.tx_hash ≡ some tx_hash)
      × (env.lookup_transaction_status tx_hash ≡ ok status)
      × Follows id status.state status.retryable s.db t.db
      × ((row : BlockchainTransactionRecordRow) × (select r.id t.records ≡ some row)
          × (row.status ≡ observed_text status.state status.retryable))
