-- ===== src/Chain/Handlers.antt =====
-- The submission of a contribution to the chain (crates/application/src/blockchain.rs). The network is
-- called before the record of the transaction is written. The provisioning of wallets is not modelled.
use Prim.Native.String.{◌++◌, len, slice}
use edustell.Common.{
  ℕ, ◌-◌, String, Option, none, some, [], ◌∷◌, pos, Result, ok, err, map_error, ok_or, leb,
  if◌then◌else◌,
}
use edustell.Common.Actions.{attempt, pure, ◌>>=◌, ◌>>◌}
use edustell.Domain.StringEnum.{as_str}
use edustell.Domain.Json.{Json, end, member}
use edustell.Domain.Money.{currency_as_str}
use edustell.Domain.Status.{
  ExternalReferenceEntityType, ExternalReferenceKind, BlockchainTransactionStatus,
  external_reference_entity_type_enum, external_reference_kind_enum,
}
use edustell.Domain.Records.{Contribution, SavingsVault}
use edustell.Audit.Event.{AuditEntityType, AuditAction, AuditEvent, new_event}
use edustell.Audit.Service.{record_event}
use edustell.Store.Env.{Env, Stored}
use edustell.Store.Db.{Db}
use edustell.Store.Contributions.{find_vault, find_contribution}
use edustell.Chain.Types.{
  ExternalReference, BlockchainTransactionRecord, BlockchainFacadeError, ContractArgument, ChainEnv,
  ChainId, from_persistence, from_blockchain,
}
use edustell.Chain.Repository.{
  Chained, create_reference, find_one, create_record, find_by_idempotency_key,
}

pub record SubmitContributionOnchainInput (Boundary : Type 0) : Type 0 where
  pub contribution_id : ℕ
  pub idempotency_key : String
  pub signing_boundary : Boundary

pub record ContributionOnchainSubmission (Prepared : Type 0) : Type 0 where
  pub contribution : Contribution
  pub processing_record : BlockchainTransactionRecord
  pub prepared_transaction : Prepared
  pub submitted_transaction : Option String

-- The texts that this is called with are ASCII, so that no character is cut.
unfoldable pub preview_value : String → String
preview_value value =
    if leb (len value) 12
    then value
    else slice value 0 6 ++ ("..." ++ slice value (len value - 4) (len value))

unfoldable pub blockchain_reference_attached : Env → Option ℕ → ExternalReference → AuditEvent
unfolding new_event
blockchain_reference_attached env actor_user_id reference =
    record (new_event env 0 AuditEntityType.external_reference reference.id
      AuditAction.blockchain_reference_attached
      (Json.object (
        member "entity_type" (Json.string (as_str reference.entity_type)) (
          member "entity_id" (Json.uuid reference.entity_id) (
            member "reference_kind" (Json.string (as_str reference.reference_kind))
              (member "reference_preview" (Json.string (preview_value reference.value)) end)))))) {
                actor_user_id = actor_user_id;
              }

-- A query of the tables that the other parts write.
abbrev pub query : {A : Type 0} → (Db → Stored A) → Chained A
query read s = (map_error from_persistence (read s.db), s)

unfoldable pub record_audit : Env → AuditEvent → Chained (Unit {0})
record_audit env event s = elim (record_event env event s.db) [
  | err message ↦ (err (BlockchainFacadeError.repository message), s)
  | ok db' ↦ (ok tt, record s { db = db' })
]

module _ {Boundary Prepared : Type 0} (env : ChainEnv Boundary Prepared) where
  unfoldable pub build_prepared_transaction :
      Contribution → ExternalReference → Boundary → String → Chained Prepared
  build_prepared_transaction contribution contract_reference signing_boundary operation_id =
      attempt (
        map_error from_blockchain (
          env.prepare_vault_call (record {
            operation_id = operation_id;
            contract_id = contract_reference.value;
            method = "fund_vault";
            args =
                ContractArgument.uuid_text contribution.vault_id
                ∷ ContractArgument.integer contribution.amount.amount_minor
                ∷ ContractArgument.text (currency_as_str contribution.amount.currency)
                ∷ [];
            amount = some contribution.amount;
            signing_boundary = signing_boundary;
          })))

  -- The column of the vault that older vaults have in place of a reference.
  unfoldable pub legacy_reference :
      SavingsVault → Option String → Result BlockchainFacadeError ExternalReference
  legacy_reference vault none = err BlockchainFacadeError.not_found
  legacy_reference vault (some existing) = ok (record {
    id = env.new_v4 ChainId.contract_reference_id;
    entity_type = ExternalReferenceEntityType.savings_vault;
    entity_id = vault.id;
    reference_kind = ExternalReferenceKind.soroban_contract_id;
    value = existing;
    metadata = Json.object (member "source" (Json.string "legacy_vault_column") end);
    created_at = env.env.utc_now;
    updated_at = env.env.utc_now;
  })

  unfoldable pub reference_or_legacy :
      SavingsVault → Option ExternalReference → Result BlockchainFacadeError ExternalReference
  reference_or_legacy vault none = legacy_reference vault vault.external_contract_ref
  reference_or_legacy vault (some reference) = ok reference

  unfoldable pub find_contract_reference : SavingsVault → Chained ExternalReference
  find_contract_reference vault = do
    found ←
        find_one env (as_str ExternalReferenceEntityType.savings_vault) vault.id
          (as_str ExternalReferenceKind.soroban_contract_id)
    attempt (reference_or_legacy vault found)

  unfoldable pub store_tx_hash_reference : Option ℕ → ℕ → String → Chained (Unit {0})
  store_tx_hash_reference actor_user_id contribution_id tx_hash = do
    reference ← create_reference env (record {
      id = env.new_v4 ChainId.reference_id;
      entity_type = ExternalReferenceEntityType.contribution;
      entity_id = contribution_id;
      reference_kind = ExternalReferenceKind.transaction_hash;
      value = tx_hash;
      metadata = Json.object end;
      created_at = env.env.utc_now;
      updated_at = env.env.utc_now;
    })
    record_audit env.env (blockchain_reference_attached env.env actor_user_id reference)

  -- The network takes the transaction.
  unfoldable pub submit : String → Prepared → Boundary → Chained String
  submit operation_id prepared authorization s =
      elim (env.submit_transaction operation_id prepared authorization) [
        | err e ↦ (err (from_blockchain e), s)
        | ok tx_hash ↦ (ok tx_hash, record s { submitted = tx_hash ∷ s.submitted })
      ]

  unfoldable pub new_record :
      SubmitContributionOnchainInput Boundary
      → Contribution
      → SavingsVault
      → ExternalReference
      → String
      → BlockchainTransactionRecord
  new_record input contribution vault contract_reference tx_hash = record {
    id = env.new_v4 ChainId.record_id;
    entity_type = ExternalReferenceEntityType.contribution;
    entity_id = contribution.id;
    operation_kind = "vault_contribution";
    idempotency_key = input.idempotency_key;
    status = BlockchainTransactionStatus.submitted;
    tx_hash = some tx_hash;
    attempt_count = pos 1;
    last_error_code = none;
    last_error_message = none;
    next_retry_at = none;
    metadata = Json.object (
        member "vault_id" (Json.uuid vault.id) (
          member "contract_id" (Json.string contract_reference.value) (
            member "amount_minor" (Json.number contribution.amount.amount_minor) (
              member "currency" (Json.string (currency_as_str contribution.amount.currency))
                end))));
    created_at = env.env.utc_now;
    updated_at = env.env.utc_now;
  }

  -- The key is new, or its record is there.
  unfoldable pub submit_or_replay :
      SubmitContributionOnchainInput Boundary
      → Contribution
      → SavingsVault
      → ExternalReference
      → Option BlockchainTransactionRecord
      → Chained (ContributionOnchainSubmission Prepared)
  submit_or_replay input contribution vault contract_reference (some existing) = do
    prepared ←
        build_prepared_transaction contribution contract_reference input.signing_boundary
          existing.idempotency_key
    pure (record {
      contribution = contribution;
      processing_record = existing;
      prepared_transaction = prepared;
      submitted_transaction = none;
    })
  submit_or_replay input contribution vault contract_reference none = do
    prepared ←
        build_prepared_transaction contribution contract_reference input.signing_boundary
          input.idempotency_key
    tx_hash ← submit input.idempotency_key prepared input.signing_boundary
    saved ← create_record env (new_record input contribution vault contract_reference tx_hash)
    store_tx_hash_reference (some contribution.contributor_user_id) contribution.id tx_hash
    pure (record {
      contribution = contribution;
      processing_record = saved;
      prepared_transaction = prepared;
      submitted_transaction = some tx_hash;
    })

  unfoldable pub submit_contribution_onchain :
      SubmitContributionOnchainInput Boundary → Chained (ContributionOnchainSubmission Prepared)
  submit_contribution_onchain input = do
    found ← query (find_contribution env.env input.contribution_id)
    contribution ← attempt (ok_or found BlockchainFacadeError.not_found)
    found_vault ← query (find_vault env.env contribution.vault_id)
    vault ← attempt (ok_or found_vault BlockchainFacadeError.not_found)
    contract_reference ← find_contract_reference vault
    existing ← find_by_idempotency_key env input.idempotency_key
    submit_or_replay input contribution vault contract_reference existing
