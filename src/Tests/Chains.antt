-- ===== src/Tests/Chains.antt =====
-- The properties of the chain at the sample data: a contribution that is submitted.
use edustell.Common.{
  ◌≡◌, refl, true, false, some, none, [], ◌∷◌, ok, err, pos, succeeds, String, any,
}
use edustell.Domain.Json.{Json, end}
use edustell.Domain.Money.{Currency}
use edustell.Domain.Status.{
  ContributionStatus, ContributionSourceType, VaultStatus, ExternalReferenceEntityType,
  ExternalReferenceKind,
}
use edustell.Domain.Records.{Contribution, SavingsVault}
use edustell.Chain.Types.{ChainEnv, ChainId, TransactionState, ExternalReference}
use edustell.Chain.Repository.{
  find_by_entity, ChainDb, ExternalReferenceRow, BlockchainTransactionRecordRow, record_key,
  is_operation,
}
use edustell.Chain.Handlers.{
  SubmitContributionOnchainInput, submit_contribution_onchain, submit_or_replay,
  build_prepared_transaction,
}
use edustell.Chain.Submission.{submit_contribution_onchain-once, submit_or_replay-doubled}
use edustell.Tests.Accounts.{taken, taken_lem}
use edustell.Tests.Data.{env, db}

-- A network that takes every transaction and has seen it succeed.
abbrev chain : ChainEnv String String
chain = record {
  env = env;
  failure = λ s. none;
  new_v4 = elim [
    | ChainId.record_id ↦ 60
    | ChainId.reference_id ↦ 61
    | ChainId.contract_reference_id ↦ 62
  ];
  prepare_vault_call = λ r. ok r.contract_id;
  submit_transaction = λ id p b. ok "hash";
  lookup_transaction_status = λ h. ok (record {
    state = TransactionState.succeeded;
    retryable = false;
    error_code = none;
    error_message = none;
  });
}

abbrev contract_row : ExternalReferenceRow
contract_row = record {
  id = 63;
  entity_type = "savings_vault";
  entity_id = 1;
  reference_kind = "soroban_contract_id";
  value = "C";
  metadata = Json.object end;
  created_at = 0;
  updated_at = 0;
}

abbrev ledger : ChainDb
ledger = record { references = contract_row ∷ []; records = []; submitted = []; db = db }

abbrev input : SubmitContributionOnchainInput String
input = record { contribution_id = 4; idempotency_key = "k"; signing_boundary = "custodial" }

submit_runs : succeeds ((submit_contribution_onchain chain input ledger).0) ≡ true
unfolding edustell.Chain.Handlers.preview_value
    edustell.Chain.Handlers.blockchain_reference_attached edustell.Chain.Handlers.record_audit
    edustell.Chain.Handlers.build_prepared_transaction edustell.Chain.Handlers.legacy_reference
    edustell.Chain.Handlers.reference_or_legacy edustell.Chain.Handlers.find_contract_reference
    edustell.Chain.Handlers.store_tx_hash_reference edustell.Chain.Handlers.submit
    edustell.Chain.Handlers.new_record edustell.Chain.Handlers.submit_or_replay
    edustell.Chain.Handlers.submit_contribution_onchain edustell.Chain.Repository.try_reference
    edustell.Chain.Repository.try_record edustell.Chain.Repository.send
    edustell.Chain.Repository.constrain edustell.Chain.Repository.reference_row
    edustell.Chain.Repository.create_reference edustell.Chain.Repository.find_one
    edustell.Chain.Repository.record_row edustell.Chain.Repository.create_record
    edustell.Chain.Repository.set_record edustell.Chain.Repository.update_record
    edustell.Chain.Repository.find_by_idempotency_key edustell.Chain.Repository.find_by_entity
    edustell.Chain.Types.from_persistence edustell.Chain.Types.from_code
    edustell.Chain.Types.from_contribution edustell.Audit.Event.new_event
    edustell.Audit.Event.into_log edustell.Audit.Service.from_persistence
    edustell.Audit.Service.error_text edustell.Audit.Service.record_event
    edustell.Audit.Redaction.is_sensitive_key edustell.Audit.Redaction.sanitize_audit_log
    edustell.Store.AuditLogs.append_audit_log edustell.Store.Env.map_err
    edustell.Store.Env.violation edustell.Store.Env.execute edustell.Store.Env.require
    edustell.Domain.StringEnum.from_str edustell.Domain.Money.currency_as_str
    edustell.Domain.Money.currency_from_str edustell.Domain.Money.eq_currency
    edustell.Domain.Money.money_new edustell.Store.Rows.parse_money edustell.Store.Rows.parse_status
    edustell.Store.Rows.try_vault edustell.Store.Rows.try_contribution
    edustell.Store.Rows.try_ledger_entry edustell.Store.Rows.try_milestone
    edustell.Store.Rows.try_school edustell.Store.Rows.try_payout
    edustell.Store.Contributions.find_vault edustell.Store.Contributions.find_contribution
    edustell.Common.select edustell.Common.update edustell.Common.find edustell.Common.filter
    edustell.Common.any edustell.Common.total edustell.Common.trim
    edustell.Common.to_ascii_lowercase edustell.Common.starts_with edustell.Common.before
    edustell.Common.second_piece edustell.Common.contains edustell.Common.add_i64
    edustell.Common.sub_i64
submit_runs = refl

submit_contribution_onchain-once_example :
    (submit_contribution_onchain chain input ((submit_contribution_onchain chain input ledger).1)).1
    ≡ (submit_contribution_onchain chain input ledger).1
submit_contribution_onchain-once_example =
    submit_contribution_onchain-once chain chain input input ledger
      ((submit_contribution_onchain chain input ledger).1)
      (taken (submit_contribution_onchain chain input ledger) submit_runs)
      (taken_lem (submit_contribution_onchain chain input ledger) submit_runs) refl

abbrev record_row : BlockchainTransactionRecordRow
record_row = record {
  id = 64;
  entity_type = "contribution";
  entity_id = 4;
  operation_kind = "vault_contribution";
  idempotency_key = "first";
  status = "submitted";
  tx_hash = some "hash0";
  attempt_count = pos 1;
  last_error_code = none;
  last_error_message = none;
  next_retry_at = none;
  metadata = Json.object end;
  created_at = 0;
  updated_at = 0;
}

abbrev recorded : ChainDb
recorded = record ledger { records = record_row ∷ [] }

abbrev pending : Contribution
pending = record {
  id = 4;
  vault_id = 1;
  contributor_user_id = 10;
  amount = record { amount_minor = pos 50; currency = Currency.usdc };
  status = ContributionStatus.pending;
  source_type = ContributionSourceType.usdc;
  external_reference = none;
  idempotency_key = none;
  created_at = 0;
  updated_at = 0;
}

abbrev vault : SavingsVault
vault = record {
  id = 1;
  plan_id = 2;
  owner_user_id = 10;
  currency = "USDC";
  status = VaultStatus.active;
  total_contributed_minor = pos 100;
  total_locked_minor = pos 20;
  total_disbursed_minor = pos 0;
  external_wallet_account_id = none;
  external_contract_ref = none;
  version = pos 1;
  created_at = 0;
  updated_at = 0;
}

abbrev contract : ExternalReference
contract = record {
  id = 63;
  entity_type = ExternalReferenceEntityType.savings_vault;
  entity_id = 1;
  reference_kind = ExternalReferenceKind.soroban_contract_id;
  value = "C";
  metadata = Json.object end;
  created_at = 0;
  updated_at = 0;
}

has_record : any (is_operation "contribution" 4 "vault_contribution") recorded.records ≡ true
unfolding any
has_record = refl

prepares :
    build_prepared_transaction chain pending contract "custodial" "k" recorded ≡ (ok "C", recorded)
unfolding build_prepared_transaction
prepares = refl

submit_or_replay-doubled_example :
    (succeeds ((submit_or_replay chain input pending vault contract none recorded).0) ≡ false)
    × ((submit_or_replay chain input pending vault contract none recorded).1.submitted
        ≡ "hash" ∷ recorded.submitted)
    × ((submit_or_replay chain input pending vault contract none recorded).1.records
        ≡ recorded.records)
submit_or_replay-doubled_example =
    submit_or_replay-doubled chain input pending vault contract "C" "hash" recorded has_record
      prepares refl
