-- ===== src/Chain/Repository.antt =====
-- `PgExternalReferenceRepository` and `PgBlockchainTransactionRepository`
-- (crates/infrastructure/src/persistence/repos.rs): each method is one statement, which commits at once.
use edustell.Common.{
  ℕ, String, Option, none, some, Bool, not, List, ◌∷◌, ◌&&◌, ℤ, ok, err, map_error, transpose,
  Keyed, select, update, find, any, is_some, ◌==◌, str_eq, ok_or,
}
use edustell.Common.Actions.{Action, attempt, gets, modify, guard, ◌>>=◌, ◌>>◌}
use edustell.Domain.StringEnum.{as_str}
use edustell.Domain.Json.{Json}
use edustell.Domain.Status.{
  external_reference_entity_type_enum, external_reference_kind_enum,
  blockchain_transaction_status_enum,
}
use edustell.Store.Env.{Constraint, Stored, map_err, violation}
use edustell.Store.Rows.{parse_status}
use edustell.Store.Db.{Db}
use edustell.Chain.Types.{
  ExternalReference, BlockchainTransactionRecord, BlockchainFacadeError, ChainStatement, ChainEnv,
  from_persistence,
}

pub record ExternalReferenceRow : Type 0 where
  pub id : ℕ
  pub entity_type : String
  pub entity_id : ℕ
  pub reference_kind : String
  pub value : String
  pub metadata : Json
  pub created_at : ℕ
  pub updated_at : ℕ

pub record BlockchainTransactionRecordRow : Type 0 where
  pub id : ℕ
  pub entity_type : String
  pub entity_id : ℕ
  pub operation_kind : String
  pub idempotency_key : String
  pub status : String
  pub tx_hash : Option String
  pub attempt_count : ℤ
  pub last_error_code : Option String
  pub last_error_message : Option String
  pub next_retry_at : Option ℕ
  pub metadata : Json
  pub created_at : ℕ
  pub updated_at : ℕ

-- The tables, and the hashes of the transactions that the network has taken.
pub record ChainDb : Type 0 where
  pub references : List ExternalReferenceRow
  pub records : List BlockchainTransactionRecordRow
  pub submitted : List String
  pub db : Db

instance abbrev pub reference_key : Keyed ExternalReferenceRow
reference_key = record { key = λ r. r.id }

instance abbrev pub record_key : Keyed BlockchainTransactionRecordRow
record_key = record { key = λ r. r.id }

abbrev pub Chained : Type 0 → Type 0
Chained A = Action ChainDb BlockchainFacadeError A

unfoldable pub try_reference : ExternalReferenceRow → Stored ExternalReference
try_reference v = elim (parse_status ⦃e = external_reference_entity_type_enum⦄ v.entity_type) [
  | err e ↦ err e
  | ok entity_type ↦ elim (parse_status ⦃e = external_reference_kind_enum⦄ v.reference_kind) [
    | err e ↦ err e
    | ok reference_kind ↦ ok (record {
      id = v.id;
      entity_type = entity_type;
      entity_id = v.entity_id;
      reference_kind = reference_kind;
      value = v.value;
      metadata = v.metadata;
      created_at = v.created_at;
      updated_at = v.updated_at;
    })
  ]
]

unfoldable pub try_record : BlockchainTransactionRecordRow → Stored BlockchainTransactionRecord
try_record v = elim (parse_status ⦃e = external_reference_entity_type_enum⦄ v.entity_type) [
  | err e ↦ err e
  | ok entity_type ↦ elim (parse_status ⦃e = blockchain_transaction_status_enum⦄ v.status) [
    | err e ↦ err e
    | ok status ↦ ok (record {
      id = v.id;
      entity_type = entity_type;
      entity_id = v.entity_id;
      operation_kind = v.operation_kind;
      idempotency_key = v.idempotency_key;
      status = status;
      tx_hash = v.tx_hash;
      attempt_count = v.attempt_count;
      last_error_code = v.last_error_code;
      last_error_message = v.last_error_message;
      next_retry_at = v.next_retry_at;
      metadata = v.metadata;
      created_at = v.created_at;
      updated_at = v.updated_at;
    })
  ]
]

-- What a query or a statement answered is converted.
abbrev pub parse : {A : Type 0} → Stored A → Chained A
parse result = attempt (map_error from_persistence result)

-- The unique keys of the two tables.
abbrev pub is_reference : String → ℕ → String → ExternalReferenceRow → Bool
is_reference entity_type entity_id reference_kind r =
    str_eq r.entity_type entity_type
    && r.entity_id == entity_id
    && str_eq r.reference_kind reference_kind

abbrev pub is_operation : String → ℕ → String → BlockchainTransactionRecordRow → Bool
is_operation entity_type entity_id operation_kind r =
    str_eq r.entity_type entity_type
    && r.entity_id == entity_id
    && str_eq r.operation_kind operation_kind

abbrev pub has_key : String → BlockchainTransactionRecordRow → Bool
has_key idempotency_key r = str_eq r.idempotency_key idempotency_key

module _ {Boundary Prepared : Type 0} (env : ChainEnv Boundary Prepared) where
  unfoldable pub send : ChainStatement → Chained (Unit {0})
  send s =
      attempt (elim (env.failure s) [ none ↦ ok tt | some e ↦ err (from_persistence (map_err e)) ])

  unfoldable pub constrain : Bool → Constraint → Chained (Unit {0})
  constrain test c = guard test (from_persistence (map_err (violation env.env c)))

  unfoldable pub reference_row : ExternalReference → ExternalReferenceRow
  reference_row r = record {
    id = r.id;
    entity_type = as_str r.entity_type;
    entity_id = r.entity_id;
    reference_kind = as_str r.reference_kind;
    value = r.value;
    metadata = r.metadata;
    created_at = env.env.db_now;
    updated_at = env.env.db_now;
  }

  -- `ExternalReferenceRepository::create`
  unfoldable pub create_reference : ExternalReference → Chained ExternalReference
  create_reference r = do
    send ChainStatement.insert_reference
    known ← gets (λ s. is_some (select r.id s.references))
    taken ← gets (λ s.
        any (is_reference (as_str r.entity_type) r.entity_id (as_str r.reference_kind))
          s.references)
    constrain (not known && not taken) Constraint.unique_key
    modify (λ s. record s { references = reference_row r ∷ s.references })
    parse (try_reference (reference_row r))

  -- `ExternalReferenceRepository::find_one`
  unfoldable pub find_one : String → ℕ → String → Chained (Option ExternalReference)
  find_one entity_type entity_id reference_kind = do
    send ChainStatement.select_reference
    row ← gets (λ s. find (is_reference entity_type entity_id reference_kind) s.references)
    parse (transpose try_reference row)

  unfoldable pub record_row : BlockchainTransactionRecord → BlockchainTransactionRecordRow
  record_row r = record {
    id = r.id;
    entity_type = as_str r.entity_type;
    entity_id = r.entity_id;
    operation_kind = r.operation_kind;
    idempotency_key = r.idempotency_key;
    status = as_str r.status;
    tx_hash = r.tx_hash;
    attempt_count = r.attempt_count;
    last_error_code = r.last_error_code;
    last_error_message = r.last_error_message;
    next_retry_at = r.next_retry_at;
    metadata = r.metadata;
    created_at = env.env.db_now;
    updated_at = env.env.db_now;
  }

  -- `BlockchainTransactionRepository::create`
  unfoldable pub create_record : BlockchainTransactionRecord → Chained BlockchainTransactionRecord
  create_record r = do
    send ChainStatement.insert_record
    known ← gets (λ s. is_some (select r.id s.records))
    keyed ← gets (λ s. any (has_key r.idempotency_key) s.records)
    taken ←
        gets (λ s. any (is_operation (as_str r.entity_type) r.entity_id r.operation_kind) s.records)
    constrain (not known && not keyed && not taken) Constraint.unique_key
    modify (λ s. record s { records = record_row r ∷ s.records })
    parse (try_record (record_row r))

  unfoldable pub set_record :
      BlockchainTransactionRecord → BlockchainTransactionRecordRow → BlockchainTransactionRecordRow
  set_record r row = record row {
    status = as_str r.status;
    tx_hash = r.tx_hash;
    attempt_count = r.attempt_count;
    last_error_code = r.last_error_code;
    last_error_message = r.last_error_message;
    next_retry_at = r.next_retry_at;
    metadata = r.metadata;
    updated_at = env.env.db_now;
  }

  -- `BlockchainTransactionRepository::update`; `fetch_one` fails when there is no row.
  unfoldable pub update_record : BlockchainTransactionRecord → Chained BlockchainTransactionRecord
  update_record r = do
    send ChainStatement.update_record
    found ← gets (λ s. select r.id s.records)
    row ← parse (ok_or found (map_err (violation env.env Constraint.row_not_found)))
    modify (λ s. record s { records = update r.id (set_record r) s.records })
    parse (try_record (set_record r row))

  unfoldable pub find_by_idempotency_key : String → Chained (Option BlockchainTransactionRecord)
  find_by_idempotency_key idempotency_key = do
    send ChainStatement.select_record_by_key
    row ← gets (λ s. find (has_key idempotency_key) s.records)
    parse (transpose try_record row)

  unfoldable pub find_by_entity : String → ℕ → String → Chained (Option BlockchainTransactionRecord)
  find_by_entity entity_type entity_id operation_kind = do
    send ChainStatement.select_record_by_entity
    row ← gets (λ s. find (is_operation entity_type entity_id operation_kind) s.records)
    parse (transpose try_record row)
