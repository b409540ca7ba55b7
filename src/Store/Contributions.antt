-- ===== src/Store/Contributions.antt =====
-- Contributions in the database: queries, the intent and the settlement
-- (crates/infrastructure/src/persistence/repos.rs).
pub mod Steps
pub mod Settlement
pub mod Decided
pub mod Entries
use edustell.Common.{
  ℕ, String, Option, none, some, List, [], ◌∷◌, reverse, ℤ, pos, leb_ℤ, ltb_ℤ, add_i64, sub_i64, ok,
  err, ◌>>=◌, ◌>>◌, transpose, ok_or, or_option, is_some, is_none, ◌==◌, if◌then◌else◌, select,
  update, find, filter,
}
use edustell.Domain.StringEnum.{as_str, eq_enum}
use edustell.Domain.Money.{currency_as_str}
use edustell.Domain.Json.{Json, end, member}
use edustell.Domain.Status.{
  ContributionStatus, contribution_status_enum, contribution_source_type_enum,
}
use edustell.Domain.Records.{
  AuditLog, Contribution, SavingsVault, VaultContributor, VaultLedgerEntry, VaultLedgerEntryType,
  vault_ledger_entry_type_enum,
}
use edustell.Store.Env.{
  Env, NewId, Statement, Constraint, PersistenceError, Stored, execute, require, map_err, violation,
}
use edustell.Store.Rows.{
  ContributionRow, VaultLedgerEntryRow, parse_status, try_vault, try_contribution, try_ledger_entry,
}
use edustell.Store.Db.{Db, vault_key, contribution_key, ledger_key, contributor_key, same_key}
use edustell.Store.AuditLogs.{append_audit_log}
use edustell.Store.Vaults.{find_vault_for_update, update_vault_totals}

-- `VaultRepository::find_by_id`
unfoldable pub find_vault : Env → ℕ → Db → Stored (Option SavingsVault)
find_vault env id db = do
  execute env Statement.select_vault
  transpose try_vault (select id db.vaults)

-- `VaultRepository::list_contributors`, oldest first.
unfoldable pub list_contributors : Env → ℕ → Db → Stored (List VaultContributor)
list_contributors env vault_id db = do
  execute env Statement.select_contributors
  ok (reverse (filter (λ c. c.vault_id == vault_id) db.contributors))

-- `ContributionRepository::find_by_id`
unfoldable pub find_contribution : Env → ℕ → Db → Stored (Option Contribution)
find_contribution env id db = do
  execute env Statement.select_contribution
  transpose try_contribution (select id db.contributions)

-- `ContributionRepository::find_by_idempotency_key`
unfoldable pub find_contribution_by_key : Env → String → Db → Stored (Option Contribution)
find_contribution_by_key env key db = do
  execute env Statement.select_contribution_by_key
  transpose try_contribution (find (λ r. same_key r.idempotency_key (some key)) db.contributions)

try_all : List ContributionRow → Stored (List Contribution)
try_all [] = ok []
try_all (r ∷ t) = do c ← try_contribution r; rest ← try_all t; ok (c ∷ rest)

-- `ContributionRepository::list_by_vault`, newest first.
unfoldable pub list_contributions : Env → ℕ → Db → Stored (List Contribution)
unfolding try_all
list_contributions env vault_id db = do
  execute env Statement.select_contribution
  try_all (filter (λ r. r.vault_id == vault_id) db.contributions)

-- `INSERT INTO contributions ... RETURNING ...`: the times are the column defaults.
unfoldable pub contribution_row : Env → Contribution → ContributionRow
contribution_row env c = record {
  id = c.id;
  vault_id = c.vault_id;
  contributor_user_id = c.contributor_user_id;
  amount_minor = c.amount.amount_minor;
  currency = currency_as_str c.amount.currency;
  status = as_str c.status;
  source_type = as_str c.source_type;
  external_reference = c.external_reference;
  idempotency_key = c.idempotency_key;
  created_at = env.db_now;
  updated_at = env.db_now;
}

unfoldable pub insert_contribution : Env → Contribution → Db → Stored (Contribution × Db)
unfolding contribution_row
insert_contribution env c db = do
  execute env Statement.insert_contribution
  require env (ltb_ℤ (pos 0) c.amount.amount_minor) Constraint.check_amount
  require env (is_none (select c.id db.contributions)) Constraint.unique_key
  require env (is_none (find (λ r. same_key r.idempotency_key c.idempotency_key) db.contributions))
      Constraint.unique_key
  require env (is_some (select c.vault_id db.vaults)) Constraint.foreign_key
  saved ← try_contribution (contribution_row env c)
  ok (saved, record db { contributions = contribution_row env c ∷ db.contributions })

unfoldable pub create_intent_with_audit :
    Env → Contribution → AuditLog → Db → Stored (Contribution × Db)
create_intent_with_audit env c log db = do
  execute env Statement.begin
  (saved, db1) ← insert_contribution env c db
  db2 ← append_audit_log env log db1
  execute env Statement.commit
  ok (saved, db2)

-- `UPDATE contributions SET status = $2, external_reference = COALESCE($3, ...) ... RETURNING ...`
abbrev pub set_status : Env → String → Option String → ContributionRow → ContributionRow
set_status env status external_reference r = record r {
  status = status;
  external_reference = or_option external_reference r.external_reference;
  updated_at = env.db_now;
}

unfoldable pub update_contribution :
    Env → ℕ → ContributionStatus → Option String → Db → Stored (Contribution × Db)
update_contribution env id target external_reference db = do
  execute env Statement.update_contribution
  row ← ok_or (select id db.contributions) (map_err (violation env Constraint.row_not_found))
  let change = set_status env (as_str target) external_reference
  saved ← try_contribution (change row)
  ok (saved, record db { contributions = update id change db.contributions })

unfoldable pub ledger_row :
    Env
    → SavingsVault
    → Contribution
    → ℕ
    → VaultLedgerEntryType
    → Option String
    → VaultLedgerEntryRow
ledger_row env vault c actor_user_id entry_type external_reference = record {
  id = env.new_v4 NewId.ledger_entry;
  vault_id = vault.id;
  contribution_id = some c.id;
  actor_user_id = some actor_user_id;
  entry_type = as_str entry_type;
  amount_minor = c.amount.amount_minor;
  currency = currency_as_str c.amount.currency;
  balance_after_minor = vault.total_contributed_minor;
  external_reference = external_reference;
  metadata = Json.object (member "contribution_status" (Json.string (as_str c.status)) end);
  created_at = env.db_now;
  updated_at = env.db_now;
}

unfoldable pub insert_ledger_entry :
    Env
    → SavingsVault
    → Contribution
    → ℕ
    → VaultLedgerEntryType
    → Option String
    → Db
    → Stored (VaultLedgerEntry × Db)
unfolding ledger_row
insert_ledger_entry env vault c actor_user_id entry_type external_reference db = do
  let row = ledger_row env vault c actor_user_id entry_type external_reference
  execute env Statement.insert_ledger_entry
  require env (leb_ℤ (pos 0) row.balance_after_minor) Constraint.check_amount
  require env (is_none (select row.id db.ledger)) Constraint.unique_key
  entry ← try_ledger_entry row
  ok (entry, record db { ledger = row ∷ db.ledger })

-- The balance is written, and then the entry with the balance that the update returned.
unfoldable pub post_entry :
    Env
    → SavingsVault
    → Contribution
    → ℕ
    → VaultLedgerEntryType
    → ℤ
    → Db
    → Stored (SavingsVault × Option VaultLedgerEntry × Db)
post_entry env vault c actor_user_id entry_type balance db = do
  (vault', db1) ← update_vault_totals env vault balance db
  (entry, db2) ← insert_ledger_entry env vault' c actor_user_id entry_type c.external_reference db1
  ok (vault', some entry, db2)

-- The `match target_status` of `settle_with_audit`.
unfoldable pub post_to_ledger :
    Env
    → ContributionStatus
    → SavingsVault
    → Contribution
    → ℕ
    → Db
    → Stored (SavingsVault × Option VaultLedgerEntry × Db)
post_to_ledger env ContributionStatus.confirmed vault c actor_user_id db =
    post_entry env vault c actor_user_id VaultLedgerEntryType.contribution_confirmed
      (add_i64 vault.total_contributed_minor c.amount.amount_minor) db
post_to_ledger env ContributionStatus.reversed vault c actor_user_id db =
    if ltb_ℤ vault.total_contributed_minor c.amount.amount_minor
    then err (PersistenceError.conflict "vault balance would become negative")
    else post_entry env vault c actor_user_id VaultLedgerEntryType.contribution_reversed
        (sub_i64 vault.total_contributed_minor c.amount.amount_minor) db
post_to_ledger env ContributionStatus.failed vault c actor_user_id db = ok (vault, none, db)
post_to_ledger env ContributionStatus.pending vault c actor_user_id db = ok (vault, none, db)

-- `ContributionSettlementResult`
pub record SettlementResult : Type 0 where
  pub contribution : Contribution
  pub ledger_entry : Option VaultLedgerEntry
  pub vault : SavingsVault

-- The row is already in the target status: nothing is written.
unfoldable pub settled_already : Env → Contribution → Db → Stored (SettlementResult × Db)
settled_already env c db = do
  found ← find_vault_for_update env c.vault_id db
  vault ← ok_or found PersistenceError.not_found
  execute env Statement.rollback
  ok (record { contribution = c; ledger_entry = none; vault = vault }, db)

unfoldable pub settle_row :
    Env
    → Contribution
    → ContributionStatus
    → ℕ
    → Option String
    → AuditLog
    → Db
    → Stored (SettlementResult × Db)
settle_row env c target actor_user_id external_reference log db = do
  found ← find_vault_for_update env c.vault_id db
  vault ← ok_or found PersistenceError.not_found
  (saved, db1) ← update_contribution env c.id target external_reference db
  (vault', entry, db2) ← post_to_ledger env target vault saved actor_user_id db1
  db3 ← append_audit_log env log db2
  execute env Statement.commit
  ok (record { contribution = saved; ledger_entry = entry; vault = vault' }, db3)

unfoldable pub settle_with_audit :
    Env → ℕ → String → ℕ → Option String → AuditLog → Db → Stored (SettlementResult × Db)
settle_with_audit env contribution_id status actor_user_id external_reference log db = do
  execute env Statement.begin
  execute env Statement.select_contribution
  current ← ok_or (select contribution_id db.contributions) PersistenceError.not_found
  c ← try_contribution current
  target ← parse_status ⦃e = contribution_status_enum⦄ status
  if eq_enum c.status target
      then settled_already env c db
      else settle_row env c target actor_user_id external_reference log db
