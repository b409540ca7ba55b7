-- ===== src/Store/Contributions/Entries.antt =====
-- What a settlement writes to the vault's ledger.
use edustell.Common.{
  ℕ, String, Option, some, ◌≡◌, refl, false, true, is_some, ℤ, ok, arith, add_i64, sub_i64, ltb_ℤ,
  >>=-eq-ok, ◌∷◌, select, select-update_self, select-key, ap,
}
use edustell.Domain.Status.{ContributionStatus}
use edustell.Domain.StringEnum.{as_str}
use edustell.Domain.Records.{
  Contribution, SavingsVault, VaultLedgerEntry, VaultLedgerEntryType, vault_ledger_entry_type_enum,
}
use edustell.Store.Env.{Env}
use edustell.Store.Rows.{VaultLedgerEntryRow, SavingsVaultRow}
use edustell.Store.Db.{Db, vault_key}
use edustell.Store.Contributions.{post_entry, post_to_ledger, insert_ledger_entry, ledger_row}
use edustell.Store.Vaults.{update_vault_totals, set_totals}
use edustell.Store.Vaults.Steps.{update_vault-eq-ok, try_vault-IsVaultOf}

-- One row at the head of the ledger, of that kind and contribution, and its balance in the vault.
abbrev pub Entered : String → SavingsVault → Contribution → ℤ → Db → Db → Type 0
Entered kind v c after db db' =
    ((row : VaultLedgerEntryRow) × (db'.ledger ≡ row ∷ db.ledger)
      × (row.entry_type ≡ kind)
      × (row.vault_id ≡ v.id)
      × (row.contribution_id ≡ some c.id)
      × (row.amount_minor ≡ c.amount.amount_minor)
      × (row.balance_after_minor ≡ after))
    × ((row : SavingsVaultRow) × (select v.id db'.vaults ≡ some row)
        × (row.total_contributed_minor ≡ after))

-- What a posting leaves: an entry and a new balance, or everything as it was.
abbrev pub Posted :
    ContributionStatus → SavingsVault → Contribution → Option VaultLedgerEntry → Db → Db → Type 0
Posted ContributionStatus.confirmed v c e db db' =
    (is_some e ≡ true)
    × Entered "contribution_confirmed" v c (add_i64 v.total_contributed_minor c.amount.amount_minor)
        db db'
Posted ContributionStatus.reversed v c e db db' =
    (is_some e ≡ true)
    × (ltb_ℤ v.total_contributed_minor c.amount.amount_minor ≡ false)
    × Entered "contribution_reversed" v c (sub_i64 v.total_contributed_minor c.amount.amount_minor)
        db db'
Posted ContributionStatus.failed v c e db db' = (is_some e ≡ false) × (db' ≡ db)
Posted ContributionStatus.pending v c e db db' = (is_some e ≡ false) × (db' ≡ db)

insert_ledger_entry-eq-ok :
    (env : Env) (v : SavingsVault) (c : Contribution) (actor : ℕ) (kind : VaultLedgerEntryType)
    (ref : Option String) (db db' : Db) (e : VaultLedgerEntry)
    → insert_ledger_entry env v c actor kind ref db ≡ ok (e, db')
    → (db'.ledger ≡ ledger_row env v c actor kind ref ∷ db.ledger) × (db'.vaults ≡ db.vaults)
unfolding insert_ledger_entry
insert_ledger_entry-eq-ok env v c actor kind ref db db' e h = ground arith

update_vault_totals-eq-ok :
    (env : Env) (v v' : SavingsVault) (balance : ℤ) (db db' : Db)
    → update_vault_totals env v balance db ≡ ok (v', db')
    → (v'.id ≡ v.id)
      × (v'.total_contributed_minor ≡ balance)
      × (db'.ledger ≡ db.ledger)
      × ((row : SavingsVaultRow) × (select v.id db'.vaults ≡ some row)
          × (row.total_contributed_minor ≡ balance))
unfolding update_vault_totals
update_vault_totals-eq-ok env v v' balance db db' h =
    let (r, found, parsed, contributed, locked, disbursed, wrote) =
      update_vault-eq-ok env v.id (set_totals env balance) db db' v' h in
    let is = try_vault-IsVaultOf (set_totals env balance r) v' parsed in
    let at_row = select-update_self v.id (set_totals env balance) db.vaults r (λ x. refl) found in
    (
      ground (arith, is.id, select-key v.id db.vaults r found),
      is.contributed,
      ap (λ x. x.ledger) wrote,
      (set_totals env balance r, ground (arith, wrote, at_row), refl),
    )

post_entry-Entered :
    (env : Env) (v v' : SavingsVault) (c : Contribution) (actor : ℕ) (kind : VaultLedgerEntryType)
    (balance : ℤ) (db db' : Db) (e : Option VaultLedgerEntry)
    → post_entry env v c actor kind balance db ≡ ok (v', e, db')
    → (is_some e ≡ true) × Entered (as_str kind) v c balance db db'
unfolding post_entry ledger_row
post_entry-Entered env v v' c actor kind balance db db' e h =
    let (a, wrote, rest) = >>=-eq-ok (update_vault_totals env v balance db) _ h in
    let (b, logged, done) =
      >>=-eq-ok (insert_ledger_entry env a.0 c actor kind c.external_reference a.1) _ rest in
    let (id, contributed, ledger, (row, at_row, balanced)) =
      update_vault_totals-eq-ok env v a.0 balance db a.1 wrote in
    let (added, kept) =
      insert_ledger_entry-eq-ok env a.0 c actor kind c.external_reference a.1 b.1 b.0 logged in
    (
      ground (arith, done),
      (
        (
          ledger_row env a.0 c actor kind c.external_reference,
          ground (arith, done, added, ledger),
          refl,
          id,
          refl,
          refl,
          contributed,
        ),
        (row, ground (arith, done, kept, at_row), balanced),
      ),
    )

reversal_posted :
    (env : Env) (v v' : SavingsVault) (c : Contribution) (actor : ℕ) (db db' : Db)
    (e : Option VaultLedgerEntry)
    → post_to_ledger env ContributionStatus.reversed v c actor db ≡ ok (v', e, db')
    → (ltb_ℤ v.total_contributed_minor c.amount.amount_minor ≡ false)
      × (post_entry env v c actor VaultLedgerEntryType.contribution_reversed
            (sub_i64 v.total_contributed_minor c.amount.amount_minor)
            db
          ≡ ok (v', e, db'))
unfolding post_to_ledger
reversal_posted env v v' c actor db db' e h = ground arith

-- A posting that succeeds adds one row to the ledger exactly when the contribution is confirmed or
-- reversed: it has that kind, the contribution's amount, and the balance that the vault's row then
-- has, the old one with the amount added or taken. A reversal had a balance that covers the amount.
pub post_to_ledger-Posted :
    (env : Env) (target : ContributionStatus) (v v' : SavingsVault) (c : Contribution) (actor : ℕ)
    (db db' : Db) (e : Option VaultLedgerEntry)
    → post_to_ledger env target v c actor db ≡ ok (v', e, db')
    → Posted target v c e db db'
unfolding post_to_ledger
post_to_ledger-Posted env ContributionStatus.confirmed v v' c actor db db' e h =
    post_entry-Entered env v v' c actor VaultLedgerEntryType.contribution_confirmed
      (add_i64 v.total_contributed_minor c.amount.amount_minor) db db' e h
post_to_ledger-Posted env ContributionStatus.reversed v v' c actor db db' e h =
    let (covered, posted) = reversal_posted env v v' c actor db db' e h in
    let (logged, entered) =
      post_entry-Entered env v v' c actor VaultLedgerEntryType.contribution_reversed
        (sub_i64 v.total_contributed_minor c.amount.amount_minor) db db' e posted in
    (logged, covered, entered)
post_to_ledger-Posted env ContributionStatus.failed v v' c actor db db' e h = ground arith
post_to_ledger-Posted env ContributionStatus.pending v v' c actor db db' e h = ground arith
