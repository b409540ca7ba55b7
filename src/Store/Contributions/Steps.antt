-- ===== src/Store/Contributions/Steps.antt =====
-- What each statement of a contribution's workflow leaves behind when it succeeds.
use edustell.Common.{
  >>=-eq-ok, true, pos, leb_ℤ, ℤ, ℕ, String, Option, some, ◌≡◌, ok, arith, select, update,
  Option-cases, inl, inr, ◌∷◌,
}
use edustell.Domain.StringEnum.{as_str}
use edustell.Domain.Status.{ContributionStatus, contribution_status_enum}
use edustell.Domain.Records.{Contribution, SavingsVault, VaultLedgerEntry, VaultLedgerEntryType}
use edustell.Store.Env.{Env, execute}
use edustell.Store.Rows.{ContributionRow, try_contribution}
use edustell.Store.Db.{Db, vault_key, contribution_key}
use edustell.Store.Vaults.{update_vault_totals, set_totals}
use edustell.Store.Vaults.Steps.{try_vault-IsVaultOf, update_vault-eq-ok}
use edustell.Store.Contributions.{
  post_entry, set_status, update_contribution, insert_ledger_entry, ledger_row,
}

pub update_contribution-eq-ok :
    (env : Env) (id : ℕ) (target : ContributionStatus) (ref : Option String) (db db' : Db)
    (c : Contribution)
    → update_contribution env id target ref db ≡ ok (c, db')
    → (r : ContributionRow) × (select id db.contributions ≡ some r)
      × (try_contribution (set_status env (as_str target) ref r) ≡ ok c)
      × (db' ≡ record db {
        contributions = update id (set_status env (as_str target) ref) db.contributions;
      })
unfolding update_contribution execute
update_contribution-eq-ok env id target ref db db' c h =
    elim (Option-cases (select id db.contributions)) [
      | inl missing ↦ absurd (ground arith)
      | inr (r, found) ↦ (r, found, ground arith, ground arith)
    ]

-- An entry of the ledger changes no other table.
pub insert_ledger_entry-eq-ok :
    (env : Env) (v : SavingsVault) (c : Contribution) (actor : ℕ) (kind : VaultLedgerEntryType)
    (ref : Option String) (db db' : Db) (e : VaultLedgerEntry)
    → insert_ledger_entry env v c actor kind ref db ≡ ok (e, db')
    → db' ≡ record db { ledger = ledger_row env v c actor kind ref ∷ db.ledger }
unfolding insert_ledger_entry
insert_ledger_entry-eq-ok env v c actor kind ref db db' e h = ground arith

-- A posting writes the balance and one entry that shows it.
pub post_entry-eq-ok :
    (env : Env) (v : SavingsVault) (c : Contribution) (actor : ℕ) (kind : VaultLedgerEntryType)
    (balance : ℤ) (db db' : Db) (v' : SavingsVault) (e : Option VaultLedgerEntry)
    → post_entry env v c actor kind balance db ≡ ok (v', e, db')
    → (leb_ℤ (pos 0) balance ≡ true)
      × (v'.total_contributed_minor ≡ balance)
      × (db' ≡ record db {
        vaults = update v.id (set_totals env balance) db.vaults;
        ledger = ledger_row env v' c actor kind c.external_reference ∷ db.ledger;
      })
unfolding post_entry update_vault_totals
post_entry-eq-ok env v c actor kind balance db db' v' e h =
    let (a, wrote, rest) = >>=-eq-ok (update_vault_totals env v balance db) _ h in
    let (b, logged, done) =
      >>=-eq-ok (insert_ledger_entry env a.0 c actor kind c.external_reference a.1) _ rest in
    let (r, found, parsed, nonneg, locked, disbursed, moved) =
      update_vault-eq-ok env v.id (set_totals env balance) db a.1 a.0 wrote in
    ground (
      arith,
      insert_ledger_entry-eq-ok env a.0 c actor kind c.external_reference a.1 b.1 b.0 logged,
      (try_vault-IsVaultOf (set_totals env balance r) a.0 parsed).contributed,
    )
