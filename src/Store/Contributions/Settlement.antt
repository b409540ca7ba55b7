-- ===== src/Store/Contributions/Settlement.antt =====
-- A settlement that succeeds, taken apart: the rows that it read and those that it wrote.
use edustell.Common.{
  select-key, ap, ℕ, String, Option, some, ◌≡◌, true, false, ℤ, pos, leb_ℤ, ltb_ℤ, add_i64, sub_i64,
  ok, arith, select, update, >>=-eq-ok, ok_or-eq-ok, ok_or, ◌∙◌,
}
use edustell.Domain.StringEnum.{as_str}
use edustell.Domain.Status.{ContributionStatus, contribution_status_enum}
use edustell.Domain.Records.{
  Contribution, SavingsVault, AuditLog, VaultLedgerEntry, VaultLedgerEntryType,
}
use edustell.Store.Env.{Env, PersistenceError, Statement, execute}
use edustell.Store.Rows.{SavingsVaultRow, ContributionRow}
use edustell.Store.Rows.Fields.{try_contribution-IsContributionOf, IsContributionOf}
use edustell.Store.Db.{Db, vault_key, contribution_key}
use edustell.Store.AuditLogs.{append_audit_log}
use edustell.Store.Vaults.{set_totals, find_vault_for_update}
use edustell.Store.Contributions.{
  set_status, update_contribution, post_to_ledger, settle_row, SettlementResult,
}
use edustell.Store.Contributions.Steps.{update_contribution-eq-ok, post_entry-eq-ok}
use edustell.Store.Vaults.Steps.{try_vault-IsVaultOf, find_vault_for_update-eq-some}
use edustell.Store.AuditLogs.Steps.{append_audit_log-eq-ok}

-- The row of the contribution and that of its vault are found, the status is written, and the
-- vaults become the given table.
pub record IsSettled (env : Env) (c saved : Contribution) (target : ContributionStatus)
    (ref : Option String) (db db' : Db) (r : ContributionRow) (vr : SavingsVaultRow) : Type 0 where
  pub found_row : select c.id db.contributions ≡ some r
  pub found_vault : select c.vault_id db.vaults ≡ some vr
  pub parsed : IsContributionOf (set_status env (as_str target) ref r) saved
  pub contributions :
      db'.contributions ≡ update c.id (set_status env (as_str target) ref) db.contributions
  pub payouts : db'.payouts ≡ db.payouts

-- The balance that a target status leads to, as a function of the old balance and the amount.
abbrev pub balance_after : ContributionStatus → ℤ → ℤ → ℤ
balance_after ContributionStatus.confirmed balance amount = add_i64 balance amount
balance_after ContributionStatus.reversed balance amount = sub_i64 balance amount
balance_after ContributionStatus.failed balance amount = balance
balance_after ContributionStatus.pending balance amount = balance

-- How the vaults change: a confirmation and a reversal write the balance, which is not negative.
abbrev pub VaultsPosted : Env → ContributionStatus → SavingsVaultRow → ℤ → ℕ → Db → Db → Type 0
VaultsPosted env ContributionStatus.failed vr amount id db db' = db'.vaults ≡ db.vaults
VaultsPosted env ContributionStatus.pending vr amount id db db' = db'.vaults ≡ db.vaults
VaultsPosted env ContributionStatus.confirmed vr amount id db db' =
    (leb_ℤ (pos 0) (add_i64 vr.total_contributed_minor amount) ≡ true)
    × (db'.vaults
        ≡ update id (set_totals env (add_i64 vr.total_contributed_minor amount)) db.vaults)
VaultsPosted env ContributionStatus.reversed vr amount id db db' =
    (ltb_ℤ vr.total_contributed_minor amount ≡ false)
    × (leb_ℤ (pos 0) (sub_i64 vr.total_contributed_minor amount) ≡ true)
    × (db'.vaults
        ≡ update id (set_totals env (sub_i64 vr.total_contributed_minor amount)) db.vaults)

post_to_ledger-VaultsPosted :
    (env : Env) (target : ContributionStatus) (v : SavingsVault) (vr : SavingsVaultRow)
    (c : Contribution) (actor : ℕ) (db db' : Db) (v' : SavingsVault) (e : Option VaultLedgerEntry)
    → v.total_contributed_minor ≡ vr.total_contributed_minor
    → post_to_ledger env target v c actor db ≡ ok (v', e, db')
    → VaultsPosted env target vr c.amount.amount_minor v.id db db'
      × (db'.contributions ≡ db.contributions)
      × (db'.payouts ≡ db.payouts)
unfolding post_to_ledger
post_to_ledger-VaultsPosted env ContributionStatus.failed v vr c actor db db' v' e same h =
    ground arith
post_to_ledger-VaultsPosted env ContributionStatus.pending v vr c actor db db' v' e same h =
    ground arith
post_to_ledger-VaultsPosted env ContributionStatus.confirmed v vr c actor db db' v' e same h =
    ground (
      arith,
      post_entry-eq-ok env v c actor VaultLedgerEntryType.contribution_confirmed
          (add_i64 v.total_contributed_minor c.amount.amount_minor) db db' v' e h,
    )
post_to_ledger-VaultsPosted env ContributionStatus.reversed v vr c actor db db' v' e same h =
    ground (
      arith,
      post_entry-eq-ok env v c actor VaultLedgerEntryType.contribution_reversed
          (sub_i64 v.total_contributed_minor c.amount.amount_minor) db db' v' e,
    )

-- The same vaults, amount and identifier by other names.
VaultsPosted-move :
    (env : Env) (target : ContributionStatus) (vr : SavingsVaultRow) (a b : ℤ) (i j : ℕ)
    (db db' e e' : Db)
    → a ≡ b
    → i ≡ j
    → db.vaults ≡ e.vaults
    → db'.vaults ≡ e'.vaults
    → VaultsPosted env target vr a i db db'
    → VaultsPosted env target vr b j e e'
VaultsPosted-move env ContributionStatus.failed vr a b i j db db' e e' p q t u h = ground arith
VaultsPosted-move env ContributionStatus.pending vr a b i j db db' e e' p q t u h = ground arith
VaultsPosted-move env ContributionStatus.confirmed vr a b i j db db' e e' p q t u h = ground arith
VaultsPosted-move env ContributionStatus.reversed vr a b i j db db' e e' p q t u h = ground arith

-- The calls of a settlement that succeeds.
pub record Run (env : Env) (c : Contribution) (target : ContributionStatus) (actor : ℕ)
    (ref : Option String) (log : AuditLog) (db db' : Db) (res : SettlementResult) : Type 0 where
  pub vault : SavingsVault
  pub read : find_vault_for_update env c.vault_id db ≡ ok (some vault)
  pub written : Db
  pub wrote : update_contribution env c.id target ref db ≡ ok (res.contribution, written)
  pub posted : Db
  pub post :
      post_to_ledger env target vault res.contribution actor written
      ≡ ok (res.vault, res.ledger_entry, posted)
  pub logged : append_audit_log env log posted ≡ ok db'

pub settle_row-Run :
    (env : Env) (c : Contribution) (target : ContributionStatus) (actor : ℕ) (ref : Option String)
    (log : AuditLog) (db db' : Db) (res : SettlementResult)
    → settle_row env c target actor ref log db ≡ ok (res, db')
    → Run env c target actor ref log db db' res
unfolding settle_row
settle_row-Run env c target actor ref log db db' res h =
    let (found, e1, h1) = >>=-eq-ok (find_vault_for_update env c.vault_id db) _ h in
    let (v, e2, h2) = >>=-eq-ok (ok_or found PersistenceError.not_found) _ h1 in
    let (s, e3, h3) = >>=-eq-ok (update_contribution env c.id target ref db) _ h2 in
    let (p, e4, h4) = >>=-eq-ok (post_to_ledger env target v s.0 actor s.1) _ h3 in
    let (db3, e5, h5) = >>=-eq-ok (append_audit_log env log p.2) _ h4 in
    let (u, e6, h6) = >>=-eq-ok (execute env Statement.commit) _ h5 in
    record {
      vault = v;
      read = e1 ∙ ap ok (ok_or-eq-ok found PersistenceError.not_found e2);
      written = s.1;
      wrote = ground arith;
      posted = p.2;
      post = ground arith;
      logged = ground arith;
    }

module _ (env : Env) (c : Contribution) (target : ContributionStatus) (actor : ℕ)
    (ref : Option String) (log : AuditLog) (db db' : Db) (res : SettlementResult)
    (run : Run env c target actor ref log db db' res) where
  pub Run-IsSettled :
      (r : ContributionRow) × (vr : SavingsVaultRow) × IsSettled env c res.contribution target ref
        db db' r vr
      × VaultsPosted env target vr r.amount_minor c.vault_id db db'
  Run-IsSettled =
      let (vr, in_vaults, vault) =
        find_vault_for_update-eq-some env c.vault_id db run.vault run.read in
      let (r, in_rows, row, wrote) =
        update_contribution-eq-ok env c.id target ref db run.written res.contribution run.wrote in
      let fields =
        try_contribution-IsContributionOf (set_status env (as_str target) ref r) res.contribution
          row in
      let vault_fields = try_vault-IsVaultOf vr run.vault vault in
      let posted =
        post_to_ledger-VaultsPosted env target run.vault vr res.contribution actor run.written
          run.posted res.vault res.ledger_entry vault_fields.contributed run.post in
      let logged = append_audit_log-eq-ok env log run.posted db' run.logged in
      (
        r,
        vr,
        record {
          found_row = in_rows;
          found_vault = in_vaults;
          parsed = fields;
          contributions = ground arith;
          payouts = ground arith;
        },
        VaultsPosted-move env target vr res.contribution.amount.amount_minor r.amount_minor
            run.vault.id c.vault_id run.written run.posted db db' fields.amount
            (vault_fields.id ∙ select-key c.vault_id db.vaults vr in_vaults) (ground arith)
            (ground arith) posted.0,
      )
