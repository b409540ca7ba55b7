-- ===== src/Store/Payouts/Runs.antt =====
-- `transition_with_audit`, taken apart: the row that it locks decides between a replay and a
-- transition, and a transition leaves these rows behind.
use edustell.Common.{
  ℕ, String, Option, some, ◌≡◌, refl, true, false, ℤ, ok, arith, select, update, >>=-eq-ok,
  ok_or-eq-ok, ok_or, Bool-cases, inl, inr, ◌⊎◌, ◌∙◌, ap, select-key,
}
use edustell.Domain.StringEnum.{as_str, eq_enum}
use edustell.Domain.Status.{PayoutStatus, payout_status_enum}
use edustell.Domain.Records.{PayoutRequest, SavingsVault, AuditLog}
use edustell.Store.Env.{Env, PersistenceError, Statement, execute}
use edustell.Store.Rows.{SavingsVaultRow, PayoutRequestRow, try_payout, parse_status}
use edustell.Store.Rows.Fields.{try_payout-IsPayoutOf, IsPayoutOf}
use edustell.Store.Db.{Db, vault_key, payout_key}
use edustell.Store.AuditLogs.{append_audit_log}
use edustell.Store.AuditLogs.Steps.{append_audit_log-eq-ok}
use edustell.Store.Vaults.{find_vault_for_update}
use edustell.Store.Vaults.Steps.{try_vault-IsVaultOf, find_vault_for_update-eq-some}
use edustell.Store.Payouts.{
  set_review, update_payout, move_funds, move_row, moved_already, transition_with_audit,
  TransitionResult,
}
use edustell.Store.Payouts.Steps.{update_payout-eq-ok, VaultsMoved, move_funds-Moved}

-- The calls of a transition that succeeds.
pub record Run (env : Env) (p : PayoutRequest) (target : PayoutStatus) (actor : ℕ)
    (notes ref : Option String) (log : AuditLog) (db db' : Db) (res : TransitionResult)
    : Type 0 where
  pub vault : SavingsVault
  pub read : find_vault_for_update env p.vault_id db ≡ ok (some vault)
  pub written : Db
  pub wrote : update_payout env p.id target actor notes ref db ≡ ok (res.payout, written)
  pub moved : Db
  pub move : move_funds env target vault res.payout written ≡ ok (res.vault, moved)
  pub logged : append_audit_log env log moved ≡ ok db'

pub move_row-Run :
    (env : Env) (p : PayoutRequest) (target : PayoutStatus) (actor : ℕ) (notes ref : Option String)
    (log : AuditLog) (db db' : Db) (res : TransitionResult)
    → move_row env p target actor notes ref log db ≡ ok (res, db')
    → Run env p target actor notes ref log db db' res
unfolding move_row
move_row-Run env p target actor notes ref log db db' res h =
    let (found, e1, h1) = >>=-eq-ok (find_vault_for_update env p.vault_id db) _ h in
    let (v, e2, h2) = >>=-eq-ok (ok_or found PersistenceError.not_found) _ h1 in
    let (s, e3, h3) = >>=-eq-ok (update_payout env p.id target actor notes ref db) _ h2 in
    let (m, e4, h4) = >>=-eq-ok (move_funds env target v s.0 s.1) _ h3 in
    let (db3, e5, h5) = >>=-eq-ok (append_audit_log env log m.1) _ h4 in
    let (u, e6, h6) = >>=-eq-ok (execute env Statement.commit) _ h5 in
    record {
      vault = v;
      read = e1 ∙ ap ok (ok_or-eq-ok found PersistenceError.not_found e2);
      written = s.1;
      wrote = ground arith;
      moved = m.1;
      move = ground arith;
      logged = ground arith;
    }

-- The row of the payout and that of its vault are found, and the review is written.
pub record IsMoved (env : Env) (p saved : PayoutRequest) (target : PayoutStatus) (actor : ℕ)
    (notes ref : Option String) (db db' : Db) (r : PayoutRequestRow) (vr : SavingsVaultRow)
    : Type 0 where
  pub found_row : select p.id db.payouts ≡ some r
  pub found_vault : select p.vault_id db.vaults ≡ some vr
  pub parsed : IsPayoutOf (set_review env (as_str target) actor notes ref r) saved
  pub payouts :
      db'.payouts ≡ update p.id (set_review env (as_str target) actor notes ref) db.payouts
  pub contributions : db'.contributions ≡ db.contributions

-- The same vaults, amount and identifier by other names.
VaultsMoved-move :
    (env : Env) (target : PayoutStatus) (vr : SavingsVaultRow) (a b : ℤ) (i j : ℕ)
    (db db' e e' : Db)
    → a ≡ b
    → i ≡ j
    → db.vaults ≡ e.vaults
    → db'.vaults ≡ e'.vaults
    → VaultsMoved env target vr a i db db'
    → VaultsMoved env target vr b j e e'
VaultsMoved-move env PayoutStatus.pending vr a b i j db db' e e' p q t u h = ground arith
VaultsMoved-move env PayoutStatus.under_review vr a b i j db db' e e' p q t u h = ground arith
VaultsMoved-move env PayoutStatus.approved vr a b i j db db' e e' p q t u h = ground arith
VaultsMoved-move env PayoutStatus.rejected vr a b i j db db' e e' p q t u h = ground arith
VaultsMoved-move env PayoutStatus.processing vr a b i j db db' e e' p q t u h = ground arith
VaultsMoved-move env PayoutStatus.completed vr a b i j db db' e e' p q t u h = ground arith
VaultsMoved-move env PayoutStatus.failed vr a b i j db db' e e' p q t u (inl h) = inl (ground arith)
VaultsMoved-move env PayoutStatus.failed vr a b i j db db' e e' p q t u (inr h) = inr (ground arith)

module _ (env : Env) (p : PayoutRequest) (target : PayoutStatus) (actor : ℕ)
    (notes ref : Option String) (log : AuditLog) (db db' : Db) (res : TransitionResult) where
  pub Run-IsMoved :
      Run env p target actor notes ref log db db' res
      → (r : PayoutRequestRow) × (vr : SavingsVaultRow) × IsMoved env p res.payout target actor
          notes ref db db' r vr
        × VaultsMoved env target vr r.amount_minor p.vault_id db db'
  Run-IsMoved run =
      let (vr, in_vaults, vault) =
        find_vault_for_update-eq-some env p.vault_id db run.vault run.read in
      let (r, in_rows, row, wrote) =
        update_payout-eq-ok env p.id target actor notes ref db run.written res.payout run.wrote in
      let fields =
        try_payout-IsPayoutOf (set_review env (as_str target) actor notes ref r) res.payout row in
      let vault_fields = try_vault-IsVaultOf vr run.vault vault in
      let (moved, payouts, contributions) =
        move_funds-Moved env target run.vault vr res.payout run.written run.moved res.vault
          vault_fields.locked vault_fields.disbursed run.move in
      let logged = append_audit_log-eq-ok env log run.moved db' run.logged in
      (
        r,
        vr,
        record {
          found_row = in_rows;
          found_vault = in_vaults;
          parsed = fields;
          payouts = ground arith;
          contributions = ground arith;
        },
        VaultsMoved-move env target vr res.payout.amount.amount_minor r.amount_minor run.vault.id
            p.vault_id run.written run.moved db db' fields.amount
            (vault_fields.id ∙ select-key p.vault_id db.vaults vr in_vaults) (ground arith)
            (ground arith) moved,
      )

-- What a successful call has read, and which of its two ways it went.
pub record Decided (env : Env) (id : ℕ) (target : PayoutStatus) (actor : ℕ)
    (notes ref : Option String) (log : AuditLog) (db db' : Db) (res : TransitionResult)
    : Type 0 where
  pub row : PayoutRequestRow
  pub current : PayoutRequest
  pub found : select id db.payouts ≡ some row
  pub parsed : try_payout row ≡ ok current
  pub way :
      ((eq_enum current.status target ≡ true) × (db' ≡ db))
      ⊎ ((eq_enum current.status target ≡ false)
          × (move_row env current target actor notes ref log db ≡ ok (res, db')))

moved_already-eq-ok :
    (env : Env) (p : PayoutRequest) (db db' : Db) (res : TransitionResult)
    → moved_already env p db ≡ ok (res, db')
    → db' ≡ db
unfolding moved_already
moved_already-eq-ok env p db db' res h = ground arith

pub parse_status-as_str :
    (s : PayoutStatus) → parse_status ⦃e = payout_status_enum⦄ (as_str s) ≡ ok s
unfolding parse_status edustell.Domain.StringEnum.from_str
parse_status-as_str PayoutStatus.pending = refl
parse_status-as_str PayoutStatus.under_review = refl
parse_status-as_str PayoutStatus.approved = refl
parse_status-as_str PayoutStatus.rejected = refl
parse_status-as_str PayoutStatus.processing = refl
parse_status-as_str PayoutStatus.completed = refl
parse_status-as_str PayoutStatus.failed = refl

pub transition_with_audit-Decided :
    (env : Env) (id : ℕ) (target : PayoutStatus) (actor : ℕ) (notes ref : Option String)
    (log : AuditLog) (db db' : Db) (res : TransitionResult)
    → transition_with_audit env id (as_str target) actor notes ref log db ≡ ok (res, db')
    → Decided env id target actor notes ref log db db' res
unfolding transition_with_audit
transition_with_audit-Decided env id target actor notes ref log db db' res h =
    let (u, e0, h0) = >>=-eq-ok (execute env Statement.begin) _ h in
    let (w, e1, h1) = >>=-eq-ok (execute env Statement.select_payout) _ h0 in
    let (row, e2, h2) = >>=-eq-ok (ok_or (select id db.payouts) PersistenceError.not_found) _ h1 in
    let (p, e3, h3) = >>=-eq-ok (try_payout row) _ h2 in
    let (t, e4, h4) = >>=-eq-ok (parse_status ⦃e = payout_status_enum⦄ (as_str target)) _ h3 in
    let same_target : t ≡ target = ground (arith, e4, parse_status-as_str target) in
    record {
      row = row;
      current = p;
      found = ok_or-eq-ok (select id db.payouts) PersistenceError.not_found e2;
      parsed = e3;
      way = elim (Bool-cases (eq_enum p.status target)) [
        | inl same ↦
            inl (same, moved_already-eq-ok env p db db' res (ground (arith, h4, same, same_target)))
        | inr other ↦ inr (other, ground (arith, h4, other, same_target))
      ];
    }
