-- ===== src/Ledger/Balance/Intents.antt =====
-- A new contribution is pending and leaves the balances as they are.
use edustell.Common.{
  ◌||◌, select-∷, total-∷, ensure, str_eq, ℕ, Option, some, none, ◌≡◌, ok, arith, >>=-eq-ok,
  map_error-eq-ok, map_error, ◌∷◌, ap, subst, refl, ◌<◌, pos_part, i64_half,
}
use edustell.Domain.Auth.{user_role_enum, UserRole, AuthenticatedUser}
use edustell.Domain.Records.{Contribution, AuditLog}
use edustell.Store.Env.{Env, Statement, execute}
use edustell.Store.Rows.{ContributionRow}
use edustell.Store.Db.{Db, vault_key, contribution_key}
use edustell.Store.AuditLogs.{append_audit_log}
use edustell.Store.AuditLogs.Steps.{append_audit_log-eq-ok}
use edustell.Store.Contributions.{
  find_contribution_by_key, contribution_row, insert_contribution, create_intent_with_audit,
}
use edustell.Ledger.Balance.{IsReconciled, confirmed_amount}
use edustell.Application.Contributions.{
  from_persistence, from_violation, check_vault_access, ContributionError,
  RecordContributionIntentInput, record_contribution_intent, submit_intent, replay_or_submit,
}
use edustell.Domain.Money.{currency_as_str, money_new}
use edustell.Domain.StringEnum.{eq_enum}
use edustell.Domain.Contributions.{validate_contribution_currency, validate_contribution_amount}

insert_contribution-eq-ok :
    (env : Env) (c saved : Contribution) (db db' : Db)
    → insert_contribution env c db ≡ ok (saved, db')
    → db' ≡ record db { contributions = contribution_row env c ∷ db.contributions }
unfolding insert_contribution
insert_contribution-eq-ok env c saved db db' h = ground arith

create_intent_with_audit-eq-ok :
    (env : Env) (c saved : Contribution) (log : AuditLog) (db db' : Db)
    → create_intent_with_audit env c log db ≡ ok (saved, db')
    → (db'.vaults ≡ db.vaults) × (db'.contributions ≡ contribution_row env c ∷ db.contributions)
unfolding create_intent_with_audit
create_intent_with_audit-eq-ok env c saved log db db' h =
    let (u, e0, h0) = >>=-eq-ok (execute env Statement.begin) _ h in
    let (a, e1, h1) = >>=-eq-ok (insert_contribution env c db) _ h0 in
    let (db2, e2, h2) = >>=-eq-ok (append_audit_log env log a.1) _ h1 in
    ground (
      arith,
      insert_contribution-eq-ok env c a.0 db a.1 e1,
      append_audit_log-eq-ok env log a.1 db2 e2,
    )

insert-IsReconciled :
    (v : ℕ) (db db' : Db) (r : ContributionRow)
    → IsReconciled v db
    → r.status ≡ "pending"
    → pos_part r.amount_minor < i64_half
    → db'.vaults ≡ db.vaults
    → db'.contributions ≡ r ∷ db.contributions
    → IsReconciled v db'
insert-IsReconciled v db db' r R pending bound vaults rows = record {
  balanced = λ x h. ground (
    arith,
    R.balanced x (rw vaults at h),
    rows,
    ap (λ s. str_eq s "confirmed") pending,
    total-∷ (confirmed_amount v) r db.contributions,
  );
  bounded = λ x h. R.bounded x (rw vaults at h);
  amounts = λ j x h. ground (arith, R.amounts j x, select-∷ j r db.contributions);
}

submit_intent-IsReconciled :
    (v : ℕ) (env : Env) (actor : AuthenticatedUser) (input : RecordContributionIntentInput)
    (db db' : Db) (c : Contribution)
    → IsReconciled v db
    → pos_part input.amount_minor < i64_half
    → submit_intent env actor input db ≡ ok (c, db')
    → IsReconciled v db'
unfolding submit_intent contribution_row edustell.Domain.Money.money_new
submit_intent-IsReconciled v env actor input db db' c R bound h =
    let (amount, e0, h0) =
      >>=-eq-ok
        (map_error ContributionError.validation (money_new input.amount_minor input.currency)) _
        h in
    let (vaults, rows) =
      create_intent_with_audit-eq-ok env _ c _ db db' (map_error-eq-ok from_persistence _ h0) in
    insert-IsReconciled v db db' _ R refl (ground (arith, bound, e0)) vaults rows

replay_or_submit-IsReconciled :
    (v : ℕ) (env : Env) (actor : AuthenticatedUser) (input : RecordContributionIntentInput)
    (existing : Option Contribution) (db db' : Db) (c : Contribution)
    → IsReconciled v db
    → pos_part input.amount_minor < i64_half
    → replay_or_submit env actor input existing db ≡ ok (c, db')
    → IsReconciled v db'
unfolding replay_or_submit
replay_or_submit-IsReconciled v env actor input (some existing) db db' c R bound h =
    let same : db ≡ db' = ground arith in subst (IsReconciled v) same R
replay_or_submit-IsReconciled v env actor input none db db' c R bound h =
    submit_intent-IsReconciled v env actor input db db' c R bound h

-- Recording an intent for an amount of type `i64` keeps a vault reconciled.
pub record_contribution_intent-IsReconciled :
    (v : ℕ) (env : Env) (actor : AuthenticatedUser) (input : RecordContributionIntentInput)
    (db db' : Db) (c : Contribution)
    → IsReconciled v db
    → pos_part input.amount_minor < i64_half
    → record_contribution_intent env actor input db ≡ ok (c, db')
    → IsReconciled v db'
unfolding record_contribution_intent
record_contribution_intent-IsReconciled v env actor input db db' c R bound h =
    let (u0, e0, h0) =
      >>=-eq-ok
        (ensure (eq_enum actor.role UserRole.parent || eq_enum actor.role UserRole.contributor)
          ContributionError.forbidden)
        _ h in
    let (u1, e1, h1) =
      >>=-eq-ok (map_error from_violation (validate_contribution_amount input.amount_minor)) _ h0 in
    let (currency, e2, h2) = >>=-eq-ok (check_vault_access env actor input.vault_id db) _ h1 in
    let (u3, e3, h3) =
      >>=-eq-ok
        (map_error from_violation
          (validate_contribution_currency (currency_as_str input.currency) currency))
        _ h2 in
    let (existing, e4, h4) =
      >>=-eq-ok (map_error from_persistence (find_contribution_by_key env input.idempotency_key db))
        _ h3 in
    replay_or_submit-IsReconciled v env actor input existing db db' c R bound h4
