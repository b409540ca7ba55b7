-- ===== src/Store/Contributions/Decided.antt =====
-- `settle_with_audit`, taken apart: the locked row decides between a replay and a settlement.
use edustell.Common.{
  ℕ, String, Option, some, ◌≡◌, refl, true, false, ok, arith, select, >>=-eq-ok, ok_or-eq-ok, ok_or,
  Bool-cases, inl, inr, ◌⊎◌,
}
use edustell.Domain.StringEnum.{as_str, eq_enum}
use edustell.Domain.Status.{ContributionStatus, contribution_status_enum}
use edustell.Domain.Records.{Contribution, AuditLog}
use edustell.Store.Env.{Env, PersistenceError, Statement, execute}
use edustell.Store.Rows.{ContributionRow, try_contribution, parse_status}
use edustell.Store.Db.{Db, contribution_key}
use edustell.Store.Contributions.{settle_row, settle_with_audit, settled_already, SettlementResult}

-- The text of a status is read back.
pub parse_status-as_str :
    (s : ContributionStatus) → parse_status ⦃e = contribution_status_enum⦄ (as_str s) ≡ ok s
unfolding parse_status edustell.Domain.StringEnum.from_str
parse_status-as_str ContributionStatus.pending = refl
parse_status-as_str ContributionStatus.confirmed = refl
parse_status-as_str ContributionStatus.failed = refl
parse_status-as_str ContributionStatus.reversed = refl

pub settled_already-eq-ok :
    (env : Env) (c : Contribution) (db db' : Db) (res : SettlementResult)
    → settled_already env c db ≡ ok (res, db')
    → db' ≡ db
unfolding settled_already
settled_already-eq-ok env c db db' res h = ground arith

-- What a successful call has read, and which of its two ways it went.
pub record Decided (env : Env) (id : ℕ) (target : ContributionStatus) (actor : ℕ)
    (ref : Option String) (log : AuditLog) (db db' : Db) (res : SettlementResult) : Type 0 where
  pub row : ContributionRow
  pub current : Contribution
  pub found : select id db.contributions ≡ some row
  pub parsed : try_contribution row ≡ ok current
  pub way :
      ((eq_enum current.status target ≡ true) × (db' ≡ db))
      ⊎ ((eq_enum current.status target ≡ false)
          × (settle_row env current target actor ref log db ≡ ok (res, db')))

pub settle_with_audit-Decided :
    (env : Env) (id : ℕ) (target : ContributionStatus) (actor : ℕ) (ref : Option String)
    (log : AuditLog) (db db' : Db) (res : SettlementResult)
    → settle_with_audit env id (as_str target) actor ref log db ≡ ok (res, db')
    → Decided env id target actor ref log db db' res
unfolding settle_with_audit
settle_with_audit-Decided env id target actor ref log db db' res h =
    let (u, e0, h0) = >>=-eq-ok (execute env Statement.begin) _ h in
    let (w, e1, h1) = >>=-eq-ok (execute env Statement.select_contribution) _ h0 in
    let (row, e2, h2) =
      >>=-eq-ok (ok_or (select id db.contributions) PersistenceError.not_found) _ h1 in
    let (c, e3, h3) = >>=-eq-ok (try_contribution row) _ h2 in
    let (t, e4, h4) =
      >>=-eq-ok (parse_status ⦃e = contribution_status_enum⦄ (as_str target)) _ h3 in
    let same_target : t ≡ target = ground (arith, e4, parse_status-as_str target) in
    record {
      row = row;
      current = c;
      found = ok_or-eq-ok (select id db.contributions) PersistenceError.not_found e2;
      parsed = e3;
      way = elim (Bool-cases (eq_enum c.status target)) [
        | inl same ↦
            inl
              (same, settled_already-eq-ok env c db db' res (ground (arith, h4, same, same_target)))
        | inr other ↦ inr (other, ground (arith, h4, other, same_target))
      ];
    }
