-- ===== src/Application/Awards/Balance.antt =====
-- What a decision does to the balance of its scholarship pool.
use edustell.Common.{
  refl, ok_or-eq-ok, some, map_error, ok_or, sym, select-key, ◌∙◌, ◌∷◌, select-update_self, inr,
  inl, Option-cases, ap, select, negsuc, ℕ, String, ◌≡◌, ◌<◌, ◌≤◌, ◌-◌, pos, pos_part, i64_half, ℤ,
  leb_ℤ, sub_i64, sub_i64_le, ok, arith, >>=-eq-ok, map_error-eq-ok, true,
}
use edustell.Domain.StringEnum.{as_str}
use edustell.Domain.Money.{currency_as_str, money_new}
use edustell.Domain.Auth.{AuthenticatedUser}
use edustell.Domain.Status.{
  scholarship_award_status_enum, ScholarshipApplicationStatus, ScholarshipAwardStatus,
  scholarship_application_status_enum,
}
use edustell.Domain.Records.{AuditLog, ScholarshipPool, ScholarshipApplication, ScholarshipAward}
use edustell.Domain.Scholarships.{
  validate_application_reviewable, can_review, validate_positive_amount, validate_currency,
  ensure_pool_balance,
}
use edustell.Store.Env.{Env, Statement, execute}
use edustell.Store.ScholarshipRows.{
  ScholarshipApplicationRow, ScholarshipAwardRow, ScholarshipPoolRow, try_application,
}
use edustell.Store.Db.{pool_key, application_key, Db}
use edustell.Store.AuditLogs.{append_audit_log}
use edustell.Store.Scholarships.{find_application, find_pool, set_available, update_pool}
use edustell.Store.Awards.{
  award_row, DecisionResult, update_application, insert_award, decide_application_with_audit,
}
use edustell.Application.Scholarships.{ScholarshipError, checked, from_persistence, from_violation}
use edustell.Application.Awards.{
  DecideScholarshipApplicationInput, read_reviewable, new_award, approved_log, approve_application,
}
use edustell.Store.AuditLogs.Steps.{append_audit_log-eq-ok}

-- The row of an application, for each of the two statements that read it.
find_application-row :
    (env : Env) (id : ℕ) (db : Db) (a : ScholarshipApplication)
    → find_application env id db ≡ ok (some a)
    → (r : ScholarshipApplicationRow) × (select id db.applications ≡ some r)
      × (a.id ≡ r.id)
      × (a.pool_id ≡ r.pool_id)
unfolding find_application try_application
find_application-row env id db a h = elim (Option-cases (select id db.applications)) [
  | inl missing ↦ absurd (ground (arith, missing))
  | inr (r, found) ↦ (r, found, ground (arith, found), ground (arith, found))
]

read_reviewable-row :
    (env : Env) (id : ℕ) (db : Db) (a : ScholarshipApplication) (pool : ScholarshipPool)
    → read_reviewable env id db ≡ ok (a, pool)
    → (r : ScholarshipApplicationRow) × (select id db.applications ≡ some r)
      × (a.id ≡ r.id)
      × (a.pool_id ≡ r.pool_id)
unfolding read_reviewable
read_reviewable-row env id db a pool h =
    let (o, e0, h0) = >>=-eq-ok (map_error from_persistence (find_application env id db)) _ h in
    let (a1, e1, h1) = >>=-eq-ok (ok_or o ScholarshipError.not_found) _ h0 in
    let (u, e2, h2) = >>=-eq-ok (checked (validate_application_reviewable a1.status)) _ h1 in
    let (o3, e3, h3) = >>=-eq-ok (map_error from_persistence (find_pool env a1.pool_id db)) _ h2 in
    let (p4, e4, h4) = >>=-eq-ok (ok_or o3 ScholarshipError.not_found) _ h3 in
    let same : a1 ≡ a = ground (arith, h4) in
    find_application-row env id db a (
      map_error-eq-ok from_persistence (find_application env id db) e0
      ∙ ap ok (ok_or-eq-ok o ScholarshipError.not_found e1)
      ∙ ap (λ x. ok (some x)) same)

update_application-row :
    (env : Env) (id : ℕ) (status : String) (db db' : Db) (a : ScholarshipApplication)
    → update_application env id status db ≡ ok (a, db')
    → ((r : ScholarshipApplicationRow) × (select id db.applications ≡ some r)
        × (a.pool_id ≡ r.pool_id))
      × (db'.pools ≡ db.pools)
      × (db'.awards ≡ db.awards)
unfolding update_application try_application
update_application-row env id status db db' a h = elim (Option-cases (select id db.applications)) [
  | inl missing ↦ absurd (ground (arith, missing))
  | inr (r, found) ↦
      ((r, found, ground (arith, found)), ground (arith, found), ground (arith, found))
]

update_pool-row :
    (env : Env) (id : ℕ) (funds : ℤ) (db db' : Db) (pool : ScholarshipPool)
    → update_pool env id funds db ≡ ok (pool, db')
    → ((r : ScholarshipPoolRow) × (select id db'.pools ≡ some r)
        × (r.available_funds_minor ≡ funds))
      × (db'.awards ≡ db.awards)
unfolding update_pool
update_pool-row env id funds db db' pool h = elim (Option-cases (select id db.pools)) [
  | inl missing ↦ absurd (ground (arith, missing))
  | inr (r, found) ↦
      let set = set_available env funds in
      (
        (
          set r,
          ground (arith, found, select-update_self id set db.pools r (λ x. refl) found),
          refl,
        ),
        ground (arith, found),
      )
]

insert_award-row :
    (env : Env) (award saved : ScholarshipAward) (db db' : Db)
    → insert_award env award db ≡ ok (saved, db')
    → (db'.pools ≡ db.pools) × (db'.awards ≡ award_row env award ∷ db.awards)
unfolding insert_award
insert_award-row env award saved db db' h = ground arith

-- What a decision leaves in the tables of pools and awards.
decided-rows :
    (env : Env) (id : ℕ) (status : String) (award : ScholarshipAward) (funds : ℤ) (log : AuditLog)
    (db db' : Db) (res : DecisionResult) (row : ScholarshipApplicationRow)
    → select id db.applications ≡ some row
    → decide_application_with_audit env id status award funds log db ≡ ok (res, db')
    → ((r : ScholarshipPoolRow) × (select row.pool_id db'.pools ≡ some r)
        × (r.available_funds_minor ≡ funds))
      × (db'.awards ≡ award_row env award ∷ db.awards)
unfolding decide_application_with_audit
decided-rows env id status award funds log db db' res row at_row h =
    let (u, e0, h0) = >>=-eq-ok (execute env Statement.begin) _ h in
    let (a, e1, h1) = >>=-eq-ok (update_application env id status db) _ h0 in
    let (p, e2, h2) = >>=-eq-ok (update_pool env a.0.pool_id funds a.1) _ h1 in
    let (w, e3, h3) = >>=-eq-ok (insert_award env award p.1) _ h2 in
    let (l, e4, h4) = >>=-eq-ok (append_audit_log env log w.1) _ h3 in
    let (c, e5, h5) = >>=-eq-ok (execute env Statement.commit) _ h4 in
    let ((read, found, of_pool), pools, awards) =
      update_application-row env id status db a.1 a.0 e1 in
    let ((r, at_pool, left), kept) = update_pool-row env a.0.pool_id funds a.1 p.1 p.0 e2 in
    let (pools3, added) = insert_award-row env award w.0 p.1 w.1 e3 in
    let logged = append_audit_log-eq-ok env log w.1 l e4 in
    let same_pool : a.0.pool_id ≡ row.pool_id = ground (arith, found, at_row, of_pool) in
    let done : db' ≡ l = ground (arith, h5) in
    let pools_end : db'.pools ≡ p.1.pools = ground (arith, done, logged, pools3) in
    (
      (
        r,
        ap (λ t. select row.pool_id t) pools_end
            ∙ ap (λ k. select k p.1.pools) (sym same_pool)
            ∙ at_pool,
        left,
      ),
      ground (arith, done, logged, added, kept, awards),
    )

balance_checked :
    (available amount : ℤ)
    → ensure_pool_balance available amount ≡ ok tt
    → leb_ℤ amount available ≡ true
unfolding ensure_pool_balance
balance_checked available amount h = ground arith

-- What is left of the pool that the handler read.
left_over :
    (n : ℕ) (available amount left : ℤ)
    → available ≡ pos n
    → n < i64_half
    → leb_ℤ (pos 0) amount ≡ true
    → leb_ℤ amount available ≡ true
    → left ≡ sub_i64 available amount
    → left ≡ pos (n - pos_part amount)
left_over n (pos k) (pos a) left same bound nonneg fits e = ground (arith, sub_i64_le n a)
left_over n (pos k) (negsuc a) left same bound nonneg fits e = absurd (ground arith)
left_over n (negsuc k) amount left same bound nonneg fits e = absurd (ground arith)

positive_checked :
    (amount : ℤ) → validate_positive_amount amount ≡ ok tt → leb_ℤ (pos 0) amount ≡ true
unfolding validate_positive_amount
positive_checked amount h = ground arith

-- The row that an approval adds.
abbrev pub AddedAward :
    DecideScholarshipApplicationInput → ScholarshipApplication → Db → Db → Type 0
AddedAward input application db db' =
    (row : ScholarshipAwardRow) × (db'.awards ≡ row ∷ db.awards)
    × (row.status ≡ "approved")
    × (row.application_id ≡ application.id)
    × (row.amount_minor ≡ input.amount_minor)

new_award-columns :
    (env : Env) (actor : AuthenticatedUser) (input : DecideScholarshipApplicationInput)
    (application : ScholarshipApplication) (award : ScholarshipAward)
    → new_award env actor input application ScholarshipAwardStatus.approved ≡ ok award
    → ((award_row env award).status ≡ "approved")
      × ((award_row env award).application_id ≡ application.id)
      × ((award_row env award).amount_minor ≡ input.amount_minor)
unfolding new_award award_row money_new
new_award-columns env actor input application award h = ground arith

-- An approval that succeeds takes the award's amount, which the pool covers, from the pool that the
-- handler read: its row then has the balance read less the amount, without wrapping, when the balance
-- is an `i64` value that is not negative. One approved award of that amount is added.
pub approve_application-balance :
    (env : Env) (actor : AuthenticatedUser) (input : DecideScholarshipApplicationInput)
    (db db' : Db) (res : DecisionResult) (application : ScholarshipApplication)
    (pool : ScholarshipPool) (n : ℕ)
    → read_reviewable env input.application_id db ≡ ok (application, pool)
    → pool.available_funds.amount_minor ≡ pos n
    → n < i64_half
    → approve_application env actor input db ≡ ok (res, db')
    → (pos_part input.amount_minor ≤ n)
      × ((row : ScholarshipPoolRow) × (select application.pool_id db'.pools ≡ some row)
          × (row.available_funds_minor ≡ pos (n - pos_part input.amount_minor)))
      × AddedAward input application db db'
unfolding approve_application
approve_application-balance env actor input db db' res application pool n read funds bound h =
    let (u0, e0, h0) = >>=-eq-ok (checked (can_review actor.role)) _ h in
    let (u1, e1, h1) = >>=-eq-ok (checked (validate_positive_amount input.amount_minor)) _ h0 in
    let (found, e2, h2) = >>=-eq-ok (read_reviewable env input.application_id db) _ h1 in
    let (u3, e3, h3) =
      >>=-eq-ok
        (checked (
          validate_currency (currency_as_str found.1.available_funds.currency)
            (currency_as_str input.currency)))
        _ h2 in
    let (u4, e4, h4) =
      >>=-eq-ok
        (checked (ensure_pool_balance found.1.available_funds.amount_minor input.amount_minor)) _
        h3 in
    let (award, e5, h5) =
      >>=-eq-ok (new_award env actor input found.0 ScholarshipAwardStatus.approved) _ h4 in
    let read_same : (found.0 ≡ application) × (found.1 ≡ pool) = ground (arith, e2, read) in
    let same : found.1.available_funds.amount_minor ≡ pos n =
      ap (λ x. x.available_funds.amount_minor) (read_same.1) ∙ funds in
    let positive =
      positive_checked input.amount_minor
        (map_error-eq-ok from_violation (validate_positive_amount input.amount_minor) e1) in
    let fits = balance_checked found.1.available_funds.amount_minor input.amount_minor (
      map_error-eq-ok from_violation
        (ensure_pool_balance found.1.available_funds.amount_minor input.amount_minor) e4) in
    let (row, at_row, of_id, of_pool) =
      read_reviewable-row env input.application_id db found.0 found.1 e2 in
    let at_id : select found.0.id db.applications ≡ some row =
      ap (λ k. select k db.applications)
        (of_id ∙ select-key input.application_id db.applications row at_row)
      ∙ at_row in
    let ((r, at_pool, left), awards) =
      decided-rows env found.0.id (as_str ScholarshipApplicationStatus.approved) award
        (sub_i64 found.1.available_funds.amount_minor input.amount_minor)
        (approved_log env actor found.0 award found.1) db db' res row at_id
        (map_error-eq-ok from_persistence _ h5) in
    let (status, of_application, amount) = new_award-columns env actor input found.0 award e5 in
    let pool_id : row.pool_id ≡ application.pool_id =
      sym of_pool ∙ ap (λ x. x.pool_id) (read_same.0) in
    (
      ground (arith, fits, same, positive),
      (
        r,
        ap (λ k. select k db'.pools) (sym pool_id) ∙ at_pool,
        left_over n found.1.available_funds.amount_minor input.amount_minor r.available_funds_minor
            same bound positive fits left,
      ),
      (award_row env award, awards, status, of_application ∙ ap (λ x. x.id) (read_same.0), amount),
    )
