-- ===== src/Application/Payouts/Safety.antt =====
-- What a payout request that succeeds has made sure of.
use edustell.Common.{
  str_eq_iff, ℕ, String, Option, none, some, ◌≡◌, refl, ap, sym, ◌∙◌, true, ℤ, pos, ltb_ℤ, Result,
  ok, arith, >>=-eq-ok, map_error, map_error-eq-ok, ok_or, ok_or-eq-ok, ensure, inl, inr, ◌⊎◌, ◌==◌,
  ◌∷◌,
}
use edustell.Domain.Money.{Currency, eq_currency, currency_as_str, money_new}
use edustell.Domain.Auth.{AuthenticatedUser, UserRole, user_role_enum}
use edustell.Domain.Status.{
  PayoutStatus, SchoolVerificationStatus, payout_status_enum, school_verification_status_enum,
}
use edustell.Domain.Records.{PayoutRequest, SavingsVault, School, Milestone, AuditLog}
use edustell.Domain.Payouts.{
  PayoutRuleViolation, ensure_available_funds, validate_currency_match,
  validate_milestone_association, validate_milestone_payable, validate_payout_amount,
  validate_requester_role, validate_school_verified,
}
use edustell.Store.Env.{Env, PersistenceError, Statement, execute}
use edustell.Store.Db.{Db}
use edustell.Store.AuditLogs.{append_audit_log}
use edustell.Store.AuditLogs.Steps.{append_audit_log-eq-ok}
use edustell.Store.Contributions.{find_vault}
use edustell.Store.Payouts.{
  find_milestone, find_school, find_payout_by_key, insert_payout, payout_row,
  create_request_with_audit,
}
use edustell.Application.Payouts.{
  PayoutError, checked, CreatePayoutRequestInput, from_persistence, from_violation, replay_request,
  submit_request, replay_or_submit, create_payout_request, read_request, check_request, new_request,
}

-- The vault, the milestone and the school of a request, and what was checked of them.
pub record Requested (env : Env) (actor : AuthenticatedUser) (input : CreatePayoutRequestInput)
    (db db' : Db) : Type 0 where
  pub vault : SavingsVault
  pub milestone : Milestone
  pub school : School
  pub read_vault : find_vault env input.vault_id db ≡ ok (some vault)
  pub read_milestone : find_milestone env input.milestone_id db ≡ ok (some milestone)
  pub read_school : find_school env input.school_id db ≡ ok (some school)
  pub owned : vault.owner_user_id ≡ actor.user_id
  pub associated : milestone.vault_id ≡ input.vault_id
  pub payable : validate_milestone_payable milestone.status ≡ ok tt
  pub currency : currency_as_str input.currency ≡ vault.currency
  pub verified : school.verification_status ≡ SchoolVerificationStatus.verified
  pub funds :
      ensure_available_funds vault.total_contributed_minor vault.total_locked_minor
        vault.total_disbursed_minor input.amount_minor
      ≡ ok tt
  pub request : PayoutRequest
  pub pending : request.status ≡ PayoutStatus.pending
  pub amount : request.amount.amount_minor ≡ input.amount_minor
  pub of_vault : (payout_row env request).vault_id ≡ input.vault_id
  pub of_milestone : (payout_row env request).milestone_id ≡ input.milestone_id
  pub of_school : (payout_row env request).school_id ≡ input.school_id
  pub of_actor : (payout_row env request).requested_by ≡ actor.user_id
  pub of_amount : (payout_row env request).amount_minor ≡ input.amount_minor
  pub of_currency : (payout_row env request).currency ≡ currency_as_str input.currency
  pub of_key : (payout_row env request).idempotency_key ≡ some input.idempotency_key
  pub of_status : (payout_row env request).status ≡ "pending"
  pub vaults : db'.vaults ≡ db.vaults
  pub payouts : db'.payouts ≡ payout_row env request ∷ db.payouts

-- The earlier request of the same key, which asks for the same.
pub record Repeated (env : Env) (actor : AuthenticatedUser) (input : CreatePayoutRequestInput)
    (db db' : Db) (p : PayoutRequest) : Type 0 where
  pub found : find_payout_by_key env input.idempotency_key db ≡ ok (some p)
  pub same_vault : p.vault_id ≡ input.vault_id
  pub same_milestone : p.milestone_id ≡ input.milestone_id
  pub same_school : p.school_id ≡ input.school_id
  pub same_actor : p.requested_by ≡ actor.user_id
  pub same_amount : p.amount.amount_minor ≡ input.amount_minor
  pub same_currency : currency_as_str p.amount.currency ≡ currency_as_str input.currency
  pub unchanged : db' ≡ db

found_some :
    {A : Type 0} (m : Result PersistenceError (Option A)) (o : Option A) (a : A)
    → map_error from_persistence m ≡ ok o
    → ok_or o PayoutError.not_found ≡ ok a
    → m ≡ ok (some a)
found_some m o a h found =
    map_error-eq-ok from_persistence m h ∙ ap ok (ok_or-eq-ok o PayoutError.not_found found)

checked-eq-ok :
    (m : Result PayoutRuleViolation (Unit {0})) (u : Unit {0}) → checked m ≡ ok u → m ≡ ok tt
checked-eq-ok m u h = map_error-eq-ok from_violation m h

-- Each check as what it says.
owner_checked : (a b : ℕ) (u : Unit {0}) → ensure (a == b) PayoutError.forbidden ≡ ok u → a ≡ b
owner_checked a b u h = ground arith

milestone_checked : (a b : ℕ) → validate_milestone_association a b ≡ ok tt → a ≡ b
unfolding validate_milestone_association
milestone_checked a b h = ground arith

currency_checked : (a b : String) → validate_currency_match a b ≡ ok tt → a ≡ b
unfolding validate_currency_match
currency_checked a b h = ground (arith, str_eq_iff a b)

school_checked :
    (s : SchoolVerificationStatus)
    → validate_school_verified s ≡ ok tt
    → s ≡ SchoolVerificationStatus.verified
unfolding validate_school_verified
school_checked s h = ground arith

insert_payout-eq-ok :
    (env : Env) (p saved : PayoutRequest) (db db' : Db)
    → insert_payout env p db ≡ ok (saved, db')
    → db' ≡ record db { payouts = payout_row env p ∷ db.payouts }
unfolding insert_payout
insert_payout-eq-ok env p saved db db' h = ground arith

create_request_with_audit-eq-ok :
    (env : Env) (p saved : PayoutRequest) (log : AuditLog) (db db' : Db)
    → create_request_with_audit env p log db ≡ ok (saved, db')
    → (db'.vaults ≡ db.vaults) × (db'.payouts ≡ payout_row env p ∷ db.payouts)
unfolding create_request_with_audit
create_request_with_audit-eq-ok env p saved log db db' h =
    let (u, e0, h0) = >>=-eq-ok (execute env Statement.begin) _ h in
    let (a, e1, h1) = >>=-eq-ok (insert_payout env p db) _ h0 in
    let (db2, e2, h2) = >>=-eq-ok (append_audit_log env log a.1) _ h1 in
    ground
      (arith, insert_payout-eq-ok env p a.0 db a.1 e1, append_audit_log-eq-ok env log a.1 db2 e2)

-- The reads, and the rules that have passed.
record Read (env : Env) (actor : AuthenticatedUser) (input : CreatePayoutRequestInput) (db : Db)
    (vault : SavingsVault) (milestone : Milestone) (school : School) : Type 0 where
  read_vault : find_vault env input.vault_id db ≡ ok (some vault)
  read_milestone : find_milestone env input.milestone_id db ≡ ok (some milestone)
  read_school : find_school env input.school_id db ≡ ok (some school)
  owned : vault.owner_user_id ≡ actor.user_id

read_request-Read :
    (env : Env) (actor : AuthenticatedUser) (input : CreatePayoutRequestInput) (db : Db)
    (vault : SavingsVault) (milestone : Milestone) (school : School)
    → read_request env actor input db ≡ ok (vault, milestone, school)
    → Read env actor input db vault milestone school
unfolding read_request
read_request-Read env actor input db vault milestone school h =
    let (v, e0, h0) =
      >>=-eq-ok (map_error from_persistence (find_vault env input.vault_id db)) _ h in
    let (v1, e1, h1) = >>=-eq-ok (ok_or v PayoutError.not_found) _ h0 in
    let (u2, e2, h2) =
      >>=-eq-ok (ensure (v1.owner_user_id == actor.user_id) PayoutError.forbidden) _ h1 in
    let (m, e3, h3) =
      >>=-eq-ok (map_error from_persistence (find_milestone env input.milestone_id db)) _ h2 in
    let (m1, e4, h4) = >>=-eq-ok (ok_or m PayoutError.not_found) _ h3 in
    let (s, e5, h5) =
      >>=-eq-ok (map_error from_persistence (find_school env input.school_id db)) _ h4 in
    let (s1, e6, h6) = >>=-eq-ok (ok_or s PayoutError.not_found) _ h5 in
    let owned = owner_checked v1.owner_user_id actor.user_id u2 e2 in
    record {
      read_vault = ground (arith, h6, found_some (find_vault env input.vault_id db) v v1 e0 e1);
      read_milestone =
          ground (arith, h6, found_some (find_milestone env input.milestone_id db) m m1 e3 e4);
      read_school = ground (arith, h6, found_some (find_school env input.school_id db) s s1 e5 e6);
      owned = ground (arith, h6, owned);
    }

record Passed (input : CreatePayoutRequestInput) (vault : SavingsVault) (milestone : Milestone)
    (school : School) : Type 0 where
  associated : milestone.vault_id ≡ input.vault_id
  payable : validate_milestone_payable milestone.status ≡ ok tt
  currency : currency_as_str input.currency ≡ vault.currency
  verified : school.verification_status ≡ SchoolVerificationStatus.verified
  funds :
      ensure_available_funds vault.total_contributed_minor vault.total_locked_minor
        vault.total_disbursed_minor input.amount_minor
      ≡ ok tt

check_request-Passed :
    (input : CreatePayoutRequestInput) (vault : SavingsVault) (milestone : Milestone)
    (school : School) (u : Unit {0})
    → check_request input vault milestone school ≡ ok u
    → Passed input vault milestone school
unfolding check_request
check_request-Passed input vault milestone school u h =
    let (u7, e7, h7) =
      >>=-eq-ok (checked (validate_milestone_association milestone.vault_id input.vault_id)) _ h in
    let (u8, e8, h8) = >>=-eq-ok (checked (validate_milestone_payable milestone.status)) _ h7 in
    let (u9, e9, h9) =
      >>=-eq-ok (checked (validate_currency_match (currency_as_str input.currency) vault.currency))
        _ h8 in
    let (ua, ea, ha) =
      >>=-eq-ok (checked (validate_school_verified school.verification_status)) _ h9 in
    record {
      associated = milestone_checked milestone.vault_id input.vault_id (checked-eq-ok _ u7 e7);
      payable = checked-eq-ok _ u8 e8;
      currency =
          currency_checked (currency_as_str input.currency) vault.currency (checked-eq-ok _ u9 e9);
      verified = school_checked school.verification_status (checked-eq-ok _ ua ea);
      funds = checked-eq-ok _ u ha;
    }

submit_request-Requested :
    (env : Env) (actor : AuthenticatedUser) (input : CreatePayoutRequestInput) (db db' : Db)
    (p : PayoutRequest)
    → submit_request env actor input db ≡ ok (p, db')
    → Requested env actor input db db'
unfolding submit_request new_request payout_row edustell.Domain.Money.money_new
submit_request-Requested env actor input db db' p h =
    let (found, e0, h0) = >>=-eq-ok (read_request env actor input db) _ h in
    let (u1, e1, h1) = >>=-eq-ok (check_request input found.0 found.1 found.2) _ h0 in
    let (amount, e2, h2) =
      >>=-eq-ok (map_error PayoutError.validation (money_new input.amount_minor input.currency)) _
        h1 in
    let (vaults, payouts) =
      create_request_with_audit-eq-ok env (new_request env actor input amount) p _ db db'
        (map_error-eq-ok from_persistence _ h2) in
    let read = read_request-Read env actor input db found.0 found.1 found.2 e0 in
    let passed = check_request-Passed input found.0 found.1 found.2 u1 e1 in
    record {
      vault = found.0;
      milestone = found.1;
      school = found.2;
      read_vault = read.read_vault;
      read_milestone = read.read_milestone;
      read_school = read.read_school;
      owned = read.owned;
      associated = passed.associated;
      payable = passed.payable;
      currency = passed.currency;
      verified = passed.verified;
      funds = passed.funds;
      request = new_request env actor input amount;
      pending = refl;
      amount = ground (arith, e2);
      of_vault = refl;
      of_milestone = refl;
      of_school = refl;
      of_actor = refl;
      of_amount = ground (arith, e2);
      of_currency = ground (arith, e2);
      of_key = refl;
      of_status = refl;
      vaults = vaults;
      payouts = payouts;
    }

replayed :
    (actor : AuthenticatedUser) (input : CreatePayoutRequestInput) (existing p : PayoutRequest)
    (db db' : Db)
    → replay_request actor input existing db ≡ ok (p, db')
    → (existing.vault_id ≡ input.vault_id)
      × (existing.milestone_id ≡ input.milestone_id)
      × (existing.school_id ≡ input.school_id)
      × (existing.requested_by ≡ actor.user_id)
      × (existing.amount.amount_minor ≡ input.amount_minor)
      × (eq_currency existing.amount.currency input.currency ≡ true)
      × (p ≡ existing)
      × (db' ≡ db)
unfolding replay_request
replayed actor input existing p db db' h = ground arith

same_text : (a b : Currency) → eq_currency a b ≡ true → currency_as_str a ≡ currency_as_str b
unfolding eq_currency currency_as_str
same_text (Currency.fiat a) (Currency.fiat b) same = ground (arith, str_eq_iff a b)
same_text Currency.usdc Currency.usdc same = refl
same_text (Currency.fiat a) Currency.usdc same = absurd (ground arith)
same_text Currency.usdc (Currency.fiat b) same = absurd (ground arith)

replayed-Repeated :
    (env : Env) (actor : AuthenticatedUser) (input : CreatePayoutRequestInput)
    (existing p : PayoutRequest) (db db' : Db)
    → find_payout_by_key env input.idempotency_key db ≡ ok (some existing)
    → replay_request actor input existing db ≡ ok (p, db')
    → Repeated env actor input db db' p
replayed-Repeated env actor input existing p db db' found h =
    let (vault, milestone, school, requester, amount, currency, same, unchanged) =
      replayed actor input existing p db db' h in
    record {
      found = found ∙ ap (λ x. ok (some x)) (sym same);
      same_vault = ap (λ x. x.vault_id) same ∙ vault;
      same_milestone = ap (λ x. x.milestone_id) same ∙ milestone;
      same_school = ap (λ x. x.school_id) same ∙ school;
      same_actor = ap (λ x. x.requested_by) same ∙ requester;
      same_amount = ap (λ x. x.amount.amount_minor) same ∙ amount;
      same_currency =
          ap (λ x. currency_as_str x.amount.currency) same
          ∙ same_text existing.amount.currency input.currency currency;
      unchanged = unchanged;
    }

replay_or_submit-cases :
    (env : Env) (actor : AuthenticatedUser) (input : CreatePayoutRequestInput)
    (o : Option PayoutRequest) (db db' : Db) (p : PayoutRequest)
    → find_payout_by_key env input.idempotency_key db ≡ ok o
    → replay_or_submit env actor input o db ≡ ok (p, db')
    → Repeated env actor input db db' p ⊎ Requested env actor input db db'
unfolding replay_or_submit
replay_or_submit-cases env actor input (some existing) db db' p found h =
    inl (replayed-Repeated env actor input existing p db db' found h)
replay_or_submit-cases env actor input none db db' p found h =
    inr (submit_request-Requested env actor input db db' p h)

role_checked : (role : UserRole) → validate_requester_role role ≡ ok tt → role ≡ UserRole.parent
unfolding validate_requester_role
role_checked role h = ground arith

amount_checked : (a : ℤ) → validate_payout_amount a ≡ ok tt → ltb_ℤ (pos 0) a ≡ true
unfolding validate_payout_amount
amount_checked a h = ground arith

-- A payout request that succeeds comes from a parent and asks for a positive amount. Either it
-- answers with the earlier request of its key, which asks for the same amount, vault, milestone and
-- school, and nothing is written, or the parent owns the vault, the milestone is the vault's and
-- payable, the school is verified, the currency is the vault's, the available funds cover the amount,
-- and one pending row of that request is added.
pub create_payout_request-Requested :
    (env : Env) (actor : AuthenticatedUser) (input : CreatePayoutRequestInput) (db db' : Db)
    (p : PayoutRequest)
    → create_payout_request env actor input db ≡ ok (p, db')
    → (actor.role ≡ UserRole.parent)
      × (ltb_ℤ (pos 0) input.amount_minor ≡ true)
      × (Repeated env actor input db db' p ⊎ Requested env actor input db db')
unfolding create_payout_request
create_payout_request-Requested env actor input db db' p h =
    let (u0, e0, h0) = >>=-eq-ok (checked (validate_requester_role actor.role)) _ h in
    let (u1, e1, h1) = >>=-eq-ok (checked (validate_payout_amount input.amount_minor)) _ h0 in
    let (o, e2, h2) =
      >>=-eq-ok (map_error from_persistence (find_payout_by_key env input.idempotency_key db)) _
        h1 in
    (
      role_checked actor.role (checked-eq-ok _ u0 e0),
      amount_checked input.amount_minor (checked-eq-ok _ u1 e1),
      replay_or_submit-cases env actor input o db db' p (map_error-eq-ok from_persistence _ e2) h2,
    )
