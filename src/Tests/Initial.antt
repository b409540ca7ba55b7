-- ===== src/Tests/Initial.antt =====
-- The sample database meets the invariants.
use edustell.Common.{err, ◌≡◌, refl, true, arith, ok, Result, select, total}
use edustell.Store.Db.{vault_key, contribution_key, payout_key}
use edustell.Ledger.Balance.{IsReconciled}
use edustell.Ledger.Reserves.{IsReserved}
use edustell.Tests.Data.{db, is_ok}

-- The result of a call that succeeds.
abbrev pub got : {E A : Type 0} (r : Result E A) → is_ok r ≡ true → A
got (ok a) h = a
got (err e) h = absurd (ground arith)

pub got_lem : {E A : Type 0} (r : Result E A) (h : is_ok r ≡ true) → r ≡ ok (got r h)
got_lem (ok a) h = refl
got_lem (err e) h = absurd (ground arith)

pub db-IsReconciled : IsReconciled 1 db
unfolding select total
db-IsReconciled = record {
  balanced = λ r h. ground arith;
  bounded = λ r h. ground arith;
  amounts = λ id r h. ground arith;
}

pub db-IsReserved : IsReserved 1 db
unfolding select total
db-IsReserved = record {
  locked = λ r h. ground arith;
  disbursed = λ r h. ground arith;
  funded = λ r h. ground arith;
  bounded = λ r h. ground arith;
  amounts = λ id r h. ground arith;
}
