-- ===== src/Ledger/Machine.antt =====
-- What a vault is, seen from its books: three sums, and the moves that the settlements and the reviews
-- (crates/application/src/contributions.rs and payouts.rs) may make with them.
pub mod Workflows
pub mod Crossings
pub mod Sums
pub mod Refinement
use edustell.Common.{ℕ, ◌+◌, ◌≤◌, ◌≡◌, ◌⊎◌, ◌<◌}
use edustell.Store.Db.{Db}
use edustell.Ledger.Balance.{confirmed_total, IsReconciled}
use edustell.Ledger.Reserves.{locked_total, disbursed_total, IsReserved}

pub record Funds : Type 0 where
  pub contributed : ℕ
  pub locked : ℕ
  pub disbursed : ℕ

-- What the rows of a vault add up to.
abbrev pub funds : ℕ → Db → Funds
funds v db = record {
  contributed = confirmed_total v db;
  locked = locked_total v db;
  disbursed = disbursed_total v db;
}

-- The moves of the books: a confirmation, a reversal, an approval, a completion and a failure, of an
-- amount. Only free money is locked, and only locked money is paid or released.
pub data Move : Funds → Funds → Type 0 where
  idle : (a : Funds) → Move a a
  deposit : (n : ℕ) (a : Funds) → Move a (record a { contributed = a.contributed + n })
  withdraw : (n : ℕ) (a : Funds) → Move (record a { contributed = a.contributed + n }) a
  lock :
      (n : ℕ) (a : Funds)
      → a.locked + n + a.disbursed ≤ a.contributed
      → Move a (record a { locked = a.locked + n })
  pay :
      (n : ℕ) (a : Funds)
      → Move (record a { locked = a.locked + n }) (record a { disbursed = a.disbursed + n })
  release : (n : ℕ) (a : Funds) → Move (record a { locked = a.locked + n }) a

-- The columns of the vault are its sums, and what is locked or paid was contributed.
abbrev pub InOrder : ℕ → Db → Type 0
InOrder v db = IsReconciled v db × IsReserved v db
