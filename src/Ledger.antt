-- ===== src/Ledger.antt =====
-- The balances of a vault against the rows that account for them.
pub mod Balance
pub mod Reserves
pub mod Machine
