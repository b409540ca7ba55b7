-- ===== src/Domain/Payouts/Funds.antt =====
-- The funds test of a payout, in whole numbers.
use edustell.Common.{ℕ, ◌≤◌, ◌<◌, ◌+◌, ◌≡◌, ◌↔◌, pos, ok, i64_half, arith, sub_i64_twice}
use edustell.Domain.Payouts.{ensure_available_funds}

-- The test passes exactly when the vault's contributions cover what is locked, what is disbursed
-- and the payout, if the columns are not negative, contributions and payout are `i64` values and
-- the locked and disbursed amounts have a sum of at most 2 ^ 63: the subtractions do not wrap.
pub ensure_available_funds_iff :
    (contributed locked disbursed amount : ℕ)
    → contributed < i64_half
    → amount < i64_half
    → locked + disbursed ≤ i64_half
    → (ensure_available_funds (pos contributed) (pos locked) (pos disbursed) (pos amount) ≡ ok tt)
      ↔ (amount + locked + disbursed ≤ contributed)
unfolding ensure_available_funds
ensure_available_funds_iff c l d a hc ha h = ground (arith, sub_i64_twice c l d hc h)
