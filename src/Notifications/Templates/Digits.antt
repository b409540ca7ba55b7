-- ===== src/Notifications/Templates/Digits.antt =====
-- The digits that `Display` prints (Notifications/Templates): the fuel does not show.
use edustell.Common.{ℕ, zero, suc, ◌*◌, ◌/◌, ◌%◌, ◌<◌, ◌≡◌, arith, ltb, if◌then◌else◌}
use Prim.Native.String.{◌++◌}
use edustell.Notifications.Templates.{decimal, digit}

-- The first number with more digits than the fuel allows.
abbrev limit : ℕ → ℕ
limit zero = 10
limit (suc fuel) = 10 * limit fuel

-- Below the limit the digits are those of the function without fuel: the higher ones, then the last.
decimal-unfueled :
    (fuel n : ℕ)
    → n < limit fuel
    → decimal fuel n ≡ (if ltb n 10 then digit n else decimal fuel (n / 10) ++ digit (n % 10))
unfolding decimal
decimal-unfueled zero n small = ground arith
decimal-unfueled (suc fuel) n small =
    let below : n / 10 < limit fuel = omega arith in
    ground (arith, decimal-unfueled fuel (n / 10) below)

-- The fuel of an `i64` is enough for every number of 64 bits.
pub decimal-i64 :
    (n : ℕ)
    → n < 18446744073709551616
    → decimal 20 n ≡ (if ltb n 10 then digit n else decimal 20 (n / 10) ++ digit (n % 10))
decimal-i64 n small = decimal-unfueled 20 n (omega arith)
