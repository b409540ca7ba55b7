-- ===== src/Domain/Money.antt =====
-- Currencies and amounts (crates/shared/src/currency.rs, crates/shared/src/money.rs).
use Prim.Native.String.{len}
use edustell.Common.{
  String, Bool, true, false, Result, ok, err, ℤ, pos, ltb_ℤ, str_eq, ◌==◌, if◌then◌else◌,
}

pub data Currency : Type 0 where
  usdc : Currency
  fiat : String → Currency

-- `Currency::as_str`, which `Display` writes too.
unfoldable pub currency_as_str : Currency → String
currency_as_str usdc = "USDC"
currency_as_str (fiat code) = code

-- `FromStr for Currency`: `len` counts bytes.
unfoldable pub currency_from_str : String → Result String Currency
currency_from_str value =
    if str_eq value "USDC"
    then ok usdc
    else (if len value == 3 then ok (fiat value) else err "invalid currency")

-- The derived equality.
unfoldable pub eq_currency : Currency → Currency → Bool
eq_currency usdc usdc = true
eq_currency (fiat a) (fiat b) = str_eq a b
eq_currency _ _ = false

pub record Money : Type 0 where
  pub amount_minor : ℤ  -- i64
  pub currency : Currency

-- `Money::new`
unfoldable pub money_new : ℤ → Currency → Result String Money
money_new amount_minor currency =
    if ltb_ℤ amount_minor (pos 0)
    then err "amount must be non-negative"
    else ok (record { amount_minor = amount_minor; currency = currency })
