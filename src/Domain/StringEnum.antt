-- ===== src/Domain/StringEnum.antt =====
-- The macro `string_enum!` (crates/domain/src/persistence.rs): what it writes for each enum, and the
-- parsing that is the same for all of them. An enum is an instance of `StringEnum`.
use edustell.Common.{
  ℕ, String, ◌≡◌, Bool, Option, none, some, List, [], ◌∷◌, arith, ◌==◌, if◌then◌else◌, Result, ok,
  ok_or, str_eq, str_eq_iff,
}

pub record StringEnum (A : Type 0) : Type 0 where
  pub as_str : A → String
  pub discriminant : A → ℕ
  pub variants : List A
  pub invalid : String

module _ {A : Type 0} ⦃e : StringEnum A⦄ where
  abbrev pub as_str : A → String
  as_str = e.as_str

  -- The arms of `match value`, in order.
  match_variant : String → List A → Option A
  match_variant v [] = none
  match_variant v (a ∷ r) = if str_eq (e.as_str a) v then some a else match_variant v r

  unfoldable pub from_str : String → Result String A
  unfolding match_variant
  from_str v = ok_or (match_variant v e.variants) e.invalid

  -- The derived `==` compares discriminants.
  abbrev pub eq_enum : A → A → Bool
  eq_enum a b = e.discriminant a == e.discriminant b

  match_variant-eq-some :
      (v : String) (r : List A) (a : A) → match_variant v r ≡ some a → e.as_str a ≡ v
  unfolding match_variant
  match_variant-eq-some v [] a h = cc
  match_variant-eq-some v (b ∷ r) a h =
      ground (arith, str_eq_iff (e.as_str b) v, match_variant-eq-some v r a)

  -- A text that parses is the text of the value that it gives.
  pub from_str-eq-ok : (v : String) (a : A) → from_str v ≡ ok a → e.as_str a ≡ v
  unfolding from_str
  from_str-eq-ok v a h = ground (arith, match_variant-eq-some v e.variants a)
