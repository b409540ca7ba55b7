-- ===== src/Common/Actions.antt =====
-- Requests that commit statement by statement: a state, and a result that may be an error. What was
-- written before an error stays.
use mathlib.Core.Path.{◌≡◌, refl}
use mathlib.Core.Bool.{Bool, true, false}
use edustell.Common.Results.{Result, ok, err}

abbrev pub Action : Type 0 → Type 0 → Type 0 → Type 0
Action S E A = S → Result E A × S

abbrev pub continue : {S E A B : Type 0} → Result E A × S → (A → Action S E B) → Result E B × S
continue (err failure, s) next = (err failure, s)
continue (ok value, s) next = next value s

infixl 5 ◌>>=◌ ◌>>◌
abbrev pub ◌>>=◌ : {S E A B : Type 0} → Action S E A → (A → Action S E B) → Action S E B
(first >>= next) s = continue (first s) next

abbrev pub ◌>>◌ : {S E A B : Type 0} → Action S E A → Action S E B → Action S E B
first >> second = first >>= λ _. second

-- A computation that does not touch the state.
abbrev pub attempt : {S E A : Type 0} → Result E A → Action S E A
attempt result s = (result, s)

abbrev pub pure : {S E A : Type 0} → A → Action S E A
pure value s = (ok value, s)

-- A query, and a statement that writes.
abbrev pub gets : {S E A : Type 0} → (S → A) → Action S E A
gets query s = (ok (query s), s)

abbrev pub modify : {S E : Type 0} → (S → S) → Action S E (Unit {0})
modify change s = (ok tt, change s)

-- `if !test { return Err(e) }`.
abbrev pub guard : {S E : Type 0} → Bool → E → Action S E (Unit {0})
guard false failure s = (err failure, s)
guard true failure s = (ok tt, s)

-- A chain that succeeds: its first part has succeeded, and the rest from there.
pub continue-eq-ok :
    {S E A B : Type 0} (p : Result E A × S) (next : A → Action S E B) (b : B) (t : S)
    → continue p next ≡ (ok b, t)
    → (a : A) × (u : S) × (p ≡ (ok a, u)) × (next a u ≡ (ok b, t))
continue-eq-ok (ok a, u) next b t h = (a, u, refl, h)
continue-eq-ok (err e, u) next b t h = absurd (cc)
