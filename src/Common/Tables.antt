-- ===== src/Common/Tables.antt =====
-- A table of rows with a numeric primary key: the first row of a key is the row of that key.
use Prim.Native.Nat.{ℕ, ◌+◌, ◌≤◌}
use mathlib.Core.Path.{◌≡◌, refl}
use mathlib.Core.Logic.{◌≢◌}
use mathlib.Core.Bool.{Bool, true, false}
use mathlib.Core.Option.{Option, none, some}
use mathlib.Core.List.{List, [], ◌∷◌}
use native.Mathlib.Omega.{arith}
use edustell.Common.Base.{◌==◌, if◌then◌else◌}

pub record Keyed (V : Type 0) : Type 0 where
  pub key : V → ℕ

module _ {V : Type 0} ⦃e : Keyed V⦄ where
  -- `SELECT ... WHERE id = k`
  unfoldable pub select : ℕ → List V → Option V
  select k [] = none
  select k (r ∷ t) = if e.key r == k then some r else select k t

  -- `UPDATE ... WHERE id = k`
  unfoldable pub update : ℕ → (V → V) → List V → List V
  update k f [] = []
  update k f (r ∷ t) = if e.key r == k then f r ∷ t else r ∷ update k f t

  -- The first row that passes a test.
  unfoldable pub find : (V → Bool) → List V → Option V
  find p [] = none
  find p (r ∷ t) = if p r then some r else find p t

  unfoldable pub filter : (V → Bool) → List V → List V
  filter p [] = []
  filter p (r ∷ t) = let rest = filter p t in if p r then r ∷ rest else rest

  unfoldable pub any : (V → Bool) → List V → Bool
  any p [] = false
  any p (r ∷ t) = if p r then true else any p t

  -- The sum of a weight over the rows.
  unfoldable pub total : (V → ℕ) → List V → ℕ
  total w [] = 0
  total w (r ∷ t) = w r + total w t

  pub select-∷ :
      (k : ℕ) (r : V) (t : List V)
      → select k (r ∷ t) ≡ (if e.key r == k then some r else select k t)
  unfolding select
  select-∷ k r t = refl

  pub total-∷ : (w : V → ℕ) (r : V) (t : List V) → total w (r ∷ t) ≡ w r + total w t
  unfolding total
  total-∷ w r t = refl

  pub select-key : (k : ℕ) (t : List V) (r : V) → select k t ≡ some r → e.key r ≡ k
  unfolding select
  select-key k [] r h = cc
  select-key k (x ∷ t) r h = ground (arith, select-key k t r)

  pub select-update_self :
      (k : ℕ) (f : V → V) (t : List V) (r : V)
      → ((v : V) → e.key (f v) ≡ e.key v)
      → select k t ≡ some r
      → select k (update k f t) ≡ some (f r)
  unfolding select update
  select-update_self k f [] r keeps h = cc
  select-update_self k f (x ∷ t) r keeps h =
      ground (arith, keeps x, keeps r, select-update_self k f t r keeps)

  pub select-update_ne :
      (j k : ℕ) (f : V → V) (t : List V)
      → ((v : V) → e.key (f v) ≡ e.key v)
      → j ≢ k
      → select j (update k f t) ≡ select j t
  unfolding select update
  select-update_ne j k f [] keeps h = refl
  select-update_ne j k f (r ∷ t) keeps h = ground (arith, keeps r, select-update_ne j k f t keeps h)

  -- An update moves the sum by the change of the one row.
  pub total-update :
      (w : V → ℕ) (k : ℕ) (f : V → V) (t : List V) (r : V)
      → select k t ≡ some r
      → total w (update k f t) + w r ≡ total w t + w (f r)
  unfolding select update total
  total-update w k f [] r h = cc
  total-update w k f (x ∷ t) r h = ground (arith, total-update w k f t r)

  -- A row's weight is part of the sum.
  pub total-member :
      (w : V → ℕ) (k : ℕ) (t : List V) (r : V) → select k t ≡ some r → w r ≤ total w t
  unfolding select total
  total-member w k [] r h = absurd (ground arith)
  total-member w k (x ∷ t) r h = ground (arith, total-member w k t r)

-- A column of the selected row, and an update that keeps it.
abbrev pub map_option : {A B : Type 0} → (A → B) → Option A → Option B
map_option f none = none
map_option f (some a) = some (f a)

pub select-update_column :
    {V C : Type 0} ⦃e : Keyed V⦄ (column : V → C) (j k : ℕ) (f : V → V) (t : List V)
    → ((v : V) → e.key (f v) ≡ e.key v)
    → ((v : V) → column (f v) ≡ column v)
    → map_option column (select j (update k f t)) ≡ map_option column (select j t)
unfolding select update
select-update_column column j k f [] keeps same = λ i. none
select-update_column column j k f (r ∷ t) keeps same =
    ground (arith, keeps r, same r, select-update_column column j k f t keeps same)

pub map_option-eq-some :
    {A B : Type 0} (f : A → B) (o : Option A) (b : B)
    → map_option f o ≡ some b
    → (a : A) × (o ≡ some a) × (f a ≡ b)
map_option-eq-some f none b h = absurd (cc)
map_option-eq-some f (some a) b h = (a, λ i. some a, ground arith)
