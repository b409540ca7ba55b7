-- ===== src/Common/Words.antt =====
-- Rust's `i64`: an integer whose arithmetic wraps at 64 bits, as it does in a release build.
use Prim.Native.Nat.{ℕ, ◌+◌, ◌-◌, ◌%◌, ◌≤◌, ◌<◌}
use mathlib.Core.Path.{◌≡◌, ◌∙◌}
use mathlib.Core.Bool.{true}
use native.Mathlib.Omega.{arith}
use edustell.Common.Base.{ltb, if◌then◌else◌}
use edustell.Common.Int.{ℤ, pos, negsuc, pos_part, neg_part, ◌+ℤ◌, ◌-ℤ◌, leb_ℤ}

-- 2 ^ 63 and 2 ^ 64.
abbrev pub i64_half : ℕ
i64_half = 9223372036854775808

abbrev pub i64_mod : ℕ
i64_mod = 18446744073709551616

-- The two's complement word of an integer, and the integer that a word stands for.
word : ℤ → ℕ
word (pos n) = n % i64_mod
word (negsuc n) = i64_mod - 1 - n % i64_mod

of_word : ℕ → ℤ
of_word w = if ltb w i64_half then pos w else negsuc (i64_mod - 1 - w)

pub wrap_i64 : ℤ → ℤ
unfolding word of_word
wrap_i64 a = of_word (word a)

unfoldable pub add_i64 : ℤ → ℤ → ℤ
unfolding wrap_i64
add_i64 a b = wrap_i64 (a +ℤ b)

unfoldable pub sub_i64 : ℤ → ℤ → ℤ
unfolding wrap_i64
sub_i64 a b = wrap_i64 (a -ℤ b)

-- The values of the type.
abbrev pub IsI64 : ℤ → Type 0
IsI64 a = (pos_part a < i64_half) × (neg_part a ≤ i64_half)

pub wrap_i64_exact : (a : ℤ) → IsI64 a → wrap_i64 a ≡ a
unfolding wrap_i64
wrap_i64_exact (pos n) h = ground arith
wrap_i64_exact (negsuc n) h = ground arith

-- A sum of two amounts that is not negative has not wrapped.
pub add_i64_nonneg :
    (m n : ℕ)
    → m < i64_half
    → n < i64_half
    → leb_ℤ (pos 0) (add_i64 (pos m) (pos n)) ≡ true
    → add_i64 (pos m) (pos n) ≡ pos (m + n)
unfolding add_i64
add_i64_nonneg m n hm hn h = ground arith

pub sub_i64_le : (m n : ℕ) → m < i64_half → n ≤ m → sub_i64 (pos m) (pos n) ≡ pos (m - n)
unfolding sub_i64
sub_i64_le m n hm h = ground arith

pub wrap_i64_bounded : (a : ℤ) → pos_part (wrap_i64 a) < i64_half
unfolding wrap_i64
wrap_i64_bounded (pos n) = ground arith
wrap_i64_bounded (negsuc n) = ground arith

pub add_i64_bounded : (a b : ℤ) → pos_part (add_i64 a b) < i64_half
unfolding add_i64
add_i64_bounded a b = wrap_i64_bounded (a +ℤ b)

pub sub_i64_bounded : (a b : ℤ) → pos_part (sub_i64 a b) < i64_half
unfolding sub_i64
sub_i64_bounded a b = wrap_i64_bounded (a -ℤ b)

-- Two subtractions from an amount do not wrap, when what is taken away is at most 2 ^ 63.
pub sub_i64_twice :
    (c l d : ℕ)
    → c < i64_half
    → l + d ≤ i64_half
    → sub_i64 (sub_i64 (pos c) (pos l)) (pos d) ≡ pos c -ℤ pos (l + d)
unfolding sub_i64 wrap_i64
sub_i64_twice c l d hc h =
    rw (wrap_i64_exact (pos c -ℤ pos l) (ground arith))
      (wrap_i64_exact ((pos c -ℤ pos l) -ℤ pos d) (ground arith) ∙ ground arith)
