-- ===== src/Common/Texts.antt =====
-- Texts: the native `String`, its equality, and `str::trim`.
use Prim.Native.Nat.{ℕ, ◌-◌}
use Prim.Native.Char.{Char, code}
use Prim.Native.String.{String, char_at}
use mathlib.Core.Path.{◌≡◌}
use mathlib.Core.Logic.{◌↔◌}
use mathlib.Core.Bool.{Bool, true, false, ◌&&◌, ◌||◌}
use mathlib.Core.Option.{Option, none, some}
use text.Mathlib.Text.{◌==◌ as text_eq}
use text.Mathlib.TextEquality.{eq_iff}
use edustell.Common.Base.{leb, ◌==◌, if◌then◌else◌}

abbrev pub str_eq : String → String → Bool
str_eq = text_eq

pub str_eq_iff : (s t : String) → (str_eq s t ≡ true) ↔ (s ≡ t)
str_eq_iff = eq_iff

abbrev pub is_empty : String → Bool
is_empty String.[] = true
is_empty (String.◌∷◌ c s) = false

-- `char::is_whitespace`: the code points of the Unicode property White_Space.
pub is_whitespace : ℕ → Bool
is_whitespace c =
    (leb 9 c && leb c 13)
    || c == 32
    || c == 133
    || c == 160
    || c == 5760
    || (leb 8192 c && leb c 8202)
    || c == 8232
    || c == 8233
    || c == 8239
    || c == 8287
    || c == 12288

pub trim_start : String → String
unfolding is_whitespace
trim_start String.[] = String.[]
trim_start (String.◌∷◌ c s) = if is_whitespace (code c) then trim_start s else String.◌∷◌ c s

pub trim_end : String → String
unfolding is_whitespace
trim_end String.[] = String.[]
trim_end (String.◌∷◌ c s) =
    let rest = trim_end s in
    if is_whitespace (code c) && is_empty rest then String.[] else String.◌∷◌ c rest

unfoldable pub trim : String → String
unfolding trim_start trim_end
trim s = trim_start (trim_end s)

-- `str::to_ascii_lowercase`
lower_char : Char → Char
lower_char c =
    if leb 65 (code c) && leb (code c) 90
    then char_at "abcdefghijklmnopqrstuvwxyz" (code c - 65)
    else c

unfoldable pub lower_text : String → String
unfolding lower_char
lower_text String.[] = String.[]
lower_text (String.◌∷◌ c s) = String.◌∷◌ (lower_char c) (lower_text s)

unfoldable pub to_ascii_lowercase : String → String
unfolding lower_text
to_ascii_lowercase s = lower_text s

-- `str::starts_with` and `str::contains`
unfoldable pub starts_with : String → String → Bool
starts_with t String.[] = true
starts_with String.[] (String.◌∷◌ c s) = false
starts_with (String.◌∷◌ d t) (String.◌∷◌ c s) = (code d == code c) && starts_with t s

pub contains_text : String → String → Bool
unfolding starts_with
contains_text String.[] s = starts_with String.[] s
contains_text (String.◌∷◌ c t) s = starts_with (String.◌∷◌ c t) s || contains_text t s

unfoldable pub contains : String → String → Bool
unfolding contains_text
contains t s = contains_text t s

-- The pieces of a text at a separator: the text before its first, and the rest after it.
unfoldable pub before : ℕ → String → String
before sep String.[] = String.[]
before sep (String.◌∷◌ c s) = if code c == sep then String.[] else String.◌∷◌ c (before sep s)

unfoldable pub after : ℕ → String → Option String
after sep String.[] = none
after sep (String.◌∷◌ c s) = if code c == sep then some s else after sep s

-- `text.split(sep).nth(1).unwrap_or_default()`
unfoldable pub second_piece : ℕ → String → String
unfolding before after
second_piece sep s = elim (after sep s) [ none ↦ String.[] | some rest ↦ before sep rest ]
