-- ===== src/Text.antt =====
-- Texts as lists of code points, and what the sources use of `str` on them. The texts are ASCII.
pub mod Equal
use actix_send.Prelude.{
  ℕ, ◌+◌, Bool, true, false, ◌&&◌, ◌||◌, List, [], ◌∷◌, map, ltb, ◌==◌, if◌then◌else◌,
}
use Prim.Native.Char.{code}
use Prim.Native.String
use Prim.Native.String.{String}
use mathlib.Core.List.{reverse}

abbrev pub Text : Type 0
Text = List ℕ

-- The code points of a text; the texts of this file are ASCII.
abbrev pub codes : String → Text
codes String.[] = []
codes (String.◌∷◌ c s) = code c ∷ codes s

unfoldable pub equal : Text → Text → Bool
equal [] [] = true
equal [] (d ∷ other) = false
equal (c ∷ text) [] = false
equal (c ∷ text) (d ∷ other) = c == d && equal text other

-- `str` of the standard library, over ASCII: `to_ascii_lowercase`, `contains`, `split` and `trim`.
lower_byte : ℕ → ℕ
lower_byte c = if ltb 64 c && ltb c 91 then c + 32 else c

unfoldable pub to_ascii_lowercase : Text → Text
unfolding lower_byte
to_ascii_lowercase s = map lower_byte s

unfoldable pub is_prefix : Text → Text → Bool
is_prefix [] s = true
is_prefix (x ∷ xs) [] = false
is_prefix (x ∷ xs) (y ∷ ys) = x == y && is_prefix xs ys

unfoldable pub contains : Text → Text → Bool
unfolding is_prefix
contains needle [] = is_prefix needle []
contains needle (y ∷ ys) = is_prefix needle (y ∷ ys) || contains needle ys

unfoldable pub cons_head : ℕ → List Text → List Text
cons_head c [] = (c ∷ []) ∷ []
cons_head c (p ∷ ps) = (c ∷ p) ∷ ps

unfoldable pub split : ℕ → Text → List Text
unfolding cons_head
split sep [] = [] ∷ []
split sep (c ∷ s) = let rest = split sep s in if c == sep then [] ∷ rest else cons_head c rest

-- ASCII white space: tab, line feed, vertical tab, form feed, carriage return, space.
is_space : ℕ → Bool
is_space c = c == 32 || (ltb 8 c && ltb c 14)

trim_start : Text → Text
unfolding is_space
trim_start [] = []
trim_start (c ∷ s) = let rest = trim_start s in if is_space c then rest else c ∷ s

unfoldable pub trim : Text → Text
unfolding trim_start
trim s = reverse (trim_start (reverse (trim_start s)))
