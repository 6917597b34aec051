-- ===== src/Text.antt =====
-- JavaScript strings, as far as frontend/src uses them: lists of UTF-16 code units.
-- `trim` is `String.prototype.trim`, `==` is `===` between strings.
pub mod Equality
pub mod Trim
pub mod Maps
pub mod Sets
use Prim.Native.Char.{code}
use Prim.Native.String.{String}
use interbellum.Common.{
  ℕ, List, [], ◌∷◌, Bool, true, false, ◌&&◌, ◌||◌, ◌≡◌, refl, eqb, leb, if◌then◌else◌,
}

abbrev pub Text : Type 0
Text = List ℕ

-- A literal of the source; its characters all lie in the basic plane.
unfoldable pub codes : String → Text
codes String.[] = []
codes (String.◌∷◌ c s) = code c ∷ codes s

infix 50 ◌==◌
unfoldable pub ◌==◌ : Text → Text → Bool
[] == [] = true
[] == (d ∷ t) = false
(c ∷ s) == [] = false
(c ∷ s) == (d ∷ t) = eqb c d && s == t

-- WhiteSpace and LineTerminator of ECMAScript.
unfoldable pub is_white : ℕ → Bool
is_white c =
    (leb 9 c && leb c 13)
    || eqb c 32
    || eqb c 160
    || eqb c 0x1680
    || (leb 0x2000 c && leb c 0x200a)
    || eqb c 0x2028
    || eqb c 0x2029
    || eqb c 0x202f
    || eqb c 0x205f
    || eqb c 0x3000
    || eqb c 0xfeff

unfoldable pub trim_start : Text → Text
trim_start [] = []
trim_start (c ∷ s) = if is_white c then trim_start s else c ∷ s

-- `c` before a text that is trimmed at its end.
unfoldable pub before_trimmed : ℕ → Text → Text
before_trimmed c [] = if is_white c then [] else c ∷ []
before_trimmed c (d ∷ s) = c ∷ d ∷ s

unfoldable pub trim_end : Text → Text
unfolding before_trimmed
trim_end [] = []
trim_end (c ∷ s) = before_trimmed c (trim_end s)

unfoldable pub trim : Text → Text
trim s = trim_end (trim_start s)

trim_test : trim (codes " \t a b\n ") ≡ codes "a b"
unfolding trim trim_start trim_end is_white codes
trim_test = refl
