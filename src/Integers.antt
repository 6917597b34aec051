-- ===== src/Integers.antt =====
-- JavaScript's integers where frontend/src reads and prints them: `Number.parseInt(raw, 10)` and
-- `String(n)`. They are exact here; the engine agrees up to 2^53, and -0 is 0.
pub mod RoundTrip
use interbellum.Common.{
  ℕ, zero, suc, ◌+◌, ◌-◌, ◌*◌, ◌/◌, ◌%◌, List, [], ◌∷◌, ◌++◌, Bool, true, false, ◌&&◌, Option, none,
  some, ◌≡◌, refl, ltb, leb, eqb, if◌then◌else◌,
}
use interbellum.Text.{Text, codes, trim_start, is_white}

-- `negsuc n` is -(n + 1).
pub data ℤ : Type 0 where
  pos : ℕ → ℤ
  negsuc : ℕ → ℤ

-- -n.
abbrev pub neg : ℕ → ℤ
neg zero = pos zero
neg (suc n) = negsuc n

-- The decimal digits of `n`, by a number of rounds that is above `n`.
unfoldable pub digits : ℕ → ℕ → Text
digits zero n = []
digits (suc fuel) n =
    let rest = digits fuel (n / 10) in
    if ltb n 10 then (b'0' + n) ∷ [] else rest ++ (b'0' + n % 10) ∷ []

unfoldable pub decimal : ℕ → Text
unfolding digits
decimal n = digits (suc n) n

-- `String(n)`.
unfoldable pub to_text : ℤ → Text
unfolding decimal
to_text (pos n) = decimal n
to_text (negsuc n) = b'-' ∷ decimal (suc n)

unfoldable pub is_digit : ℕ → Bool
is_digit c = leb b'0' c && leb c b'9'

-- The number that the leading digits write, after `n`.
unfoldable pub read_from : ℕ → Text → ℕ
unfolding is_digit
read_from n [] = n
read_from n (c ∷ s) = let more = read_from (n * 10 + (c - b'0')) s in if is_digit c then more else n

-- The digits are not allowed to be missing: that is `NaN`, here `none`.
unfoldable pub read_digits : Text → Option ℕ
unfolding read_from
read_digits [] = none
read_digits (c ∷ s) = if is_digit c then some (read_from 0 (c ∷ s)) else none

abbrev signed : (ℕ → ℤ) → Option ℕ → Option ℤ
signed sign none = none
signed sign (some n) = some (sign n)

unfoldable pub read_signed : Text → Option ℤ
unfolding read_digits
read_signed [] = none
read_signed (c ∷ s) =
    if eqb c b'-'
    then signed neg (read_digits s)
    else if eqb c b'+'
    then signed pos (read_digits s)
    else signed pos (read_digits (c ∷ s))

-- `Number.parseInt(raw, 10)`, exact: an engine agrees up to 2^53, and so on every number that the
-- INTEGER column of sort orders can hold; above, it reads a double near the number.
unfoldable pub parse_int : Text → Option ℤ
unfolding read_signed
parse_int raw = read_signed (trim_start raw)

parse_int_tests :
    (parse_int (codes " -12px") ≡ some (negsuc 11))
    × (parse_int (codes "+7") ≡ some (pos 7))
    × (parse_int (codes "x1") ≡ none)
    × (to_text (negsuc 119) ≡ codes "-120")
unfolding parse_int to_text codes trim_start is_white
parse_int_tests = (refl, refl, refl, refl)
