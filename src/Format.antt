-- ===== src/Format.antt =====
-- frontend/src/lib/format.ts: short forms for display. Dates and the case of letters are the
-- engine's, and parameters here.
use interbellum.Common.{
  ℕ, zero, suc, ◌+◌, ◌-◌, ◌/◌, ◌%◌, ◌≤◌, ◌<◌, [], ◌∷◌, ◌++◌, Bool, true, false, ◌||◌, ◌≡◌, refl,
  ◌↔◌, ◌⊎◌, inl, arith, Option, none, some, length, length-append, if◌then◌else◌, if-ind, ltb, leb,
  eqb,
}
use interbellum.Text.{Text, codes, trim, ◌==◌}
use interbellum.Integers.{decimal}

unfoldable pub first_units : ℕ → Text → Text
first_units zero s = []
first_units (suc n) [] = []
first_units (suc n) (c ∷ s) = c ∷ first_units n s

unfoldable pub drop_units : ℕ → Text → Text
drop_units zero s = s
drop_units (suc n) [] = []
drop_units (suc n) (c ∷ s) = drop_units n s

-- `id.slice(0, 8)`, an ellipsis and `id.slice(-4)`.
abbrev pub ends_of : Text → Text
ends_of id = first_units 8 id ++ (0x2026 ∷ drop_units (length id - 4) id)

unfoldable pub short_id : Option Text → Text
short_id none = 0x2014 ∷ []
short_id (some []) = 0x2014 ∷ []
short_id (some (c ∷ s)) = if leb (length (c ∷ s)) 13 then c ∷ s else ends_of (c ∷ s)

abbrev pub in_minutes : ℕ → Text
in_minutes seconds = decimal (seconds / 60) ++ (codes "m " ++ (decimal (seconds % 60) ++ codes "s"))

abbrev pub in_hours : ℕ → Text
in_hours minutes = decimal (minutes / 60) ++ (codes "h " ++ (decimal (minutes % 60) ++ codes "m"))

unfoldable pub seconds_text : ℕ → Text
seconds_text seconds =
    if ltb seconds 60
    then decimal seconds ++ codes "s"
    else (if ltb (seconds / 60) 60 then in_minutes seconds else in_hours (seconds / 60))

-- `Math.round(ms / 1000)` of a number that is not negative.
abbrev pub rounded_seconds : ℕ → ℕ
rounded_seconds ms = (ms + 500) / 1000

abbrev pub between : Option ℕ → Option ℕ → Option Text
between (some start) (some end) =
    if ltb end start then none else some (seconds_text (rounded_seconds (end - start)))
between _ _ = none

module _ (time : Text → Option ℕ) where
  -- `time` is `new Date(iso).getTime()`, counted from the earliest date, and none where it is NaN.
  unfoldable pub duration : Text → Option Text → Option Text
  duration from none = none
  duration from (some []) = none
  duration from (some (c ∷ s)) = between (time from) (time (c ∷ s))

-- Each run of `_` and `-` is one space.
unfoldable pub spaced : Bool → Text → Text
spaced in_run [] = []
spaced in_run (c ∷ s) =
    let rest = spaced true s in
    let fresh = spaced false s in
    if eqb c 95 || eqb c 45 then (if in_run then rest else 32 ∷ rest) else c ∷ fresh

abbrev pub capitalized : (ℕ → Text) → Text → Text
capitalized upper [] = []
capitalized upper (c ∷ s) = upper c ++ s

-- `upper` is `toUpperCase` of one code unit.
unfoldable pub humanize_token : (ℕ → Text) → Text → Text
humanize_token upper token = capitalized upper (trim (spaced false token))

pub data Disposition : Type 0 where
  close escalate contain neutral : Disposition

unfoldable pub leading_verb : Text → Text
leading_verb [] = []
leading_verb (c ∷ s) = let rest = leading_verb s in if eqb c 95 || eqb c 45 then [] else c ∷ rest

abbrev pub disposition_of_verb : Text → Disposition
disposition_of_verb head =
    if head == codes "close"
    then close
    else (if head == codes "escalate"
        then escalate
        else (if head == codes "contain" || head == codes "isolate" then contain else neutral))

-- `lower` is `toLowerCase`.
unfoldable pub disposition_of : (Text → Text) → Option Text → Disposition
disposition_of lower none = neutral
disposition_of lower (some []) = neutral
disposition_of lower (some (c ∷ s)) = disposition_of_verb (lower (leading_verb (c ∷ s)))

length-first_units : (n : ℕ) (s : Text) → length (first_units n s) ≤ n
unfolding first_units
length-first_units zero s = omega arith
length-first_units (suc n) [] = omega arith
length-first_units (suc n) (c ∷ s) = omega (arith, length-first_units n s)

length-drop_units : (n : ℕ) (s : Text) → length (drop_units n s) ≤ length s - n
unfolding drop_units
length-drop_units zero s = omega arith
length-drop_units (suc n) [] = omega arith
length-drop_units (suc n) (c ∷ s) = omega (arith, length-drop_units n s)

ends_of_le : (id : Text) → 13 < length id → length (ends_of id) ≤ 13
ends_of_le id h = omega (
  arith,
  length-append (first_units 8 id) (0x2026 ∷ drop_units (length id - 4) id),
  length-first_units 8 id,
  length-drop_units (length id - 4) id,
)

-- A short form has at most thirteen code units.
pub length-short_id : (id : Option Text) → length (short_id id) ≤ 13
unfolding short_id
length-short_id none = omega arith
length-short_id (some []) = omega arith
length-short_id (some (c ∷ s)) =
    if-ind (λ (r : Text). length r ≤ 13) (leb (length (c ∷ s)) 13) _ _ (λ t. ground arith)
      (λ f. ends_of_le (c ∷ s) (ground arith))

-- Between two dates there is no duration exactly if the end is not set, or before the start.
pub duration-none_iff :
    (time : Text → Option ℕ) (from to : Text) (start end : ℕ)
    → time from ≡ some start
    → time to ≡ some end
    → (duration time from (some to) ≡ none) ↔ ((to ≡ []) ⊎ (end < start))
unfolding duration
duration-none_iff time from [] start end h k = (λ _. inl refl, λ _. refl)
duration-none_iff time from (c ∷ s) start end h k = rw (h, k) (ground arith, λ z. ground arith)
