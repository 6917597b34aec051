-- ===== src/Text/Trim.antt =====
-- Trimming: idempotent, and empty on what it makes empty.
use interbellum.Common.{ℕ, [], ◌∷◌, false, ◌≡◌, refl, ap, inl, inr, arith, Bool-cases, ◌∙◌}
use interbellum.Text.{Text, is_white, trim_start, before_trimmed, trim_end, trim}

trim_end-before_trimmed :
    (c : ℕ) (s : Text) → trim_end s ≡ s → trim_end (before_trimmed c s) ≡ before_trimmed c s
unfolding trim_end
trim_end-before_trimmed c [] h = ground arith
trim_end-before_trimmed c (d ∷ s) h = rw h

trim_end_idem : (s : Text) → trim_end (trim_end s) ≡ trim_end s
unfolding trim_end
trim_end_idem [] = refl
trim_end_idem (c ∷ s) = trim_end-before_trimmed c (trim_end s) (trim_end_idem s)

-- The text does not begin with white space.
abbrev StartsPlain : Text → Type 0
StartsPlain [] = Unit {0}
StartsPlain (c ∷ s) = is_white c ≡ false

trim_start-StartsPlain : (s : Text) → StartsPlain (trim_start s)
unfolding trim_start
trim_start-StartsPlain [] = tt
trim_start-StartsPlain (c ∷ s) = elim (Bool-cases (is_white c)) [
  | inl white ↦ rw white (trim_start-StartsPlain s)
  | inr plain ↦ rw plain plain
]

trim_start_of_StartsPlain : (s : Text) → StartsPlain s → trim_start s ≡ s
unfolding trim_start
trim_start_of_StartsPlain [] h = refl
trim_start_of_StartsPlain (c ∷ s) h = rw h

before_trimmed-StartsPlain :
    (c : ℕ) (s : Text) → is_white c ≡ false → StartsPlain (before_trimmed c s)
unfolding before_trimmed
before_trimmed-StartsPlain c [] h = rw h h
before_trimmed-StartsPlain c (d ∷ s) h = h

trim_end-StartsPlain : (s : Text) → StartsPlain s → StartsPlain (trim_end s)
unfolding trim_end
trim_end-StartsPlain [] h = tt
trim_end-StartsPlain (c ∷ s) h = before_trimmed-StartsPlain c (trim_end s) h

pub trim_idem : (s : Text) → trim (trim s) ≡ trim s
unfolding trim
trim_idem s =
    ap trim_end
      (trim_start_of_StartsPlain _ (trim_end-StartsPlain (trim_start s) (trim_start-StartsPlain s)))
    ∙ trim_end_idem (trim_start s)

pub trim-nil : trim [] ≡ []
unfolding trim trim_start trim_end
trim-nil = refl
