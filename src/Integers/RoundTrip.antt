-- ===== src/Integers/RoundTrip.antt =====
-- What `String` prints, `parseInt` reads.
use interbellum.Common.{
  ℕ, zero, suc, ◌+◌, ◌-◌, ◌*◌, ◌/◌, ◌%◌, ◌<◌, [], ◌∷◌, ◌++◌, true, false, some, ◌≡◌, refl, ap, ◌∙◌,
  ◌≢◌, All, All-append, arith, ltb, inl, inr, Bool-cases,
}
use interbellum.Text.{Text, is_white, trim_start}
use interbellum.Integers.{
  ℤ, pos, negsuc, digits, decimal, to_text, is_digit, read_from, read_digits, read_signed,
  parse_int,
}

abbrev IsDigit : ℕ → Type 0
IsDigit c = is_digit c ≡ true

IsDigit-of_lt : (n : ℕ) → n < 10 → IsDigit (b'0' + n)
unfolding is_digit
IsDigit-of_lt n h = ground arith

digits-IsDigit : (fuel n : ℕ) → All IsDigit (digits fuel n)
unfolding digits
digits-IsDigit zero n = tt
digits-IsDigit (suc fuel) n = elim (Bool-cases (ltb n 10)) [
  | inl small ↦ rw small (IsDigit-of_lt n (ground arith), tt)
  | inr large ↦ rw large (
      All-append IsDigit (digits fuel (n / 10)) _ (digits-IsDigit fuel (n / 10))
        (IsDigit-of_lt (n % 10) (omega arith), tt))
]

read_from-append :
    (n : ℕ) (s : Text) (d : ℕ)
    → All IsDigit s
    → d < 10
    → read_from n (s ++ (b'0' + d) ∷ []) ≡ read_from n s * 10 + d
unfolding read_from
read_from-append n [] d h k = ground (arith, IsDigit-of_lt d k)
read_from-append n (c ∷ s) d h k = ground (arith, read_from-append (n * 10 + (c - b'0')) s d h.1 k)

read_from-digits : (fuel n : ℕ) → n < fuel → read_from 0 (digits fuel n) ≡ n
unfolding digits read_from
read_from-digits zero n h = elim h [ ]
read_from-digits (suc fuel) n h = elim (Bool-cases (ltb n 10)) [
  | inl small ↦ rw small (ground (arith, IsDigit-of_lt n))
  | inr large ↦ rw large (
      ground (
        arith,
        read_from-append 0 (digits fuel (n / 10)) (n % 10) (digits-IsDigit fuel (n / 10)),
        read_from-digits fuel (n / 10),
      ))
]

append-single-ne-nil : (s : Text) (c : ℕ) → s ++ c ∷ [] ≢ []
append-single-ne-nil [] c e = cc
append-single-ne-nil (d ∷ s) c e = cc

digits-ne-nil : (fuel n : ℕ) → digits (suc fuel) n ≢ []
unfolding digits
digits-ne-nil fuel n = ground (arith, append-single-ne-nil (digits fuel (n / 10)) (b'0' + n % 10))

not_white_of_IsDigit : (c : ℕ) → IsDigit c → is_white c ≡ false
unfolding is_white is_digit
not_white_of_IsDigit c h = ground arith

trim_start_of_IsDigit : (s : Text) → All IsDigit s → trim_start s ≡ s
unfolding trim_start
trim_start_of_IsDigit [] h = refl
trim_start_of_IsDigit (c ∷ s) h = rw (not_white_of_IsDigit c h.0)

read_digits_of_IsDigit : (s : Text) → s ≢ [] → All IsDigit s → read_digits s ≡ some (read_from 0 s)
unfolding read_digits
read_digits_of_IsDigit [] n h = absurd (n refl)
read_digits_of_IsDigit (c ∷ s) n h = rw h.0

read_signed_of_IsDigit :
    (s : Text) → s ≢ [] → All IsDigit s → read_signed s ≡ some (pos (read_from 0 s))
unfolding read_signed is_digit
read_signed_of_IsDigit [] n h = absurd (n refl)
read_signed_of_IsDigit (c ∷ s) n h = ground (arith, read_digits_of_IsDigit (c ∷ s) n h)

read_digits-decimal : (n : ℕ) → read_digits (decimal n) ≡ some n
unfolding decimal
read_digits-decimal n =
    read_digits_of_IsDigit _ (digits-ne-nil n n) (digits-IsDigit (suc n) n)
    ∙ ap some (read_from-digits (suc n) n (omega arith))

pub parse_int-decimal : (n : ℕ) → parse_int (decimal n) ≡ some (pos n)
unfolding parse_int decimal
parse_int-decimal n = rw (trim_start_of_IsDigit _ (digits-IsDigit (suc n) n)) (
    read_signed_of_IsDigit _ (digits-ne-nil n n) (digits-IsDigit (suc n) n)
    ∙ ap (λ k. some (pos k)) (read_from-digits (suc n) n (omega arith)))

minus : (s : Text) (n : ℕ) → read_digits s ≡ some (suc n) → parse_int (b'-' ∷ s) ≡ some (negsuc n)
unfolding parse_int trim_start is_white
minus s n e = rw e

-- An integer that is printed is read back as itself.
pub parse_int-to_text : (z : ℤ) → parse_int (to_text z) ≡ some z
unfolding to_text
parse_int-to_text (pos n) = parse_int-decimal n
parse_int-to_text (negsuc n) = minus (decimal (suc n)) n (read_digits-decimal (suc n))
