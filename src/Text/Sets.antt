-- ===== src/Text/Sets.antt =====
-- `Set<string>`, in the order of insertion.
use mathlib.Core.Logic.Or
use mathlib.Core.List.{mem-cons, not-mem-nil, Nodup-cons, Nodup-nil}
use interbellum.Common.{
  All, List, [], ◌∷◌, ◌++◌, Bool, true, false, ◌||◌, ◌≡◌, refl, sym, ◌↔◌, inl, inr, arith, Mem,
  Nodup, Bool-cases, if◌then◌else◌,
}
use interbellum.Text.{Text, ◌==◌}
use interbellum.Text.Equality.{==_iff, ==_refl, ==_comm}

-- `Set.has`.
unfoldable pub has : List Text → Text → Bool
has [] x = false
has (y ∷ ys) x = y == x || has ys x

-- `Set.add`.
unfoldable pub add : List Text → Text → List Text
add xs x = if has xs x then xs else xs ++ x ∷ []

pub has-append : (xs ys : List Text) (x : Text) → has (xs ++ ys) x ≡ (has xs x || has ys x)
unfolding has
has-append [] ys x = refl
has-append (y ∷ xs) ys x = ground (arith, has-append xs ys x)

pub has-single : (x y : Text) → has (x ∷ []) y ≡ x == y
unfolding has
has-single x y = ground arith

has-eq : (xs : List Text) (x y : Text) → x == y ≡ true → has xs x ≡ has xs y
has-eq xs x y e = rw ((==_iff x y).0 e)

pub has-add : (xs : List Text) (x y : Text) → has (add xs x) y ≡ (has xs y || x == y)
unfolding add
has-add xs x y = ground (arith, has-eq xs x y, has-append xs (x ∷ []) y, has-single x y)

pub has→mem : (xs : List Text) (x : Text) → has xs x ≡ true → Mem x xs
unfolding has
has→mem [] x h = cc
has→mem (y ∷ xs) x h = elim (Bool-cases (y == x)) [
  | inl same ↦ mem-cons.1 (Or.inl (sym ((==_iff y x).0 same)))
  | inr other ↦ mem-cons.1 (Or.inr (has→mem xs x (rw other at h)))
]

pub mem→has : (xs : List Text) (x : Text) → Mem x xs → has xs x ≡ true
unfolding has
mem→has [] x m = absurd (not-mem-nil m)
mem→has (y ∷ xs) x m =
    Or.elim (hlevel) (mem-cons.0 m) (λ e. rw (← e, ==_refl x))
      (λ k. rw (mem→has xs x k) (ground arith))

-- `Set.has` decides the library's membership.
pub has_iff : (xs : List Text) (x : Text) → (has xs x ≡ true) ↔ Mem x xs
has_iff xs x = (has→mem xs x, mem→has xs x)

pub not-mem_iff : (xs : List Text) (x : Text) → (has xs x ≡ false) ↔ (¬ Mem x xs)
not-mem_iff xs x = (
  λ h m. cc (mem→has xs x m),
  λ n. elim (Bool-cases (has xs x)) [ inl h ↦ absurd (n (has→mem xs x h)) | inr h ↦ h ],
)

-- No text occurs twice; it computes to a tuple.
abbrev pub Distinct : List Text → Type 0
Distinct [] = Unit {0}
Distinct (x ∷ xs) = (has xs x ≡ false) × Distinct xs

pub Distinct→Nodup : (xs : List Text) → Distinct xs → Nodup xs
Distinct→Nodup [] h = Nodup-nil
Distinct→Nodup (x ∷ xs) h = Nodup-cons.1 ((not-mem_iff xs x).0 h.0, Distinct→Nodup xs h.1)

pub Nodup→Distinct : (xs : List Text) → Nodup xs → Distinct xs
Nodup→Distinct [] h = tt
Nodup→Distinct (x ∷ xs) h =
    let (out, rest) = Nodup-cons.0 h in ((not-mem_iff xs x).1 out, Nodup→Distinct xs rest)

pub Distinct-snoc :
    (xs : List Text) (x : Text) → Distinct xs → has xs x ≡ false → Distinct (xs ++ x ∷ [])
unfolding has
Distinct-snoc [] x d h = (refl, tt)
Distinct-snoc (y ∷ xs) x d h = (
  ground (arith, has-append xs (x ∷ []) y, has-single x y, ==_comm x y),
  Distinct-snoc xs x d.1 (ground arith),
)

pub add-Distinct : (xs : List Text) (x : Text) → Distinct xs → Distinct (add xs x)
unfolding add
add-Distinct xs x d = elim (Bool-cases (has xs x)) [
  | inl old ↦ rw old d
  | inr new ↦ rw new (Distinct-snoc xs x d new)
]

-- As a loop over `xs` finds them distinct that collects what it has seen.
abbrev pub DistinctFrom : List Text → List Text → Type 0
DistinctFrom seen [] = Unit {0}
DistinctFrom seen (x ∷ xs) = (has seen x ≡ false) × DistinctFrom (add seen x) xs

abbrev pub Fresh : List Text → List Text → Type 0
Fresh seen = All λ x. has seen x ≡ false

Fresh-add :
    (seen : List Text) (x : Text) (xs : List Text)
    → Fresh (add seen x) xs
    → Fresh seen xs × (has xs x ≡ false)
unfolding has
Fresh-add seen x [] h = (tt, refl)
Fresh-add seen x (y ∷ xs) h =
    let (fresh, out) = Fresh-add seen x xs h.1 in ground (arith, has-add seen x y, ==_comm x y)

Fresh-of_add :
    (seen : List Text) (x : Text) (xs : List Text)
    → Fresh seen xs
    → has xs x ≡ false
    → Fresh (add seen x) xs
unfolding has
Fresh-of_add seen x [] h k = tt
Fresh-of_add seen x (y ∷ xs) h k =
    (ground (arith, has-add seen x y, ==_comm x y), Fresh-of_add seen x xs h.1 (ground arith))

DistinctFrom→ : (seen xs : List Text) → DistinctFrom seen xs → Fresh seen xs × Distinct xs
DistinctFrom→ seen [] h = (tt, tt)
DistinctFrom→ seen (x ∷ xs) h =
    let (fresh, distinct) = DistinctFrom→ (add seen x) xs h.1 in
    let (old, out) = Fresh-add seen x xs fresh in ((h.0, old), (out, distinct))

→DistinctFrom : (seen xs : List Text) → Fresh seen xs → Distinct xs → DistinctFrom seen xs
→DistinctFrom seen [] h k = tt
→DistinctFrom seen (x ∷ xs) h k =
    (h.0, →DistinctFrom (add seen x) xs (Fresh-of_add seen x xs h.1 k.0) k.1)

Fresh-nil : (xs : List Text) → Fresh [] xs
unfolding has
Fresh-nil [] = tt
Fresh-nil (x ∷ xs) = (refl, Fresh-nil xs)

-- A loop that starts with nothing seen decides the library's `Nodup`.
pub DistinctFrom-nil_iff : (xs : List Text) → DistinctFrom [] xs ↔ Nodup xs
DistinctFrom-nil_iff xs = (
  λ h. Distinct→Nodup xs (DistinctFrom→ [] xs h).1,
  λ n. →DistinctFrom [] xs (Fresh-nil xs) (Nodup→Distinct xs n),
)

add_all : List Text → List Text → List Text
add_all seen [] = seen
add_all seen (x ∷ xs) = add_all (add seen x) xs

-- `new Set(xs)`.
unfoldable pub of_list : List Text → List Text
unfolding add_all
of_list xs = add_all [] xs

has-add_all : (seen xs : List Text) (x : Text) → has (add_all seen xs) x ≡ (has seen x || has xs x)
unfolding add_all has
has-add_all seen [] x = ground arith
has-add_all seen (y ∷ xs) x = ground (arith, has-add_all (add seen y) xs x, has-add seen y x)

pub has-of_list : (xs : List Text) (x : Text) → has (of_list xs) x ≡ has xs x
unfolding of_list has
has-of_list xs x = has-add_all [] xs x

-- An element of a list without repeats is not among those before it.
pub has-before : (xs ys : List Text) (y : Text) → Nodup (xs ++ y ∷ ys) → has xs y ≡ false
unfolding has
has-before [] ys y h = refl
has-before (x ∷ xs) ys y h =
    let (out, rest) = Nodup→Distinct (x ∷ xs ++ y ∷ ys) h in
    let later = has-before xs ys y (Distinct→Nodup _ rest) in
    ground (arith, has-append xs (y ∷ ys) x, ==_comm x y)
