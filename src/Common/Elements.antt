-- ===== src/Common/Elements.antt =====
-- What holds of the elements of a list, through the operations on lists.
use Prim.Native.Nat.{ℕ, zero, suc}
use mathlib.Core.Path.{◌≡◌, sym, subst}
use mathlib.Core.Logic.{◌⊎◌, inl, inr}
use mathlib.Core.Bool.{Bool, true}
use mathlib.Core.Option.{some}
use mathlib.Core.List.{List, [], ◌∷◌, ◌++◌, map}
use interbellum.Common.Tests.{if◌then◌else◌, Bool-cases}
use interbellum.Common.Lists.{All, Any, keep, remove_at, modify_at, get_elem?}

pub All-imp {ℓ} :
    {A : Type ℓ} (P Q : A → Type 0) → ((x : A) → P x → Q x) → (xs : List A) → All P xs → All Q xs
All-imp P Q each [] h = tt
All-imp P Q each (x ∷ xs) h = (each x h.0, All-imp P Q each xs h.1)

pub All-remove_at {ℓ} :
    {A : Type ℓ} (P : A → Type 0) (xs : List A) (i : ℕ) → All P xs → All P (remove_at xs i)
All-remove_at P [] i h = tt
All-remove_at P (x ∷ xs) zero h = h.1
All-remove_at P (x ∷ xs) (suc i) h = (h.0, All-remove_at P xs i h.1)

pub All-modify_at {ℓ} :
    {A : Type ℓ} (P : A → Type 0) (f : A → A)
    → ((x : A) → P x → P (f x))
    → (xs : List A) (i : ℕ) → All P xs
    → All P (modify_at xs i f)
All-modify_at P f each [] i h = tt
All-modify_at P f each (x ∷ xs) zero h = (each x h.0, h.1)
All-modify_at P f each (x ∷ xs) (suc i) h = (h.0, All-modify_at P f each xs i h.1)

-- What stays passes the test and keeps its property.
pub All-keep {ℓ} :
    {A : Type ℓ} (P Q : A → Type 0) (p : A → Bool)
    → ((x : A) → P x → p x ≡ true → Q x)
    → (xs : List A) → All P xs
    → All Q (keep p xs)
All-keep P Q p each [] h = tt
All-keep P Q p each (x ∷ xs) h =
    let kept = λ (b : Bool). All Q (if b then x ∷ keep p xs else keep p xs) in
    elim (Bool-cases (p x)) [
      | inl passed ↦ subst kept (sym passed) (each x h.0 passed, All-keep P Q p each xs h.1)
      | inr failed ↦ subst kept (sym failed) (All-keep P Q p each xs h.1)
    ]

-- The elements that pass the test, and no others, are kept.
pub Any-keep {ℓ} :
    {A : Type ℓ} (P : A → Type 0) (p : A → Bool) (xs : List A)
    → Any P (keep p xs)
    → Any (λ x. (p x ≡ true) × P x) xs
Any-keep P p [] h = elim h [ ]
Any-keep P p (x ∷ xs) h = elim (Bool-cases (p x)) [
  | inl passed ↦ elim (rw passed at h) [
    | inl here ↦ inl (passed, here)
    | inr later ↦ inr (Any-keep P p xs later)
  ]
  | inr failed ↦ inr (Any-keep P p xs (rw failed at h))
]

pub keep-Any {ℓ} :
    {A : Type ℓ} (P : A → Type 0) (p : A → Bool) (xs : List A)
    → Any (λ x. (p x ≡ true) × P x) xs
    → Any P (keep p xs)
keep-Any P p [] h = elim h [ ]
keep-Any P p (x ∷ xs) (inl (passed, here)) = rw passed (inl here)
keep-Any P p (x ∷ xs) (inr later) = elim (Bool-cases (p x)) [
  | inl passed ↦ rw passed (inr (keep-Any P p xs later))
  | inr failed ↦ rw failed (keep-Any P p xs later)
]

pub All-get_elem? {ℓ} :
    {A : Type ℓ} (P : A → Type 0) (xs : List A) (i : ℕ) (x : A)
    → All P xs
    → get_elem? xs i ≡ some x
    → P x
All-get_elem? P [] i x h e = cc
All-get_elem? P (y ∷ ys) zero x h e = let same : y ≡ x = cc in subst P same h.0
All-get_elem? P (y ∷ ys) (suc i) x h e = All-get_elem? P ys i x h.1 e

pub Any-imp {ℓ} :
    {A : Type ℓ} (P Q : A → Type 0) → ((x : A) → P x → Q x) → (xs : List A) → Any P xs → Any Q xs
Any-imp P Q each [] h = elim h [ ]
Any-imp P Q each (x ∷ xs) h = elim h [
  | inl now ↦ inl (each x now)
  | inr later ↦ inr (Any-imp P Q each xs later)
]

pub Any-map {ℓ k} :
    {A : Type ℓ} {B : Type k} (P : B → Type 0) (f : A → B) (xs : List A)
    → Any (λ x. P (f x)) xs
    → Any P (map f xs)
Any-map P f [] h = h
Any-map P f (x ∷ xs) h = elim h [ inl now ↦ inl now | inr later ↦ inr (Any-map P f xs later) ]

pub map-Any {ℓ k} :
    {A : Type ℓ} {B : Type k} (P : B → Type 0) (f : A → B) (xs : List A)
    → Any P (map f xs)
    → Any (λ x. P (f x)) xs
map-Any P f [] h = h
map-Any P f (x ∷ xs) h = elim h [ inl now ↦ inl now | inr later ↦ inr (map-Any P f xs later) ]

pub append-Any {ℓ} :
    {A : Type ℓ} (P : A → Type 0) (xs ys : List A) → Any P (xs ++ ys) → Any P xs ⊎ Any P ys
append-Any P [] ys h = inr h
append-Any P (x ∷ xs) ys h = elim h [
  | inl now ↦ inl (inl now)
  | inr later ↦ elim (append-Any P xs ys later) [ inl k ↦ inl (inr k) | inr k ↦ inr k ]
]
