-- ===== src/Common/Orders.antt =====
-- The stable sort by a transitive comparison: where no two elements tie, the order in which they
-- are listed does not matter.
use mathlib.Core.Path.{◌≡◌, refl, ◌∙◌, subst, subst₂}
use mathlib.Core.Bool.{Bool, true, false, not, ◌&&◌, ◌||◌}
use mathlib.Core.List.{List, [], ◌∷◌, Permᴰ}
use native.Mathlib.Omega.{arith}
use interbellum.Common.Tests.{if◌then◌else◌}
use interbellum.Common.Lists.{All}
use interbellum.Common.Elements.{All-imp}
use interbellum.Common.Sorting.{insert_sorted, sort}

module _ {A : Type 0} where
  pub Permᴰ-All : (P : A → Type 0) {xs ys : List A} → Permᴰ xs ys → All P xs → All P ys
  Permᴰ-All P Permᴰ.nil h = tt
  Permᴰ-All P (Permᴰ.cons e p) h = (subst P e h.0, Permᴰ-All P p h.1)
  Permᴰ-All P (Permᴰ.swap e f) h = (subst P f h.1.0, (subst P e h.0, h.1.1))
  Permᴰ-All P (Permᴰ.trans p q) h = Permᴰ-All P q (Permᴰ-All P p h)

  module _ (R : A → A → Type 0) where
    -- An element and each one after it.
    abbrev pub AllPairs : List A → Type 0
    AllPairs [] = Unit {0}
    AllPairs (x ∷ xs) = All (R x) xs × AllPairs xs

    Permᴰ-AllPairs :
        ((x y : A) → R x y → R y x) → {xs ys : List A} → Permᴰ xs ys → AllPairs xs → AllPairs ys
    Permᴰ-AllPairs flip Permᴰ.nil h = tt
    Permᴰ-AllPairs flip (Permᴰ.cons {b = b} {l₁ = xs} e p) h =
        (Permᴰ-All (R b) p (subst (λ a. All (R a) xs) e h.0), Permᴰ-AllPairs flip p h.1)
    Permᴰ-AllPairs flip (Permᴰ.swap {a = a} {b = b} {l = l} e f) h =
        subst₂ (λ b a. AllPairs (b ∷ a ∷ l)) f e ((flip _ _ h.0.0, h.1.0), (h.0.1, h.1.1))
    Permᴰ-AllPairs flip (Permᴰ.trans p q) h = Permᴰ-AllPairs flip q (Permᴰ-AllPairs flip p h)

  pub AllPairs-imp :
      (R S : A → A → Type 0)
      → ((x y : A) → R x y → S x y)
      → (xs : List A) → AllPairs R xs
      → AllPairs S xs
  AllPairs-imp R S f [] h = tt
  AllPairs-imp R S f (x ∷ xs) h = (All-imp (R x) (S x) (f x) xs h.0, AllPairs-imp R S f xs h.1)

abbrev pub IsTransitive : {A : Type 0} → (A → A → Bool) → Type 0
IsTransitive {A = A} le = (x y z : A) → le x y ≡ true → le y z ≡ true → le x z ≡ true

module _ {A : Type 0} (le : A → A → Bool) where
  -- One of the two precedes the other.
  abbrev pub Untied : A → A → Type 0
  Untied x y = le x y ≡ not (le y x)

  Untied-sym : (x y : A) → Untied x y → Untied y x
  Untied-sym x y h = ground arith

  insert_sorted_comm :
      IsTransitive le
      → (x y : A) (zs : List A) → Untied x y
      → insert_sorted le x (insert_sorted le y zs) ≡ insert_sorted le y (insert_sorted le x zs)
  unfolding insert_sorted
  insert_sorted_comm chain x y [] h = ground arith
  insert_sorted_comm chain x y (z ∷ zs) h =
      ground (arith, chain x y z, chain y x z, insert_sorted_comm chain x y zs h)

  -- By a derivation of the rearrangement.
  pub sort_of_Permᴰ :
      IsTransitive le
      → {xs ys : List A} → Permᴰ xs ys
      → AllPairs Untied xs
      → sort le xs ≡ sort le ys
  unfolding sort
  sort_of_Permᴰ chain Permᴰ.nil h = refl
  sort_of_Permᴰ chain (Permᴰ.cons e p) h = λ i. insert_sorted le (e i) (sort_of_Permᴰ chain p h.1 i)
  sort_of_Permᴰ chain (Permᴰ.swap {a = a} {b = b} {l = l} e f) h =
      insert_sorted_comm chain a b (sort le l) h.0.0
      ∙ (λ i. insert_sorted le (f i) (insert_sorted le (e i) (sort le l)))
  sort_of_Permᴰ chain (Permᴰ.trans p q) h =
      sort_of_Permᴰ chain p h ∙ sort_of_Permᴰ chain q (Permᴰ-AllPairs Untied Untied-sym p h)

-- A total preorder, and the test for what ties in it.
pub record IsOrder {A : Type 0} (le same : A → A → Bool) : Type 0 where
  pub chain : IsTransitive le
  pub total : (x y : A) → (le x y || le y x) ≡ true
  pub tie : (x y : A) → same x y ≡ (le x y && le y x)

-- `rest`, where the two tie.
abbrev pub then_by : {A : Type 0} → (A → A → Bool) → (A → A → Bool) → (A → A → Bool) → A → A → Bool
then_by le same rest x y = if same x y then rest x y else le x y

module _ {A : Type 0} (le same rest : A → A → Bool) (order : IsOrder le same) where
  pub then_by-IsTransitive : IsTransitive rest → IsTransitive (then_by le same rest)
  then_by-IsTransitive further x y z h k = ground (
    arith,
    further x y z,
    order.tie x y,
    order.tie y z,
    order.tie x z,
    order.chain x y z,
    order.chain y z x,
    order.chain z x y,
  )

  pub then_by-Untied :
      (x y : A) → (same x y ≡ true → Untied rest x y) → Untied (then_by le same rest) x y
  then_by-Untied x y h = ground (arith, order.tie x y, order.tie y x, order.total x y)

  pub le-Untied : (x y : A) → same x y ≡ false → Untied le x y
  le-Untied x y h = ground (arith, order.tie x y, order.total x y)

-- Elements ordered by what they carry.
pub IsOrder-on :
    {A B : Type 0} {le same : B → B → Bool} (f : A → B)
    → IsOrder le same
    → IsOrder (λ x y. le (f x) (f y)) (λ x y. same (f x) (f y))
IsOrder-on f order = record {
  chain = λ x y z. order.chain (f x) (f y) (f z);
  total = λ x y. order.total (f x) (f y);
  tie = λ x y. order.tie (f x) (f y);
}
