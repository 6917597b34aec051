-- ===== src/Common/Ranked.antt =====
-- Sorting with the highest number first, and the best element of those with a property.
use Prim.Native.Nat.{ℕ, ◌≤◌}
use native.Mathlib.Omega.{arith}
use mathlib.Core.Path.{◌≡◌, refl, subst}
use mathlib.Core.Logic.{inl, inr}
use mathlib.Core.Bool.{Bool, true, false}
use mathlib.Core.Option.{none, some}
use mathlib.Core.List.{List, [], ◌∷◌}
use interbellum.Common.Tests.{Bool-cases, leb, leb→le, some-inj}
use interbellum.Common.Lists.{All, Any, find?}
use interbellum.Common.Elements.{All-imp}
use interbellum.Common.Sorting.{sort, insert_sorted, All-insert_sorted, sort-All, sort-Any}

module _ {A : Type 0} (rank : A → ℕ) where
  abbrev pub by_rank : A → A → Bool
  by_rank a b = leb (rank b) (rank a)

  abbrev pub IsRanked : List A → Type 0
  IsRanked [] = Unit {0}
  IsRanked (x ∷ xs) = All (λ y. rank y ≤ rank x) xs × IsRanked xs

  insert_sorted-IsRanked :
      (x : A) (ys : List A) → IsRanked ys → IsRanked (insert_sorted by_rank x ys)
  unfolding insert_sorted
  insert_sorted-IsRanked x [] h = (tt, tt)
  insert_sorted-IsRanked x (y ∷ ys) h = elim (Bool-cases (by_rank x y)) [
    | inl before ↦
        let low = leb→le (rank y) (rank x) before in
        rw before ((low, All-imp _ _ (λ z k. omega arith) ys h.0), h)
    | inr after ↦
        rw after
          (All-insert_sorted by_rank _ x ys (ground arith) h.0, insert_sorted-IsRanked x ys h.1)
  ]

  sort-IsRanked : (xs : List A) → IsRanked (sort by_rank xs)
  unfolding sort
  sort-IsRanked [] = tt
  sort-IsRanked (x ∷ xs) = insert_sorted-IsRanked x (sort by_rank xs) (sort-IsRanked xs)

  -- The element is in the list and has the property, and none with it ranks higher.
  pub record IsBest (p : A → Bool) (xs : List A) (x : A) : Type 0 where
    pub listed : Any (λ y. y ≡ x) xs
    pub holds : p x ≡ true
    pub highest : All (λ y. p y ≡ true → rank y ≤ rank x) xs

  find?-IsBest :
      (p : A → Bool) (xs : List A) (x : A) → IsRanked xs → find? p xs ≡ some x → IsBest p xs x
  find?-IsBest p [] x h e = cc
  find?-IsBest p (y ∷ ys) x h e = elim (Bool-cases (p y)) [
    | inl t ↦ subst (IsBest p (y ∷ ys)) (some-inj (rw t at e)) (record {
      listed = inl refl;
      holds = t;
      highest = ((λ _. omega arith), All-imp _ _ (λ z k _. k) ys h.0);
    })
    | inr f ↦
        let k = find?-IsBest p ys x h.1 (rw f at e) in
        record { listed = inr k.listed; holds = k.holds; highest = ((λ t. absurd (cc)), k.highest) }
  ]

  -- The first with a property, with the highest number first, is the best of them.
  pub find?-sort-IsBest :
      (p : A → Bool) (xs : List A) (x : A) → find? p (sort by_rank xs) ≡ some x → IsBest p xs x
  find?-sort-IsBest p xs x e =
      let best = find?-IsBest p (sort by_rank xs) x (sort-IsRanked xs) e in
      record {
        listed = sort-Any by_rank _ xs best.listed;
        holds = best.holds;
        highest = sort-All by_rank _ xs best.highest;
      }

  find?-none : (p : A → Bool) (xs : List A) → find? p xs ≡ none → All (λ x. p x ≡ false) xs
  find?-none p [] e = tt
  find?-none p (x ∷ xs) e = elim (Bool-cases (p x)) [
    | inl t ↦ absurd (let found = rw t at e in cc)
    | inr f ↦ (f, find?-none p xs (rw f at e))
  ]

  pub find?-sort-none :
      (p : A → Bool) (xs : List A) → find? p (sort by_rank xs) ≡ none → All (λ x. p x ≡ false) xs
  find?-sort-none p xs e = sort-All by_rank _ xs (find?-none p (sort by_rank xs) e)
