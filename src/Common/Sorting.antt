-- ===== src/Common/Sorting.antt =====
-- `Array.prototype.sort`: the stable sort by a comparison.
use mathlib.Core.Logic.{◌⊎◌, inl, inr}
use mathlib.Core.Bool.{Bool}
use mathlib.Core.List.{List, [], ◌∷◌, Perm}
use mathlib.Core.List.Perm
use interbellum.Common.Tests.{if◌then◌else◌, Bool-cases}
use interbellum.Common.Lists.{All, Any}

module _ {ℓ} {A : Type ℓ} (le : A → A → Bool) where
  -- Before the first element that does not precede it.
  unfoldable pub insert_sorted : A → List A → List A
  insert_sorted x [] = x ∷ []
  insert_sorted x (y ∷ ys) = if le x y then x ∷ y ∷ ys else y ∷ insert_sorted x ys

  unfoldable pub sort : List A → List A
  unfolding insert_sorted
  sort [] = []
  sort (x ∷ xs) = insert_sorted x (sort xs)

  insert_sorted-perm : (x : A) (ys : List A) → Perm (insert_sorted x ys) (x ∷ ys)
  unfolding insert_sorted
  insert_sorted-perm x [] = Perm.refl _
  insert_sorted-perm x (y ∷ ys) = elim (Bool-cases (le x y)) [
    | inl before ↦ rw before (Perm.refl _)
    | inr after ↦ rw after (Perm.trans (Perm.cons y (insert_sorted-perm x ys)) (Perm.swap x y ys))
  ]

  -- Sorting rearranges.
  pub sort-perm : (xs : List A) → Perm (sort xs) xs
  unfolding sort
  sort-perm [] = Perm.refl _
  sort-perm (x ∷ xs) = Perm.trans (insert_sorted-perm x (sort xs)) (Perm.cons x (sort-perm xs))

  module _ (P : A → Type 0) where
    insert_sorted-All : (x : A) (ys : List A) → All P (insert_sorted x ys) → P x × All P ys
    unfolding insert_sorted
    insert_sorted-All x [] h = h
    insert_sorted-All x (y ∷ ys) h = elim (Bool-cases (le x y)) [
      | inl before ↦ rw before at h
      | inr after ↦
          let (p, ps) = rw after at h in let (q, qs) = insert_sorted-All x ys ps in (q, (p, qs))
    ]

    pub All-insert_sorted : (x : A) (ys : List A) → P x → All P ys → All P (insert_sorted x ys)
    unfolding insert_sorted
    All-insert_sorted x [] p h = (p, tt)
    All-insert_sorted x (y ∷ ys) p h = elim (Bool-cases (le x y)) [
      | inl before ↦ rw before (p, h)
      | inr after ↦ rw after (h.0, All-insert_sorted x ys p h.1)
    ]

    -- What holds of all elements holds of all that are sorted, and the other way round.
    pub All-sort : (xs : List A) → All P xs → All P (sort xs)
    unfolding sort
    All-sort [] h = tt
    All-sort (x ∷ xs) h = All-insert_sorted x (sort xs) h.0 (All-sort xs h.1)

    pub sort-All : (xs : List A) → All P (sort xs) → All P xs
    unfolding sort
    sort-All [] h = tt
    sort-All (x ∷ xs) h = let (p, ps) = insert_sorted-All x (sort xs) h in (p, sort-All xs ps)

    insert_sorted-Any : (x : A) (ys : List A) → Any P (insert_sorted x ys) → P x ⊎ Any P ys
    unfolding insert_sorted
    insert_sorted-Any x [] h = h
    insert_sorted-Any x (y ∷ ys) h = elim (Bool-cases (le x y)) [
      | inl before ↦ rw before at h
      | inr after ↦ elim (rw after at h) [
        | inl p ↦ inr (inl p)
        | inr q ↦ elim (insert_sorted-Any x ys q) [ inl p ↦ inl p | inr p ↦ inr (inr p) ]
      ]
    ]

    Any-insert_sorted : (x : A) (ys : List A) → P x ⊎ Any P ys → Any P (insert_sorted x ys)
    unfolding insert_sorted
    Any-insert_sorted x [] h = h
    Any-insert_sorted x (y ∷ ys) h = elim (Bool-cases (le x y)) [
      | inl before ↦ rw before h
      | inr after ↦ rw after (elim h [
        | inl p ↦ inr (Any-insert_sorted x ys (inl p))
        | inr (inl p) ↦ inl p
        | inr (inr p) ↦ inr (Any-insert_sorted x ys (inr p))
      ])
    ]

    pub Any-sort : (xs : List A) → Any P xs → Any P (sort xs)
    unfolding sort
    Any-sort [] h = elim h [ ]
    Any-sort (x ∷ xs) (inl p) = Any-insert_sorted x (sort xs) (inl p)
    Any-sort (x ∷ xs) (inr q) = Any-insert_sorted x (sort xs) (inr (Any-sort xs q))

    pub sort-Any : (xs : List A) → Any P (sort xs) → Any P xs
    unfolding sort
    sort-Any [] h = elim h [ ]
    sort-Any (x ∷ xs) h = elim (insert_sorted-Any x (sort xs) h) [
      | inl p ↦ inl p
      | inr q ↦ inr (sort-Any xs q)
    ]
