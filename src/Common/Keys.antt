-- ===== src/Common/Keys.antt =====
-- The stable sort by a number that each element carries.
use Prim.Native.Nat.{ℕ, ◌≤◌, ◌<◌}
use mathlib.Core.Path.{◌≡◌, refl, sym, ◌∙◌, ap}
use mathlib.Core.Logic.{◌⊎◌, ◌≢◌, inl, inr, ∥∥₁_elim}
use mathlib.Core.Bool.{Bool}
use mathlib.Core.List.{List, [], ◌∷◌, Perm}
use mathlib.Core.Option.{some}
use mathlib.Core.List.{is_set}
use native.Mathlib.Nat.{le_trans, le_of_eq}
use native.Mathlib.Omega.{arith}
use interbellum.Common.Tests.{Bool-cases, leb}
use interbellum.Common.Lists.{All, Any, get_last?}
use interbellum.Common.Orders.{AllPairs, AllPairs-imp, Untied, IsTransitive, sort_of_Permᴰ}
use interbellum.Common.Sorting.{insert_sorted, sort, All-sort, All-insert_sorted, Any-sort}

module _ {A : Type 0} (key : A → ℕ) where
  abbrev pub by_key : A → A → Bool
  by_key a b = leb (key a) (key b)

  abbrev pub IsSorted : List A → Type 0
  IsSorted [] = Unit {0}
  IsSorted (x ∷ xs) = All (λ y. key x ≤ key y) xs × IsSorted xs

  All-le_trans :
      (x y : A) (ys : List A)
      → key x ≤ key y
      → All (λ z. key y ≤ key z) ys
      → All (λ z. key x ≤ key z) ys
  All-le_trans x y [] h k = tt
  All-le_trans x y (z ∷ ys) h k = (omega arith, All-le_trans x y ys h k.1)

  insert_sorted-IsSorted :
      (x : A) (ys : List A) → IsSorted ys → IsSorted (insert_sorted by_key x ys)
  unfolding insert_sorted
  insert_sorted-IsSorted x [] h = (tt, tt)
  insert_sorted-IsSorted x (y ∷ ys) h = elim (Bool-cases (by_key x y)) [
    | inl before ↦
        let le : key x ≤ key y = ground arith in rw before ((le, All-le_trans x y ys le h.0), h)
    | inr after ↦ rw after (
      All-insert_sorted by_key (λ z. key y ≤ key z) x ys (ground arith) h.0,
      insert_sorted-IsSorted x ys h.1,
    )
  ]

  -- The keys come in order.
  pub sort-IsSorted : (xs : List A) → IsSorted (sort by_key xs)
  unfolding sort
  sort-IsSorted [] = tt
  sort-IsSorted (x ∷ xs) = insert_sorted-IsSorted x (sort by_key xs) (sort-IsSorted xs)

  -- No two elements carry one key.
  abbrev pub KeysApart : List A → Type 0
  KeysApart = AllPairs (λ x y. key x ≢ key y)

  by_key-Untied : (x y : A) → key x ≢ key y → Untied by_key x y
  by_key-Untied x y h = ground arith

  by_key-IsTransitive : IsTransitive by_key
  by_key-IsTransitive x y z h k = ground arith

  -- Where no two keys are equal, the order before sorting does not matter.
  pub sort_of_perm :
      {xs ys : List A} → IsSet A → Perm xs ys → KeysApart xs → sort by_key xs ≡ sort by_key ys
  sort_of_perm {xs = xs} set p h =
      ∥∥₁_elim p (is_set set _ _)
        (λ d. sort_of_Permᴰ by_key by_key-IsTransitive d (AllPairs-imp _ _ by_key-Untied xs h))

  get_last?-Any : (xs : List A) (t : A) → get_last? xs ≡ some t → Any (λ u. u ≡ t) xs
  get_last?-Any [] t h = cc
  get_last?-Any (x ∷ []) t h = inl (cc)
  get_last?-Any (x ∷ y ∷ xs) t h = inr (get_last?-Any (y ∷ xs) t h)

  All-Any :
      (P Q : A → Type 0) {R : Type 0} (xs : List A)
      → ((x : A) → P x → Q x → R)
      → All P xs
      → Any Q xs
      → R
  All-Any P Q [] f h k = elim k [ ]
  All-Any P Q (x ∷ xs) f h (inl q) = f x h.0 q
  All-Any P Q (x ∷ xs) f h (inr k) = All-Any P Q xs f h.1 k

  -- The last of a sorted list carries the largest key.
  pub get_last?-IsSorted :
      (xs : List A) (t : A) → IsSorted xs → get_last? xs ≡ some t → All (λ u. key u ≤ key t) xs
  get_last?-IsSorted [] t h e = tt
  get_last?-IsSorted (x ∷ []) t h e = (le_of_eq (let same : x ≡ t = cc in ap key same), tt)
  get_last?-IsSorted (x ∷ y ∷ xs) t h e =
      let rest = get_last?-IsSorted (y ∷ xs) t h.1 e in (le_trans h.0.0 rest.0, rest)

  get_last?-some : (x : A) (xs : List A) → (t : A) × (get_last? (x ∷ xs) ≡ some t)
  get_last?-some x [] = (x, refl)
  get_last?-some x (y ∷ xs) = get_last?-some y xs

  -- An element whose key is above every other's is sorted to the end.
  pub get_last?-sort :
      (s : A) (xs : List A)
      → Any (λ u. u ≡ s) xs
      → All (λ u. (u ≡ s) ⊎ (key u < key s)) xs
      → get_last? (sort by_key xs) ≡ some s
  get_last?-sort s xs found latest =
      go (sort by_key xs) (sort-IsSorted xs) (Any-sort by_key _ xs found)
        (All-sort by_key _ xs latest)
    where
      go :
          (ys : List A)
          → IsSorted ys
          → Any (λ u. u ≡ s) ys
          → All (λ u. (u ≡ s) ⊎ (key u < key s)) ys
          → get_last? ys ≡ some s
      go [] sorted h k = elim h [ ]
      go (y ∷ ys) sorted h k =
          let (t, e) = get_last?-some y ys in
          let top = get_last?-IsSorted (y ∷ ys) t sorted e in
          let s_le_t : key s ≤ key t = All-Any _ _ (y ∷ ys) (λ u le same. rw (← same) le) top h in
          e
          ∙ ap some (
              All-Any _ _ (y ∷ ys)
                (λ u or same. elim or [
                  | inl q ↦ sym same ∙ q
                  | inr lt ↦ absurd (omega (arith, ap key same))
                ])
                k (get_last?-Any (y ∷ ys) t e))
