-- ===== src/Investigation/Selected.antt =====
-- How many of a list of identifiers a set of them has.
use interbellum.Common.{
  suc, ◌+◌, List, [], ◌∷◌, true, false, ◌≡◌, refl, sym, ◌∙◌, ap, subst, inl, inr, arith, keep,
  length, Bool-cases,
}
use interbellum.Text.{◌==◌}
use interbellum.Text.Equality.{==_iff, ==_refl}
use interbellum.Text.Sets.{has, Distinct}
use interbellum.Types.{Uuid}

count-absent :
    (ids : List Uuid) (x : Uuid) → has ids x ≡ false → length (keep (λ y. x == y) ids) ≡ 0
unfolding has
count-absent [] x h = refl
count-absent (y ∷ ids) x h = ground (arith, count-absent ids x, ==_iff x y, ==_iff y x)

count-single :
    (ids : List Uuid) (x : Uuid)
    → Distinct ids
    → has ids x ≡ true
    → length (keep (λ y. x == y) ids) ≡ 1
unfolding has
count-single [] x d h = cc
count-single (y ∷ ids) x d h = elim (Bool-cases (x == y)) [
  | inl same ↦
      let e = (==_iff x y).0 same in
      rw same (ap suc (count-absent ids x (subst (λ z. has ids z ≡ false) (sym e) d.0)))
  | inr other ↦ rw other (count-single ids x d.1 (ground (arith, ==_iff x y, ==_iff y x)))
]

count-cons :
    (ids sel : List Uuid) (x : Uuid)
    → has sel x ≡ false
    → length (keep (has (x ∷ sel)) ids)
      ≡ length (keep (λ y. x == y) ids) + length (keep (has sel) ids)
unfolding has
count-cons [] sel x h = omega arith
count-cons (y ∷ ids) sel x h = elim (Bool-cases (x == y)) [
  | inl same ↦
      let out = subst (λ z. has sel z ≡ false) ((==_iff x y).0 same) h in
      ground (arith, count-cons ids sel x h)
  | inr other ↦ ground (arith, count-cons ids sel x h)
]

-- As many of the ids are selected as there are selected ones, where both have no repeats and what
-- is selected is among the ids.
pub count-selected :
    (ids sel : List Uuid)
    → Distinct ids
    → Distinct sel
    → ((y : Uuid) → has sel y ≡ true → has ids y ≡ true)
    → length (keep (has sel) ids) ≡ length sel
unfolding has
count-selected ids [] d e sub = none_kept ids
  where
    none_kept : (xs : List Uuid) → length (keep (has []) xs) ≡ 0
    none_kept [] = refl
    none_kept (x ∷ xs) = none_kept xs
count-selected ids (x ∷ sel) d e sub =
    let same = ==_refl x in
    count-cons ids sel x e.0
    ∙ ap (λ n. n + length (keep (has sel) ids)) (count-single ids x d (sub x (ground arith)))
    ∙ ap (λ n. 1 + n) (count-selected ids sel d e.1 (λ y h. sub y (ground arith)))
    ∙ omega arith
