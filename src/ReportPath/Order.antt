-- ===== src/ReportPath/Order.antt =====
-- The order of the steps: sorting keeps them, and puts their numbers in order.
use interbellum.Common.{
  List, [], ◌∷◌, ◌||◌, ◌≡◌, refl, arith, map, sort, insert_sorted, Option, KeysApart, sort_of_perm,
  ap,
}
use interbellum.Text.{◌==◌}
use interbellum.Text.Sets.{has}
use interbellum.Types.{Uuid, PathStep}
use mathlib.Core.List.{Perm}
use mathlib.Core.List.Perm
use interbellum.Types.{PlaybookEdge}
use interbellum.ReportPath.{precedes, ordered, build_path_overlay, overlay_of_steps}

module _ (f : PathStep → Uuid) where
  insert_sorted-has :
      (s : PathStep) (ss : List PathStep) (y : Uuid)
      → has (map f (insert_sorted precedes s ss)) y ≡ (f s == y || has (map f ss) y)
  unfolding insert_sorted has
  insert_sorted-has s [] y = refl
  insert_sorted-has s (t ∷ ss) y = ground (arith, insert_sorted-has s ss y)

  -- Sorting keeps the values of the steps.
  pub ordered-has : (ss : List PathStep) (y : Uuid) → has (map f (ordered ss)) y ≡ has (map f ss) y
  unfolding ordered sort has
  ordered-has [] y = refl
  ordered-has (s ∷ ss) y =
      ground (arith, insert_sorted-has s (sort precedes ss) y, ordered-has ss y)

PathStep-set : IsSet PathStep
PathStep-set = hlevel

-- The overlay does not depend on the order in which the API lists the steps, where no two carry
-- one number.
pub build_path_overlay_of_perm :
    (path path' : List PathStep) (edges : List PlaybookEdge) (root : Option Uuid)
    → Perm path path'
    → KeysApart (λ s. s.step_number) path
    → build_path_overlay path edges root ≡ build_path_overlay path' edges root
unfolding build_path_overlay ordered
build_path_overlay_of_perm [] path' edges root p h =
    ap (λ l. build_path_overlay l edges root) (Perm.nil-eq p)
build_path_overlay_of_perm (s ∷ ss) [] edges root p h = let e : (s ∷ ss) ≡ [] = Perm.eq-nil p in cc
build_path_overlay_of_perm (s ∷ ss) (t ∷ ts) edges root p h =
    ap (λ steps. overlay_of_steps steps edges)
      (sort_of_perm (λ (s : PathStep). s.step_number) PathStep-set p h)
