-- ===== src/Tests/Format.antt =====
-- Short forms of sample values, and what dagre is given of a small graph, listed in two orders.
use mathlib.Core.List.Perm
use interbellum.Common.{
  ℕ, ◌≤◌, List, [], ◌∷◌, ◌≡◌, refl, ◌↔◌, none, some, length, leb, eqb, arith, Mem, IsOrder,
  IsOrder-on,
}
use interbellum.Text.{Text, codes}
use interbellum.Integers.{pos}
use interbellum.Types.{decision, PlaybookNode, PlaybookEdge}
use interbellum.Layout.{Collation, laid_nodes, laid_edges}
use interbellum.Layout.Stable.{Joins, laid-of_perm}
use interbellum.Format.{short_id, length-short_id}

length-short_id_example :
    length (short_id (some (codes "a0000000-0000-0000-0000-000000000001"))) ≤ 13
length-short_id_example = length-short_id (some (codes "a0000000-0000-0000-0000-000000000001"))

abbrev longer : Text
longer = 50 ∷ 49 ∷ []

abbrev shorter : Text
shorter = 49 ∷ []

abbrev first_unit : Text → ℕ
first_unit [] = 0
first_unit (c ∷ s) = c

-- Texts compared by their first unit.
abbrev by_first_unit : Collation
by_first_unit = record {
  at_most = λ a b. leb (first_unit a) (first_unit b);
  same = λ a b. eqb (first_unit a) (first_unit b);
}

leb-IsOrder : IsOrder leb eqb
leb-IsOrder = record {
  chain = λ x y z h k. ground arith;
  total = λ x y. ground arith;
  tie = λ x y. ground arith;
}

by_first_unit-IsOrder : IsOrder by_first_unit.at_most by_first_unit.same
by_first_unit-IsOrder = IsOrder-on first_unit leb-IsOrder

abbrev choice : Text → PlaybookEdge
choice label = record {
  id = label;
  from_node_id = 97 ∷ [];
  to_node_id = 98 ∷ [];
  label = label;
  description = none;
  sort_order = pos 1;
}

abbrev node : Text → PlaybookNode
node id = record {
  id = id;
  kind = decision;
  title = id;
  description = [];
  terminal_resolution = none;
  metadata = none;
}

abbrev in_order : List PlaybookNode
in_order = node (97 ∷ []) ∷ node (98 ∷ []) ∷ []

abbrev turned : List PlaybookNode
turned = node (98 ∷ []) ∷ node (97 ∷ []) ∷ []

abbrev choices : List PlaybookEdge
choices = choice shorter ∷ choice longer ∷ []

abbrev turned_choices : List PlaybookEdge
turned_choices = choice longer ∷ choice shorter ∷ []

laid-of_perm_example :
    (laid_nodes by_first_unit in_order ≡ laid_nodes by_first_unit turned)
    × (laid_edges by_first_unit in_order choices ≡ laid_edges by_first_unit turned turned_choices)
    × ((e : PlaybookEdge)
        → Mem e (laid_edges by_first_unit in_order choices) ↔ (Mem e choices × Joins in_order e))
laid-of_perm_example =
    laid-of_perm by_first_unit by_first_unit-IsOrder in_order turned choices turned_choices
      (Perm.swap _ _ _) (Perm.swap _ _ _) ((refl, tt), (tt, tt))
      (((λ from rank. refl), tt), (tt, tt))
