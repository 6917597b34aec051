-- ===== src/Layout.antt =====
-- frontend/src/lib/graph-layout.ts: what dagre is given, in the order of the calls.
pub mod SortOrders
pub mod Stable
use interbellum.Common.{
  ℕ, List, Bool, true, false, ◌&&◌, leb, eqb, ◌≡◌, ◌↔◌, map, sort, keep, Any, sort-Any, Any-sort,
  Any-keep, keep-Any, if◌then◌else◌,
}
use interbellum.Text.{Text}
use interbellum.Text.Sets.{has, of_list}
use interbellum.Integers.{ℤ, pos, negsuc}
use interbellum.Types.{Uuid, PlaybookNodeKind, decision, terminal, PlaybookNode, PlaybookEdge}

-- `localeCompare` at most 0, and equal to 0. Sort orders are exact.
pub record Collation : Type 0 where
  pub at_most : Text → Text → Bool
  pub same : Text → Text → Bool

abbrev pub height_for : PlaybookNodeKind → ℕ
height_for decision = 92
height_for terminal = 104

pub record NodeBox : Type 0 where
  pub id : Uuid
  pub width : ℕ
  pub height : ℕ

-- `a.sort_order - b.sort_order` at most 0, and equal to 0.
abbrev pub le_sort_order : ℤ → ℤ → Bool
le_sort_order (pos m) (pos n) = leb m n
le_sort_order (pos m) (negsuc n) = false
le_sort_order (negsuc m) (pos n) = true
le_sort_order (negsuc m) (negsuc n) = leb n m

abbrev pub same_sort_order : ℤ → ℤ → Bool
same_sort_order (pos m) (pos n) = eqb m n
same_sort_order (pos m) (negsuc n) = false
same_sort_order (negsuc m) (pos n) = false
same_sort_order (negsuc m) (negsuc n) = eqb m n

-- Both ends are among the nodes.
abbrev pub is_between : List Uuid → PlaybookEdge → Bool
is_between known e = has known e.from_node_id && has known e.to_node_id

module _ (collation : Collation) where
  abbrev pub node_precedes : PlaybookNode → PlaybookNode → Bool
  node_precedes a b = collation.at_most a.id b.id

  -- `||` passes to the next comparison where one is 0.
  abbrev pub edge_precedes : PlaybookEdge → PlaybookEdge → Bool
  edge_precedes a b =
      if collation.same a.from_node_id b.from_node_id
      then (if same_sort_order a.sort_order b.sort_order
          then collation.at_most a.label b.label
          else le_sort_order a.sort_order b.sort_order)
      else collation.at_most a.from_node_id b.from_node_id

  -- The calls of `setNode`, in order.
  unfoldable pub laid_nodes : List PlaybookNode → List NodeBox
  laid_nodes nodes =
      map (λ (n : PlaybookNode). record { id = n.id; width = 268; height = height_for n.kind })
        (sort node_precedes nodes)

  -- The edges that `setEdge` is called with, in order.
  unfoldable pub laid_edges : List PlaybookNode → List PlaybookEdge → List PlaybookEdge
  laid_edges nodes edges =
      keep (is_between (of_list (map (λ (n : PlaybookNode). n.id) nodes)))
        (sort edge_precedes edges)
