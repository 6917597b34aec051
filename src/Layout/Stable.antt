-- ===== src/Layout/Stable.antt =====
-- The order in which the API lists nodes and edges does not change what dagre is given, as the
-- comment at the head of frontend/src/lib/graph-layout.ts asks.
use mathlib.Core.Logic.{∥∥₁_elim}
use mathlib.Core.Logic.Or
use mathlib.Core.List.{Perm, is_set, mem-cons, not-mem-nil}
use mathlib.Core.List.Perm
use interbellum.Common.{
  List, [], ◌∷◌, Bool, true, false, ◌≡◌, refl, sym, ◌∙◌, ap, ◌↔◌, inl, inr, arith, map, Mem, sort,
  sort-perm, keep, AllPairs, AllPairs-imp, IsOrder, IsTransitive, Untied, then_by,
  then_by-IsTransitive, then_by-Untied, le-Untied, sort_of_Permᴰ, IsOrder-on, Bool-cases,
}
use interbellum.Text.Sets.{of_list, has_iff, has-of_list}
use interbellum.Types.{Uuid, PlaybookNode, PlaybookEdge}
use interbellum.Layout.SortOrders.{le_sort_order-IsOrder, same_sort_order-eq}
use interbellum.Layout.{
  Collation, NodeBox, le_sort_order, same_sort_order, node_precedes, edge_precedes, laid_nodes,
  is_between, laid_edges,
}

NodeBox-set : IsSet NodeBox
NodeBox-set = hlevel

PlaybookEdge-set : IsSet PlaybookEdge
PlaybookEdge-set = hlevel

abbrev pub ids_of : List PlaybookNode → List Uuid
ids_of = map (λ (n : PlaybookNode). n.id)

module _ {A : Type 0} (p : A → Bool) where
  keep-mem_iff : (xs : List A) (x : A) → Mem x (keep p xs) ↔ (Mem x xs × (p x ≡ true))
  keep-mem_iff [] x = (λ m. absurd (not-mem-nil m), λ h. absurd (not-mem-nil h.0))
  keep-mem_iff (y ∷ ys) x = elim (Bool-cases (p y)) [
    | inl kept ↦ rw kept (
      λ m.
          Or.elim (hlevel) (mem-cons.0 m) (λ e. (mem-cons.1 (Or.inl e), rw (e, kept)))
            (λ k. let more = (keep-mem_iff ys x).0 k in (mem-cons.1 (Or.inr more.0), more.1)),
      λ h.
          Or.elim (hlevel) (mem-cons.0 h.0) (λ e. mem-cons.1 (Or.inl e))
            (λ k. mem-cons.1 (Or.inr ((keep-mem_iff ys x).1 (k, h.1)))),
    )
    | inr dropped ↦ rw dropped (
      λ m. let more = (keep-mem_iff ys x).0 m in (mem-cons.1 (Or.inr more.0), more.1),
      λ h.
          Or.elim (hlevel) (mem-cons.0 h.0) (λ e. let q : p x ≡ p y = ap p e in cc)
            (λ k. (keep-mem_iff ys x).1 (k, h.1)),
    )
  ]

  keep-eq : (q : A → Bool) → ((x : A) → p x ≡ q x) → (xs : List A) → keep p xs ≡ keep q xs
  keep-eq q same [] = refl
  keep-eq q same (x ∷ xs) = rw (same x, keep-eq q same xs)

-- Both ends of the edge are nodes.
abbrev pub Joins : List PlaybookNode → PlaybookEdge → Type 0
Joins nodes e = Mem e.from_node_id (ids_of nodes) × Mem e.to_node_id (ids_of nodes)

is_between_iff :
    (nodes : List PlaybookNode) (e : PlaybookEdge)
    → (is_between (of_list (ids_of nodes)) e ≡ true) ↔ Joins nodes e
is_between_iff nodes e =
    let from = has_iff (ids_of nodes) e.from_node_id in
    let to = has_iff (ids_of nodes) e.to_node_id in
    let from_same = has-of_list (ids_of nodes) e.from_node_id in
    let to_same = has-of_list (ids_of nodes) e.to_node_id in
    (
      λ h. (from.0 (ground arith), to.0 (ground arith)),
      λ h. let f = from.1 h.0 in let t = to.1 h.1 in ground arith,
    )

is_between_of_perm :
    {nodes nodes' : List PlaybookNode}
    → Perm nodes nodes'
    → (e : PlaybookEdge)
    → is_between (of_list (ids_of nodes)) e ≡ is_between (of_list (ids_of nodes')) e
is_between_of_perm {nodes = nodes} {nodes' = nodes'} p e =
    let ids = Perm.map (λ (n : PlaybookNode). n.id) p in
    let there = is_between_iff nodes e in
    let here = is_between_iff nodes' e in
    let onward =
      λ (h : Joins nodes e). here.1 ((Perm.mem_iff ids).0 h.0, (Perm.mem_iff ids).0 h.1) in
    let back =
      λ (h : Joins nodes' e). there.1 ((Perm.mem_iff ids).1 h.0, (Perm.mem_iff ids).1 h.1) in
    elim (Bool-cases (is_between (of_list (ids_of nodes)) e)) [
      | inl t ↦ t ∙ sym (onward (there.0 t))
      | inr f ↦ elim (Bool-cases (is_between (of_list (ids_of nodes')) e)) [
        | inl t ↦ let t' = back (here.0 t) in absurd (cc)
        | inr f' ↦ f ∙ sym f'
      ]
    ]

module _ (collation : Collation) where
  -- No two identifiers compare equal.
  abbrev pub IsNodeApart : PlaybookNode → PlaybookNode → Type 0
  IsNodeApart n m = collation.same n.id m.id ≡ false

  -- Nor do the labels of two choices of one node that have one sort order.
  abbrev pub IsChoiceApart : PlaybookEdge → PlaybookEdge → Type 0
  IsChoiceApart e f =
      collation.same e.from_node_id f.from_node_id ≡ true
      → e.sort_order ≡ f.sort_order
      → collation.same e.label f.label ≡ false

  abbrev by_from : PlaybookEdge → PlaybookEdge → Bool
  by_from e f = collation.at_most e.from_node_id f.from_node_id

  abbrev by_sort : PlaybookEdge → PlaybookEdge → Bool
  by_sort e f = le_sort_order e.sort_order f.sort_order

  abbrev by_label : PlaybookEdge → PlaybookEdge → Bool
  by_label e f = collation.at_most e.label f.label

  abbrev same_from : PlaybookEdge → PlaybookEdge → Bool
  same_from e f = collation.same e.from_node_id f.from_node_id

  abbrev same_sort : PlaybookEdge → PlaybookEdge → Bool
  same_sort e f = same_sort_order e.sort_order f.sort_order

  abbrev same_label : PlaybookEdge → PlaybookEdge → Bool
  same_label e f = collation.same e.label f.label

  abbrev within : PlaybookEdge → PlaybookEdge → Bool
  within = then_by by_sort same_sort by_label

  laid_edges-mem_iff :
      (nodes : List PlaybookNode) (edges : List PlaybookEdge) (e : PlaybookEdge)
      → Mem e (laid_edges collation nodes edges) ↔ (Mem e edges × Joins nodes e)
  unfolding laid_edges
  laid_edges-mem_iff nodes edges e =
      let kept = keep-mem_iff (is_between (of_list (ids_of nodes))) _ e in
      let sorted = Perm.mem_iff (sort-perm (edge_precedes collation) edges) in
      let between = is_between_iff nodes e in
      (
        λ m. (sorted.0 (kept.0 m).0, between.0 (kept.0 m).1),
        λ h. kept.1 (sorted.1 h.0, between.1 h.1),
      )

  module _ (order : IsOrder collation.at_most collation.same) where
    laid_nodes_of_perm :
        {nodes nodes' : List PlaybookNode}
        → Perm nodes nodes'
        → AllPairs IsNodeApart nodes
        → laid_nodes collation nodes ≡ laid_nodes collation nodes'
    unfolding laid_nodes
    laid_nodes_of_perm {nodes = nodes} p h =
        let ids = IsOrder-on (λ (n : PlaybookNode). n.id) order in
        let untied =
          AllPairs-imp IsNodeApart _
            (λ n m.
              le-Untied (node_precedes collation) (λ n m. collation.same n.id m.id)
                (node_precedes collation) ids n m)
            nodes h in
        ∥∥₁_elim p (is_set NodeBox-set _ _)
          (λ d. ap (map _) (sort_of_Permᴰ (node_precedes collation) ids.chain d untied))

    edge_precedes-IsTransitive : IsTransitive (edge_precedes collation)
    edge_precedes-IsTransitive =
        then_by-IsTransitive by_from same_from within
          (IsOrder-on (λ (e : PlaybookEdge). e.from_node_id) order)
          (then_by-IsTransitive by_sort same_sort by_label
            (IsOrder-on (λ (e : PlaybookEdge). e.sort_order) le_sort_order-IsOrder)
            (IsOrder-on (λ (e : PlaybookEdge). e.label) order).chain)

    edge_precedes-Untied :
        (e f : PlaybookEdge) → IsChoiceApart e f → Untied (edge_precedes collation) e f
    edge_precedes-Untied e f h =
        then_by-Untied by_from same_from within
          (IsOrder-on (λ (e : PlaybookEdge). e.from_node_id) order) e f
          (λ from.
            then_by-Untied by_sort same_sort by_label
              (IsOrder-on (λ (e : PlaybookEdge). e.sort_order) le_sort_order-IsOrder) e f
              (λ rank.
                le-Untied by_label same_label by_label
                  (IsOrder-on (λ (e : PlaybookEdge). e.label) order) e f
                  (h from (same_sort_order-eq e.sort_order f.sort_order rank))))

    laid_edges_of_perm :
        {nodes nodes' : List PlaybookNode} {edges edges' : List PlaybookEdge}
        → Perm nodes nodes'
        → Perm edges edges'
        → AllPairs IsChoiceApart edges
        → laid_edges collation nodes edges ≡ laid_edges collation nodes' edges'
    unfolding laid_edges
    laid_edges_of_perm {edges = edges} {edges' = edges'} p q h =
        let untied = AllPairs-imp IsChoiceApart _ edge_precedes-Untied edges h in
        ∥∥₁_elim q (is_set PlaybookEdge-set _ _) (λ d.
          ap (keep _) (sort_of_Permᴰ (edge_precedes collation) edge_precedes-IsTransitive d untied)
          ∙ keep-eq _ _ (is_between_of_perm p) (sort (edge_precedes collation) edges'))

    -- Where `localeCompare` orders texts totally, no two ids compare equal and no two choices of a
    -- node have one sort order and labels that compare equal, what dagre is given does not depend
    -- on the order in which nodes and edges are listed, and its edges are exactly those of the
    -- graph whose two ends are nodes of the graph.
    pub laid-of_perm :
        (nodes nodes' : List PlaybookNode) (edges edges' : List PlaybookEdge)
        → Perm nodes nodes'
        → Perm edges edges'
        → AllPairs IsNodeApart nodes
        → AllPairs IsChoiceApart edges
        → (laid_nodes collation nodes ≡ laid_nodes collation nodes')
          × (laid_edges collation nodes edges ≡ laid_edges collation nodes' edges')
          × ((e : PlaybookEdge)
              → Mem e (laid_edges collation nodes edges) ↔ (Mem e edges × Joins nodes e))
    laid-of_perm nodes nodes' edges edges' p q h k =
        (laid_nodes_of_perm p h, laid_edges_of_perm p q k, laid_edges-mem_iff nodes edges)
