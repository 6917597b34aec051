-- ===== src/Graph/Path.antt =====
-- What PlaybookGraph.tsx shows of the path of a report.
use interbellum.Common.{
  ℕ, List, [], ◌∷◌, true, false, ◌≡◌, ◌≢◌, ◌↔◌, refl, ◌∙◌, ap, inl, inr, ◌⊎◌, arith, Option, none,
  some, some-inj, is_empty, map, Mem, All, Any, if◌then◌else◌, Bool-cases,
}
use interbellum.Text.{Text, ◌==◌}
use interbellum.Text.Equality.{==_iff, ==_refl}
use interbellum.Text.Sets.{has, has_iff}
use interbellum.Text.Maps.{get}
use interbellum.Types.{Uuid, PathStep, PlaybookNode, PlaybookEdge}
use interbellum.ReportPath.{build_path_overlay}
use interbellum.ReportPath.Visited.{node_of, selected_of}
use interbellum.ReportPath.Highlights.{build-visited, build-selected, is_node_iff}
use interbellum.ReportPath.Stamps.{IsFirstStep, step_at_node-IsFirstStep}
use interbellum.Graph.{
  GraphProps, flow_node, flow_nodes, FlowEdge, flow_edge, flow_edges, is_id, badge_of, NodeCard,
  node_card, EdgeCard, edge_card, playbook_graph,
}

-- The graph with the overlay of a report.
abbrev pub with_path : GraphProps → List PathStep → Option Uuid → GraphProps
with_path props path root = record props {
  overlay = some (build_path_overlay path props.edges root);
}

-- A step was taken from the node, or the path ends there.
abbrev pub OnPath : List PathStep → List PlaybookEdge → Option Uuid → Uuid → Type 0
OnPath path edges root id =
    Mem id (map node_of path) ⊎ ((build_path_overlay path edges root).final_node_id ≡ some id)

has-nonempty : (xs : List Uuid) (y : Uuid) → has xs y ≡ true → is_empty xs ≡ false
unfolding has
has-nonempty [] y h = cc
has-nonempty (x ∷ xs) y h = refl

-- An overlay of a path with steps is not empty.
pub overlaid-of_step :
    (s : PathStep) (ss : List PathStep) (edges : List PlaybookEdge) (root : Option Uuid)
    → is_empty (build_path_overlay (s ∷ ss) edges root).visited ≡ false
unfolding has
overlaid-of_step s ss edges root =
    let same = ==_refl s.node_id in
    has-nonempty (build_path_overlay (s ∷ ss) edges root).visited s.node_id
      (build-visited (s ∷ ss) edges root s.node_id ∙ rw same)

-- A node is visited exactly if it is on the path.
visits_iff :
    (path : List PathStep) (edges : List PlaybookEdge) (root : Option Uuid) (y : Uuid)
    → (has (build_path_overlay path edges root).visited y ≡ true) ↔ OnPath path edges root y
visits_iff path edges root y = (
  λ h. elim (Bool-cases (has (map node_of path) y)) [
    | inl on ↦ inl ((has_iff _ y).0 on)
    | inr off ↦ inr (
        (is_node_iff (build_path_overlay path edges root).final_node_id y).0
          (ground (arith, build-visited path edges root y)))
  ],
  λ p. elim p [
    | inl m ↦ let on = (has_iff _ y).1 m in ground (arith, build-visited path edges root y)
    | inr e ↦
        let at = (is_node_iff (build_path_overlay path edges root).final_node_id y).1 e in
        ground (arith, build-visited path edges root y)
  ],
)

-- A node is stamped exactly if a step was taken from it.
unstamped-of_first :
    (path : List PathStep) (y : Uuid) → All (λ s. s.node_id ≢ y) path → ¬ Mem y (map node_of path)
unfolding has
unstamped-of_first path y h m = absent path h ((has_iff (map node_of path) y).1 m)
  where
    absent : (ss : List PathStep) → All (λ s. s.node_id ≢ y) ss → ¬ (has (map node_of ss) y ≡ true)
    absent [] k e = cc
    absent (s ∷ ss) k e = elim (Bool-cases (s.node_id == y)) [
      | inl same ↦ k.0 ((==_iff s.node_id y).0 same)
      | inr other ↦ absent ss k.1 (ground arith)
    ]

stamped-of_first :
    (path : List PathStep) (y : Uuid) (k : ℕ)
    → Any (λ s. (s.node_id ≡ y) × (s.step_number ≡ k)) path
    → Mem y (map node_of path)
unfolding has
stamped-of_first path y k h = (has_iff (map node_of path) y).0 (present path h)
  where
    present :
        (ss : List PathStep)
        → Any (λ s. (s.node_id ≡ y) × (s.step_number ≡ k)) ss
        → has (map node_of ss) y ≡ true
    present [] h = elim h [ ]
    present (s ∷ ss) h = elim h [
      | inl (same, _) ↦ let e = (==_iff s.node_id y).1 same in ground arith
      | inr later ↦ let e = present ss later in ground arith
    ]

is_id_iff : (o : Option Uuid) (y : Uuid) → (is_id o y ≡ true) ↔ (o ≡ some y)
is_id_iff none y = (λ h. cc, λ h. cc)
is_id_iff (some x) y = (λ h. ap some ((==_iff x y).0 h), λ h. (==_iff x y).1 (some-inj h))

module _ (props : GraphProps) (s : PathStep) (ss : List PathStep) (root : Option Uuid) where
  badge_iff :
      (n : PlaybookNode) (k : Option ℕ)
      → IsFirstStep (s ∷ ss) n.id k
      → (badge_of (flow_node (with_path props (s ∷ ss) root) n).shown k ≡ none)
        ↔ (¬ OnPath (s ∷ ss) props.edges root n.id)
  unfolding badge_of flow_node
  badge_iff n (some k) h =
      ((λ e. cc), λ off. absurd (off (inl (stamped-of_first (s ∷ ss) n.id k h.0))))
  badge_iff n none h =
      let unstamped = unstamped-of_first (s ∷ ss) n.id h in
      let final = is_id_iff (build_path_overlay (s ∷ ss) props.edges root).final_node_id n.id in
      elim (Bool-cases (is_id (build_path_overlay (s ∷ ss) props.edges root).final_node_id n.id)) [
        | inl on_it ↦
            (λ e. absurd (let e' = rw on_it at e in cc), λ off. absurd (off (inr (final.0 on_it))))
        | inr off_it ↦ (
          λ e on. elim on [ inl m ↦ unstamped m | inr at ↦ let on_it = final.1 at in cc ],
          λ off. rw off_it,
        )
      ]

  ghost_iff :
      (n : PlaybookNode)
      → ((flow_node (with_path props (s ∷ ss) root) n).shown.is_ghost ≡ true)
        ↔ (¬ OnPath (s ∷ ss) props.edges root n.id)
  unfolding flow_node
  ghost_iff n =
      let overlaid = overlaid-of_step s ss props.edges root in
      let seen = visits_iff (s ∷ ss) props.edges root n.id in
      elim (Bool-cases (has (build_path_overlay (s ∷ ss) props.edges root).visited n.id)) [
        | inl on_it ↦ (
          λ e. absurd (let e' = rw (overlaid, on_it) at e in cc),
          λ off. absurd (off (seen.0 on_it)),
        )
        | inr off_it ↦ (λ e on. let on_it = seen.1 on in cc, λ off. rw (overlaid, off_it))
      ]

  edge_ghost_iff :
      (e : PlaybookEdge)
      → ((flow_edge (with_path props (s ∷ ss) root) e).shown.is_ghost ≡ true)
        ↔ (¬ Mem e.id (map selected_of (s ∷ ss)))
  unfolding flow_edge
  edge_ghost_iff e =
      let overlaid = overlaid-of_step s ss props.edges root in
      let chosen = build-selected (s ∷ ss) props.edges root e.id in
      elim (Bool-cases (has (map selected_of (s ∷ ss)) e.id)) [
        | inl on_it ↦ (
          λ g. absurd (let g' = rw (overlaid, chosen ∙ on_it) at g in cc),
          λ off. absurd (off ((has_iff _ e.id).0 on_it)),
        )
        | inr off_it ↦
            (λ g m. let on_it = (has_iff _ e.id).1 m in cc, λ off. rw (overlaid, chosen ∙ off_it))
      ]

  node_card-badge_iff :
      (upper : ℕ → Text) (n : PlaybookNode)
      → ((node_card upper (flow_node (with_path props (s ∷ ss) root) n)).badge ≡ none)
        ↔ (¬ OnPath (s ∷ ss) props.edges root n.id)
  unfolding node_card flow_node
  node_card-badge_iff upper n =
      badge_iff n (get (build_path_overlay (s ∷ ss) props.edges root).step_at_node n.id)
        (step_at_node-IsFirstStep (s ∷ ss) props.edges root n.id)

unless-empty {ℓ} :
    {A B : Type ℓ} (xs : List A) (x : B) → xs ≢ [] → (if is_empty xs then none else some x) ≡ some x
unless-empty [] x h = absurd (h refl)
unless-empty (y ∷ ys) x h = refl

-- A node has a badge if it is on the path, and is faded if it is not.
abbrev pub ShowsPath :
    List PathStep → List PlaybookEdge → Option Uuid → NodeCard × PlaybookNode → Type 0
ShowsPath path edges root (card, n) =
    ((card.badge ≡ none) ↔ (¬ OnPath path edges root n.id))
    × ((card.faded ≡ true) ↔ (¬ OnPath path edges root n.id))

-- An edge is dashed if it was not selected.
abbrev pub ShowsChoice : List PathStep → EdgeCard × PlaybookEdge → Type 0
ShowsChoice path (card, e) = (card.dashed ≡ true) ↔ (¬ Mem e.id (map selected_of path))

-- The two lists have as many elements, and each pair has the property.
abbrev pub Pairwise : {A B : Type 0} → (A × B → Type 0) → List A → List B → Type 0
Pairwise P [] [] = Unit {0}
Pairwise P [] (y ∷ ys) = ⊥
Pairwise P (x ∷ xs) [] = ⊥
Pairwise P (x ∷ xs) (y ∷ ys) = P (x, y) × Pairwise P xs ys

Pairwise-map :
    {A B C : Type 0} (P : C × A → Type 0) (f : A → B) (g : B → C)
    → ((x : A) → P (g (f x), x))
    → (xs : List A) → Pairwise P (map g (map f xs)) xs
Pairwise-map P f g each [] = tt
Pairwise-map P f g each (x ∷ xs) = (each x, Pairwise-map P f g each xs)

-- What is drawn of a report with a step on a graph with a node is one card for each node and one
-- line for each edge, in their order: a node has a badge exactly if it is on the path and is faded
-- exactly if it is not, and an edge is dashed exactly if it was not selected.
pub playbook_graph-ShowsPath :
    (upper : ℕ → Text) (props : GraphProps) (s : PathStep) (ss : List PathStep) (root : Option Uuid)
    → props.nodes ≢ []
    → (cards : List NodeCard) × (lines : List EdgeCard) × (playbook_graph upper
          (with_path props (s ∷ ss) root)
        ≡ some (cards, lines))
      × Pairwise (ShowsPath (s ∷ ss) props.edges root) cards props.nodes
      × Pairwise (ShowsChoice (s ∷ ss)) lines props.edges
unfolding playbook_graph flow_nodes flow_edges node_card edge_card
playbook_graph-ShowsPath upper props s ss root some_node =
    let drawn = with_path props (s ∷ ss) root in
    (
      map (node_card upper) (flow_nodes drawn),
      map (λ (e : FlowEdge). edge_card e.shown) (flow_edges drawn),
      unless-empty props.nodes _ some_node,
      Pairwise-map (ShowsPath (s ∷ ss) props.edges root) (flow_node drawn) (node_card upper)
          (λ n. (node_card-badge_iff props s ss root upper n, ghost_iff props s ss root n))
          props.nodes,
      Pairwise-map (ShowsChoice (s ∷ ss)) (flow_edge drawn) (λ (e : FlowEdge). edge_card e.shown)
          (edge_ghost_iff props s ss root) props.edges,
    )
