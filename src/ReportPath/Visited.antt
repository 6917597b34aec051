-- ===== src/ReportPath/Visited.antt =====
-- Which nodes are visited, and which edges are selected.
use interbellum.Common.{
  List, [], ◌∷◌, true, ◌||◌, ◌≡◌, refl, sym, ◌∙◌, arith, some, map, inl, inr, Bool-cases,
}
use interbellum.Text.{◌==◌}
use interbellum.Text.Equality.{==_iff}
use interbellum.Text.Sets.{has-single, has, add, has-add, has-append, Distinct, Distinct-snoc}
use interbellum.Types.{Uuid, PathStep}
use interbellum.ReportPath.{
  PathOverlay, visit, stamp_node, select_edge, take_step, take_steps, arrive,
}

-- The set of visited nodes holds what the list holds, and the list holds nothing twice.
pub record IsConsistent (o : PathOverlay) : Type 0 where
  pub same : (x : Uuid) → has o.visited x ≡ has o.visited_node_ids x
  pub distinct : Distinct o.visited_node_ids

has-visit : (o : PathOverlay) (x y : Uuid) → has (visit o x).visited y ≡ (has o.visited y || x == y)
unfolding visit
has-visit o x y = ground (arith, has-add o.visited x y, old x y)
  where
    old : (x y : Uuid) → x == y ≡ true → has o.visited x ≡ has o.visited y
    old x y e = rw ((==_iff x y).0 e)

visit-IsConsistent : (o : PathOverlay) (x : Uuid) → IsConsistent o → IsConsistent (visit o x)
unfolding visit
visit-IsConsistent o x v = elim (Bool-cases (has o.visited x)) [
  | inl old ↦ rw old v
  | inr new ↦ rw new (record {
    same = λ y. has-add o.visited x y ∙ sym (has-append o.visited_node_ids (x ∷ []) y ∙ snoc-eq y);
    distinct = Distinct-snoc o.visited_node_ids x v.distinct (sym (v.same x) ∙ new);
  })
]
  where
    snoc-eq :
        (y : Uuid) → (has o.visited_node_ids y || has (x ∷ []) y) ≡ (has o.visited y || x == y)
    snoc-eq y = rw (← v.same y, has-single x y)

-- What a step does to the nodes is the visit.
take_step-visited :
    (o : PathOverlay) (s : PathStep) → (take_step o s).visited ≡ (visit o s.node_id).visited
unfolding take_step stamp_node select_edge
take_step-visited o s = ground arith

take_step-visited_node_ids :
    (o : PathOverlay) (s : PathStep)
    → (take_step o s).visited_node_ids ≡ (visit o s.node_id).visited_node_ids
unfolding take_step stamp_node select_edge
take_step-visited_node_ids o s = ground arith

take_step-selected :
    (o : PathOverlay) (s : PathStep)
    → (take_step o s).selected_edge_ids ≡ add o.selected_edge_ids s.selected_edge_id
unfolding take_step stamp_node select_edge visit
take_step-selected o s = ground arith

take_step-final : (o : PathOverlay) (s : PathStep) → (take_step o s).final_node_id ≡ o.final_node_id
unfolding take_step stamp_node select_edge visit
take_step-final o s = ground arith

take_step-IsConsistent :
    (o : PathOverlay) (s : PathStep) → IsConsistent o → IsConsistent (take_step o s)
take_step-IsConsistent o s v =
    let w = visit-IsConsistent o s.node_id v in
    record {
      same = λ y. rw (take_step-visited o s, take_step-visited_node_ids o s) (w.same y);
      distinct = rw (take_step-visited_node_ids o s) w.distinct;
    }

abbrev pub node_of : PathStep → Uuid
node_of s = s.node_id

abbrev pub selected_of : PathStep → Uuid
selected_of s = s.selected_edge_id

pub take_steps-IsConsistent :
    (o : PathOverlay) (ss : List PathStep) → IsConsistent o → IsConsistent (take_steps o ss)
unfolding take_steps
take_steps-IsConsistent o [] v = v
take_steps-IsConsistent o (s ∷ ss) v =
    take_steps-IsConsistent (take_step o s) ss (take_step-IsConsistent o s v)

pub take_steps-visited :
    (o : PathOverlay) (ss : List PathStep) (y : Uuid)
    → has (take_steps o ss).visited y ≡ (has o.visited y || has (map node_of ss) y)
unfolding take_steps has
take_steps-visited o [] y = ground arith
take_steps-visited o (s ∷ ss) y =
    ground (
      arith,
      take_steps-visited (take_step o s) ss y,
      take_step-visited o s,
      has-visit o s.node_id y,
    )

pub take_steps-selected :
    (o : PathOverlay) (ss : List PathStep) (y : Uuid)
    → has (take_steps o ss).selected_edge_ids y
      ≡ (has o.selected_edge_ids y || has (map selected_of ss) y)
unfolding take_steps has
take_steps-selected o [] y = ground arith
take_steps-selected o (s ∷ ss) y = ground (
  arith,
  take_steps-selected (take_step o s) ss y,
  take_step-selected o s,
  has-add o.selected_edge_ids s.selected_edge_id y,
)

pub take_steps-final :
    (o : PathOverlay) (ss : List PathStep) → (take_steps o ss).final_node_id ≡ o.final_node_id
unfolding take_steps
take_steps-final o [] = refl
take_steps-final o (s ∷ ss) = take_steps-final (take_step o s) ss ∙ take_step-final o s

pub arrive-IsConsistent : (o : PathOverlay) (x : Uuid) → IsConsistent o → IsConsistent (arrive o x)
unfolding arrive
arrive-IsConsistent o x v =
    visit-IsConsistent (record o { final_node_id = some x }) x
      (record { same = v.same; distinct = v.distinct })

pub arrive-final : (o : PathOverlay) (x : Uuid) → (arrive o x).final_node_id ≡ some x
unfolding arrive visit
arrive-final o x = ground arith

pub arrive-visited :
    (o : PathOverlay) (x y : Uuid) → has (arrive o x).visited y ≡ (has o.visited y || x == y)
unfolding arrive
arrive-visited o x y = has-visit (record o { final_node_id = some x }) x y

pub arrive-selected :
    (o : PathOverlay) (x : Uuid) → (arrive o x).selected_edge_ids ≡ o.selected_edge_ids
unfolding arrive visit
arrive-selected o x = ground arith
