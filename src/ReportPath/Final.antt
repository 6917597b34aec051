-- ===== src/ReportPath/Final.antt =====
-- Where an overlay ends.
use interbellum.Common.{
  ℕ, List, [], ◌∷◌, ◌||◌, ◌≡◌, refl, sym, ap, ◌∙◌, arith, Option, none, some, map, Mem, ◌⊎◌,
  get_last?, ◌<◌, Any, All, get_last?-sort, ◌≢◌,
}
use interbellum.Text.{◌==◌}
use interbellum.Text.Equality.{==_refl}
use interbellum.Text.Sets.{has, has_iff}
use interbellum.Types.{Uuid, PathStep, PlaybookEdge, InvestigationStep}
use interbellum.ReportPath.{
  PathOverlay, empty_overlay, arrive, arrive_by, edge_of, last_edge, overlay_of_steps, ordered,
  build_path_overlay, path_step, build_overlay_from_steps,
}
use interbellum.ReportPath.Visited.{
  IsConsistent, take_steps-final, arrive-IsConsistent, arrive-final, arrive-visited,
}
use interbellum.ReportPath.Highlights.{build-IsConsistent}

abbrev number_of : PathStep → ℕ
number_of s = s.step_number

-- Every other step has a smaller number.
abbrev pub IsLatest : PathStep → List PathStep → Type 0
IsLatest s path = Any (λ t. t ≡ s) path × All (λ t. (t ≡ s) ⊎ (t.step_number < s.step_number)) path

abbrev pub destination : Option PlaybookEdge → Option Uuid
destination none = none
destination (some e) = some e.to_node_id

arrive_by-final :
    (o : PathOverlay) (e : Option PlaybookEdge)
    → o.final_node_id ≡ none
    → (arrive_by o e).final_node_id ≡ destination e
arrive_by-final o none h = h
arrive_by-final o (some e) h = arrive-final o e.to_node_id

last-eq_of_IsLatest :
    (path : List PathStep) (s : PathStep) → IsLatest s path → get_last? (ordered path) ≡ some s
unfolding ordered
last-eq_of_IsLatest path s h = get_last?-sort number_of s path h.0 h.1

-- A path with steps ends where the edge leads that its latest step selected, or nowhere if that
-- edge is not in the graph, whatever the order in which the steps are listed.
pub final-eq_of_IsLatest :
    (path : List PathStep) (edges : List PlaybookEdge) (root : Option Uuid) (s : PathStep)
    → IsLatest s path
    → (build_path_overlay path edges root).final_node_id ≡ destination (edge_of edges s)
unfolding build_path_overlay overlay_of_steps
final-eq_of_IsLatest [] edges root s h = elim h.0 [ ]
final-eq_of_IsLatest (t ∷ ss) edges root s h =
    arrive_by-final _ _ (take_steps-final empty_overlay (ordered (t ∷ ss)))
    ∙ ap (λ l. destination (last_edge edges l)) (last-eq_of_IsLatest (t ∷ ss) s h)

arrive-listed :
    (o : PathOverlay) (x y : Uuid)
    → IsConsistent o
    → has (arrive o x).visited_node_ids y ≡ (has o.visited_node_ids y || x == y)
arrive-listed o x y v =
    sym ((arrive-IsConsistent o x v).same y)
    ∙ arrive-visited o x y
    ∙ ap (λ b. b || x == y) (v.same y)

-- A running investigation that stands at a node ends its overlay there.
pub build_overlay_from_steps-current :
    (steps : List InvestigationStep) (edges : List PlaybookEdge) (current : Uuid)
    → current ≢ []
    → ((build_overlay_from_steps steps edges (some current)).final_node_id ≡ some current)
      × Mem current (build_overlay_from_steps steps edges (some current)).visited_node_ids
      × ((y : Uuid)
          → Mem y (build_path_overlay (map path_step steps) edges none).visited_node_ids
          → Mem y (build_overlay_from_steps steps edges (some current)).visited_node_ids)
unfolding build_overlay_from_steps
build_overlay_from_steps-current steps edges [] h = absurd (h refl)
build_overlay_from_steps-current steps edges (c ∷ s) h =
    let o = build_path_overlay (map path_step steps) edges none in
    let v = build-IsConsistent (map path_step steps) edges none in
    (
      arrive-final o (c ∷ s),
      (has_iff _ _).0 (ground (arith, arrive-listed o (c ∷ s) (c ∷ s) v, ==_refl (c ∷ s))),
      λ y m.
          let old = (has_iff _ y).1 m in
          (has_iff _ y).0 (ground (arith, arrive-listed o (c ∷ s) y v)),
    )
