-- ===== src/Investigation/Same.antt =====
-- That the runner and the report draw one and the same path.
use interbellum.Common.{
  ℕ, List, [], ◌∷◌, true, ◌≡◌, ◌≢◌, refl, sym, ◌∙◌, ap, inl, inr, arith, Option, none, some,
  some-inj, ◌++◌, map, sort, insert_sorted, get_last?, if◌then◌else◌, Bool-cases,
}
use interbellum.Text.Sets.{has, add}
use interbellum.Types.{Uuid, PathStep, PlaybookEdge, InvestigationState, InvestigationReport, human}
use interbellum.ReportPath.{
  PathOverlay, empty_overlay, visit, arrive, arrive_by, take_step, take_steps, last_edge, precedes,
  ordered, overlay_of_steps, overlay_at_root, build_path_overlay, path_step, stand_at,
  build_overlay_from_steps,
}
use interbellum.ReportPath.Highlights.{build-visited, is_node_iff}
use interbellum.Investigation.{runner_overlay, report_overlay}

-- What a path step is read for.
abbrev pub bare : PathStep → PathStep
bare s = record {
  step_number = s.step_number;
  node_id = s.node_id;
  selected_edge_id = s.selected_edge_id;
  actor = record { type = human; id = none };
  rationale = none;
  evidence = [];
  created_at = [];
}

insert_sorted-bare :
    (s : PathStep) (ss : List PathStep)
    → insert_sorted precedes (bare s) (map bare ss) ≡ map bare (insert_sorted precedes s ss)
unfolding insert_sorted
insert_sorted-bare s [] = refl
insert_sorted-bare s (t ∷ ss) = elim (Bool-cases (precedes s t)) [
  | inl before ↦ rw before refl
  | inr after ↦ rw (after, insert_sorted-bare s ss) refl
]

ordered-bare : (ss : List PathStep) → ordered (map bare ss) ≡ map bare (ordered ss)
unfolding ordered sort
ordered-bare [] = refl
ordered-bare (s ∷ ss) =
    ap (insert_sorted precedes (bare s)) (ordered-bare ss) ∙ insert_sorted-bare s (sort precedes ss)

take_steps-bare :
    (o : PathOverlay) (ss : List PathStep) → take_steps o (map bare ss) ≡ take_steps o ss
unfolding take_steps take_step
take_steps-bare o [] = refl
take_steps-bare o (s ∷ ss) = take_steps-bare (take_step o s) ss

last_edge-bare :
    (edges : List PlaybookEdge) (ss : List PathStep)
    → last_edge edges (get_last? (map bare ss)) ≡ last_edge edges (get_last? ss)
last_edge-bare edges [] = refl
last_edge-bare edges (s ∷ []) = refl
last_edge-bare edges (s ∷ t ∷ ss) = last_edge-bare edges (t ∷ ss)

-- Nothing but the number, the node and the edge of a step is read.
build-bare :
    (path : List PathStep) (edges : List PlaybookEdge) (root : Option Uuid)
    → build_path_overlay (map bare path) edges root ≡ build_path_overlay path edges root
unfolding build_path_overlay overlay_of_steps
build-bare [] edges root = refl
build-bare (s ∷ ss) edges root =
    ap (λ steps. arrive_by (take_steps empty_overlay steps) (last_edge edges (get_last? steps)))
      (ordered-bare (s ∷ ss))
    ∙ ap (λ o. arrive_by o (last_edge edges (get_last? (map bare (ordered (s ∷ ss))))))
        (take_steps-bare empty_overlay (ordered (s ∷ ss)))
    ∙ ap (arrive_by (take_steps empty_overlay (ordered (s ∷ ss))))
        (last_edge-bare edges (ordered (s ∷ ss)))

-- Arriving again where the path has ended changes nothing.
arrive-ended :
    (o : PathOverlay) (x : Uuid)
    → o.final_node_id ≡ some x
    → has o.visited x ≡ true
    → arrive o x ≡ o
unfolding arrive visit
arrive-ended o x final seen =
    ap
      (λ b. if b then record o { final_node_id = some x } else record o {
        final_node_id = some x;
        visited = add o.visited x;
        visited_node_ids = o.visited_node_ids ++ x ∷ [];
      })
      seen
    ∙ (λ i. record o { final_node_id = sym final i })

-- The node where a path has ended is visited.
visited-of_final :
    (path : List PathStep) (edges : List PlaybookEdge) (root : Option Uuid) (x : Uuid)
    → (build_path_overlay path edges root).final_node_id ≡ some x
    → has (build_path_overlay path edges root).visited x ≡ true
visited-of_final path edges root x final =
    let at = (is_node_iff (build_path_overlay path edges root).final_node_id x).1 final in
    ground (arith, build-visited path edges root x)

stand_at-named : (o : PathOverlay) (x : Uuid) → x ≢ [] → stand_at o (some x) ≡ arrive o x
stand_at-named o [] h = absurd (h refl)
stand_at-named o (c ∷ s) h = refl

arrive-nothing :
    (x : Uuid) (c : ℕ) (s : Uuid)
    → x ≡ (c ∷ s)
    → arrive empty_overlay x ≡ overlay_at_root (some (c ∷ s))
unfolding arrive visit has add
arrive-nothing x c s e =
    ap
      (λ y. record empty_overlay {
        final_node_id = some y;
        visited = y ∷ [];
        visited_node_ids = y ∷ [];
      })
      e

-- Standing at the node where the path of a report ends gives the overlay of the report.
stand_at-final :
    (path : List PathStep) (edges : List PlaybookEdge) (root : Option Uuid) (x : Uuid)
    → x ≢ []
    → (build_path_overlay path edges root).final_node_id ≡ some x
    → arrive (build_path_overlay path edges none) x ≡ build_path_overlay path edges root
unfolding build_path_overlay
stand_at-final [] edges none x h final = cc
stand_at-final [] edges (some []) x h final = cc
stand_at-final [] edges (some (c ∷ s)) x h final =
    ap (arrive empty_overlay) (sym (some-inj final)) ∙ arrive-nothing (c ∷ s) c s refl
stand_at-final (s ∷ ss) edges root x h final =
    arrive-ended (overlay_of_steps (ordered (s ∷ ss)) edges) x final
      (visited-of_final (s ∷ ss) edges root x final)

-- Where the path of a report lists the steps of a running investigation, with their numbers, nodes
-- and edges, and ends at the node where the investigation stands, the report and the runner draw
-- the same overlay.
pub runner_overlay-eq_report :
    (report : InvestigationReport) (state : InvestigationState)
    → map bare report.path ≡ map path_step state.steps
    → state.current_node.id ≢ []
    → (report_overlay report).final_node_id ≡ some state.current_node.id
    → runner_overlay state report.playbook_version ≡ report_overlay report
unfolding runner_overlay report_overlay build_overlay_from_steps
runner_overlay-eq_report report state same named ends =
    stand_at-named _ state.current_node.id named
    ∙ ap
        (λ path.
          arrive (build_path_overlay path report.playbook_version.edges none) state.current_node.id)
        (sym same)
    ∙ ap (λ o. arrive o state.current_node.id)
        (build-bare report.path report.playbook_version.edges none)
    ∙ stand_at-final report.path report.playbook_version.edges _ state.current_node.id named ends
