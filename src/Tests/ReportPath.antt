-- ===== src/Tests/ReportPath.antt =====
-- The overlay of a path of two steps that the API lists backwards.
use mathlib.Core.List.Perm
use interbellum.Common.{List, [], ◌∷◌, ◌≡◌, refl, inl, inr, arith, none, some, sort, false}
use interbellum.Text.{Text, ◌==◌}
use interbellum.Text.Sets.{has, add}
use interbellum.Text.Maps.{get, put, has_key}
use interbellum.Integers.{pos}
use interbellum.Types.{PathStep, PlaybookEdge, InvestigationStep, PlaybookNode, decision, human}
use interbellum.ReportPath.{
  build_path_overlay, build_overlay_from_steps, overlay_of_steps, ordered, take_steps, take_step,
  visit, stamp_node, select_edge, arrive, edge_of,
}
use interbellum.ReportPath.Highlights.{IsListed, build_path_overlay-IsListed}
use interbellum.ReportPath.Final.{
  destination, final-eq_of_IsLatest, build_overlay_from_steps-current,
}
use interbellum.ReportPath.Stamps.{
  IsFirstStep, IsLastStep, step_at_node-IsFirstStep, step_at_edge-IsLastStep,
}
use interbellum.Graph.{GraphProps, NodeCard, EdgeCard, playbook_graph}
use interbellum.Graph.Path.{with_path, ShowsPath, ShowsChoice, Pairwise, playbook_graph-ShowsPath}
use interbellum.ReportPath.Order.{build_path_overlay_of_perm}

abbrev id_a : Text
id_a = b'a' ∷ []

abbrev id_b : Text
id_b = b'b' ∷ []

abbrev id_c : Text
id_c = b'c' ∷ []

abbrev id_e : Text
id_e = b'e' ∷ []

abbrev id_f : Text
id_f = b'f' ∷ []

abbrev id_s : Text
id_s = b's' ∷ []

abbrev first_step : PathStep
first_step = record {
  step_number = 1;
  node_id = id_a;
  selected_edge_id = id_e;
  actor = record { type = human; id = none };
  rationale = none;
  evidence = [];
  created_at = [];
}

abbrev second_step : PathStep
second_step = record first_step { step_number = 2; node_id = id_b; selected_edge_id = id_f }

abbrev backwards : List PathStep
backwards = second_step ∷ first_step ∷ []

abbrev edge_between : Text → Text → Text → PlaybookEdge
edge_between id from to = record {
  id = id;
  from_node_id = from;
  to_node_id = to;
  label = [];
  description = none;
  sort_order = pos 0;
}

abbrev two_edges : List PlaybookEdge
two_edges = edge_between id_e id_a id_b ∷ edge_between id_f id_b id_c ∷ []

abbrev live_step : InvestigationStep
live_step = record {
  id = id_s;
  sequence_number = 1;
  node_id = id_a;
  selected_edge_id = id_e;
  actor = record { type = human; id = none };
  rationale = none;
  evidence = [];
  created_at = [];
}

overlay_backwards :
    ((build_path_overlay backwards two_edges none).visited_node_ids ≡ id_a ∷ id_b ∷ id_c ∷ [])
    × ((build_path_overlay backwards two_edges none).final_node_id ≡ some id_c)
    × (get (build_path_overlay backwards two_edges none).step_at_node id_b ≡ some 2)
unfolding build_path_overlay overlay_of_steps ordered sort take_steps take_step visit stamp_node
    select_edge arrive has add get put has_key ◌==◌
overlay_backwards = (refl, refl, refl)

build_path_overlay-IsListed_example : IsListed (build_path_overlay backwards two_edges none)
build_path_overlay-IsListed_example = build_path_overlay-IsListed backwards two_edges none

final-eq_of_IsLatest_example :
    (build_path_overlay backwards two_edges none).final_node_id
    ≡ destination (edge_of two_edges second_step)
final-eq_of_IsLatest_example =
    final-eq_of_IsLatest backwards two_edges none second_step
      (inl refl, (inl refl, (inr (omega arith), tt)))

build_overlay_from_steps-current_example :
    (build_overlay_from_steps (live_step ∷ []) two_edges (some id_c)).final_node_id ≡ some id_c
build_overlay_from_steps-current_example =
    (build_overlay_from_steps-current (live_step ∷ []) two_edges id_c (λ e. cc)).0

step_at_node-IsFirstStep_example :
    IsFirstStep backwards id_b (get (build_path_overlay backwards two_edges none).step_at_node id_b)
step_at_node-IsFirstStep_example = step_at_node-IsFirstStep backwards two_edges none id_b

step_at_edge-IsLastStep_example :
    IsLastStep backwards id_e (get (build_path_overlay backwards two_edges none).step_at_edge id_e)
step_at_edge-IsLastStep_example = step_at_edge-IsLastStep backwards two_edges none id_e

build_path_overlay_of_perm_example :
    build_path_overlay backwards two_edges none
    ≡ build_path_overlay (first_step ∷ second_step ∷ []) two_edges none
build_path_overlay_of_perm_example =
    build_path_overlay_of_perm backwards (first_step ∷ second_step ∷ []) two_edges none
      (Perm.swap first_step second_step []) (((λ e. omega arith), tt), (tt, tt))

abbrev plain_node : Text → PlaybookNode
plain_node id = record {
  id = id;
  kind = decision;
  title = id;
  description = [];
  terminal_resolution = none;
  metadata = none;
}

abbrev three_nodes : GraphProps
three_nodes = record {
  nodes = plain_node id_a ∷ plain_node id_b ∷ plain_node id_s ∷ [];
  edges = two_edges;
  root_node_id = some id_a;
  overlay = none;
  clickable = false;
  selected_node_id = none;
}

playbook_graph-ShowsPath_example :
    (cards : List NodeCard) × (lines : List EdgeCard) × (playbook_graph
        (λ c. c ∷ [])
        (with_path three_nodes backwards none)
      ≡ some (cards, lines))
    × Pairwise (ShowsPath backwards two_edges none) cards three_nodes.nodes
    × Pairwise (ShowsChoice backwards) lines two_edges
playbook_graph-ShowsPath_example =
    playbook_graph-ShowsPath (λ c. c ∷ []) three_nodes second_step (first_step ∷ []) none (λ e. cc)
