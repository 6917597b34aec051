-- ===== src/Tests/Investigation.antt =====
-- An investigation of two steps, as the runner and the report show it.
use interbellum.Common.{List, [], ◌∷◌, ◌++◌, ◌≡◌, refl, none, some, keep, length, sort, Mem, Nodup}
use interbellum.Text.{Text, codes, ◌==◌}
use interbellum.Text.Sets.{has, add, has_iff, Distinct→Nodup}
use interbellum.Text.Maps.{get, put, has_key}
use interbellum.Integers.{pos}
use interbellum.Types.{
  PathStep, PlaybookNode, PlaybookEdge, decision, published, completed, no_fields,
  InvestigationStep, InvestigationState, InvestigationReport, human,
}
use interbellum.ReportPath.{
  build_path_overlay, overlay_of_steps, ordered, take_steps, take_step, path_step, visit,
  stamp_node, select_edge, arrive,
}
use interbellum.Graph.{FlowEdge, flow_edges}
use interbellum.Investigation.{runner_overlay, report_overlay, report_graph, plural, legend}
use interbellum.Investigation.Same.{runner_overlay-eq_report}
use interbellum.Investigation.Counts.{legend-ghost_count}

abbrev node_named : Text → PlaybookNode
node_named id = record {
  id = id;
  kind = decision;
  title = id;
  description = [];
  terminal_resolution = none;
  metadata = none;
}

abbrev edge_to : Text → Text → Text → PlaybookEdge
edge_to id from to = record {
  id = id;
  from_node_id = from;
  to_node_id = to;
  label = [];
  description = none;
  sort_order = pos 0;
}

abbrev live_step : InvestigationStep
live_step = record {
  id = b's' ∷ [];
  sequence_number = 1;
  node_id = b'a' ∷ [];
  selected_edge_id = b'e' ∷ [];
  actor = record { type = human; id = none };
  rationale = none;
  evidence = [];
  created_at = [];
}

abbrev path_of_live : PathStep
path_of_live = record {
  step_number = 1;
  node_id = b'a' ∷ [];
  selected_edge_id = b'e' ∷ [];
  actor = record { type = human; id = some (b'k' ∷ []) };
  rationale = none;
  evidence = [];
  created_at = [];
}

abbrev sample_report : InvestigationReport
sample_report = record {
  investigation = record {
    id = [];
    status = completed;
    final_resolution = none;
    started_at = [];
    completed_at = none;
  };
  alert = record {
    id = [];
    external_id = none;
    alert_type = [];
    title = [];
    description = [];
    payload = no_fields;
    occurred_at = [];
    created_at = [];
  };
  playbook_version = record {
    graph = record {
      root_node_id = some (b'a' ∷ []);
      nodes = node_named (b'a' ∷ []) ∷ node_named (b'b' ∷ []) ∷ [];
      edges =
          edge_to (b'e' ∷ []) (b'a' ∷ []) (b'b' ∷ [])
          ∷ edge_to (b'f' ∷ []) (b'a' ∷ []) (b'a' ∷ [])
          ∷ [];
    };
    id = [];
    playbook_id = [];
    version = 1;
    status = published;
    created_at = [];
    published_at = none;
  };
  path = path_of_live ∷ [];
}

abbrev sample_state : InvestigationState
sample_state = record {
  id = [];
  alert = sample_report.alert;
  playbook_version_id = [];
  status = completed;
  current_node = node_named (b'b' ∷ []);
  available_choices = [];
  final_resolution = none;
  started_at = [];
  completed_at = none;
  steps = live_step ∷ [];
}

ended : (report_overlay sample_report).final_node_id ≡ some (b'b' ∷ [])
unfolding report_overlay build_path_overlay overlay_of_steps ordered take_steps take_step visit
    stamp_node select_edge arrive has add get put has_key sort ◌==◌
ended = refl

runner_overlay-eq_report_example :
    runner_overlay sample_state sample_report.playbook_version ≡ report_overlay sample_report
unfolding path_step
runner_overlay-eq_report_example =
    runner_overlay-eq_report sample_report sample_state refl (λ e. cc) ended

abbrev edge_ids : List Text
edge_ids = (b'e' ∷ []) ∷ (b'f' ∷ []) ∷ []

two_apart : Nodup edge_ids
unfolding has ◌==◌
two_apart = Distinct→Nodup edge_ids (refl, (refl, tt))

abbrev first_edge : Text
first_edge = b'e' ∷ []

chosen : Mem first_edge edge_ids
unfolding has ◌==◌
chosen = (has_iff edge_ids first_edge).0 refl

legend-ghost_count_example :
    (legend (report_overlay sample_report) sample_report.playbook_version).ghost
    ≡ plural
        (pos (
          length
            (keep (λ (f : FlowEdge). f.shown.is_ghost) (flow_edges (report_graph sample_report)))))
        (codes "branch")
        (codes "branches")
      ++ codes " not taken"
legend-ghost_count_example = legend-ghost_count sample_report (λ e. cc) two_apart (chosen, tt)
