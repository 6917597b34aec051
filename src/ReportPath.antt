-- ===== src/ReportPath.antt =====
-- frontend/src/lib/report-path.ts: what a report and a running investigation highlight.
pub mod Visited
pub mod Highlights
pub mod Final
pub mod Stamps
pub mod Order
use interbellum.Common.{
  ℕ, List, [], ◌∷◌, ◌++◌, Bool, Option, none, some, map, leb, sort, get_last?, find?, if◌then◌else◌,
}
use interbellum.Text.{Text, ◌==◌}
use interbellum.Text.Sets.{has, add}
use interbellum.Text.Maps.{get, put, has_key}
use interbellum.Types.{
  Uuid, PathStep, PlaybookEdge, PlaybookNode, PlaybookVersionDefinition, InvestigationStep, human,
}

pub record PathOverlay : Type 0 where
  pub visited_node_ids : List Uuid
  pub visited : List Uuid
  pub step_at_node : List (Uuid × ℕ)
  pub selected_edge_ids : List Uuid
  pub step_at_edge : List (Uuid × ℕ)
  pub final_node_id : Option Uuid

abbrev pub empty_overlay : PathOverlay
empty_overlay = record {
  visited_node_ids = [];
  visited = [];
  step_at_node = [];
  selected_edge_ids = [];
  step_at_edge = [];
  final_node_id = none;
}

-- `if (!overlay.visited.has(id)) { overlay.visited.add(id); overlay.visitedNodeIds.push(id); }`.
unfoldable pub visit : PathOverlay → Uuid → PathOverlay
visit o node_id = if has o.visited node_id then o else record o {
  visited = add o.visited node_id;
  visited_node_ids = o.visited_node_ids ++ node_id ∷ [];
}

-- The node is stamped once, with the step of its first visit.
unfoldable pub stamp_node : PathOverlay → Uuid → ℕ → PathOverlay
stamp_node o node_id step_number =
    if has_key o.step_at_node node_id
    then o
    else record o { step_at_node = put o.step_at_node node_id step_number }

unfoldable pub select_edge : PathOverlay → Uuid → ℕ → PathOverlay
select_edge o edge_id step_number = record o {
  selected_edge_ids = add o.selected_edge_ids edge_id;
  step_at_edge = put o.step_at_edge edge_id step_number;
}

-- One round of `for (const step of ordered)`.
unfoldable pub take_step : PathOverlay → PathStep → PathOverlay
take_step o s =
    select_edge (stamp_node (visit o s.node_id) s.node_id s.step_number) s.selected_edge_id
      s.step_number

unfoldable pub take_steps : PathOverlay → List PathStep → PathOverlay
take_steps o [] = o
take_steps o (s ∷ ss) = take_steps (take_step o s) ss

-- The node that was reached is final, and visited.
unfoldable pub arrive : PathOverlay → Uuid → PathOverlay
arrive o node_id = visit (record o { final_node_id = some node_id }) node_id

abbrev pub arrive_by : PathOverlay → Option PlaybookEdge → PathOverlay
arrive_by o none = o
arrive_by o (some e) = arrive o e.to_node_id

-- `edges.find((edge) => edge.id === last.selected_edge_id)`.
abbrev pub edge_of : List PlaybookEdge → PathStep → Option PlaybookEdge
edge_of edges s = find? (λ (e : PlaybookEdge). e.id == s.selected_edge_id) edges

abbrev pub last_edge : List PlaybookEdge → Option PathStep → Option PlaybookEdge
last_edge edges none = none
last_edge edges (some s) = edge_of edges s

abbrev pub precedes : PathStep → PathStep → Bool
precedes a b = leb a.step_number b.step_number

-- `[...path].sort((a, b) => a.step_number - b.step_number)`.
unfoldable pub ordered : List PathStep → List PathStep
ordered path = sort precedes path

-- A zero-step investigation that ended at its root; an empty id is falsy.
abbrev pub overlay_at_root : Option Uuid → PathOverlay
overlay_at_root none = empty_overlay
overlay_at_root (some []) = empty_overlay
overlay_at_root (some (c ∷ s)) = record empty_overlay {
  final_node_id = some (c ∷ s);
  visited = add [] (c ∷ s);
  visited_node_ids = (c ∷ s) ∷ [];
}

-- The steps are not empty here.
unfoldable pub overlay_of_steps : List PathStep → List PlaybookEdge → PathOverlay
overlay_of_steps steps edges =
    arrive_by (take_steps empty_overlay steps) (last_edge edges (get_last? steps))

-- `terminal_root_node_id` is the option of that name; it is ignored on a path with steps.
unfoldable pub build_path_overlay : List PathStep → List PlaybookEdge → Option Uuid → PathOverlay
build_path_overlay [] edges terminal_root_node_id = overlay_at_root terminal_root_node_id
build_path_overlay (s ∷ ss) edges terminal_root_node_id = overlay_of_steps (ordered (s ∷ ss)) edges

-- The step as `buildPathOverlay` takes it: nothing but its number, node and edge is read.
unfoldable pub path_step : InvestigationStep → PathStep
path_step s = record {
  step_number = s.sequence_number;
  node_id = s.node_id;
  selected_edge_id = s.selected_edge_id;
  actor = record { type = human; id = none };
  rationale = none;
  evidence = [];
  created_at = [];
}

abbrev pub stand_at : PathOverlay → Option Uuid → PathOverlay
stand_at o none = o
stand_at o (some []) = o
stand_at o (some (c ∷ s)) = arrive o (c ∷ s)

unfoldable pub build_overlay_from_steps :
    List InvestigationStep → List PlaybookEdge → Option Uuid → PathOverlay
build_overlay_from_steps steps edges current_node_id =
    stand_at (build_path_overlay (map path_step steps) edges none) current_node_id

index_into : List (Uuid × PlaybookNode) → List PlaybookNode → List (Uuid × PlaybookNode)
index_into m [] = m
index_into m (n ∷ ns) = index_into (put m n.id n) ns

-- `indexNodes`: of two nodes with one id the later one is kept.
unfoldable pub index_nodes : PlaybookVersionDefinition → List (Uuid × PlaybookNode)
unfolding index_into
index_nodes version = index_into [] version.nodes

index_edges_into : List (Uuid × PlaybookEdge) → List PlaybookEdge → List (Uuid × PlaybookEdge)
index_edges_into m [] = m
index_edges_into m (e ∷ es) = index_edges_into (put m e.id e) es

unfoldable pub index_edges : PlaybookVersionDefinition → List (Uuid × PlaybookEdge)
unfolding index_edges_into
index_edges version = index_edges_into [] version.edges
