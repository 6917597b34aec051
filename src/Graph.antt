-- ===== src/Graph.antt =====
-- frontend/src/components/graph/PlaybookGraph.tsx, nodes.tsx and edges.tsx: what is drawn of a
-- graph and
-- the path laid over it, without the boxes of dagre and the styling.
pub mod Path
use interbellum.Common.{
  ℕ, List, [], ◌∷◌, Bool, true, false, not, ◌&&◌, Option, none, some, is_empty, map, if◌then◌else◌,
}
use interbellum.Text.{Text, codes, ◌==◌}
use interbellum.Text.Sets.{has}
use interbellum.Text.Maps.{get}
use interbellum.Types.{Uuid, PlaybookNodeKind, decision, terminal, PlaybookNode, PlaybookEdge}
use interbellum.Format.{humanize_token}
use interbellum.ReportPath.{PathOverlay}

pub record NodeData : Type 0 where
  pub kind : PlaybookNodeKind
  pub title : Text
  pub description : Text
  pub resolution : Option Text
  pub is_root : Bool
  pub is_visited : Bool
  pub is_final : Bool
  pub step_number : Option ℕ
  pub is_ghost : Bool

pub record FlowNode : Type 0 where
  pub id : Uuid
  pub type : PlaybookNodeKind
  pub selectable : Bool
  pub selected : Bool
  pub shown : NodeData

pub record EdgeData : Type 0 where
  pub label : Text
  pub is_selected : Bool
  pub step_number : Option ℕ
  pub is_ghost : Bool

-- The three colours of lines.
pub data Tone : Type 0 where
  signal rule rule_strong : Tone

pub record FlowEdge : Type 0 where
  pub id : Uuid
  pub source : Uuid
  pub target : Uuid
  pub z_index : ℕ
  pub marker : Tone
  pub shown : EdgeData

abbrev pub is_id : Option Uuid → Uuid → Bool
is_id none id = false
is_id (some wanted) id = wanted == id

abbrev pub is_overlaid : Option PathOverlay → Bool
is_overlaid none = false
is_overlaid (some o) = not (is_empty o.visited)

abbrev pub visits : Option PathOverlay → Uuid → Bool
visits none id = false
visits (some o) id = has o.visited id

abbrev pub selects : Option PathOverlay → Uuid → Bool
selects none id = false
selects (some o) id = has o.selected_edge_ids id

abbrev pub ends_at : Option PathOverlay → Uuid → Bool
ends_at none id = false
ends_at (some o) id = is_id o.final_node_id id

abbrev pub number_at_node : Option PathOverlay → Uuid → Option ℕ
number_at_node none id = none
number_at_node (some o) id = get o.step_at_node id

abbrev pub number_at_edge : Option PathOverlay → Uuid → Option ℕ
number_at_edge none id = none
number_at_edge (some o) id = get o.step_at_edge id

-- The properties of the component; `clickable` is `Boolean(onNodeClick)`.
pub record GraphProps : Type 0 where
  pub nodes : List PlaybookNode
  pub edges : List PlaybookEdge
  pub root_node_id : Option Uuid
  pub overlay : Option PathOverlay
  pub clickable : Bool
  pub selected_node_id : Option Uuid

unfoldable pub flow_node : GraphProps → PlaybookNode → FlowNode
flow_node props n = record {
  id = n.id;
  type = n.kind;
  selectable = props.clickable;
  selected = is_id props.selected_node_id n.id;
  shown = record {
    kind = n.kind;
    title = n.title;
    description = n.description;
    resolution = n.terminal_resolution;
    is_root = is_id props.root_node_id n.id;
    is_visited = visits props.overlay n.id;
    is_final = ends_at props.overlay n.id;
    step_number = number_at_node props.overlay n.id;
    is_ghost = is_overlaid props.overlay && not (visits props.overlay n.id);
  };
}

abbrev pub marker_tone : Bool → Bool → Tone
marker_tone selected overlaid = if selected then signal else if overlaid then rule else rule_strong

unfoldable pub flow_edge : GraphProps → PlaybookEdge → FlowEdge
flow_edge props e = record {
  id = e.id;
  source = e.from_node_id;
  target = e.to_node_id;
  z_index = if selects props.overlay e.id then 2 else 1;
  marker = marker_tone (selects props.overlay e.id) (is_overlaid props.overlay);
  shown = record {
    label = e.label;
    is_selected = selects props.overlay e.id;
    step_number = number_at_edge props.overlay e.id;
    is_ghost = is_overlaid props.overlay && not (selects props.overlay e.id);
  };
}

unfoldable pub flow_nodes : GraphProps → List FlowNode
flow_nodes props = map (flow_node props) props.nodes

unfoldable pub flow_edges : GraphProps → List FlowEdge
flow_edges props = map (flow_edge props) props.edges

-- What stands in the corner of a node.
pub data Badge : Type 0 where
  number : ℕ → Badge
  reached : Badge
  current : Badge

pub data Border : Type 0 where
  signal_border signal_half rule_border strong_border : Border

-- The frame of a node and the lines under its title.
pub record NodeCard : Type 0 where
  pub border : Border
  pub faded : Bool
  pub root_label : Bool
  pub badge : Option Badge
  pub title : Text
  pub lines : List Text

abbrev pub arrival_badge : PlaybookNodeKind → Badge
arrival_badge terminal = reached
arrival_badge decision = current

unfoldable pub badge_of : NodeData → Option ℕ → Option Badge
badge_of d (some k) = some (number k)
badge_of d none = if d.is_final then some (arrival_badge d.kind) else none

abbrev pub description_lines : Text → List Text
description_lines [] = []
description_lines (c ∷ s) = (c ∷ s) ∷ []

-- `upper` is `toUpperCase` of one code unit.
abbrev pub resolution_lines : (ℕ → Text) → Option Text → List Text
resolution_lines upper none = codes "—" ∷ []
resolution_lines upper (some []) = [] ∷ []
resolution_lines upper (some (c ∷ s)) = (c ∷ s) ∷ humanize_token upper (c ∷ s) ∷ []

-- DecisionNode and TerminalNode.
abbrev pub lines_of : (ℕ → Text) → PlaybookNodeKind → NodeData → List Text
lines_of upper decision d = description_lines d.description
lines_of upper terminal d = resolution_lines upper d.resolution

abbrev pub border_of : NodeData → Border
border_of d =
    if d.is_final
    then signal_border
    else if d.is_visited
    then signal_half
    else if d.is_ghost
    then rule_border
    else strong_border

unfoldable pub node_card : (ℕ → Text) → FlowNode → NodeCard
node_card upper n = record {
  border = border_of n.shown;
  faded = n.shown.is_ghost;
  root_label = n.shown.is_root;
  badge = badge_of n.shown n.shown.step_number;
  title = n.shown.title;
  lines = lines_of upper n.type n.shown;
}

-- The line of an edge and its label.
pub record EdgeCard : Type 0 where
  pub stroke : Tone
  pub heavy : Bool
  pub dashed : Bool
  pub step : Option ℕ
  pub label : Text

unfoldable pub edge_card : EdgeData → EdgeCard
edge_card d = record {
  stroke = if d.is_selected then signal else if d.is_ghost then rule else rule_strong;
  heavy = d.is_selected;
  dashed = d.is_ghost;
  step = if d.is_selected then d.step_number else none;
  label = d.label;
}

-- Nothing but a notice is drawn of a graph without nodes.
unfoldable pub playbook_graph : (ℕ → Text) → GraphProps → Option (List NodeCard × List EdgeCard)
playbook_graph upper props =
    if is_empty props.nodes
    then none
    else some (
      map (node_card upper) (flow_nodes props),
      map (λ (e : FlowEdge). edge_card e.shown) (flow_edges props),
    )
