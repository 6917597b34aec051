-- ===== src/Investigation.antt =====
-- frontend/src/app/investigations/[id]/InvestigationRunner.tsx and
-- report/InvestigationReportScreen.tsx,
-- with frontend/src/components/InvestigationOutcome.tsx and StatusChips.tsx: what the runner and
-- the report
-- of an investigation show, without their styling.
pub mod Same
pub mod Selected
pub mod Counts
use interbellum.Common.{
  ℕ, suc, ◌-◌, List, [], ◌∷◌, ◌++◌, Bool, true, false, not, Option, none, some, is_empty, map,
  length, leb, ltb, eqb, if◌then◌else◌,
}
use interbellum.Text.{Text, codes, ◌==◌}
use interbellum.Text.Maps.{get}
use interbellum.Integers.{ℤ, pos, negsuc, to_text, decimal}
use interbellum.Types.{
  Uuid, Actor, ActorType, EvidenceItem, PlaybookNode, PlaybookEdge, PlaybookVersionDefinition,
  PathStep, InvestigationStatus, in_progress, completed, AvailableChoice, InvestigationStep,
  InvestigationState, InvestigationReport,
}
use interbellum.Draft.{or_else}
use interbellum.Format.{
  humanize_token, duration, Disposition, close, escalate, contain, neutral, disposition_of,
}
use interbellum.ReportPath.{
  PathOverlay, build_path_overlay, build_overlay_from_steps, ordered, index_nodes, index_edges,
}
use interbellum.Graph.{GraphProps}
use interbellum.Resource.{Resource, set}

-- The tones of a chip that an investigation has.
pub data ChipTone : Type 0 where
  clear hold alarm plain : ChipTone

abbrev pub disposition_tone : Disposition → ChipTone
disposition_tone close = clear
disposition_tone escalate = hold
disposition_tone contain = alarm
disposition_tone neutral = plain

abbrev pub investigation_tone : InvestigationStatus → ChipTone
investigation_tone in_progress = hold
investigation_tone completed = clear

abbrev pub is_completed : InvestigationStatus → Bool
is_completed completed = true
is_completed in_progress = false

-- The overlay of the runner.
unfoldable pub runner_overlay : InvestigationState → PlaybookVersionDefinition → PathOverlay
runner_overlay state version =
    build_overlay_from_steps state.steps version.edges (some state.current_node.id)

-- An investigation that ended at the root has no path, and is shown at its root.
abbrev pub terminal_root : InvestigationStatus → PlaybookVersionDefinition → Option Uuid
terminal_root status version = if is_completed status then version.root_node_id else none

unfoldable pub report_overlay : InvestigationReport → PathOverlay
report_overlay report =
    build_path_overlay report.path report.playbook_version.edges
      (terminal_root report.investigation.status report.playbook_version)

-- The graph of the report, which no click selects in.
unfoldable pub report_graph : InvestigationReport → GraphProps
report_graph report = record {
  nodes = report.playbook_version.nodes;
  edges = report.playbook_version.edges;
  root_node_id = report.playbook_version.root_node_id;
  overlay = some (report_overlay report);
  clickable = false;
  selected_node_id = none;
}

-- The graph of the runner, without an overlay while the investigation is not there.
unfoldable pub runner_graph : Option InvestigationState → PlaybookVersionDefinition → GraphProps
runner_graph state version = record {
  nodes = version.nodes;
  edges = version.edges;
  root_node_id = version.root_node_id;
  overlay = overlay_of state;
  clickable = false;
  selected_node_id = none;
}
  where
    overlay_of : Option InvestigationState → Option PathOverlay
    overlay_of none = none
    overlay_of (some s) = some (runner_overlay s version)

-- `onApplied` of the decision form.
unfoldable pub apply_decision :
    {E : Type 0}
    → InvestigationState
    → Resource InvestigationState E
    → Resource InvestigationState E
unfolding set
apply_decision next r = set next r

-- One decision on the timeline of a report.
pub record TimelineRow : Type 0 where
  pub step_number : ℕ
  pub node_title : Text
  pub choice : Text
  pub destination : Option Text
  pub actor_type : ActorType
  pub actor_id : Text
  pub rationale : Option Text
  pub evidence : List EvidenceItem

abbrev pub title_or_id : Uuid → Option PlaybookNode → Text
title_or_id id none = id
title_or_id id (some n) = n.title

abbrev pub label_or_edge : Option PlaybookEdge → Text
label_or_edge none = codes "edge"
label_or_edge (some e) = e.label

abbrev pub title_of : Option PlaybookNode → Option Text
title_of none = none
title_of (some n) = some n.title

abbrev pub destination_of : List (Uuid × PlaybookNode) → Option PlaybookEdge → Option Text
destination_of nodes none = none
destination_of nodes (some e) = title_of (get nodes e.to_node_id)

abbrev pub truthy_text : Option Text → Option Text
truthy_text none = none
truthy_text (some []) = none
truthy_text (some (c ∷ s)) = some (c ∷ s)

unfoldable pub timeline_row :
    List (Uuid × PlaybookNode) → List (Uuid × PlaybookEdge) → PathStep → TimelineRow
timeline_row nodes edges s = record {
  step_number = s.step_number;
  node_title = title_or_id s.node_id (get nodes s.node_id);
  choice = label_or_edge (get edges s.selected_edge_id);
  destination = destination_of nodes (get edges s.selected_edge_id);
  actor_type = s.actor.type;
  actor_id = or_else s.actor.id (codes "unattributed");
  rationale = truthy_text s.rationale;
  evidence = s.evidence;
}

unfoldable pub timeline : InvestigationReport → List TimelineRow
timeline report =
    map (timeline_row (index_nodes report.playbook_version) (index_edges report.playbook_version))
      (ordered report.path)

-- `a - b`, which may be negative.
unfoldable pub difference : ℕ → ℕ → ℤ
difference a b = if leb b a then pos (a - b) else negsuc (b - a - 1)

abbrev pub is_one : ℤ → Bool
is_one (pos n) = eqb n 1
is_one (negsuc n) = false

unfoldable pub plural : ℤ → Text → Text → Text
plural count singular many =
    to_text count ++ (codes " " ++ (if is_one count then singular else many))

-- The legend under the graph.
pub record Legend : Type 0 where
  pub taken : Text
  pub visited : Text
  pub ghost : Text

unfoldable pub legend : PathOverlay → PlaybookVersionDefinition → Legend
legend overlay version = record {
  taken =
      plural (pos (length overlay.selected_edge_ids)) (codes "edge") (codes "edges")
      ++ codes " selected, numbered in order";
  visited =
      plural (pos (length overlay.visited_node_ids)) (codes "node") (codes "nodes")
      ++ codes " on the path";
  ghost =
      plural (difference (length version.edges) (length overlay.selected_edge_ids)) (codes "branch")
        (codes "branches")
      ++ codes " not taken";
}

abbrev pub found_node : List (Uuid × PlaybookNode) → Option Uuid → Option PlaybookNode
found_node nodes none = none
found_node nodes (some []) = none
found_node nodes (some (c ∷ s)) = get nodes (c ∷ s)

-- The panel of the final node.
unfoldable pub final_node : InvestigationReport → Option PlaybookNode
final_node report =
    found_node (index_nodes report.playbook_version) (report_overlay report).final_node_id

-- The text of a resolution, and in words where there is one.
abbrev pub outcome_lines : (ℕ → Text) → Option Text → List Text
outcome_lines upper none = codes "—" ∷ []
outcome_lines upper (some []) = [] ∷ []
outcome_lines upper (some (c ∷ s)) = (c ∷ s) ∷ humanize_token upper (c ∷ s) ∷ []

-- What the runner asks, or the outcome that it shows.
pub data RunnerBody : Type 0 where
  outcome : List Text → PlaybookNode → RunnerBody
  question : PlaybookNode → List AvailableChoice → RunnerBody

unfoldable pub runner_body : (ℕ → Text) → InvestigationState → RunnerBody
runner_body upper state =
    if is_completed state.status
    then outcome (outcome_lines upper state.final_resolution) state.current_node
    else question state.current_node state.available_choices

-- `String(step.sequence_number).padStart(2, "0")`.
abbrev pub pad_2 : Text → Text
pad_2 [] = codes "00"
pad_2 (c ∷ []) = codes "0" ++ c ∷ []
pad_2 (c ∷ d ∷ s) = c ∷ d ∷ s

-- One decision in the history of the runner.
pub record HistoryRow : Type 0 where
  pub number : Text
  pub actor_type : ActorType
  pub actor_id : Text
  pub rationale : Option Text
  pub evidence : List EvidenceItem

unfoldable pub history_row : InvestigationStep → HistoryRow
history_row s = record {
  number = pad_2 (decimal s.sequence_number);
  actor_type = s.actor.type;
  actor_id = or_else s.actor.id (codes "unattributed");
  rationale = truthy_text s.rationale;
  evidence = s.evidence;
}

-- The steps in the order in which the API lists them.
unfoldable pub history : InvestigationState → List HistoryRow
history state = map history_row state.steps
