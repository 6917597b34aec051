-- ===== src/Investigation/Counts.antt =====
-- The numbers in the legend of the report of InvestigationReportScreen.tsx.
use interbellum.Common.{
  ℕ, ◌+◌, List, [], ◌∷◌, ◌++◌, true, not, ◌≡◌, ◌≢◌, refl, sym, ◌∙◌, ap, subst, inl, inr, arith,
  Option, none, some, map, keep, length, All, Mem, Nodup, Bool-cases, is_empty, get_last?,
}
use interbellum.Text.{codes, ◌==◌}
use interbellum.Text.Equality.{==_iff}
use interbellum.Text.Sets.{has, add, has_iff, Distinct, add-Distinct, Nodup→Distinct}
use interbellum.Integers.{pos}
use interbellum.Types.{Uuid, PathStep, PlaybookEdge, InvestigationReport}
use interbellum.ReportPath.{
  PathOverlay, empty_overlay, select_edge, stamp_node, visit, take_step, take_steps, arrive_by,
  last_edge, ordered, overlay_of_steps, build_path_overlay,
}
use interbellum.ReportPath.Visited.{selected_of, arrive-selected}
use interbellum.ReportPath.Highlights.{build-selected}
use interbellum.Graph.{GraphProps, FlowEdge, flow_edge, flow_edges}
use interbellum.Graph.Path.{overlaid-of_step}
use interbellum.Investigation.{
  report_overlay, report_graph, terminal_root, difference, plural, legend,
}
use interbellum.Investigation.Selected.{count-selected}

take_step-selected_Distinct :
    (o : PathOverlay) (s : PathStep)
    → Distinct o.selected_edge_ids
    → Distinct (take_step o s).selected_edge_ids
unfolding take_step select_edge stamp_node visit
take_step-selected_Distinct o s d =
    subst (λ ids. Distinct (add ids s.selected_edge_id)) (ground arith)
      (add-Distinct o.selected_edge_ids s.selected_edge_id d)

take_steps-selected_Distinct :
    (o : PathOverlay) (ss : List PathStep)
    → Distinct o.selected_edge_ids
    → Distinct (take_steps o ss).selected_edge_ids
unfolding take_steps
take_steps-selected_Distinct o [] d = d
take_steps-selected_Distinct o (s ∷ ss) d =
    take_steps-selected_Distinct (take_step o s) ss (take_step-selected_Distinct o s d)

arrive_by-selected_Distinct :
    (o : PathOverlay) (e : Option PlaybookEdge)
    → Distinct o.selected_edge_ids
    → Distinct (arrive_by o e).selected_edge_ids
arrive_by-selected_Distinct o none d = d
arrive_by-selected_Distinct o (some e) d = subst Distinct (sym (arrive-selected o e.to_node_id)) d

build-selected_Distinct :
    (s : PathStep) (ss : List PathStep) (edges : List PlaybookEdge) (root : Option Uuid)
    → Distinct (build_path_overlay (s ∷ ss) edges root).selected_edge_ids
unfolding build_path_overlay overlay_of_steps
build-selected_Distinct s ss edges root =
    arrive_by-selected_Distinct _ (last_edge edges (get_last? (ordered (s ∷ ss))))
      (take_steps-selected_Distinct empty_overlay (ordered (s ∷ ss)) tt)

-- Of a list, what a test keeps and what it does not.
keep-split :
    (sel : List Uuid) (edges : List PlaybookEdge)
    → length (keep (has sel) (map (λ e. e.id) edges))
        + length (keep (λ (e : PlaybookEdge). not (has sel e.id)) edges)
      ≡ length edges
keep-split sel [] = omega arith
keep-split sel (e ∷ edges) = ground (arith, keep-split sel edges)

keep-flow_edges :
    (props : GraphProps) (sel : List Uuid) (edges : List PlaybookEdge)
    → ((e : PlaybookEdge) → (flow_edge props e).shown.is_ghost ≡ not (has sel e.id))
    → length (keep (λ (f : FlowEdge). f.shown.is_ghost) (map (flow_edge props) edges))
      ≡ length (keep (λ (e : PlaybookEdge). not (has sel e.id)) edges)
keep-flow_edges props sel [] h = refl
keep-flow_edges props sel (e ∷ edges) h = ground (arith, h e, keep-flow_edges props sel edges h)

difference-of_sum : (a b n : ℕ) → b + n ≡ a → difference a b ≡ pos n
unfolding difference
difference-of_sum a b n h = ground arith

has-of_selected :
    (path : List PathStep) (ids : List Uuid)
    → All (λ s. Mem s.selected_edge_id ids) path
    → (y : Uuid) → has (map selected_of path) y ≡ true
    → has ids y ≡ true
unfolding has
has-of_selected [] ids h y e = cc
has-of_selected (s ∷ ss) ids h y e = elim (Bool-cases (s.selected_edge_id == y)) [
  | inl same ↦
      subst (λ z. has ids z ≡ true) ((==_iff s.selected_edge_id y).0 same)
        ((has_iff ids s.selected_edge_id).1 h.0)
  | inr other ↦ has-of_selected ss ids h.1 y (ground arith)
]

flow_edge-ghost :
    (report : InvestigationReport) (s : PathStep) (ss : List PathStep) (e : PlaybookEdge)
    → report.path ≡ (s ∷ ss)
    → (flow_edge (report_graph report) e).shown.is_ghost
      ≡ not (has (report_overlay report).selected_edge_ids e.id)
unfolding flow_edge report_graph report_overlay
flow_edge-ghost report s ss e at =
    let overlaid =
      ap
        (λ path.
          is_empty
            (build_path_overlay path report.playbook_version.edges
              (terminal_root report.investigation.status report.playbook_version)).visited)
        at
      ∙ overlaid-of_step s ss report.playbook_version.edges
          (terminal_root report.investigation.status report.playbook_version) in
    rw overlaid refl

selected_of_report :
    (report : InvestigationReport) (s : PathStep) (ss : List PathStep)
    → report.path ≡ (s ∷ ss)
    → Distinct (report_overlay report).selected_edge_ids
      × ((y : Uuid)
          → has (report_overlay report).selected_edge_ids y ≡ has (map selected_of report.path) y)
unfolding report_overlay
selected_of_report report s ss at = (
  subst
      (λ path.
        Distinct
          (build_path_overlay path report.playbook_version.edges
            (terminal_root report.investigation.status report.playbook_version)).selected_edge_ids)
      (sym at) (build-selected_Distinct s ss report.playbook_version.edges _),
  build-selected report.path report.playbook_version.edges _,
)

dashed_count :
    (report : InvestigationReport) (s : PathStep) (ss : List PathStep)
    → report.path ≡ (s ∷ ss)
    → Nodup (map (λ (e : PlaybookEdge). e.id) report.playbook_version.edges)
    → All
        (λ s.
          Mem s.selected_edge_id (map (λ (e : PlaybookEdge). e.id) report.playbook_version.edges))
        report.path
    → difference
        (length report.playbook_version.edges)
        (length (report_overlay report).selected_edge_ids)
      ≡ pos (
          length (
            keep
              (λ (f : FlowEdge). f.shown.is_ghost)
              (map (flow_edge (report_graph report)) report.playbook_version.edges)))
dashed_count report s ss at apart known =
    let sel = (report_overlay report).selected_edge_ids in
    let edges = report.playbook_version.edges in
    let (distinct, same) = selected_of_report report s ss at in
    let kept =
      count-selected (map (λ (e : PlaybookEdge). e.id) edges) sel (Nodup→Distinct _ apart) distinct
        (λ y h. has-of_selected report.path _ known y (sym (same y) ∙ h)) in
    difference-of_sum (length edges) (length sel) _ (
      ap (λ n. length sel + n)
        (keep-flow_edges (report_graph report) sel edges (λ e. flow_edge-ghost report s ss e at))
      ∙ ap (λ n. n + length (keep (λ (e : PlaybookEdge). not (has sel e.id)) edges)) (sym kept)
      ∙ keep-split sel edges)

-- Where a report with a step selected edges of its graph only, and no two edges share an
-- identifier, the legend counts as branches not taken just the edges that the graph of the report
-- draws dashed.
pub legend-ghost_count :
    (report : InvestigationReport)
    → report.path ≢ []
    → Nodup (map (λ (e : PlaybookEdge). e.id) report.playbook_version.edges)
    → All
        (λ s.
          Mem s.selected_edge_id (map (λ (e : PlaybookEdge). e.id) report.playbook_version.edges))
        report.path
    → (legend (report_overlay report) report.playbook_version).ghost
      ≡ plural
          (pos
            (length (keep (λ (f : FlowEdge). f.shown.is_ghost) (flow_edges (report_graph report)))))
          (codes "branch")
          (codes "branches")
        ++ codes " not taken"
unfolding legend flow_edges report_graph
legend-ghost_count report some_step apart known = at_path report.path refl
  where
    at_path :
        (path : List PathStep)
        → report.path ≡ path
        → plural
              (difference
                (length report.playbook_version.edges)
                (length (report_overlay report).selected_edge_ids))
              (codes "branch")
              (codes "branches")
            ++ codes " not taken"
          ≡ plural
              (pos (
                length (
                  keep
                    (λ (f : FlowEdge). f.shown.is_ghost)
                    (map (flow_edge (report_graph report)) report.playbook_version.edges))))
              (codes "branch")
              (codes "branches")
            ++ codes " not taken"
    at_path [] at = absurd (some_step at)
    at_path (s ∷ ss) at =
        ap (λ n. plural n (codes "branch") (codes "branches") ++ codes " not taken")
          (dashed_count report s ss at apart known)
