-- ===== src/Draft/Load/Output.antt =====
-- The parts of what `serializePlaybookDraft` returns fit together.
use interbellum.Common.{
  List, [], ◌∷◌, ◌≡◌, ◌≢◌, refl, none, some, All-map, map-map, Mem, map, inl, inr, ◌⊎◌, subst,
  if◌then◌else◌,
}
use interbellum.Text.{Text, trim}
use interbellum.Text.Trim.{trim_idem}
use interbellum.Types.{Uuid, PlaybookNodeKind, decision, terminal, PlaybookGraphInput}
use interbellum.Json.{JsonEngine}
use interbellum.Draft.{NodeDraft, EdgeDraft, PlaybookDraft, is_terminal}
use interbellum.Draft.Errors.{ok}
use interbellum.Draft.Serialize.{serialize_playbook_draft}
use interbellum.Draft.Serialize.Nodes.{write_node}
use interbellum.Draft.Serialize.Edges.{write_edge, unless_empty}
use interbellum.Draft.Rules.{
  node_ids, edge_ids, IsWritableNode, IsWritableEdge, IsWritable, AllApart,
}
use interbellum.Draft.Rules.Accepts.{written, serialize-ok_iff}
use interbellum.Draft.Load.Contract.{
  IsResolution, IsLineOrNone, IsCoherentNode, IsCoherentEdge, AllEdgesApart, IsEdgeApart, IsRoot,
  IsCoherent,
}

unless_empty-IsLineOrNone : (s : Text) → trim s ≡ s → IsLineOrNone (unless_empty s)
unless_empty-IsLineOrNone [] h = tt
unless_empty-IsLineOrNone (c ∷ s) h = (λ e. cc, h)

unless_empty-IsRoot :
    (ids : List Uuid) (s : Uuid) → (s ≡ []) ⊎ Mem s ids → IsRoot ids (unless_empty s)
unless_empty-IsRoot ids [] h = tt
unless_empty-IsRoot ids (c ∷ s) (inl e) = cc
unless_empty-IsRoot ids (c ∷ s) (inr m) = (λ e. cc, m)

IsResolution-if :
    (kind : PlaybookNodeKind) (r : Text)
    → (kind ≡ terminal → r ≢ [])
    → trim r ≡ r
    → IsResolution kind (if is_terminal kind then some r else none)
IsResolution-if decision r h k = tt
IsResolution-if terminal r h k = (h refl, k)

write_edge-IsCoherentEdge :
    (ids : List Uuid) (e : EdgeDraft) → IsWritableEdge ids e → IsCoherentEdge ids (write_edge e)
unfolding write_edge
write_edge-IsCoherentEdge ids e w = record {
  label = (w.label, trim_idem e.label);
  description = unless_empty-IsLineOrNone _ (trim_idem e.description);
  from_picked = w.from_picked;
  from_known = w.from_known;
  to_picked = w.to_picked;
  to_known = w.to_known;
}

write_edge-AllEdgesApart : (es : List EdgeDraft) → AllApart es → AllEdgesApart (map write_edge es)
unfolding write_edge
write_edge-AllEdgesApart [] h = tt
write_edge-AllEdgesApart (e ∷ es) h = (
  All-map (IsEdgeApart (write_edge e)) write_edge (λ f apart. apart) es h.0,
  write_edge-AllEdgesApart es h.1,
)

pub write_edge-ids : (es : List EdgeDraft) → map (λ e. e.id) (map write_edge es) ≡ edge_ids es
unfolding write_edge
write_edge-ids es = map-map (λ e. e.id) write_edge es

module _ (json : JsonEngine) where
  write_node-IsCoherentNode :
      (n : NodeDraft) → IsWritableNode json n → IsCoherentNode (write_node json n)
  unfolding write_node
  write_node-IsCoherentNode n w = record {
    title = (w.title, trim_idem n.title);
    description = trim_idem n.description;
    resolution = IsResolution-if n.kind _ w.resolution (trim_idem n.terminal_resolution);
  }

  pub write_node-ids :
      (ns : List NodeDraft) → map (λ n. n.id) (map (write_node json) ns) ≡ node_ids ns
  unfolding write_node
  write_node-ids ns = map-map (λ n. n.id) (write_node json) ns

  written-IsCoherent : (d : PlaybookDraft) → IsWritable json d → IsCoherent (written json d)
  unfolding written
  written-IsCoherent d w = record {
    nodes_distinct = rw (write_node-ids d.nodes) w.nodes_distinct;
    nodes =
        All-map IsCoherentNode (write_node json) write_node-IsCoherentNode d.nodes w.nodes_writable;
    edges_distinct = rw (write_edge-ids d.edges) w.edges_distinct;
    edges = rw (write_node-ids d.nodes) (
        All-map (IsCoherentEdge (node_ids d.nodes)) write_edge
          (write_edge-IsCoherentEdge (node_ids d.nodes)) d.edges w.edges_writable);
    labels_apart = write_edge-AllEdgesApart d.edges w.labels_apart;
    root_known = rw (write_node-ids d.nodes) (unless_empty-IsRoot _ d.root_node_id w.root_known);
  }

  -- The parts of a graph that is returned fit together: ids are distinct, titles and labels are
  -- present and trimmed, a resolution is set exactly on terminal nodes, edges and root name nodes
  -- of the graph, and no two choices of a node share a label.
  pub serialize-IsCoherent :
      (d : PlaybookDraft) (g : PlaybookGraphInput)
      → serialize_playbook_draft json d ≡ ok g
      → IsCoherent g
  serialize-IsCoherent d g h =
      let (writable, same) = (serialize-ok_iff json d g).0 h in
      subst IsCoherent same (written-IsCoherent d writable)
