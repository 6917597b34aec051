-- ===== src/Draft/Preview/Shape.antt =====
-- The preview draws no loose edge, and draws what would be saved.
use interbellum.Common.{
  List, [], ◌∷◌, true, false, ◌≡◌, refl, arith, none, some, All, Mem, map, map-map, keep, inl, inr,
  Bool-cases, is_empty, ◌≢◌, if◌then◌else◌, subst,
}
use interbellum.Text.{Text, codes, trim}
use interbellum.Text.Sets.{has_iff, of_list, has-of_list}
use interbellum.Types.{
  Uuid, PlaybookNodeKind, decision, terminal, PlaybookNode, PlaybookEdge, PlaybookGraphInput,
}
use interbellum.Json.{JsonEngine}
use interbellum.Draft.{NodeDraft, EdgeDraft, PlaybookDraft, is_terminal}
use interbellum.Draft.Errors.{ok}
use interbellum.Draft.Serialize.{serialize_playbook_draft}
use interbellum.Draft.Serialize.Nodes.{write_node}
use interbellum.Draft.Serialize.Edges.{write_edge, unless_empty}
use interbellum.Draft.Rules.{node_ids, IsWritableNode, IsWritableEdge, IsWritable}
use interbellum.Draft.Rules.Accepts.{written, serialize-ok_iff}
use interbellum.Draft.Preview.{preview_node, preview_edge, is_drawable, preview_graph}

abbrev pub IsJoined : List Uuid → PlaybookEdge → Type 0
IsJoined ids e = Mem e.from_node_id ids × Mem e.to_node_id ids

preview_ids : (ns : List NodeDraft) → map (λ n. n.id) (map preview_node ns) ≡ node_ids ns
unfolding preview_node
preview_ids ns = map-map (λ n. n.id) preview_node ns

keep-IsJoined :
    (ids : List Uuid) (es : List EdgeDraft)
    → All (IsJoined ids) (map preview_edge (keep (is_drawable (of_list ids)) es))
unfolding preview_edge
keep-IsJoined ids [] = tt
keep-IsJoined ids (e ∷ es) = elim (Bool-cases (is_drawable (of_list ids) e)) [
  | inr loose ↦ rw loose (keep-IsJoined ids es)
  | inl drawn ↦ rw drawn (
    (
      (has_iff ids e.from_node_id).0 (ground (arith, has-of_list ids e.from_node_id)),
      (has_iff ids e.to_node_id).0 (ground (arith, has-of_list ids e.to_node_id)),
    ),
    keep-IsJoined ids es,
  )
]

-- Every edge that the preview draws joins two nodes that it draws.
pub preview_graph-IsJoined :
    (d : PlaybookDraft)
    → All (IsJoined (map (λ n. n.id) (preview_graph d).nodes)) (preview_graph d).edges
unfolding preview_graph
preview_graph-IsJoined d = keep-IsJoined (map (λ n. n.id) (map preview_node d.nodes)) d.edges

-- A node and an edge without what the preview leaves out.
abbrev pub without_metadata : PlaybookNode → PlaybookNode
without_metadata n = record n { metadata = none }

abbrev pub without_description : PlaybookEdge → PlaybookEdge
without_description e = record e { description = none }

unless_empty_of_ne : (s : Text) → s ≢ [] → unless_empty s ≡ some s
unless_empty_of_ne [] h = absurd (h refl)
unless_empty_of_ne (c ∷ s) h = refl

resolution-eq :
    (kind : PlaybookNodeKind) (s : Text)
    → (kind ≡ terminal → s ≢ [])
    → (if is_terminal kind then unless_empty s else none)
      ≡ (if is_terminal kind then some s else none)
resolution-eq decision s h = refl
resolution-eq terminal s h = unless_empty_of_ne s (h refl)

is_empty_of_ne : (s : Text) → s ≢ [] → is_empty s ≡ false
is_empty_of_ne [] h = absurd (h refl)
is_empty_of_ne (c ∷ s) h = refl

title-eq : (s t : Text) → s ≢ [] → (if is_empty s then t else s) ≡ s
title-eq s t h = rw (is_empty_of_ne s h)

module _ (json : JsonEngine) where
  preview_node-eq :
      (n : NodeDraft)
      → IsWritableNode json n
      → preview_node n ≡ without_metadata (write_node json n)
  unfolding preview_node write_node
  preview_node-eq n w = λ i. record {
    id = n.id;
    kind = n.kind;
    title = title-eq (trim n.title) (codes "Untitled node") w.title i;
    description = trim n.description;
    terminal_resolution = resolution-eq n.kind (trim n.terminal_resolution) w.resolution i;
    metadata = none;
  }

  preview_nodes-eq :
      (ns : List NodeDraft)
      → All (IsWritableNode json) ns
      → map preview_node ns ≡ map without_metadata (map (write_node json) ns)
  preview_nodes-eq [] h = refl
  preview_nodes-eq (n ∷ ns) h = cc (preview_node-eq n h.0, preview_nodes-eq ns h.1)

  preview_edge-eq :
      (ids : List Uuid) (e : EdgeDraft)
      → IsWritableEdge ids e
      → preview_edge e ≡ without_description (write_edge e)
  unfolding preview_edge write_edge
  preview_edge-eq ids e w = λ i. record (write_edge e) {
    label = title-eq (trim e.label) (codes "—") w.label i;
    description = none;
  }

  is_drawable-eq :
      (ids : List Uuid) (e : EdgeDraft) → IsWritableEdge ids e → is_drawable (of_list ids) e ≡ true
  is_drawable-eq ids e w =
      let from = (has_iff ids e.from_node_id).1 w.from_known in
      let to = (has_iff ids e.to_node_id).1 w.to_known in
      ground (arith, has-of_list ids e.from_node_id, has-of_list ids e.to_node_id)

  preview_edges-eq :
      (ids : List Uuid) (es : List EdgeDraft)
      → All (IsWritableEdge ids) es
      → map preview_edge (keep (is_drawable (of_list ids)) es)
        ≡ map without_description (map write_edge es)
  preview_edges-eq ids [] h = refl
  preview_edges-eq ids (e ∷ es) h =
      rw (is_drawable-eq ids e h.0) (cc (preview_edge-eq ids e h.0, preview_edges-eq ids es h.1))

  preview-written :
      (d : PlaybookDraft)
      → IsWritable json d
      → preview_graph d ≡ record {
        nodes = map without_metadata (written json d).nodes;
        edges = map without_description (written json d).edges;
      }
  unfolding preview_graph written
  preview-written d w = rw (preview_ids d.nodes) (λ i. record {
    nodes = preview_nodes-eq d.nodes w.nodes_writable i;
    edges = preview_edges-eq (node_ids d.nodes) d.edges w.edges_writable i;
  })

  -- Of a draft that is accepted the preview draws the graph that is sent, all its nodes and edges,
  -- without the nodes' metadata and the edges' descriptions.
  pub preview_graph-serialize :
      (d : PlaybookDraft) (g : PlaybookGraphInput)
      → serialize_playbook_draft json d ≡ ok g
      → preview_graph d
        ≡ record { nodes = map without_metadata g.nodes; edges = map without_description g.edges }
  preview_graph-serialize d g h =
      let (writable, same) = (serialize-ok_iff json d g).0 h in
      subst
        (λ (g : PlaybookGraphInput). preview_graph d ≡ record {
          nodes = map without_metadata g.nodes;
          edges = map without_description g.edges;
        })
        same (preview-written d writable)
