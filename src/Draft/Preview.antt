-- ===== src/Draft/Preview.antt =====
-- `previewGraph` of frontend/src/lib/playbook-draft.ts: the draft as the live preview draws it.
pub mod Shape
use interbellum.Common.{Bool, List, ◌&&◌, keep, map, none, is_empty, if◌then◌else◌}
use interbellum.Text.{codes, trim}
use interbellum.Text.Sets.{has, of_list}
use interbellum.Types.{Uuid, PlaybookNode, PlaybookEdge}
use interbellum.Draft.{NodeDraft, EdgeDraft, PlaybookDraft, is_terminal}
use interbellum.Draft.Serialize.Edges.{parse_sort_order, unless_empty}

pub record Preview : Type 0 where
  pub nodes : List PlaybookNode
  pub edges : List PlaybookEdge

unfoldable pub preview_node : NodeDraft → PlaybookNode
preview_node n = record {
  id = n.id;
  kind = n.kind;
  title = if is_empty (trim n.title) then codes "Untitled node" else trim n.title;
  description = trim n.description;
  terminal_resolution =
      if is_terminal n.kind then unless_empty (trim n.terminal_resolution) else none;
  metadata = none;
}

unfoldable pub preview_edge : EdgeDraft → PlaybookEdge
preview_edge e = record {
  id = e.id;
  from_node_id = e.from_node_id;
  to_node_id = e.to_node_id;
  label = if is_empty (trim e.label) then codes "—" else trim e.label;
  description = none;
  sort_order = parse_sort_order e.sort_order;
}

-- Both ends are nodes of the draft.
abbrev pub is_drawable : List Uuid → EdgeDraft → Bool
is_drawable known e = has known e.from_node_id && has known e.to_node_id

unfoldable pub preview_graph : PlaybookDraft → Preview
preview_graph draft =
    let nodes = map preview_node draft.nodes in
    let known = of_list (map (λ n. n.id) nodes) in
    record { nodes = nodes; edges = map preview_edge (keep (is_drawable known) draft.edges) }
