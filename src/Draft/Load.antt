-- ===== src/Draft/Load.antt =====
-- `draftFromDefinition` of frontend/src/lib/playbook-draft.ts: a stored graph back in the form.
pub mod Contract
pub mod Output
pub mod Storable
pub mod RoundTrip
use interbellum.Common.{List, [], Option, none, some, map}
use interbellum.Text.{Text}
use interbellum.Integers.{to_text}
use interbellum.Types.{JsonObject, PlaybookNode, PlaybookEdge, PlaybookGraphInput, obj}
use interbellum.Json.{JsonEngine}
use interbellum.Draft.{NodeDraft, EdgeDraft, PlaybookDraft, or_else}

module _ (json : JsonEngine) where
  -- `node.metadata ? JSON.stringify(node.metadata, null, 2) : ""`; every object is truthy.
  abbrev pub metadata_text : Option JsonObject → Text
  metadata_text none = []
  metadata_text (some o) = json.stringify (obj o)

  unfoldable pub node_from_definition : PlaybookNode → NodeDraft
  node_from_definition n = record {
    id = n.id;
    kind = n.kind;
    title = n.title;
    description = n.description;
    terminal_resolution = or_else n.terminal_resolution [];
    metadata = metadata_text n.metadata;
  }

  unfoldable pub edge_from_definition : PlaybookEdge → EdgeDraft
  edge_from_definition e = record {
    id = e.id;
    from_node_id = e.from_node_id;
    to_node_id = e.to_node_id;
    label = e.label;
    description = or_else e.description [];
    sort_order = to_text e.sort_order;
  }

  unfoldable pub draft_from_definition : PlaybookGraphInput → PlaybookDraft
  draft_from_definition definition = record {
    root_node_id = or_else definition.root_node_id [];
    nodes = map node_from_definition definition.nodes;
    edges = map edge_from_definition definition.edges;
  }
