-- ===== src/Draft/Serialize/Nodes.antt =====
-- The loop over the nodes in `serializePlaybookDraft`, and `parseMetadata`.
use interbellum.Common.{
  ℕ, suc, List, [], ◌∷◌, ◌++◌, ◌&&◌, Option, none, some, is_empty, if◌then◌else◌,
}
use interbellum.Text.{Text, codes, trim}
use interbellum.Text.Sets.{has, add}
use interbellum.Types.{Uuid, JsonValue, JsonObject, PlaybookNode}
use interbellum.Json.{JsonEngine, as_object}
use interbellum.Draft.{NodeDraft, is_terminal}
use interbellum.Draft.Errors.{
  DraftError, node, id, title, terminal_resolution, metadata, push_if, error_at,
}

pub record ParsedMetadata : Type 0 where
  pub value : Option JsonObject
  pub error : Option Text

-- The variables that the loop changes.
pub record NodeLoop : Type 0 where
  pub seen_node_ids : List Uuid
  pub errors : List DraftError
  pub nodes : List PlaybookNode

-- `parsed === null || typeof parsed !== "object" || Array.isArray(parsed)` is `as_object` at none.
unfoldable pub metadata_object : Option JsonObject → ParsedMetadata
unfolding codes
metadata_object none = record {
  value = none;
  error = some (
      codes
        "Metadata must be a JSON object, for example {\"suggested_evidence\": [\"asset_inventory_lookup\"]}.");
}
metadata_object (some fields) = record { value = some fields; error = none }

-- The `try` around `JSON.parse`, and the test of what it returns.
unfoldable pub parsed_metadata : Option JsonValue → ParsedMetadata
unfolding codes metadata_object
parsed_metadata none = record { value = none; error = some (codes "Metadata is not valid JSON.") }
parsed_metadata (some parsed) = metadata_object (as_object parsed)

abbrev pub metadata_errors : ℕ → Option Text → List DraftError
metadata_errors index none = []
metadata_errors index (some message) = error_at node index metadata message ∷ []

module _ (json : JsonEngine) where
  -- The text is already trimmed.
  unfoldable pub metadata_of_text : Text → ParsedMetadata
  unfolding parsed_metadata
  metadata_of_text [] = record { value = none; error = none }
  metadata_of_text (c ∷ s) = parsed_metadata (json.parse (c ∷ s))

  unfoldable pub parse_metadata : Text → ParsedMetadata
  unfolding metadata_of_text
  parse_metadata raw = metadata_of_text (trim raw)

  -- What one round of the loop over the nodes pushes on `errors`, and on `nodes`.
  unfoldable pub check_node : List Uuid → ℕ → NodeDraft → List DraftError
  check_node seen_node_ids index n =
      push_if (has seen_node_ids n.id)
        (error_at node index id (codes "This node's id is already used by another node."))
      ++ (push_if (is_empty (trim n.title)) (error_at node index title (codes "Title is required."))
          ++ (push_if (is_terminal n.kind && is_empty (trim n.terminal_resolution)) (
                error_at node index terminal_resolution (
                  codes
                    "A terminal node must carry a resolution — it is the investigation's outcome."))
              ++ metadata_errors index (parse_metadata n.metadata).error))

  unfoldable pub write_node : NodeDraft → PlaybookNode
  write_node n = record {
    id = n.id;
    kind = n.kind;
    title = trim n.title;
    description = trim n.description;
    terminal_resolution = if is_terminal n.kind then some (trim n.terminal_resolution) else none;
    metadata = (parse_metadata n.metadata).value;
  }

  unfoldable pub visit_node : ℕ → NodeDraft → NodeLoop → NodeLoop
  visit_node index n s = record {
    seen_node_ids = add s.seen_node_ids n.id;
    errors = s.errors ++ check_node s.seen_node_ids index n;
    nodes = s.nodes ++ write_node n ∷ [];
  }

  -- `draft.nodes.forEach((node, index) => …)`.
  unfoldable pub visit_nodes : ℕ → List NodeDraft → NodeLoop → NodeLoop
  unfolding visit_node
  visit_nodes index [] s = s
  visit_nodes index (n ∷ ns) s = visit_nodes (suc index) ns (visit_node index n s)
