-- ===== src/Draft/Serialize.antt =====
-- `serializePlaybookDraft` of frontend/src/lib/playbook-draft.ts: the loops, and the result.
pub mod Nodes
pub mod Edges
pub mod Loops
use interbellum.Common.{List, [], ◌∷◌, ◌++◌, not, ◌&&◌, is_empty}
use interbellum.Text.{codes}
use interbellum.Text.Sets.{has}
use interbellum.Integers.{negsuc}
use interbellum.Types.{Uuid, PlaybookGraphInput}
use interbellum.Json.{JsonEngine}
use interbellum.Draft.{PlaybookDraft}
use interbellum.Draft.Errors.{
  DraftError, DraftSerializationResult, ok, rejected, root, root_node_id, push_if,
}
use Nodes.{NodeLoop, visit_nodes}
use Edges.{EdgeLoop, visit_edges, unless_empty}

unfoldable pub check_root : List Uuid → Uuid → List DraftError
check_root seen_node_ids root_id =
    push_if (not (is_empty root_id) && not (has seen_node_ids root_id)) (record {
      scope = root;
      index = negsuc 0;
      field = root_node_id;
      message = codes "The chosen root is no longer part of this draft.";
    })

-- `errors.length > 0` decides.
abbrev pub conclude : List DraftError → PlaybookGraphInput → DraftSerializationResult
conclude [] graph = ok graph
conclude (e ∷ es) graph = rejected (e ∷ es)

module _ (json : JsonEngine) where
  unfoldable pub node_loop : PlaybookDraft → NodeLoop
  node_loop draft =
      visit_nodes json 0 draft.nodes (record { seen_node_ids = []; errors = []; nodes = [] })

  -- The loop over the edges goes on with the errors of the loop over the nodes.
  unfoldable pub edge_loop : PlaybookDraft → EdgeLoop
  edge_loop draft =
      let loop = node_loop draft in
      visit_edges loop.seen_node_ids 0 draft.edges
        (record { seen_edge_ids = []; labels_by_from_node = []; errors = loop.errors; edges = [] })

  unfoldable pub serialize_playbook_draft : PlaybookDraft → DraftSerializationResult
  serialize_playbook_draft draft =
      let loop = node_loop draft in
      let rest = edge_loop draft in
      conclude (rest.errors ++ check_root loop.seen_node_ids draft.root_node_id) (record {
        root_node_id = unless_empty draft.root_node_id;
        nodes = loop.nodes;
        edges = rest.edges;
      })
