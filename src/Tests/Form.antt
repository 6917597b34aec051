-- ===== src/Tests/Form.antt =====
-- Touching the controls of the editor, and saving a draft with faults.
use interbellum.Common.{List, [], ◌∷◌, ◌≡◌, refl, some, All, Any, Nodup}
use interbellum.Text.{codes, trim, trim_start, trim_end, is_white, ◌==◌}
use interbellum.Text.Sets.{has, add, Distinct→Nodup}
use interbellum.Integers.{ℤ, parse_int}
use interbellum.Types.{Uuid, decision, terminal}
use interbellum.Draft.{PlaybookDraft, empty_draft}
use interbellum.Draft.Errors.{
  DraftError, DraftScope, DraftErrorField, DraftSerializationResult, ok, rejected,
}
use interbellum.Draft.Serialize.{serialize_playbook_draft, node_loop, edge_loop, check_root}
use interbellum.Draft.Serialize.Nodes.{
  visit_nodes, visit_node, check_node, write_node, parse_metadata,
}
use interbellum.Draft.Serialize.Edges.{visit_edges, visit_edge, check_edge, note_label, write_edge}
use interbellum.Draft.Faults.{FaultAt, IsFault, IsAbout}
use interbellum.Draft.Faults.Reported.{serialize-rejected}
use interbellum.Editor.Closed.{IsClosed, Reaches}
use interbellum.Editor.Form.{placed_from, node_rows, EdgeRow, edge_rows}
use interbellum.Editor.Form.Touches.{
  Touch, clicks_add_node, clicks_choice_from, clicks_remove_node, picks_to, author,
}
use interbellum.Editor.Form.Runs.{author-total, author-Reaches}
use interbellum.Editor.Form.Marks.{IsMarked, serialize-IsMarked}
use interbellum.Editor.Form.Selects.{Lists, edge_rows-Lists}
use interbellum.Tests.Samples.{small_engine}

-- A node is added, a choice from it to itself, and the node is removed.
abbrev sample_touches : List (List DraftError × Touch)
sample_touches =
    ([], clicks_add_node decision (97 ∷ []))
    ∷ ([], clicks_choice_from 0 (98 ∷ []))
    ∷ ([], picks_to 0 1)
    ∷ ([], clicks_remove_node 0)
    ∷ []

author-total_example :
    (d : PlaybookDraft) × (author sample_touches empty_draft ≡ some d) × IsClosed d
author-total_example = author-total sample_touches

-- A terminal node without a title and a resolution, and a choice that leaves it for nowhere.
abbrev faulty_draft : PlaybookDraft
faulty_draft = record {
  root_node_id = 97 ∷ [];
  nodes =
      record {
        id = 97 ∷ [];
        kind = terminal;
        title = [];
        description = [];
        terminal_resolution = [];
        metadata = [];
      }
      ∷ [];
  edges =
      record {
        id = 98 ∷ [];
        from_node_id = 97 ∷ [];
        to_node_id = [];
        label = [];
        description = [];
        sort_order = 48 ∷ [];
      }
      ∷ [];
}

author-Reaches_example :
    (d : PlaybookDraft) × (author sample_touches faulty_draft ≡ some d) × Reaches faulty_draft d
author-Reaches_example = author-Reaches sample_touches faulty_draft

abbrev errors_of : DraftSerializationResult → List DraftError
errors_of (ok graph) = []
errors_of (rejected errors) = errors

abbrev faulty_errors : List DraftError
faulty_errors = errors_of (serialize_playbook_draft small_engine faulty_draft)

faulty_rejected : serialize_playbook_draft small_engine faulty_draft ≡ rejected faulty_errors
unfolding serialize_playbook_draft node_loop edge_loop check_root visit_nodes visit_node check_node
    write_node parse_metadata visit_edges visit_edge check_edge note_label write_edge trim
    trim_start trim_end is_white codes has add parse_int ◌==◌
faulty_rejected = refl

faulty-IsClosed : IsClosed faulty_draft
unfolding has ◌==◌
faulty-IsClosed = record { root = refl; edges = (record { from = refl; to = refl }, tt) }

serialize-rejected_example :
    All (IsFault small_engine faulty_draft) faulty_errors
    × ((scope : DraftScope) (i : ℤ) (f : DraftErrorField)
        → FaultAt small_engine faulty_draft scope i f
        → Any (IsAbout scope i f) faulty_errors)
serialize-rejected_example =
    serialize-rejected small_engine faulty_draft faulty_errors faulty_rejected

single-Nodup : (x : Uuid) → Nodup (x ∷ [])
unfolding has
single-Nodup x = Distinct→Nodup (x ∷ []) (refl, tt)

serialize-IsMarked_example :
    All
      (λ (err : DraftError).
        IsMarked faulty_errors
          (node_rows faulty_errors (97 ∷ []) 0 faulty_draft.nodes)
          (edge_rows faulty_errors (placed_from 0 faulty_draft.nodes) 0 faulty_draft.edges)
          err.scope
          err.index
          err.field)
      faulty_errors
serialize-IsMarked_example =
    serialize-IsMarked small_engine faulty_draft faulty_errors (single-Nodup (97 ∷ []))
      (single-Nodup (98 ∷ [])) faulty-IsClosed faulty_rejected

edge_rows-Lists_example :
    All
      (λ (r : EdgeRow).
        Lists r.draft.from_node_id r.from_options × Lists r.draft.to_node_id r.to_options)
      (edge_rows faulty_errors (placed_from 0 faulty_draft.nodes) 0 faulty_draft.edges)
edge_rows-Lists_example = edge_rows-Lists faulty_errors faulty_draft faulty-IsClosed
