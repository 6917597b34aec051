-- ===== src/Draft/Serialize/Edges.antt =====
-- The loop over the edges in `serializePlaybookDraft`, and `parseSortOrder`.
use interbellum.Common.{
  ℕ, suc, List, [], ◌∷◌, ◌++◌, Bool, not, ◌&&◌, Option, none, some, is_empty, if◌then◌else◌,
}
use interbellum.Text.{Text, codes, trim}
use interbellum.Text.Sets.{has, add}
use interbellum.Text.Maps.{get, put}
use interbellum.Integers.{ℤ, pos, parse_int}
use interbellum.Types.{Uuid, PlaybookEdge}
use interbellum.Draft.{EdgeDraft, or_else}
use interbellum.Draft.Errors.{
  DraftError, DraftErrorField, edge, id, label, from_node_id, to_node_id, push_if, error_at,
}

unfoldable pub parse_sort_order : Text → ℤ
parse_sort_order raw = or_else (parse_int raw) (pos 0)

-- The text, unless it is empty.
abbrev pub unless_empty : Text → Option Text
unless_empty [] = none
unless_empty (c ∷ s) = some (c ∷ s)

-- The variables that the loop changes.
pub record EdgeLoop : Type 0 where
  pub seen_edge_ids : List Uuid
  pub labels_by_from_node : List (Uuid × List Text)
  pub errors : List DraftError
  pub edges : List PlaybookEdge

-- `for (const [field, value] of …)`: one endpoint of an edge.
unfoldable pub check_endpoint : List Uuid → ℕ → DraftErrorField → Uuid → List DraftError
check_endpoint seen_node_ids index field value =
    if is_empty value
    then error_at edge index field (codes "Pick a node.") ∷ []
    else push_if (not (has seen_node_ids value))
        (error_at edge index field (codes "That node is no longer part of this draft."))

abbrev pub or_empty : Option (List Text) → List Text
or_empty labels = or_else labels []

-- `edge.fromNodeId !== "" && label !== ""`.
abbrev pub is_labelled : EdgeDraft → Bool
is_labelled e = not (is_empty e.from_node_id) && not (is_empty (trim e.label))

abbrev pub duplicate_label : Text → Text
duplicate_label text =
    codes "Another choice leaving this node is already labelled “"
    ++ text
    ++ codes "”. One label per node."

unfoldable pub check_label : List (Uuid × List Text) → ℕ → EdgeDraft → List DraftError
check_label labels_by_from_node index e =
    push_if
      (is_labelled e && has (or_empty (get labels_by_from_node e.from_node_id)) (trim e.label))
      (error_at edge index label (duplicate_label (trim e.label)))

unfoldable pub note_label : List (Uuid × List Text) → EdgeDraft → List (Uuid × List Text)
note_label labels_by_from_node e =
    if is_labelled e
    then put labels_by_from_node e.from_node_id
        (add (or_empty (get labels_by_from_node e.from_node_id)) (trim e.label))
    else labels_by_from_node

-- What one round of the loop over the edges pushes on `errors`, and on `edges`.
unfoldable pub check_edge :
    List Uuid → List Uuid → List (Uuid × List Text) → ℕ → EdgeDraft → List DraftError
unfolding check_endpoint check_label
check_edge seen_node_ids seen_edge_ids labels_by_from_node index e =
    push_if (has seen_edge_ids e.id)
      (error_at edge index id (codes "This edge's id is already used by another edge."))
    ++ (push_if (is_empty (trim e.label))
          (error_at edge index label (codes "Label is required — it is what an analyst picks."))
        ++ (check_endpoint seen_node_ids index from_node_id e.from_node_id
            ++ (check_endpoint seen_node_ids index to_node_id e.to_node_id
                ++ check_label labels_by_from_node index e)))

unfoldable pub write_edge : EdgeDraft → PlaybookEdge
unfolding parse_sort_order
write_edge e = record {
  id = e.id;
  from_node_id = e.from_node_id;
  to_node_id = e.to_node_id;
  label = trim e.label;
  description = unless_empty (trim e.description);
  sort_order = parse_sort_order e.sort_order;
}

unfoldable pub visit_edge : List Uuid → ℕ → EdgeDraft → EdgeLoop → EdgeLoop
visit_edge seen_node_ids index e s = record {
  seen_edge_ids = add s.seen_edge_ids e.id;
  labels_by_from_node = note_label s.labels_by_from_node e;
  errors = s.errors ++ check_edge seen_node_ids s.seen_edge_ids s.labels_by_from_node index e;
  edges = s.edges ++ write_edge e ∷ [];
}

-- `draft.edges.forEach((edge, index) => …)`.
unfoldable pub visit_edges : List Uuid → ℕ → List EdgeDraft → EdgeLoop → EdgeLoop
unfolding visit_edge
visit_edges seen_node_ids index [] s = s
visit_edges seen_node_ids index (e ∷ es) s =
    visit_edges seen_node_ids (suc index) es (visit_edge seen_node_ids index e s)
