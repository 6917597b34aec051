-- ===== src/Editor/Form/Touches.antt =====
-- The controls of frontend/src/components/playbook/NodeListEditor.tsx and EdgeListEditor.tsx: what
-- is done
-- to them, and the edits that they make.
use interbellum.Common.{
  ℕ, List, [], ◌∷◌, Bool, true, false, not, Option, none, some, is_empty, if◌then◌else◌, get_elem?,
}
use interbellum.Text.{Text}
use interbellum.Types.{Uuid, PlaybookNodeKind}
use interbellum.Draft.{PlaybookDraft, is_terminal}
use interbellum.Draft.Errors.{DraftError}
use interbellum.Editor.{
  Edit, NodePatch, EdgePatch, apply, added_node, updated_node, removed_node, added_edge,
  updated_edge, removed_edge, picked_root,
}
use interbellum.Editor.Form.{
  EdgeRow, NodeRow, SelectOption, edge_rows, node_rows, placed_from, root_options,
}

-- What is done to a control. A choice in a select is the number of the option.
pub data Touch : Type 0 where
  clicks_add_node : PlaybookNodeKind → Uuid → Touch
  picks_kind : ℕ → PlaybookNodeKind → Touch
  types_title types_node_description types_resolution types_metadata : ℕ → Text → Touch
  clicks_remove_node : ℕ → Touch
  clicks_choice_from : ℕ → Uuid → Touch
  clicks_add_choice : Uuid → Touch
  picks_from picks_to : ℕ → ℕ → Touch
  types_label types_sort_order types_edge_description : ℕ → Text → Touch
  clicks_remove_edge : ℕ → Touch
  picks_root : ℕ → Touch

abbrev pub no_node_patch : NodePatch
no_node_patch = record {
  id = none;
  kind = none;
  title = none;
  description = none;
  terminal_resolution = none;
  metadata = none;
}

abbrev pub no_edge_patch : EdgePatch
no_edge_patch = record {
  id = none;
  from_node_id = none;
  to_node_id = none;
  label = none;
  description = none;
  sort_order = none;
}

abbrev pub on_row {ℓ} : {R : Type ℓ} → Option R → (R → Option Edit) → Option Edit
on_row none f = none
on_row (some r) f = f r

abbrev pub on_value : Option SelectOption → (Uuid → Edit) → Option Edit
on_value none f = none
on_value (some o) f = some (f o.value)

abbrev pub on_choice : Bool → Edit → Option Edit
on_choice true e = some e
on_choice false e = none

-- The edit that a control makes; none where the row, the control or the option is not there.
unfoldable pub edit_of : List NodeRow → List EdgeRow → List SelectOption → Touch → Option Edit
edit_of nodes edges roots (clicks_add_node kind new_id) = some (added_node new_id kind)
edit_of nodes edges roots (picks_kind i kind) =
    on_row (get_elem? nodes i)
      λ r. some (updated_node i (record no_node_patch { kind = some kind }))
edit_of nodes edges roots (types_title i text) =
    on_row (get_elem? nodes i)
      λ r. some (updated_node i (record no_node_patch { title = some text }))
edit_of nodes edges roots (types_node_description i text) =
    on_row (get_elem? nodes i)
      λ r. some (updated_node i (record no_node_patch { description = some text }))
edit_of nodes edges roots (types_resolution i text) = on_row (get_elem? nodes i) λ r.
    on_choice (is_terminal r.draft.kind)
      (updated_node i (record no_node_patch { terminal_resolution = some text }))
edit_of nodes edges roots (types_metadata i text) =
    on_row (get_elem? nodes i)
      λ r. some (updated_node i (record no_node_patch { metadata = some text }))
edit_of nodes edges roots (clicks_remove_node i) =
    on_row (get_elem? nodes i) λ r. some (removed_node i)
edit_of nodes edges roots (clicks_choice_from i new_id) =
    on_row (get_elem? nodes i) λ r. on_choice r.offers_choice (added_edge new_id r.draft.id)
edit_of nodes edges roots (clicks_add_choice new_id) =
    on_choice (not (is_empty nodes)) (added_edge new_id [])
edit_of nodes edges roots (picks_from i k) = on_row (get_elem? edges i) λ r.
    on_value (get_elem? r.from_options k)
      λ v. updated_edge i (record no_edge_patch { from_node_id = some v })
edit_of nodes edges roots (picks_to i k) = on_row (get_elem? edges i) λ r.
    on_value (get_elem? r.to_options k)
      λ v. updated_edge i (record no_edge_patch { to_node_id = some v })
edit_of nodes edges roots (types_label i text) =
    on_row (get_elem? edges i)
      λ r. some (updated_edge i (record no_edge_patch { label = some text }))
edit_of nodes edges roots (types_sort_order i text) =
    on_row (get_elem? edges i)
      λ r. some (updated_edge i (record no_edge_patch { sort_order = some text }))
edit_of nodes edges roots (types_edge_description i text) =
    on_row (get_elem? edges i)
      λ r. some (updated_edge i (record no_edge_patch { description = some text }))
edit_of nodes edges roots (clicks_remove_edge i) =
    on_row (get_elem? edges i) λ r. some (removed_edge i)
edit_of nodes edges roots (picks_root k) = on_value (get_elem? roots k) picked_root

-- The edit that a control makes while the draft is on display; a locked form makes none.
unfoldable pub edit_on : List DraftError → Bool → PlaybookDraft → Touch → Option Edit
edit_on errors disabled d touch =
    let placed = placed_from 0 d.nodes in
    if disabled
    then none
    else edit_of (node_rows errors d.root_node_id 0 d.nodes) (edge_rows errors placed 0 d.edges)
        (root_options placed) touch

-- `onChange` of the editor: the draft is changed by the edit. None where the change throws.
abbrev pub changed_by : PlaybookDraft → Option Edit → Option PlaybookDraft
changed_by d none = some d
changed_by d (some e) = apply e d

abbrev pub go_on :
    Option PlaybookDraft → (PlaybookDraft → Option PlaybookDraft) → Option PlaybookDraft
go_on none f = none
go_on (some d) f = f d

-- Controls that are touched one after the other, each while some errors are on display.
unfoldable pub author : List (List DraftError × Touch) → PlaybookDraft → Option PlaybookDraft
author [] d = some d
author ((errors, touch) ∷ touches) d =
    go_on (changed_by d (edit_on errors false d touch)) (author touches)
