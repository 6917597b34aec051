-- ===== src/Editor/Form.antt =====
-- frontend/src/components/playbook/NodeListEditor.tsx, EdgeListEditor.tsx and FieldError.tsx: what
-- the two lists of the editor show, without their styling, and the edits that their controls make.
pub mod Touches
pub mod Offers
pub mod Runs
pub mod Messages
pub mod Marks
pub mod Selects
use interbellum.Common.{
  ℕ, zero, suc, List, [], ◌∷◌, ◌++◌, Bool, true, false, not, ◌&&◌, ◌||◌, Option, none, some,
  is_empty, if◌then◌else◌, map, keep, find?, get_elem?, eqb,
}
use interbellum.Text.{Text, codes, trim, ◌==◌}
use interbellum.Integers.{ℤ, pos, negsuc, decimal}
use interbellum.Types.{Uuid, PlaybookNodeKind, decision, terminal}
use interbellum.Draft.{NodeDraft, EdgeDraft, PlaybookDraft, is_terminal}
use interbellum.Draft.Errors.{
  DraftError, DraftScope, node, edge, root, DraftErrorField, id, title, terminal_resolution,
  metadata, label, from_node_id, to_node_id, root_node_id,
}
use interbellum.Editor.{
  Edit, NodePatch, EdgePatch, apply, added_node, updated_node, removed_node, added_edge,
  updated_edge, removed_edge, picked_root,
}

-- The scopes and the fields are compared by their places in the two union types.
abbrev pub scope_number : DraftScope → ℕ
scope_number node = 0
scope_number edge = 1
scope_number root = 2

abbrev pub field_number : DraftErrorField → ℕ
field_number id = 0
field_number title = 1
field_number terminal_resolution = 2
field_number metadata = 3
field_number label = 4
field_number from_node_id = 5
field_number to_node_id = 6
field_number root_node_id = 7

abbrev pub same_scope : DraftScope → DraftScope → Bool
same_scope a b = eqb (scope_number a) (scope_number b)

abbrev pub same_field : DraftErrorField → DraftErrorField → Bool
same_field a b = eqb (field_number a) (field_number b)

-- `error.index === index`: the rows are counted from 0.
abbrev pub same_index : ℤ → ℕ → Bool
same_index (pos i) n = eqb i n
same_index (negsuc i) n = false

abbrev pub message_of : Option DraftError → Option Text
message_of none = none
message_of (some err) = some err.message

unfoldable pub error_for : List DraftError → DraftScope → ℕ → DraftErrorField → Option Text
error_for errors scope index field = message_of (
    find?
      (λ (err : DraftError).
        same_scope err.scope scope && (same_index err.index index && same_field err.field field))
      errors)

-- A node with its place in `allNodes`: the place stands for the identity that `indexOf` looks for.
pub record PlacedNode : Type 0 where
  pub place : ℕ
  pub item : NodeDraft

unfoldable pub placed_from : ℕ → List NodeDraft → List PlacedNode
placed_from k [] = []
placed_from k (n ∷ ns) = record { place = k; item = n } ∷ placed_from (suc k) ns

abbrev pub is_source : PlacedNode → Bool
is_source p = not (is_terminal p.item.kind)

pub record SelectOption : Type 0 where
  pub value : Uuid
  pub text : Text

abbrev pub title_or_untitled : NodeDraft → Text
title_or_untitled n = if is_empty (trim n.title) then codes "Untitled node" else trim n.title

-- The place counted from 1, and the title.
abbrev pub option_label : PlacedNode → Text
option_label p = decimal (suc p.place) ++ (codes ". " ++ title_or_untitled p.item)

abbrev pub node_option : PlacedNode → SelectOption
node_option p = record { value = p.item.id; text = option_label p }

abbrev pub has_id : Uuid → PlacedNode → Bool
has_id wanted p = p.item.id == wanted

abbrev pub any_place : (PlacedNode → Bool) → List PlacedNode → Bool
any_place p [] = false
any_place p (x ∷ xs) = p x || any_place p xs

-- The selected node, where it is not among the eligible ones.
unfoldable pub stale_node : List PlacedNode → List PlacedNode → Uuid → Option PlacedNode
stale_node nodes all_nodes selected_id =
    if not (is_empty selected_id) && not (any_place (has_id selected_id) nodes)
    then find? (has_id selected_id) all_nodes
    else none

abbrev pub option_of_stale : Option PlacedNode → List SelectOption
option_of_stale none = []
option_of_stale (some p) = node_option p ∷ []

unfoldable pub node_options : List PlacedNode → List PlacedNode → Uuid → List SelectOption
node_options nodes all_nodes selected_id =
    record { value = []; text = codes "— select a node —" }
    ∷ (map node_option nodes ++ option_of_stale (stale_node nodes all_nodes selected_id))

-- The options of the select of the root.
unfoldable pub root_options : List PlacedNode → List SelectOption
root_options nodes =
    record { value = []; text = codes "— no root chosen —" } ∷ map node_option nodes

-- One row of the list of nodes; the resolution is there for a terminal node only.
pub record NodeRow : Type 0 where
  pub number : ℕ
  pub is_root : Bool
  pub offers_choice : Bool
  pub draft : NodeDraft
  pub title_error : Option Text
  pub resolution : Option (Text × Option Text)
  pub metadata_error : Option Text

abbrev pub resolution_input :
    NodeDraft → PlaybookNodeKind → Option Text → Option (Text × Option Text)
resolution_input n terminal err = some (n.terminal_resolution, err)
resolution_input n decision err = none

unfoldable pub node_row : List DraftError → Uuid → ℕ → NodeDraft → NodeRow
node_row errors root_id index n = record {
  number = suc index;
  is_root = n.id == root_id;
  offers_choice = not (is_terminal n.kind);
  draft = n;
  title_error = error_for errors node index title;
  resolution = resolution_input n n.kind (error_for errors node index terminal_resolution);
  metadata_error = error_for errors node index metadata;
}

unfoldable pub node_rows : List DraftError → Uuid → ℕ → List NodeDraft → List NodeRow
node_rows errors root_id index [] = []
node_rows errors root_id index (n ∷ ns) =
    node_row errors root_id index n ∷ node_rows errors root_id (suc index) ns

pub record EdgeRow : Type 0 where
  pub number : ℕ
  pub draft : EdgeDraft
  pub from_options : List SelectOption
  pub from_error : Option Text
  pub label_error : Option Text
  pub to_options : List SelectOption
  pub to_error : Option Text

unfoldable pub edge_row : List DraftError → List PlacedNode → ℕ → EdgeDraft → EdgeRow
edge_row errors nodes index e = record {
  number = suc index;
  draft = e;
  from_options = node_options (keep is_source nodes) nodes e.from_node_id;
  from_error = error_for errors edge index from_node_id;
  label_error = error_for errors edge index label;
  to_options = node_options nodes nodes e.to_node_id;
  to_error = error_for errors edge index to_node_id;
}

unfoldable pub edge_rows : List DraftError → List PlacedNode → ℕ → List EdgeDraft → List EdgeRow
edge_rows errors nodes index [] = []
edge_rows errors nodes index (e ∷ es) =
    edge_row errors nodes index e ∷ edge_rows errors nodes (suc index) es
