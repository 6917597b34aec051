-- ===== src/Editor.antt =====
-- frontend/src/app/playbooks/PlaybookEditorScreen.tsx: what the screen does to the draft it holds.
pub mod Closed
pub mod Screen
pub mod Form
use interbellum.Common.{
  ℕ, suc, List, [], ◌∷◌, ◌++◌, Bool, not, ◌&&◌, Option, none, some, is_empty, if◌then◌else◌, length,
  keep, get_elem?, remove_at, modify_at,
}
use interbellum.Text.{Text, codes, ◌==◌}
use interbellum.Integers.{pos, to_text}
use interbellum.Types.{Uuid, PlaybookNodeKind}
use interbellum.Draft.{NodeDraft, EdgeDraft, PlaybookDraft, or_else, new_node_draft, new_edge_draft}

-- `Partial<NodeDraft>`.
pub record NodePatch : Type 0 where
  pub id : Option Uuid
  pub kind : Option PlaybookNodeKind
  pub title : Option Text
  pub description : Option Text
  pub terminal_resolution : Option Text
  pub metadata : Option Text

-- `Partial<EdgeDraft>`.
pub record EdgePatch : Type 0 where
  pub id : Option Uuid
  pub from_node_id : Option Uuid
  pub to_node_id : Option Uuid
  pub label : Option Text
  pub description : Option Text
  pub sort_order : Option Text

abbrev pub leaves : Uuid → EdgeDraft → Bool
leaves from_node_id e = e.from_node_id == from_node_id

unfoldable pub outgoing_count : List EdgeDraft → Uuid → ℕ
outgoing_count edges from_node_id =
    if is_empty from_node_id then 0 else length (keep (leaves from_node_id) edges)

-- `newId()` is an argument.
unfoldable pub add_node : Uuid → PlaybookNodeKind → PlaybookDraft → PlaybookDraft
add_node new_id kind current = record {
  root_node_id =
      if is_empty current.root_node_id && is_empty current.nodes
      then new_id
      else current.root_node_id;
  nodes =
      current.nodes
      ++ new_node_draft
          (record {
            kind = some kind;
            title = none;
            description = none;
            terminal_resolution = none;
            metadata = none;
          })
          new_id
        ∷ [];
  edges = current.edges;
}

-- `{ ...node, ...patch }`.
unfoldable pub patch_node : NodePatch → NodeDraft → NodeDraft
patch_node patch n = record {
  id = or_else patch.id n.id;
  kind = or_else patch.kind n.kind;
  title = or_else patch.title n.title;
  description = or_else patch.description n.description;
  terminal_resolution = or_else patch.terminal_resolution n.terminal_resolution;
  metadata = or_else patch.metadata n.metadata;
}

unfoldable pub update_node : ℕ → NodePatch → PlaybookDraft → PlaybookDraft
update_node index patch current = record current {
  nodes = modify_at current.nodes index (patch_node patch);
}

-- Neither end is the node.
abbrev pub avoids : Uuid → EdgeDraft → Bool
avoids id e = not (e.from_node_id == id) && not (e.to_node_id == id)

unfoldable pub without_node : ℕ → NodeDraft → PlaybookDraft → PlaybookDraft
without_node index removed current = record {
  root_node_id = if current.root_node_id == removed.id then [] else current.root_node_id;
  nodes = remove_at current.nodes index;
  edges = keep (avoids removed.id) current.edges;
}

abbrev pub remove_found : ℕ → PlaybookDraft → Option NodeDraft → Option PlaybookDraft
remove_found index current none = none
remove_found index current (some removed) = some (without_node index removed current)

-- None where `removed.id` throws: there is no node at that index.
unfoldable pub remove_node : ℕ → PlaybookDraft → Option PlaybookDraft
remove_node index current = remove_found index current (get_elem? current.nodes index)

unfoldable pub add_edge : Uuid → Uuid → PlaybookDraft → PlaybookDraft
add_edge new_id from_node_id current = record current {
  edges =
      current.edges
      ++ new_edge_draft
          (record {
            from_node_id = some from_node_id;
            to_node_id = none;
            label = none;
            description = none;
            sort_order = some (to_text (pos (suc (outgoing_count current.edges from_node_id))));
          })
          new_id
        ∷ [];
}

-- `{ ...edge, ...patch }`.
unfoldable pub patch_edge : EdgePatch → EdgeDraft → EdgeDraft
patch_edge patch e = record {
  id = or_else patch.id e.id;
  from_node_id = or_else patch.from_node_id e.from_node_id;
  to_node_id = or_else patch.to_node_id e.to_node_id;
  label = or_else patch.label e.label;
  description = or_else patch.description e.description;
  sort_order = or_else patch.sort_order e.sort_order;
}

-- `edge` is the edge before the patch, `next` the one after it, `others` the other edges.
unfoldable pub renumber : List EdgeDraft → Option Uuid → EdgeDraft → EdgeDraft → EdgeDraft
unfolding codes
renumber others none e next = next
renumber others (some from_node_id) e next =
    if e.sort_order == codes "0"
    then record next { sort_order = to_text (pos (suc (outgoing_count others from_node_id))) }
    else next

unfoldable pub update_edge : ℕ → EdgePatch → PlaybookDraft → PlaybookDraft
update_edge index patch current = record current {
  edges =
      modify_at current.edges index
        (λ e. renumber (remove_at current.edges index) patch.from_node_id e (patch_edge patch e));
}

unfoldable pub remove_edge : ℕ → PlaybookDraft → PlaybookDraft
remove_edge index current = record current { edges = remove_at current.edges index }

-- `mutate((current) => ({ ...current, rootNodeId: e.target.value }))`.
unfoldable pub set_root : Uuid → PlaybookDraft → PlaybookDraft
set_root id current = record current { root_node_id = id }

-- The changes that the two lists of the form make, each with the identifier that it draws.
pub data Edit : Type 0 where
  added_node : Uuid → PlaybookNodeKind → Edit
  updated_node : ℕ → NodePatch → Edit
  removed_node : ℕ → Edit
  added_edge : Uuid → Uuid → Edit
  updated_edge : ℕ → EdgePatch → Edit
  removed_edge : ℕ → Edit
  picked_root : Uuid → Edit

unfoldable pub apply : Edit → PlaybookDraft → Option PlaybookDraft
apply (added_node new_id kind) current = some (add_node new_id kind current)
apply (updated_node index patch) current = some (update_node index patch current)
apply (removed_node index) current = remove_node index current
apply (added_edge new_id from_node_id) current = some (add_edge new_id from_node_id current)
apply (updated_edge index patch) current = some (update_edge index patch current)
apply (removed_edge index) current = some (remove_edge index current)
apply (picked_root id) current = some (set_root id current)
