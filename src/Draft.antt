-- ===== src/Draft.antt =====
-- frontend/src/lib/playbook-draft.ts, the drafts: a playbook graph as the authoring form holds it.
pub mod Errors
pub mod Serialize
pub mod Load
pub mod Preview
pub mod Rules
pub mod Faults
use interbellum.Common.{
  ℕ, List, [], Bool, true, false, ◌≡◌, refl, Option, none, some, if◌then◌else◌,
}
use interbellum.Text.{Text, codes}
use interbellum.Types.{Uuid, PlaybookNodeKind, decision, terminal}

pub record NodeDraft : Type 0 where
  pub id : Uuid
  pub kind : PlaybookNodeKind
  pub title : Text
  pub description : Text
  pub terminal_resolution : Text
  pub metadata : Text

-- The endpoints are empty while none is picked.
pub record EdgeDraft : Type 0 where
  pub id : Uuid
  pub from_node_id : Uuid
  pub to_node_id : Uuid
  pub label : Text
  pub description : Text
  pub sort_order : Text

pub record PlaybookDraft : Type 0 where
  pub root_node_id : Uuid
  pub nodes : List NodeDraft
  pub edges : List EdgeDraft

abbrev pub empty_draft : PlaybookDraft
empty_draft = record { root_node_id = []; nodes = []; edges = [] }

-- `Partial<Omit<NodeDraft, "id">>`.
pub record NodeSeed : Type 0 where
  pub kind : Option PlaybookNodeKind
  pub title : Option Text
  pub description : Option Text
  pub terminal_resolution : Option Text
  pub metadata : Option Text

-- `Partial<Omit<EdgeDraft, "id">>`.
pub record EdgeSeed : Type 0 where
  pub from_node_id : Option Uuid
  pub to_node_id : Option Uuid
  pub label : Option Text
  pub description : Option Text
  pub sort_order : Option Text

-- `value ?? fallback`.
abbrev pub or_else {ℓ} : {A : Type ℓ} → Option A → A → A
or_else none fallback = fallback
or_else (some a) fallback = a

-- The identifier that `newId()` returns is an argument.
unfoldable pub new_node_draft : NodeSeed → Uuid → NodeDraft
new_node_draft seed new_id = record {
  id = new_id;
  kind = or_else seed.kind decision;
  title = or_else seed.title [];
  description = or_else seed.description [];
  terminal_resolution = or_else seed.terminal_resolution [];
  metadata = or_else seed.metadata [];
}

unfoldable pub new_edge_draft : EdgeSeed → Uuid → EdgeDraft
unfolding codes
new_edge_draft seed new_id = record {
  id = new_id;
  from_node_id = or_else seed.from_node_id [];
  to_node_id = or_else seed.to_node_id [];
  label = or_else seed.label [];
  description = or_else seed.description [];
  sort_order = or_else seed.sort_order (codes "0");
}

abbrev pub is_terminal : PlaybookNodeKind → Bool
is_terminal decision = false
is_terminal terminal = true
