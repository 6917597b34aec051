-- ===== src/Draft/Rules.antt =====
-- The write-time rules of a draft, stated without the loops: what `serializePlaybookDraft` of
-- frontend/src/lib/playbook-draft.ts is to accept (docs/domain-model.md, section 5).
pub mod Nodes
pub mod Labels
pub mod Edges
pub mod Accepts
use interbellum.Common.{List, [], ◌∷◌, ◌≡◌, ◌≢◌, ◌⊎◌, some, All, Mem, Nodup, map}
use interbellum.Text.{Text, trim}
use interbellum.Types.{Uuid, JsonObject, obj, terminal}
use interbellum.Json.{JsonEngine}
use interbellum.Draft.{NodeDraft, EdgeDraft, PlaybookDraft}

abbrev pub node_ids : List NodeDraft → List Uuid
node_ids = map λ n. n.id

abbrev pub edge_ids : List EdgeDraft → List Uuid
edge_ids = map λ e. e.id

-- Blank, or the text of a JSON object.
abbrev pub IsMetadata : JsonEngine → Text → Type 0
IsMetadata json raw =
    (trim raw ≡ []) ⊎ ((fields : JsonObject) × (json.parse (trim raw) ≡ some (obj fields)))

pub record IsWritableNode (json : JsonEngine) (n : NodeDraft) : Type 0 where
  pub title : trim n.title ≢ []
  pub resolution : n.kind ≡ terminal → trim n.terminal_resolution ≢ []
  pub metadata : IsMetadata json n.metadata

pub record IsWritableEdge (ids : List Uuid) (e : EdgeDraft) : Type 0 where
  pub label : trim e.label ≢ []
  pub from_picked : e.from_node_id ≢ []
  pub from_known : Mem e.from_node_id ids
  pub to_picked : e.to_node_id ≢ []
  pub to_known : Mem e.to_node_id ids

-- Two choices that leave one node are labelled apart.
abbrev pub IsApart : EdgeDraft → EdgeDraft → Type 0
IsApart e f = e.from_node_id ≡ f.from_node_id → trim e.label ≢ trim f.label

abbrev pub AllApart : List EdgeDraft → Type 0
AllApart [] = Unit {0}
AllApart (e ∷ es) = All (IsApart e) es × AllApart es

pub record IsWritable (json : JsonEngine) (d : PlaybookDraft) : Type 0 where
  pub nodes_distinct : Nodup (node_ids d.nodes)
  pub nodes_writable : All (IsWritableNode json) d.nodes
  pub edges_distinct : Nodup (edge_ids d.edges)
  pub edges_writable : All (IsWritableEdge (node_ids d.nodes)) d.edges
  pub labels_apart : AllApart d.edges
  pub root_known : (d.root_node_id ≡ []) ⊎ Mem d.root_node_id (node_ids d.nodes)
