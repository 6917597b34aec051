-- ===== src/Draft/Load/Contract.antt =====
-- When the parts of a `PlaybookGraphInput` fit together (frontend/src/lib/types.ts, and the write-
-- time rules of docs/domain-model.md, section 5). The form of ids and the range of sort orders are
-- no part of it: see Storable.antt.
use interbellum.Common.{List, [], ◌∷◌, ◌≡◌, ◌≢◌, Option, none, some, All, Mem, Nodup, map}
use interbellum.Text.{Text, trim}
use interbellum.Types.{
  Uuid, PlaybookNodeKind, decision, terminal, PlaybookNode, PlaybookEdge, PlaybookGraphInput,
}

-- Present, and without white space around it.
abbrev pub IsLine : Text → Type 0
IsLine s = (s ≢ []) × (trim s ≡ s)

-- A resolution is set if and only if the node is terminal.
abbrev pub IsResolution : PlaybookNodeKind → Option Text → Type 0
IsResolution decision none = Unit {0}
IsResolution decision (some r) = ⊥
IsResolution terminal none = ⊥
IsResolution terminal (some r) = IsLine r

abbrev pub IsLineOrNone : Option Text → Type 0
IsLineOrNone none = Unit {0}
IsLineOrNone (some s) = IsLine s

pub record IsCoherentNode (n : PlaybookNode) : Type 0 where
  pub title : IsLine n.title
  pub description : trim n.description ≡ n.description
  pub resolution : IsResolution n.kind n.terminal_resolution

pub record IsCoherentEdge (ids : List Uuid) (e : PlaybookEdge) : Type 0 where
  pub label : IsLine e.label
  pub description : IsLineOrNone e.description
  pub from_picked : e.from_node_id ≢ []
  pub from_known : Mem e.from_node_id ids
  pub to_picked : e.to_node_id ≢ []
  pub to_known : Mem e.to_node_id ids

abbrev pub IsEdgeApart : PlaybookEdge → PlaybookEdge → Type 0
IsEdgeApart e f = e.from_node_id ≡ f.from_node_id → e.label ≢ f.label

abbrev pub AllEdgesApart : List PlaybookEdge → Type 0
AllEdgesApart [] = Unit {0}
AllEdgesApart (e ∷ es) = All (IsEdgeApart e) es × AllEdgesApart es

abbrev pub IsRoot : List Uuid → Option Uuid → Type 0
IsRoot ids none = Unit {0}
IsRoot ids (some r) = (r ≢ []) × Mem r ids

abbrev pub graph_node_ids : PlaybookGraphInput → List Uuid
graph_node_ids g = map (λ n. n.id) g.nodes

pub record IsCoherent (g : PlaybookGraphInput) : Type 0 where
  pub nodes_distinct : Nodup (graph_node_ids g)
  pub nodes : All IsCoherentNode g.nodes
  pub edges_distinct : Nodup (map (λ e. e.id) g.edges)
  pub edges : All (IsCoherentEdge (graph_node_ids g)) g.edges
  pub labels_apart : AllEdgesApart g.edges
  pub root_known : IsRoot (graph_node_ids g) g.root_node_id
