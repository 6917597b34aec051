-- ===== src/Draft/Faults.antt =====
-- The faults of a draft that frontend/src/lib/playbook-draft.ts is to report, stated without the
-- loops: where each stands, and which field it is about.
pub mod Nodes
pub mod Edges
pub mod Reported
use interbellum.Common.{List, [], ◌∷◌, ◌++◌, ◌≡◌, ◌≢◌, ◌⊎◌, Any, Mem, length}
use interbellum.Text.{trim}
use interbellum.Integers.{ℤ, pos, negsuc}
use interbellum.Types.{Uuid, terminal}
use interbellum.Json.{JsonEngine}
use interbellum.Draft.{NodeDraft, EdgeDraft, PlaybookDraft}
use interbellum.Draft.Errors.{
  DraftScope, node, edge, root, DraftErrorField, id, title, terminal_resolution, metadata, label,
  from_node_id, to_node_id, root_node_id, DraftError,
}
use interbellum.Draft.Rules.{node_ids, edge_ids, IsMetadata}

-- What is wrong with a field of a node that stands behind the nodes `pre`.
abbrev pub NodeFault : JsonEngine → List NodeDraft → NodeDraft → DraftErrorField → Type 0
NodeFault json pre n id = Mem n.id (node_ids pre)
NodeFault json pre n title = trim n.title ≡ []
NodeFault json pre n terminal_resolution = (n.kind ≡ terminal) × (trim n.terminal_resolution ≡ [])
NodeFault json pre n metadata = ¬ IsMetadata json n.metadata
NodeFault json pre n _ = ⊥

abbrev pub IsRepeat : EdgeDraft → EdgeDraft → Type 0
IsRepeat e f = (f.from_node_id ≡ e.from_node_id) × (trim f.label ≡ trim e.label)

-- What is wrong with a field of an edge that stands behind the edges `pre`.
abbrev pub EdgeFault : List Uuid → List EdgeDraft → EdgeDraft → DraftErrorField → Type 0
EdgeFault ids pre e id = Mem e.id (edge_ids pre)
EdgeFault ids pre e label =
    (trim e.label ≡ []) ⊎ ((e.from_node_id ≢ []) × (trim e.label ≢ []) × Any (IsRepeat e) pre)
EdgeFault ids pre e from_node_id = (e.from_node_id ≡ []) ⊎ (¬ Mem e.from_node_id ids)
EdgeFault ids pre e to_node_id = (e.to_node_id ≡ []) ⊎ (¬ Mem e.to_node_id ids)
EdgeFault ids pre e _ = ⊥

-- The draft has a fault at the place and the field that an error names.
abbrev pub FaultAt : JsonEngine → PlaybookDraft → DraftScope → ℤ → DraftErrorField → Type 0
FaultAt json d node index f =
    (pre : List NodeDraft) × (n : NodeDraft) × (rest : List NodeDraft) × (d.nodes ≡ pre ++ n ∷ rest)
    × (index ≡ pos (length pre))
    × NodeFault json pre n f
FaultAt json d edge index f =
    (pre : List EdgeDraft) × (e : EdgeDraft) × (rest : List EdgeDraft) × (d.edges ≡ pre ++ e ∷ rest)
    × (index ≡ pos (length pre))
    × EdgeFault (node_ids d.nodes) pre e f
FaultAt json d root index f =
    (index ≡ negsuc 0)
    × (f ≡ root_node_id)
    × (d.root_node_id ≢ [])
    × (¬ Mem d.root_node_id (node_ids d.nodes))

abbrev pub IsFault : JsonEngine → PlaybookDraft → DraftError → Type 0
IsFault json d err = FaultAt json d err.scope err.index err.field

-- The error is about that place and field.
abbrev pub IsAbout : DraftScope → ℤ → DraftErrorField → DraftError → Type 0
IsAbout scope index f err = (err.scope ≡ scope) × (err.index ≡ index) × (err.field ≡ f)
