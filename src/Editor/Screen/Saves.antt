-- ===== src/Editor/Screen/Saves.antt =====
-- When PlaybookEditorScreen.tsx writes, and what.
use interbellum.Common.{[], false, ◌≡◌, ◌≢◌, Option, none, some}
use interbellum.Text.{Text, trim}
use interbellum.Types.{Uuid, draft, PlaybookGraphInput, PlaybookVersionDefinition}
use interbellum.Editor.Screen.{EditorState, SaveCall, replace_graph, create}

-- A version that is not stored yet, or is a draft.
abbrev pub IsOpen : Option PlaybookVersionDefinition → Type 0
IsOpen none = Unit {0}
IsOpen (some v) = v.status ≡ draft

-- No write is on its way, and the version may still change.
pub record IsFree (s : EditorState) : Type 0 where
  pub version_open : IsOpen s.version
  pub not_saving : s.saving ≡ false
  pub not_publishing : s.publishing ≡ false
  pub not_cloning : s.cloning ≡ false

-- A new playbook needs a name and an alert type.
abbrev pub HasMetadata : Option Uuid → EditorState → Type 0
HasMetadata none s = (trim s.name ≢ []) × (trim s.alert_type ≢ [])
HasMetadata (some id) s = Unit {0}

-- A stored version gets the graph; without one, a playbook is created from the fields and it.
abbrev pub IsSaveOf : Option Uuid → EditorState → PlaybookGraphInput → SaveCall → Type 0
IsSaveOf none s g (replace_graph target graph) = ⊥
IsSaveOf none s g (create r) =
    (r.name ≡ trim s.name)
    × (r.description ≡ some (trim s.description))
    × (r.alert_type ≡ trim s.alert_type)
    × (r.definition ≡ some g)
IsSaveOf (some id) s g (replace_graph target graph) = (target ≡ id) × (graph ≡ g)
IsSaveOf (some id) s g (create r) = ⊥
