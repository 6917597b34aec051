-- ===== src/Editor/Screen.antt =====
-- frontend/src/app/playbooks/PlaybookEditorScreen.tsx: the state of the screen and its handlers.
-- A handler that awaits a call is two functions: up to the call, and from its answer on.
pub mod Errors
pub mod Saves
use interbellum.Common.{
  List, [], ◌++◌, Bool, true, false, not, ◌&&◌, ◌||◌, Option, none, some, is_empty, if◌then◌else◌,
  head?,
}
use interbellum.Text.{Text, codes, trim, ◌==◌}
use interbellum.Types.{
  Uuid, PlaybookVersionStatus, draft, published, archived, PlaybookGraphInput,
  PlaybookVersionSummary, PlaybookVersionDefinition, PlaybookWithVersions, CreatePlaybookRequest,
}
use interbellum.Json.{JsonEngine}
use interbellum.Draft.{PlaybookDraft, empty_draft}
use interbellum.Draft.Errors.{DraftError, DraftSerializationResult, ok, rejected}
use interbellum.Draft.Serialize.{serialize_playbook_draft}
use interbellum.Draft.Load.{draft_from_definition}
use interbellum.Api.{Failure}
use interbellum.Editor.{Edit, apply}

pub record MetadataErrors : Type 0 where
  pub name : Option Text
  pub alert_type : Option Text

pub data MetadataField : Type 0 where
  name_field alert_type_field : MetadataField

-- What a handler catches: a failed call, or `created.versions[0]` being undefined.
pub data ScreenFailure : Type 0 where
  call_failed : Failure → ScreenFailure
  no_version : ScreenFailure

-- Where the router is sent.
pub data Navigation : Type 0 where
  replaced pushed : Text → Navigation

-- The path's identifiers; an absent and an empty one are both falsy, and none here.
pub record EditorProps : Type 0 where
  pub playbook_id : Option Uuid
  pub version_id : Option Uuid

-- `version` is `version.data`.
pub record EditorState : Type 0 where
  pub version : Option PlaybookVersionDefinition
  pub name : Text
  pub description : Text
  pub alert_type : Text
  pub metadata_errors : MetadataErrors
  pub current : PlaybookDraft
  pub errors : List DraftError
  pub dirty : Bool
  pub saving : Bool
  pub save_error : Option ScreenFailure
  pub publishing : Bool
  pub publish_error : Option ScreenFailure
  pub cloning : Bool
  pub clone_error : Option ScreenFailure
  pub just_published : Bool
  pub seeded_version_id : Option Uuid
  pub went : Option Navigation

abbrev pub initial : EditorState
initial = record {
  version = none;
  name = [];
  description = [];
  alert_type = [];
  metadata_errors = record { name = none; alert_type = none };
  current = empty_draft;
  errors = [];
  dirty = false;
  saving = false;
  save_error = none;
  publishing = false;
  publish_error = none;
  cloning = false;
  clone_error = none;
  just_published = false;
  seeded_version_id = none;
  went = none;
}

abbrev pub is_frozen_status : PlaybookVersionStatus → Bool
is_frozen_status draft = false
is_frozen_status published = true
is_frozen_status archived = true

abbrev pub is_frozen : Option PlaybookVersionDefinition → Bool
is_frozen none = false
is_frozen (some v) = is_frozen_status v.status

abbrev pub is_locked : EditorState → Bool
is_locked s = is_frozen s.version || s.saving || s.publishing || s.cloning

abbrev pub changed : EditorState → Option PlaybookDraft → Option EditorState
changed s none = none
changed s (some next) = some (record s { current = next; dirty = true; errors = [] })

-- None where the change throws.
unfoldable pub mutate : Edit → EditorState → Option EditorState
mutate edit s = changed s (apply edit s.current)

unfoldable pub clear_metadata_error : MetadataField → EditorState → EditorState
clear_metadata_error name_field s = record s {
  metadata_errors = record { name = none; alert_type = s.metadata_errors.alert_type };
}
clear_metadata_error alert_type_field s = record s {
  metadata_errors = record { name = s.metadata_errors.name; alert_type = none };
}

abbrev pub is_seeded : Option Uuid → Uuid → Bool
is_seeded none id = false
is_seeded (some seeded) id = seeded == id

module _ (json : JsonEngine) where
  abbrev pub seeded_from : EditorState → PlaybookVersionDefinition → EditorState
  seeded_from s definition = if is_seeded s.seeded_version_id definition.id then s else record s {
    seeded_version_id = some definition.id;
    current = draft_from_definition json definition.graph;
    dirty = false;
    errors = [];
  }

  abbrev pub seed_with : EditorState → Option PlaybookVersionDefinition → EditorState
  seed_with s none = s
  seed_with s (some definition) = seeded_from s definition

  -- The effect on `version.data`.
  unfoldable pub seed : EditorState → EditorState
  seed s = seed_with s s.version

-- The write that a save starts.
pub data SaveCall : Type 0 where
  replace_graph : Uuid → PlaybookGraphInput → SaveCall
  create : CreatePlaybookRequest → SaveCall

abbrev pub required : Text → Text → Option Text
required value message = if is_empty (trim value) then some message else none

abbrev pub missing_of : EditorState → Option Uuid → MetadataErrors
missing_of s none = record {
  name = required s.name (codes "A name is required.");
  alert_type = required s.alert_type (codes "An alert type is required.");
}
missing_of s (some id) = record { name = none; alert_type = none }

-- `missing`: nothing is required of a version that is stored.
unfoldable pub missing_metadata : EditorProps → EditorState → MetadataErrors
missing_metadata props s = missing_of s props.version_id

abbrev pub is_none {ℓ} : {A : Type ℓ} → Option A → Bool
is_none none = true
is_none (some a) = false

-- `Object.keys(missing).length > 0` is false.
abbrev pub is_complete : MetadataErrors → Bool
is_complete m = is_none m.name && is_none m.alert_type

abbrev pub save_call : EditorProps → EditorState → PlaybookGraphInput → SaveCall
save_call props s graph = elim props.version_id [
  | none ↦ create (record {
    name = trim s.name;
    description = some (trim s.description);
    alert_type = trim s.alert_type;
    definition = some graph;
  })
  | some id ↦ replace_graph id graph
]

unfoldable pub serialized_save :
    EditorProps → EditorState → DraftSerializationResult → EditorState × Option SaveCall
serialized_save props s (rejected errors) =
    (record s { metadata_errors = missing_metadata props s; errors = errors }, none)
serialized_save props s (ok graph) =
    if is_complete (missing_metadata props s)
    then (
      record s {
        metadata_errors = missing_metadata props s;
        errors = [];
        saving = true;
        save_error = none;
        publish_error = none;
      },
      some (save_call props s graph),
    )
    else (record s { metadata_errors = missing_metadata props s; errors = [] }, none)

-- What the write is answered with.
pub data SaveAnswer : Type 0 where
  updated : PlaybookVersionDefinition → SaveAnswer
  created : PlaybookWithVersions → SaveAnswer
  save_failed : Failure → SaveAnswer

abbrev pub edit_href : Uuid → Uuid → Text
edit_href playbook_id version_id =
    codes "/playbooks/" ++ (playbook_id ++ (codes "/versions/" ++ (version_id ++ codes "/edit")))

abbrev pub opened : EditorState → Uuid → Option PlaybookVersionSummary → EditorState
opened s playbook_id none = record s { save_error = some no_version; saving = false }
opened s playbook_id (some v) = record s {
  went = some (replaced (edit_href playbook_id v.id));
  saving = false;
}

module _ (json : JsonEngine) where
  -- `save`, up to the call; the call is none where it returns before it.
  unfoldable pub save : EditorProps → EditorState → EditorState × Option SaveCall
  save props s =
      if is_locked s
      then (s, none)
      else serialized_save props s (serialize_playbook_draft json s.current)

  unfoldable pub save_answered : SaveAnswer → EditorState → EditorState
  save_answered (updated v) s = record s {
    version = some v;
    current = draft_from_definition json v.graph;
    dirty = false;
    saving = false;
  }
  save_answered (created p) s = opened s p.playbook.id (head? p.versions)
  save_answered (save_failed failure) s = record s {
    save_error = some (call_failed failure);
    saving = false;
  }

abbrev pub publish_version : EditorState → Option Uuid → EditorState × Option Uuid
publish_version s none = (s, none)
publish_version s (some id) =
    if is_locked s
    then (s, none)
    else (record s { publishing = true; publish_error = none; save_error = none }, some id)

unfoldable pub publish : EditorProps → EditorState → EditorState × Option Uuid
publish props s = publish_version s props.version_id

pub data VersionAnswer : Type 0 where
  answered : PlaybookVersionDefinition → VersionAnswer
  refused : Failure → VersionAnswer

-- `playbook.reload` reloads nothing that is part of this state.
unfoldable pub publish_answered : VersionAnswer → EditorState → EditorState
publish_answered (answered v) s = record s {
  version = some v;
  just_published = true;
  publishing = false;
}
publish_answered (refused failure) s = record s {
  publish_error = some (call_failed failure);
  publishing = false;
}

abbrev pub clone_version :
    EditorState → Option Uuid → Option Uuid → EditorState × Option (Uuid × Uuid)
clone_version s (some playbook_id) (some version_id) =
    if s.cloning
    then (s, none)
    else (record s { cloning = true; clone_error = none }, some (playbook_id, version_id))
clone_version s _ _ = (s, none)

-- The call is the playbook and the version to clone.
unfoldable pub start_new_version : EditorProps → EditorState → EditorState × Option (Uuid × Uuid)
start_new_version props s = clone_version s props.playbook_id props.version_id

-- The screen stays locked once it is left for the new version.
unfoldable pub clone_answered : Uuid → VersionAnswer → EditorState → EditorState
clone_answered playbook_id (answered v) s = record s {
  went = some (pushed (edit_href playbook_id v.id));
}
clone_answered playbook_id (refused failure) s = record s {
  clone_error = some (call_failed failure);
  cloning = false;
}
