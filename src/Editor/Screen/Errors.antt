-- ===== src/Editor/Screen/Errors.antt =====
-- The errors that PlaybookEditorScreen.tsx shows are those of the draft it shows.
use interbellum.Common.{
  some-inj, [], true, false, ◌≡◌, ◌≢◌, refl, ◌∙◌, subst, arith, Option, none, some, if-ind,
}
use interbellum.Text.{Text}
use interbellum.Types.{Uuid, PlaybookVersionSummary, PlaybookVersionDefinition}
use interbellum.Json.{JsonEngine}
use interbellum.Draft.{PlaybookDraft}
use interbellum.Draft.Errors.{DraftSerializationResult, ok, rejected}
use interbellum.Draft.Serialize.{serialize_playbook_draft}
use interbellum.Editor.{Edit, apply}
use interbellum.Editor.Screen.{
  EditorProps, EditorState, initial, mutate, clear_metadata_error, name_field, alert_type_field,
  seed, SaveAnswer, updated, created, save_failed, VersionAnswer, answered, refused, save,
  save_answered, serialized_save, publish, publish_answered, start_new_version, clone_answered,
  changed, seed_with, is_seeded, SaveCall, opened, publish_version, clone_version, is_locked,
  is_complete, missing_metadata,
}

-- What can happen to the screen: input, a handler, an answer to the call that is in flight, and
-- the first load of the version.
pub data Step (json : JsonEngine) (props : EditorProps) : EditorState → EditorState → Type 0 where
  edited : {s s' : EditorState} (edit : Edit) → mutate edit s ≡ some s' → Step json props s s'
  named :
      {s : EditorState} (name : Text)
      → Step json props s (clear_metadata_error name_field (record s { name = name }))
  described :
      {s : EditorState} (description : Text)
      → Step json props s (record s { description = description })
  classified :
      {s : EditorState} (alert_type : Text)
      → Step json props s
          (clear_metadata_error alert_type_field (record s { alert_type = alert_type }))
  loaded :
      {s : EditorState} (v : PlaybookVersionDefinition)
      → Step json props s (record s { version = some v })
  seeded : {s : EditorState} → Step json props s (seed json s)
  saved : {s : EditorState} → Step json props s (save json props s).0
  save_ended :
      {s : EditorState} (answer : SaveAnswer)
      → s.saving ≡ true
      → Step json props s (save_answered json answer s)
  publishes : {s : EditorState} → Step json props s (publish props s).0
  publish_ended :
      {s : EditorState} (answer : VersionAnswer)
      → s.publishing ≡ true
      → Step json props s (publish_answered answer s)
  cloned : {s : EditorState} → Step json props s (start_new_version props s).0
  clone_ended :
      {s : EditorState} (playbook_id : Uuid) (answer : VersionAnswer)
      → s.cloning ≡ true
      → Step json props s (clone_answered playbook_id answer s)

pub data Reachable (json : JsonEngine) (props : EditorProps) : EditorState → Type 0 where
  opens : Reachable json props initial
  goes_on :
      {s s' : EditorState} → Reachable json props s → Step json props s s' → Reachable json props s'

-- The errors on display are those of the draft on display, and while a save is in flight there
-- are none.
pub record IsCurrent (json : JsonEngine) (s : EditorState) : Type 0 where
  pub shown : s.errors ≢ [] → serialize_playbook_draft json s.current ≡ rejected s.errors
  pub while_saving : s.saving ≡ true → s.errors ≡ []

module _ (json : JsonEngine) where
  IsCurrent-of_none : (s : EditorState) → s.errors ≡ [] → IsCurrent json s
  IsCurrent-of_none s e = record { shown = λ h. absurd (h e); while_saving = λ h. e }

  -- Only the draft, the errors and the flag of the save matter.
  IsCurrent-same :
      (s s' : EditorState)
      → s'.current ≡ s.current
      → s'.errors ≡ s.errors
      → (s'.saving ≡ true → s.saving ≡ true)
      → IsCurrent json s
      → IsCurrent json s'
  IsCurrent-same s s' d e f h = record {
    shown = λ k. rw (d, e, h.shown (λ z. k (e ∙ z)));
    while_saving = λ k. e ∙ h.while_saving (f k);
  }

  changed-IsCurrent :
      (s : EditorState) (o : Option PlaybookDraft) (s' : EditorState)
      → changed s o ≡ some s'
      → IsCurrent json s'
  changed-IsCurrent s none s' e = cc
  changed-IsCurrent s (some d) s' e = subst (IsCurrent json) (some-inj e) (IsCurrent-of_none _ refl)

  seeded-IsCurrent :
      (s : EditorState) (v : Option PlaybookVersionDefinition)
      → IsCurrent json s
      → IsCurrent json (seed_with json s v)
  seeded-IsCurrent s none h = h
  seeded-IsCurrent s (some v) h =
      if-ind (IsCurrent json) (is_seeded s.seeded_version_id v.id) s _ (λ e. h)
        (λ e. IsCurrent-of_none _ refl)

  serialized-IsCurrent :
      (props : EditorProps) (s : EditorState)
      → s.saving ≡ false
      → (r : DraftSerializationResult) → serialize_playbook_draft json s.current ≡ r
      → IsCurrent json (serialized_save props s r).0
  unfolding serialized_save
  serialized-IsCurrent props s idle (rejected es) e = record {
    shown = λ h. e;
    while_saving = λ h. cc;
  }
  serialized-IsCurrent props s idle (ok g) e =
      if-ind (λ (r : EditorState × Option SaveCall). IsCurrent json r.0)
        (is_complete (missing_metadata props s)) _ _ (λ h. IsCurrent-of_none _ refl)
        (λ h. IsCurrent-of_none _ refl)

  save-IsCurrent :
      (props : EditorProps) (s : EditorState)
      → IsCurrent json s
      → IsCurrent json (save json props s).0
  unfolding save
  save-IsCurrent props s h =
      if-ind (λ (r : EditorState × Option SaveCall). IsCurrent json r.0) (is_locked s) _ _ (λ e. h)
        (λ e. serialized-IsCurrent props s (ground arith) _ refl)

  opened-IsCurrent :
      (s : EditorState) (id : Uuid) (o : Option PlaybookVersionSummary)
      → IsCurrent json s
      → IsCurrent json (opened s id o)
  opened-IsCurrent s id none h = IsCurrent-same s _ refl refl (λ e. cc) h
  opened-IsCurrent s id (some v) h = IsCurrent-same s _ refl refl (λ e. cc) h

  save_answered-IsCurrent :
      (answer : SaveAnswer) (s : EditorState)
      → s.saving ≡ true
      → IsCurrent json s
      → IsCurrent json (save_answered json answer s)
  unfolding save_answered
  save_answered-IsCurrent (updated v) s saving h = IsCurrent-of_none _ (h.while_saving saving)
  save_answered-IsCurrent (created p) s saving h = opened-IsCurrent s _ _ h
  save_answered-IsCurrent (save_failed f) s saving h = IsCurrent-same s _ refl refl (λ e. cc) h

  publish-IsCurrent :
      (s : EditorState) (id : Option Uuid)
      → IsCurrent json s
      → IsCurrent json (publish_version s id).0
  publish-IsCurrent s none h = h
  publish-IsCurrent s (some id) h =
      if-ind (λ (r : EditorState × Option Uuid). IsCurrent json r.0) (is_locked s) _ _ (λ e. h)
        (λ e. IsCurrent-same s _ refl refl (λ k. k) h)

  publish_answered-IsCurrent :
      (answer : VersionAnswer) (s : EditorState)
      → IsCurrent json s
      → IsCurrent json (publish_answered answer s)
  unfolding publish_answered
  publish_answered-IsCurrent (answered v) s h = IsCurrent-same s _ refl refl (λ k. k) h
  publish_answered-IsCurrent (refused f) s h = IsCurrent-same s _ refl refl (λ k. k) h

  clone-IsCurrent :
      (s : EditorState) (p v : Option Uuid)
      → IsCurrent json s
      → IsCurrent json (clone_version s p v).0
  clone-IsCurrent s (some p) (some v) h =
      if-ind (λ (r : EditorState × Option (Uuid × Uuid)). IsCurrent json r.0) s.cloning _ _ (λ e. h)
        (λ e. IsCurrent-same s _ refl refl (λ k. k) h)
  clone-IsCurrent s none v h = h
  clone-IsCurrent s (some p) none h = h

  clone_answered-IsCurrent :
      (id : Uuid) (answer : VersionAnswer) (s : EditorState)
      → IsCurrent json s
      → IsCurrent json (clone_answered id answer s)
  unfolding clone_answered
  clone_answered-IsCurrent id (answered v) s h = IsCurrent-same s _ refl refl (λ k. k) h
  clone_answered-IsCurrent id (refused f) s h = IsCurrent-same s _ refl refl (λ k. k) h

  Step-IsCurrent :
      (props : EditorProps) (s s' : EditorState)
      → Step json props s s'
      → IsCurrent json s
      → IsCurrent json s'
  unfolding mutate clear_metadata_error seed publish start_new_version
  Step-IsCurrent props s s' (edited edit e) h = changed-IsCurrent s (apply edit s.current) s' e
  Step-IsCurrent props s s' (named name) h = IsCurrent-same s _ refl refl (λ k. k) h
  Step-IsCurrent props s s' (described description) h = IsCurrent-same s _ refl refl (λ k. k) h
  Step-IsCurrent props s s' (classified alert_type) h = IsCurrent-same s _ refl refl (λ k. k) h
  Step-IsCurrent props s s' (loaded v) h = IsCurrent-same s _ refl refl (λ k. k) h
  Step-IsCurrent props s s' seeded h = seeded-IsCurrent s s.version h
  Step-IsCurrent props s s' saved h = save-IsCurrent props s h
  Step-IsCurrent props s s' (save_ended answer e) h = save_answered-IsCurrent answer s e h
  Step-IsCurrent props s s' publishes h = publish-IsCurrent s props.version_id h
  Step-IsCurrent props s s' (publish_ended answer e) h = publish_answered-IsCurrent answer s h
  Step-IsCurrent props s s' cloned h = clone-IsCurrent s props.playbook_id props.version_id h
  Step-IsCurrent props s s' (clone_ended id answer e) h = clone_answered-IsCurrent id answer s h

-- However the screen is used, the errors that it shows, where it shows any, are those that the
-- draft on display is rejected with, and it shows none while a save is in flight.
pub IsCurrent-of_Reachable :
    (json : JsonEngine) (props : EditorProps) (s : EditorState)
    → Reachable json props s
    → IsCurrent json s
IsCurrent-of_Reachable json props s opens = IsCurrent-of_none json initial refl
IsCurrent-of_Reachable json props s (goes_on r step) =
    Step-IsCurrent json props _ s step (IsCurrent-of_Reachable json props _ r)
