-- ===== src/Decision.antt =====
-- frontend/src/components/DecisionForm.tsx: the form that submits a decision, and its key.
pub mod Keys
pub mod Suggests
use interbellum.Common.{
  ℕ, List, [], ◌∷◌, ◌++◌, Bool, true, false, not, ◌&&◌, ◌||◌, Option, none, some, is_empty,
  if◌then◌else◌, remove_at, modify_at,
}
use interbellum.Text.{Text, codes, trim, ◌==◌}
use interbellum.Types.{
  Uuid, ActorType, human, Actor, AvailableChoice, SubmitDecisionRequest, InvestigationState,
}
use interbellum.Json.{JsonEngine}
use interbellum.Draft.{or_else}
use interbellum.Evidence.{
  EvidenceDraft, EvidenceSeed, EvidenceSerializationError, EvidenceSerializationResult, ok,
  rejected, new_evidence_draft, serialize_evidence,
}
use interbellum.Demo.{Suggestion, suggested_decision}
use interbellum.Api.{Failure}
use interbellum.Api.Encode.{decision_json}
use interbellum.Api.Endpoints.{WireFormat}

-- `keyRef` and `keyForRef`.
pub record KeyRefs : Type 0 where
  pub key : Option Text
  pub key_for : Option Text

abbrev pub no_key : KeyRefs
no_key = record { key = none; key_for = none }

abbrev pub is_text : Option Text → Text → Bool
is_text none s = false
is_text (some t) s = t == s

abbrev pub key_or_fresh : KeyRefs → Text → Text → Option Text → Text × KeyRefs
key_or_fresh refs signature fresh none =
    (fresh, record { key = some fresh; key_for = some signature })
key_or_fresh refs signature fresh (some key) =
    if is_text refs.key_for signature
    then (key, refs)
    else (fresh, record { key = some fresh; key_for = some signature })

-- `fresh` is what `crypto.randomUUID()` returns if it is called.
unfoldable pub idempotency_key_for : KeyRefs → Text → Text → Text × KeyRefs
idempotency_key_for refs signature fresh = key_or_fresh refs signature fresh refs.key

pub record FormState : Type 0 where
  pub edge_id : Option Uuid
  pub actor_type : ActorType
  pub actor_id : Text
  pub rationale : Text
  pub evidence : List EvidenceDraft
  pub evidence_errors : List EvidenceSerializationError
  pub submitting : Bool
  pub error : Option Failure
  pub refs : KeyRefs
  pub counter : ℕ

-- The module's counter of evidence keys is carried with the state.
abbrev pub suggested : FormState → Option Suggestion → FormState
suggested s none = s
suggested s (some suggestion) =
    if is_empty (trim s.rationale) && is_empty s.evidence
    then record s {
      rationale = suggestion.rationale;
      evidence = (new_evidence_draft suggestion.evidence s.counter).0 ∷ [];
      counter = (new_evidence_draft suggestion.evidence s.counter).1;
    }
    else s

unfoldable pub choose_edge : Text → AvailableChoice → FormState → FormState
choose_edge node_title choice s =
    suggested (record s { edge_id = some choice.edge_id; error = none })
      (suggested_decision node_title choice.label)

-- `Partial<EvidenceDraft>` of frontend/src/components/EvidenceEditor.tsx, less the key.
unfoldable pub patch_evidence : EvidenceSeed → EvidenceDraft → EvidenceDraft
patch_evidence patch draft = record {
  key = draft.key;
  type = or_else patch.type draft.type;
  summary = or_else patch.summary draft.summary;
  data_text = or_else patch.data_text draft.data_text;
}

unfoldable pub update_evidence : ℕ → EvidenceSeed → List EvidenceDraft → List EvidenceDraft
update_evidence index patch drafts = modify_at drafts index (patch_evidence patch)

abbrev pub blank_seed : EvidenceSeed
blank_seed = record { type = none; summary = none; data_text = none }

-- What the inputs of the form change.
pub data FormInput : Type 0 where
  chooses : Text → AvailableChoice → FormInput
  picks_actor : ActorType → FormInput
  names_actor : Text → FormInput
  argues : Text → FormInput
  adds_evidence : FormInput
  updates_evidence : ℕ → EvidenceSeed → FormInput
  removes_evidence : ℕ → FormInput

unfoldable pub input : FormInput → FormState → FormState
input (chooses node_title choice) s = choose_edge node_title choice s
input (picks_actor type) s = record s { actor_type = type }
input (names_actor id) s = record s { actor_id = id }
input (argues rationale) s = record s { rationale = rationale }
input adds_evidence s =
    let made = new_evidence_draft blank_seed s.counter in
    record s { evidence = s.evidence ++ made.0 ∷ []; counter = made.1 }
input (updates_evidence index patch) s = record s {
  evidence = update_evidence index patch s.evidence;
}
input (removes_evidence index) s = record s { evidence = remove_at s.evidence index }

abbrev pub trimmed_or_none : Text → Option Text
trimmed_or_none s = if is_empty (trim s) then none else some (trim s)

-- A submission that is sent: the body and its key.
pub record Submission : Type 0 where
  pub body : SubmitDecisionRequest
  pub key : Text

module _ (json : JsonEngine) (wire : WireFormat) where
  abbrev pub signature_of : SubmitDecisionRequest → Text
  signature_of body = wire.stringify (decision_json body)

  unfoldable pub send : FormState → SubmitDecisionRequest → Text → FormState × Option Submission
  send s body fresh =
      let keyed = idempotency_key_for s.refs (signature_of body) fresh in
      (
        record s { evidence_errors = []; submitting = true; error = none; refs = keyed.1 },
        some (record { body = body; key = keyed.0 }),
      )

  abbrev pub submit_evidence :
      FormState → Uuid → Text → EvidenceSerializationResult → FormState × Option Submission
  submit_evidence s edge_id fresh (rejected errors) = (record s { evidence_errors = errors }, none)
  submit_evidence s edge_id fresh (ok evidence) =
      send s
        (record {
          edge_id = edge_id;
          actor = record { type = s.actor_type; id = trimmed_or_none s.actor_id };
          rationale = trimmed_or_none s.rationale;
          evidence = some evidence;
        })
        fresh

  -- No edge, or an empty id, is falsy.
  abbrev pub submit_edge : FormState → Text → Option Uuid → FormState × Option Submission
  submit_edge s fresh none = (s, none)
  submit_edge s fresh (some []) = (s, none)
  submit_edge s fresh (some (c ∷ id)) =
      submit_evidence s (c ∷ id) fresh (serialize_evidence json s.evidence)

  -- `submit`, up to the call.
  unfoldable pub submit : FormState → Text → FormState × Option Submission
  submit s fresh = if s.submitting then (s, none) else submit_edge s fresh s.edge_id

-- The decision landed.
unfoldable pub submitted : FormState → FormState
submitted s = record s {
  refs = no_key;
  edge_id = none;
  rationale = [];
  evidence = [];
  submitting = false;
}

unfoldable pub submit_failed : Failure → FormState → FormState
submit_failed failure s = record s { error = some failure; submitting = false }

abbrev pub fresh_form : ℕ → FormState
fresh_form counter = record {
  edge_id = none;
  actor_type = human;
  actor_id = codes "analyst";
  rationale = [];
  evidence = [];
  evidence_errors = [];
  submitting = false;
  error = none;
  refs = no_key;
  counter = counter;
}
