-- ===== src/Intake.antt =====
-- frontend/src/app/investigations/new/StartInvestigationScreen.tsx: the alert form, its ingestion,
-- the candidate versions and the start of an investigation.
pub mod Sends
pub mod Candidates
use interbellum.Common.{
  ℕ, List, [], ◌∷◌, ◌++◌, Bool, true, false, not, Option, none, some, is_empty, eqb, length, map,
  keep, sort, by_rank, if◌then◌else◌,
}
use interbellum.Text.{Text, codes, trim, ◌==◌}
use interbellum.Types.{
  Uuid, JsonValue, JsonObject, no_fields, obj, PlaybookVersionSummary, PlaybookWithVersions, Alert,
  CreateAlertRequest,
}
use interbellum.Json.{JsonEngine, as_object}
use interbellum.Api.{Failure}
use interbellum.Api.Endpoints.{Endpoint, start_investigation}
use interbellum.Draft.{or_else}
use interbellum.Demo.{demo_alert}
use interbellum.Format.{first_units}
use interbellum.Playbooks.{Query, when_set, is_published, version_number, truthy_id}

pub record AlertForm : Type 0 where
  pub external_id : Text
  pub alert_type : Text
  pub title : Text
  pub description : Text
  pub occurred_at : Text
  pub payload : Text

abbrev pub blank_form : AlertForm
unfolding codes
blank_form = record {
  external_id = [];
  alert_type = [];
  title = [];
  description = [];
  occurred_at = [];
  payload = codes "{}";
}

pub data AlertField : Type 0 where
  external_id alert_type title description occurred_at payload : AlertField

-- `{ ...current, [key]: event.target.value }`.
unfoldable pub set_field : AlertField → Text → AlertForm → AlertForm
set_field external_id value form = record form { external_id = value }
set_field alert_type value form = record form { alert_type = value }
set_field title value form = record form { title = value }
set_field description value form = record form { description = value }
set_field occurred_at value form = record form { occurred_at = value }
set_field payload value form = record form { payload = value }

pub record IntakeState : Type 0 where
  pub form : AlertForm
  pub ingesting : Bool
  pub ingest_error : Option Failure
  pub payload_error : Option Text
  pub ingested_existing : Bool
  pub starting_version_id : Option Uuid
  pub start_error : Option Failure

abbrev pub fresh_intake : IntakeState
fresh_intake = record {
  form = blank_form;
  ingesting = false;
  ingest_error = none;
  payload_error = none;
  ingested_existing = false;
  starting_version_id = none;
  start_error = none;
}

-- `now` is `new Date().toISOString()`.
unfoldable pub to_rfc3339 : Text → Text → Text
to_rfc3339 now [] = now
to_rfc3339 now (c ∷ s) =
    (if eqb (length (c ∷ s)) 16 then (c ∷ s) ++ codes ":00" else c ∷ s) ++ codes "Z"

pub data ParsedPayload : Type 0 where
  refused : Text → ParsedPayload
  parsed : JsonObject → ParsedPayload

abbrev pub object_payload : Option JsonObject → ParsedPayload
object_payload none =
    refused
      (codes "Payload must be a JSON object. The API rejects a scalar or an array with a 400.")
object_payload (some fields) = parsed fields

abbrev pub value_payload : Option JsonValue → ParsedPayload
value_payload none = refused (codes "Payload is not valid JSON.")
value_payload (some value) = object_payload (as_object value)

abbrev pub null_if_empty : Text → Option Text
null_if_empty [] = none
null_if_empty (c ∷ s) = some (c ∷ s)

unfoldable pub alert_request : Text → AlertForm → JsonObject → CreateAlertRequest
alert_request now form fields = record {
  external_id = null_if_empty (trim form.external_id);
  alert_type = trim form.alert_type;
  title = trim form.title;
  description = some (trim form.description);
  occurred_at = to_rfc3339 now form.occurred_at;
  payload = some fields;
}

abbrev pub send_payload :
    Text → ParsedPayload → IntakeState → IntakeState × Option CreateAlertRequest
send_payload now (refused message) s = (record s { payload_error = some message }, none)
send_payload now (parsed fields) s =
    (record s { ingesting = true }, some (alert_request now s.form fields))

module _ (json : JsonEngine) where
  unfoldable pub load_demo : IntakeState → IntakeState
  load_demo s = record s {
    form = record {
      external_id = or_else demo_alert.external_id [];
      alert_type = demo_alert.alert_type;
      title = demo_alert.title;
      description = or_else demo_alert.description [];
      occurred_at = first_units 16 demo_alert.occurred_at;
      payload = json.stringify (obj (or_else demo_alert.payload no_fields));
    };
    payload_error = none;
    ingest_error = none;
  }

  -- The payload, of the text of the field without its outer white space.
  unfoldable pub read_payload : Text → ParsedPayload
  read_payload [] = parsed no_fields
  read_payload (c ∷ s) = value_payload (json.parse (c ∷ s))

  -- The handler up to its call, and what it sends.
  unfoldable pub ingest : Text → IntakeState → IntakeState × Option CreateAlertRequest
  ingest now s =
      send_payload now (read_payload (trim s.form.payload))
        (record s { payload_error = none; ingest_error = none })

-- `preselected` is the version in the URL.
unfoldable pub ingested : Option Uuid → Alert → ℕ → IntakeState → IntakeState × Query
ingested preselected alert status s = (
  record s { ingested_existing = eqb status 200; ingesting = false },
  (codes "alert", alert.id) ∷ when_set (codes "version") preselected,
)

unfoldable pub ingest_failed : Failure → IntakeState → IntakeState
ingest_failed failure s = record s { ingest_error = some failure; ingesting = false }

-- `onIngestAnother`: the URL loses its query.
unfoldable pub ingest_another : IntakeState → IntakeState
ingest_another s = record s { form = blank_form; ingested_existing = false; start_error = none }

-- Nothing is called without an alert.
unfoldable pub start : Option Alert → Uuid → IntakeState → IntakeState × Option Endpoint
start none version_id s = (s, none)
start (some alert) version_id s = (
  record s { starting_version_id = some version_id; start_error = none },
  some (start_investigation alert.id (record { playbook_version_id = version_id })),
)

-- Where `router.push` goes.
unfoldable pub started : Uuid → Text
started investigation_id = codes "/investigations/" ++ investigation_id

unfoldable pub start_failed : Failure → IntakeState → IntakeState
start_failed failure s = record s { start_error = some failure; starting_version_id = none }

-- A published version of a playbook that matches the type of the alert.
pub record Candidate : Type 0 where
  pub playbook_id : Uuid
  pub playbook_name : Text
  pub playbook_description : Text
  pub version : PlaybookVersionSummary

abbrev pub candidate : PlaybookWithVersions → PlaybookVersionSummary → Candidate
candidate p v = record {
  playbook_id = p.playbook.id;
  playbook_name = p.playbook.name;
  playbook_description = p.playbook.description;
  version = v;
}

unfoldable pub candidates_of : PlaybookWithVersions → List Candidate
candidates_of p = map (candidate p) (
    sort (by_rank version_number)
      (keep (λ (v : PlaybookVersionSummary). is_published v.status) p.versions))

-- `detailed.flatMap(…)`.
unfoldable pub candidates : List PlaybookWithVersions → List Candidate
candidates [] = []
candidates (p ∷ ps) = candidates_of p ++ candidates ps

-- One row: the version in the URL is highlighted, and no button is free while a start is under way.
pub record CandidateRow : Type 0 where
  pub shown : Candidate
  pub highlighted : Bool
  pub busy : Bool
  pub startable : Bool

abbrev pub is_version : Option Uuid → Uuid → Bool
is_version none id = false
is_version (some wanted) id = wanted == id

abbrev pub is_null : Option Uuid → Bool
is_null none = true
is_null (some id) = false

unfoldable pub candidate_row : Option Uuid → Option Uuid → Candidate → CandidateRow
candidate_row preselected starting c = record {
  shown = c;
  highlighted = is_version preselected c.version.id;
  busy = is_version starting c.version.id;
  startable = is_null starting;
}

unfoldable pub candidate_rows :
    Option Uuid → Option Uuid → List PlaybookWithVersions → List CandidateRow
candidate_rows preselected starting ps = map (candidate_row preselected starting) (candidates ps)
