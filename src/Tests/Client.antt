-- ===== src/Tests/Client.antt =====
-- Calls of the API, the loads of a resource, and a decision that is retried.
use interbellum.Common.{
  if◌then◌else◌, ℕ, List, [], ◌∷◌, ◌≡◌, ◌≢◌, refl, Bool, Option, none, some, true, false, keep, not,
}
use interbellum.Text.{Text, codes, trim, trim_start, trim_end, is_white, ◌==◌}
use interbellum.Text.Maps.{get}
use interbellum.Types.{
  JsonValue, JsonObject, no_fields, field, str, obj, human, SubmitDecisionRequest, AvailableChoice,
  EvidenceItem,
}
use interbellum.Json.{JsonEngine}
use interbellum.Evidence.{serialize_evidence, visit_rows}
use interbellum.Api.{responded, receive, withdrawn}
use interbellum.Api.Endpoints.{
  Endpoint, WireFormat, submit_decision, call, key_of, type_of_body, call-headers,
}
use interbellum.Api.Outcome.{IsAnsweredBy, receive-IsAnsweredBy}
use interbellum.Resource.{
  Resource, ResourceEvent, resolves, rejects, runs_effect, run, run_effect, mounted,
}
use interbellum.Resource.Stale.{is_stale, IsRested, run-keep, run-mounted-IsRested}
use interbellum.Decision.{
  FormState, chooses, fresh_form, input, choose_edge, Submission, submit, send, submit_failed,
  idempotency_key_for,
}
use interbellum.Demo.{Suggestion, suggested_decision}
use interbellum.Decision.Suggests.{submit-suggested}
use interbellum.Decision.Keys.{Sent, IsUnused, AllAgree, Run, AllAgree-of_Run, noted, submit-retry}
use interbellum.Text.Sets.{has}
use interbellum.Proxy.{
  BrowserRequest, upstream_call, forwarded_request_headers, unless_blank, get-upstream_call,
}
use interbellum.Tests.Samples.{small_engine}

abbrev plain_wire : WireFormat
plain_wire = record { encode_uri_component = λ s. s; stringify = λ value. 123 ∷ 125 ∷ [] }

abbrev sample_decision : SubmitDecisionRequest
sample_decision = record {
  edge_id = 101 ∷ [];
  actor = record { type = human; id = none };
  rationale = none;
  evidence = some [];
}

abbrev sample_endpoint : Endpoint
sample_endpoint = submit_decision (105 ∷ []) sample_decision (1 ∷ [])

call-headers_example :
    (get (call plain_wire sample_endpoint).headers (codes "Idempotency-Key")
      ≡ key_of sample_endpoint)
    × (get (call plain_wire sample_endpoint).headers (codes "Content-Type")
        ≡ type_of_body (call plain_wire sample_endpoint).body)
call-headers_example = call-headers plain_wire sample_endpoint

receive-IsAnsweredBy_example :
    IsAnsweredBy
      (responded 404 (123 ∷ 125 ∷ []))
      (receive small_engine (responded 404 (123 ∷ 125 ∷ [])))
receive-IsAnsweredBy_example = receive-IsAnsweredBy small_engine (responded 404 (123 ∷ 125 ∷ []))

-- The second load is live, and the first one is answered late.
abbrev second_load : Resource ℕ ℕ
second_load = run_effect true (run_effect true (mounted true))

abbrev late_answers : List (ResourceEvent ℕ ℕ)
late_answers = resolves 0 7 ∷ resolves 1 8 ∷ rejects 0 9 ∷ []

second_live : second_load.live ≡ some 1
unfolding run_effect mounted
second_live = refl

run-keep_example :
    run late_answers second_load ≡ run (keep (λ e. not (is_stale 1 e)) late_answers) second_load
run-keep_example = run-keep 1 late_answers second_load second_live (refl, (refl, (refl, tt)))

abbrev failing_load : List (ResourceEvent ℕ ℕ)
failing_load = runs_effect true ∷ rejects 0 9 ∷ []

run-mounted-IsRested_example : IsRested (run failing_load (mounted true))
run-mounted-IsRested_example = run-mounted-IsRested failing_load true

abbrev chosen : FormState
chosen = record (fresh_form 0) { edge_id = some (101 ∷ []) }

abbrev sample_submission : Submission
unfolding codes
sample_submission = record {
  body = record {
    edge_id = 101 ∷ [];
    actor = record { type = human; id = some (codes "analyst") };
    rationale = none;
    evidence = some [];
  };
  key = 1 ∷ [];
}

chosen_sent : (submit small_engine plain_wire chosen (1 ∷ [])).1 ≡ some sample_submission
unfolding submit send serialize_evidence visit_rows idempotency_key_for trim trim_start trim_end
    is_white codes
chosen_sent = refl

submit-retry_example :
    (submit small_engine plain_wire
      (submit_failed withdrawn (submit small_engine plain_wire chosen (1 ∷ [])).0)
      (2 ∷ [])).1
    ≡ some sample_submission
submit-retry_example =
    submit-retry small_engine plain_wire withdrawn (1 ∷ []) (2 ∷ []) chosen sample_submission
      chosen_sent

abbrev sample_choice : AvailableChoice
sample_choice = record { edge_id = 101 ∷ []; label = []; description = none; to_node_id = [] }

abbrev form_of_choice : FormState
form_of_choice = input (chooses [] sample_choice) (fresh_form 0)

abbrev sent_once : List Sent
sent_once =
    noted small_engine plain_wire (submit small_engine plain_wire form_of_choice (1 ∷ [])).1 []

abbrev failed_once : FormState
failed_once = submit_failed withdrawn (submit small_engine plain_wire form_of_choice (1 ∷ [])).0

-- The same decision again, under the same key.
abbrev sent_twice : List Sent
sent_twice =
    noted small_engine plain_wire (submit small_engine plain_wire failed_once (2 ∷ [])).1 sent_once

keys_apart : ¬ (◌≡◌ {A = List ℕ} (1 ∷ []) (2 ∷ []))
keys_apart e = cc

fresh_key : IsUnused (2 ∷ []) sent_once
unfolding input choose_edge suggested_decision get submit send serialize_evidence visit_rows
    idempotency_key_for trim trim_start trim_end is_white codes ◌==◌
fresh_key = (keys_apart, tt)

submitted_twice :
    Run small_engine plain_wire (submit small_engine plain_wire failed_once (2 ∷ [])).0 sent_twice
submitted_twice =
    Run.submits (2 ∷ [])
      (Run.fails withdrawn
        (Run.submits (1 ∷ []) (Run.inputs (chooses [] sample_choice) (Run.opens 0)) tt))
      fresh_key

AllAgree-of_Run_example : AllAgree sent_twice
AllAgree-of_Run_example =
    AllAgree-of_Run small_engine plain_wire (submit small_engine plain_wire failed_once (2 ∷ [])).0
      sent_twice submitted_twice

-- The cookie is left out, and the accepted types are forwarded.
abbrev sample_request : BrowserRequest
sample_request = record {
  method = codes "GET";
  search = [];
  headers = (codes "cookie", codes "c") ∷ (codes "accept", codes "*/*") ∷ [];
  text = [];
}

get-upstream_call_example :
    get (upstream_call [] (λ s. s) sample_request (codes "v1" ∷ [])).headers (codes "accept") ≡ (
      if has forwarded_request_headers (codes "accept")
      then unless_blank (get sample_request.headers (codes "accept"))
      else none)
get-upstream_call_example =
    get-upstream_call [] (λ s. s) sample_request (codes "v1" ∷ []) (codes "accept")

abbrev sis_text : Text
sis_text = codes "{\n  \"sis_range\": \"41000-41100\"\n}"

abbrev sis_range : JsonObject
sis_range = field (codes "sis_range") (str (codes "41000-41100")) no_fields

abbrev sis_or_none : Bool → Option JsonValue
sis_or_none true = some (obj sis_range)
sis_or_none false = none

-- An engine that knows one text.
abbrev sis_engine : JsonEngine
sis_engine = record {
  parse = λ text. sis_or_none (text == sis_text);
  stringify = λ value. sis_text;
}

abbrev sis_choice : AvailableChoice
sis_choice = record { edge_id = 101 ∷ []; label = codes "No"; description = none; to_node_id = [] }

abbrev sis_title : Text
sis_title = codes "Register tied to a safety (SIS) function?"

abbrev sis_suggestion : Suggestion
sis_suggestion = record {
  rationale = codes "Register 40021 is a non-safety setpoint; the SIS range is 41000-41100.";
  evidence = record {
    type = some (codes "register_map_lookup");
    summary = some (codes "40021 is outside the SIS register range");
    data_text = some sis_text;
  };
}

sis_suggested : suggested_decision sis_title (codes "No") ≡ some sis_suggestion
unfolding suggested_decision get codes ◌==◌
sis_suggested = refl

sis_parses : sis_engine.parse (trim sis_text) ≡ some (obj sis_range)
unfolding codes trim trim_start trim_end is_white ◌==◌
sis_parses = refl

edge_picked : sis_choice.edge_id ≢ []
edge_picked e = cc

nothing_argued : trim (fresh_form 0).rationale ≡ []
unfolding trim trim_start trim_end
nothing_argued = refl

submit-suggested_example :
    (sent : Submission) × (item : EvidenceItem) × ((submit sis_engine plain_wire
        (choose_edge sis_title sis_choice (fresh_form 0))
        (1 ∷ [])).1
      ≡ some sent)
    × (sent.body.edge_id ≡ 101 ∷ [])
    × (sent.body.rationale ≡ some sis_suggestion.rationale)
    × (sent.body.evidence ≡ some (item ∷ []))
    × (sis_suggestion.evidence.type ≡ some item.type)
    × (sis_suggestion.evidence.summary ≡ some item.summary)
    × (item.item_data ≡ some sis_range)
submit-suggested_example =
    submit-suggested sis_engine plain_wire sis_title sis_choice sis_suggestion (fresh_form 0)
      sis_text (1 ∷ []) sis_range sis_suggested refl sis_parses edge_picked nothing_argued refl refl
