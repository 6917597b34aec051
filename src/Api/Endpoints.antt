-- ===== src/Api/Endpoints.antt =====
-- The calls of frontend/src/lib/api.ts.
use interbellum.Common.{[], ◌∷◌, ◌++◌, ◌≡◌, refl, Option, none, some}
use interbellum.Text.{Text, codes, ◌==◌}
use interbellum.Text.Maps.{get, put}
use interbellum.Types.{
  Uuid, JsonValue, PlaybookGraphInput, CreatePlaybookRequest, CreatePlaybookVersionRequest,
  CreateAlertRequest, StartInvestigationRequest, SubmitDecisionRequest,
}
use interbellum.Api.{FetchCall, fetch_call}
use interbellum.Api.Encode.{
  graph_json, playbook_json, version_json, alert_json, start_json, decision_json,
}

-- One constructor for each exported function.
pub data Endpoint : Type 0 where
  list_playbooks : Option Text → Endpoint
  get_playbook : Uuid → Endpoint
  create_playbook : CreatePlaybookRequest → Endpoint
  create_playbook_version : Uuid → CreatePlaybookVersionRequest → Endpoint
  get_playbook_version : Uuid → Endpoint
  replace_playbook_version_graph : Uuid → PlaybookGraphInput → Endpoint
  publish_playbook_version : Uuid → Endpoint
  create_alert : CreateAlertRequest → Endpoint
  get_alert : Uuid → Endpoint
  start_investigation : Uuid → StartInvestigationRequest → Endpoint
  get_investigation : Uuid → Endpoint
  submit_decision : Uuid → SubmitDecisionRequest → Text → Endpoint
  get_investigation_report : Uuid → Endpoint

-- `encodeURIComponent` and `JSON.stringify(value)`.
pub record WireFormat : Type 0 where
  pub encode_uri_component : Text → Text
  pub stringify : JsonValue → Text

abbrev read : Text → FetchCall
read path =
    fetch_call path (record { method = none; headers = []; body = none; idempotency_key = none })

abbrev write : Text → Text → Text → FetchCall
write method path body =
    fetch_call path
      (record { method = some method; headers = []; body = some body; idempotency_key = none })

abbrev pub key_of : Endpoint → Option Text
key_of (submit_decision id body (c ∷ s)) = some (c ∷ s)
key_of _ = none

abbrev pub type_of_body : Option Text → Option Text
type_of_body none = none
type_of_body (some body) = some (codes "application/json")

module _ (wire : WireFormat) where
  -- An empty alert type is falsy.
  unfoldable pub playbooks_query : Option Text → Text
  playbooks_query none = []
  playbooks_query (some []) = []
  playbooks_query (some (c ∷ s)) = codes "?alert_type=" ++ wire.encode_uri_component (c ∷ s)

  unfoldable pub call : Endpoint → FetchCall
  unfolding fetch_call
  call (list_playbooks alert_type) = read (codes "/playbooks" ++ playbooks_query alert_type)
  call (get_playbook id) = read (codes "/playbooks/" ++ id)
  call (create_playbook body) =
      write (codes "POST") (codes "/playbooks") (wire.stringify (playbook_json body))
  call (create_playbook_version id body) =
      write (codes "POST") (codes "/playbooks/" ++ (id ++ codes "/versions"))
        (wire.stringify (version_json body))
  call (get_playbook_version id) = read (codes "/playbook-versions/" ++ id)
  call (replace_playbook_version_graph id body) =
      write (codes "PUT") (codes "/playbook-versions/" ++ id) (wire.stringify (graph_json body))
  call (publish_playbook_version id) =
      fetch_call (codes "/playbook-versions/" ++ (id ++ codes "/publish"))
        (record { method = some (codes "POST"); headers = []; body = none; idempotency_key = none })
  call (create_alert body) =
      write (codes "POST") (codes "/alerts") (wire.stringify (alert_json body))
  call (get_alert id) = read (codes "/alerts/" ++ id)
  call (start_investigation id body) =
      write (codes "POST") (codes "/alerts/" ++ (id ++ codes "/investigations"))
        (wire.stringify (start_json body))
  call (get_investigation id) = read (codes "/investigations/" ++ id)
  call (submit_decision id body idempotency_key) =
      fetch_call (codes "/investigations/" ++ (id ++ codes "/decisions")) (record {
        method = some (codes "POST");
        headers = [];
        body = some (wire.stringify (decision_json body));
        idempotency_key = some idempotency_key;
      })
  call (get_investigation_report id) = read (codes "/investigations/" ++ (id ++ codes "/report"))

  -- A call carries an idempotency key exactly if it submits a decision, and then the one it was
  -- given, unless that is empty; and it declares JSON exactly if it has a body.
  pub call-headers :
      (e : Endpoint)
      → (get (call e).headers (codes "Idempotency-Key") ≡ key_of e)
        × (get (call e).headers (codes "Content-Type") ≡ type_of_body (call e).body)
  unfolding call fetch_call get put codes ◌==◌
  call-headers (list_playbooks alert_type) = (refl, refl)
  call-headers (get_playbook id) = (refl, refl)
  call-headers (create_playbook body) = (refl, refl)
  call-headers (create_playbook_version id body) = (refl, refl)
  call-headers (get_playbook_version id) = (refl, refl)
  call-headers (replace_playbook_version_graph id body) = (refl, refl)
  call-headers (publish_playbook_version id) = (refl, refl)
  call-headers (create_alert body) = (refl, refl)
  call-headers (get_alert id) = (refl, refl)
  call-headers (start_investigation id body) = (refl, refl)
  call-headers (get_investigation id) = (refl, refl)
  call-headers (submit_decision id body []) = (refl, refl)
  call-headers (submit_decision id body (c ∷ s)) = (refl, refl)
  call-headers (get_investigation_report id) = (refl, refl)
