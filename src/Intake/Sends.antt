-- ===== src/Intake/Sends.antt =====
-- When the form of StartInvestigationScreen.tsx sends an alert, and which.
use interbellum.Common.{
  [], ◌∷◌, ◌≡◌, ◌≢◌, ◌↔◌, refl, sym, ◌∙◌, ap, subst, inl, inr, ◌⊎◌, Option, none, some, some-inj,
}
use interbellum.Text.{Text, codes, trim, trim_start, trim_end, is_white}
use interbellum.Types.{
  JsonValue, JsonObject, no_fields, null, bool, num, str, arr, obj, CreateAlertRequest,
}
use interbellum.Json.{JsonEngine, as_object}
use interbellum.Draft.{or_else}
use interbellum.Demo.{demo_alert}
use interbellum.Format.{first_units}
use interbellum.Intake.{
  AlertForm, IntakeState, to_rfc3339, ParsedPayload, refused, parsed, object_payload, value_payload,
  null_if_empty, alert_request, send_payload, load_demo, read_payload, ingest,
}

-- The text is empty, or a JSON object.
abbrev pub IsPayload : JsonEngine → Text → JsonObject → Type 0
IsPayload json text content =
    ((text ≡ []) × (content ≡ no_fields)) ⊎ ((text ≢ []) × (json.parse text ≡ some (obj content)))

-- The request has the fields of the form without their outer white space.
pub record IsRequest (now : Text) (form : AlertForm) (content : JsonObject) (r : CreateAlertRequest)
    : Type 0 where
  pub external_id :
      ((trim form.external_id ≡ []) × (r.external_id ≡ none))
      ⊎ ((trim form.external_id ≢ []) × (r.external_id ≡ some (trim form.external_id)))
  pub alert_type : r.alert_type ≡ trim form.alert_type
  pub title : r.title ≡ trim form.title
  pub description : r.description ≡ some (trim form.description)
  pub occurred_at : r.occurred_at ≡ to_rfc3339 now form.occurred_at
  pub payload : r.payload ≡ some content

as_object_iff :
    (value : JsonValue) (content : JsonObject)
    → as_object value ≡ some content
    → value ≡ obj content
as_object_iff null content h = cc
as_object_iff (bool b) content h = cc
as_object_iff (num n) content h = cc
as_object_iff (str s) content h = cc
as_object_iff (arr items) content h = cc
as_object_iff (obj o) content h = ap obj (some-inj h)

object_payload-parsed :
    (o : Option JsonObject) (content : JsonObject)
    → object_payload o ≡ parsed content
    → o ≡ some content
object_payload-parsed none content h = cc
object_payload-parsed (some o) content h = cc

value_payload-parsed :
    (o : Option JsonValue) (content : JsonObject)
    → value_payload o ≡ parsed content
    → o ≡ some (obj content)
value_payload-parsed none content h = cc
value_payload-parsed (some value) content h =
    ap some (as_object_iff value content (object_payload-parsed (as_object value) content h))

read_payload_iff :
    (json : JsonEngine) (text : Text) (content : JsonObject)
    → (read_payload json text ≡ parsed content) ↔ IsPayload json text content
unfolding read_payload
read_payload_iff json [] content =
    (λ h. inl (refl, cc), λ p. elim p [ inl (e, same) ↦ cc | inr (set, e) ↦ absurd (set refl) ])
read_payload_iff json (c ∷ s) content = (
  λ h. inr (λ e. cc, value_payload-parsed (json.parse (c ∷ s)) content h),
  λ p. elim p [ inl (e, same) ↦ absurd (cc) | inr (set, e) ↦ ap value_payload e ],
)

null_if_empty-cases :
    (s : Text) → ((s ≡ []) × (null_if_empty s ≡ none)) ⊎ ((s ≢ []) × (null_if_empty s ≡ some s))
null_if_empty-cases [] = inl (refl, refl)
null_if_empty-cases (c ∷ s) = inr ((λ e. cc), refl)

alert_request-IsRequest :
    (now : Text) (form : AlertForm) (content : JsonObject)
    → IsRequest now form content (alert_request now form content)
unfolding alert_request
alert_request-IsRequest now form content = record {
  external_id = null_if_empty-cases (trim form.external_id);
  alert_type = refl;
  title = refl;
  description = refl;
  occurred_at = refl;
  payload = refl;
}

sends-of_payload :
    (now : Text) (s : IntakeState) (p : ParsedPayload) (r : CreateAlertRequest)
    → (send_payload now p s).1 ≡ some r
    → (content : JsonObject) × (p ≡ parsed content) × IsRequest now s.form content r
sends-of_payload now s (refused m) r h = cc
sends-of_payload now s (parsed content) r h = (
  content,
  refl,
  subst (IsRequest now s.form content) (some-inj h) (alert_request-IsRequest now s.form content),
)

same_external_id :
    (s : Text) (o : Option Text)
    → ((s ≡ []) × (o ≡ none)) ⊎ ((s ≢ []) × (o ≡ some s))
    → null_if_empty s ≡ o
same_external_id [] o h = elim h [ inl (e, k) ↦ sym k | inr (set, k) ↦ absurd (set refl) ]
same_external_id (c ∷ s) o h = elim h [ inl (e, k) ↦ absurd (cc) | inr (set, k) ↦ sym k ]

IsRequest-unique :
    (now : Text) (form : AlertForm) (content : JsonObject) (r : CreateAlertRequest)
    → IsRequest now form content r
    → alert_request now form content ≡ r
unfolding alert_request
IsRequest-unique now form content r h = λ i. record {
  external_id = same_external_id (trim form.external_id) r.external_id h.external_id i;
  alert_type = sym h.alert_type i;
  title = sym h.title i;
  description = sym h.description i;
  occurred_at = sym h.occurred_at i;
  payload = sym h.payload i;
}

-- The form sends an alert exactly if its payload is blank or a JSON object, and what it sends is
-- then that payload, or an empty one, with the fields of the form without their outer white space,
-- where a blank external id is none.
pub ingest-sends_iff :
    (json : JsonEngine) (now : Text) (s : IntakeState) (r : CreateAlertRequest)
    → ((ingest json now s).1 ≡ some r) ↔ (
        (content : JsonObject) × IsPayload json (trim s.form.payload) content
        × IsRequest now s.form content r)
unfolding ingest
ingest-sends_iff json now s r = (
  λ h.
      let (content, e, request) =
        sends-of_payload now _ (read_payload json (trim s.form.payload)) r h in
      (content, (read_payload_iff json (trim s.form.payload) content).0 e, request),
  λ (content, payload, request).
      ap (λ p. (send_payload now p (record s { payload_error = none; ingest_error = none })).1)
        ((read_payload_iff json (trim s.form.payload) content).1 payload)
      ∙ ap some (IsRequest-unique now s.form content r request),
)

demo-IsRequest :
    (json : JsonEngine) (now : Text) (s : IntakeState)
    → IsRequest now (load_demo json s).form (or_else demo_alert.payload no_fields) demo_alert
unfolding load_demo to_rfc3339 first_units trim trim_start trim_end is_white codes
demo-IsRequest json now s = record {
  external_id = inr ((λ e. cc), refl);
  alert_type = refl;
  title = refl;
  description = refl;
  occurred_at = refl;
  payload = refl;
}

-- The demo alert, loaded into the form and ingested, is sent as it is, where JSON.parse reads back
-- what JSON.stringify wrote for its payload, which is not blank.
pub ingest-load_demo :
    (json : JsonEngine) (now : Text) (s : IntakeState)
    → trim (json.stringify (obj (or_else demo_alert.payload no_fields))) ≢ []
    → json.parse (trim (json.stringify (obj (or_else demo_alert.payload no_fields))))
      ≡ some (obj (or_else demo_alert.payload no_fields))
    → (ingest json now (load_demo json s)).1 ≡ some demo_alert
unfolding load_demo
ingest-load_demo json now s set reads =
    (ingest-sends_iff json now (load_demo json s) demo_alert).1
      (or_else demo_alert.payload no_fields, inr (set, reads), demo-IsRequest json now s)
