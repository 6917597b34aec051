-- ===== src/Api.antt =====
-- frontend/src/lib/api.ts: what is sent for each call of the API, and what is made of the answer.
pub mod Encode
pub mod Endpoints
pub mod Outcome
use interbellum.Common.{
  ℕ, zero, suc, List, [], ◌∷◌, ◌++◌, Bool, ◌&&◌, Option, none, some, if◌then◌else◌, leb,
}
use interbellum.Text.{Text, codes}
use interbellum.Text.Maps.{put}
use interbellum.Types.{JsonValue, null, bool, num, str, arr, obj, no_fields, field}
use interbellum.Json.{JsonEngine}
use interbellum.ApiError.{ApiError, new_api_error, status_message}

-- `RequestInit & { idempotencyKey? }`; signals are with frontend/src/lib/use-resource.ts.
pub record RequestInit : Type 0 where
  pub method : Option Text
  pub headers : List (Text × Text)
  pub body : Option Text
  pub idempotency_key : Option Text

-- What `fetch` is called with.
pub record FetchCall : Type 0 where
  pub url : Text
  pub method : Option Text
  pub headers : List (Text × Text)
  pub body : Option Text

abbrev pub base : Text
base = codes "/api/v1"

abbrev pub with_content_type : Option Text → List (Text × Text) → List (Text × Text)
with_content_type none headers = headers
with_content_type (some body) headers =
    put headers (codes "Content-Type") (codes "application/json")

-- An empty key is falsy.
abbrev pub with_key : Option Text → List (Text × Text) → List (Text × Text)
with_key none headers = headers
with_key (some []) headers = headers
with_key (some (c ∷ s)) headers = put headers (codes "Idempotency-Key") (c ∷ s)

unfoldable pub fetch_call : Text → RequestInit → FetchCall
fetch_call path init = record {
  url = base ++ path;
  method = init.method;
  headers = with_key init.idempotency_key (with_content_type init.body init.headers);
  body = init.body;
}

-- What awaiting `fetch`, and then `response.text()`, ends in.
pub data FetchResult : Type 0 where
  responded : ℕ → Text → FetchResult
  unreadable : ℕ → FetchResult
  aborted : FetchResult
  thrown : Text → FetchResult
  thrown_value : FetchResult

-- What the promise is rejected with: an abort and a failed read are passed on as they are.
pub data Failure : Type 0 where
  withdrawn : Failure
  read_failed : Failure
  api_error : ApiError → Failure

pub data ApiOutcome : Type 0 where
  resolved : JsonValue → ℕ → ApiOutcome
  failed : Failure → ApiOutcome

-- `Response.ok`.
abbrev pub is_ok : ℕ → Bool
is_ok status = leb 200 status && leb status 299

abbrev pub error_body : Text → Text → JsonValue
error_body code message =
    obj (field (codes "code") (str code) (field (codes "message") (str message) no_fields))

abbrev pub take_text : ℕ → Text → Text
take_text zero s = []
take_text (suc n) [] = []
take_text (suc n) (c ∷ s) = c ∷ take_text n s

-- `body ?? { code: "INTERNAL_ERROR", … }`.
unfoldable pub or_internal : ℕ → JsonValue → JsonValue
or_internal status null = error_body (codes "INTERNAL_ERROR") (status_message status)
or_internal status (bool b) = bool b
or_internal status (num n) = num n
or_internal status (str s) = str s
or_internal status (arr items) = arr items
or_internal status (obj fields) = obj fields

unfoldable pub conclude : ℕ → JsonValue → ApiOutcome
conclude status body =
    if is_ok status
    then resolved body status
    else failed (api_error (new_api_error status (or_internal status body)))

-- The text is not empty; none is a text that `JSON.parse` throws at.
unfoldable pub read_parsed : ℕ → Text → Option JsonValue → ApiOutcome
read_parsed status text none =
    if is_ok status
    then resolved null status
    else failed (
        api_error
          (new_api_error status (error_body (codes "BAD_GATEWAY_RESPONSE") (take_text 300 text))))
read_parsed status text (some body) = conclude status body

abbrev network_error : Text → ApiOutcome
network_error message =
    failed (api_error (new_api_error 0 (error_body (codes "NETWORK_ERROR") message)))

module _ (json : JsonEngine) where
  unfoldable pub read_text : ℕ → Text → ApiOutcome
  read_text status [] = conclude status null
  read_text status (c ∷ s) = read_parsed status (c ∷ s) (json.parse (c ∷ s))

  -- `request` behind the call of `fetch`.
  unfoldable pub receive : FetchResult → ApiOutcome
  receive (responded status text) = read_text status text
  receive (unreadable status) = failed read_failed
  receive aborted = failed withdrawn
  receive (thrown message) = network_error message
  receive thrown_value = network_error (codes "the request could not be sent")
