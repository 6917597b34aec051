-- ===== src/Evidence.antt =====
-- frontend/src/lib/evidence.ts: evidence as the form holds it, and as the API takes it.
-- The field `data` is `data_text` in a draft and `item_data` in an item.
pub mod Accepts
pub mod Keys
use interbellum.Common.{
  ℕ, suc, ◌+◌, List, [], ◌∷◌, ◌++◌, Bool, true, false, ◌&&◌, ◌||◌, Option, none, some, is_empty,
  if◌then◌else◌,
}
use interbellum.Text.{Text, codes, trim}
use interbellum.Integers.{decimal}
use interbellum.Types.{JsonValue, JsonObject, EvidenceItem, obj}
use interbellum.Json.{JsonEngine, as_object}
use interbellum.Draft.{or_else}
use interbellum.Draft.Errors.{push_if}

pub record EvidenceDraft : Type 0 where
  pub key : Text
  pub type : Text
  pub summary : Text
  pub data_text : Text

-- `Partial<Omit<EvidenceDraft, "key">>`.
pub record EvidenceSeed : Type 0 where
  pub type : Option Text
  pub summary : Option Text
  pub data_text : Option Text

-- `counter` is the module's variable before the call; the second result is its value after it.
unfoldable pub new_evidence_draft : EvidenceSeed → ℕ → EvidenceDraft × ℕ
new_evidence_draft seed counter = (
  record {
    key = codes "ev-" ++ decimal (suc counter);
    type = or_else seed.type [];
    summary = or_else seed.summary [];
    data_text = or_else seed.data_text [];
  },
  suc counter,
)

pub data EvidenceField : Type 0 where
  type_field summary_field data_field : EvidenceField

pub record EvidenceSerializationError : Type 0 where
  pub index : ℕ
  pub field : EvidenceField
  pub message : Text

pub data EvidenceSerializationResult : Type 0 where
  ok : List EvidenceItem → EvidenceSerializationResult
  rejected : List EvidenceSerializationError → EvidenceSerializationResult

abbrev error_at : ℕ → EvidenceField → Text → EvidenceSerializationError
error_at index f message = record { index = index; field = f; message = message }

-- What the `data` box holds: nothing, what is reported, or an object.
pub data ParsedData : Type 0 where
  absent : ParsedData
  refused : Text → ParsedData
  parsed : JsonObject → ParsedData

unfoldable pub object_or_refused : Option JsonObject → ParsedData
object_or_refused none =
    refused (codes "Data must be a JSON object, for example {\"asset\": \"ENG-WS-14\"}.")
object_or_refused (some o) = parsed o

unfoldable pub value_or_refused : Option JsonValue → ParsedData
unfolding object_or_refused
value_or_refused none = refused (codes "Data is not valid JSON.")
value_or_refused (some value) = object_or_refused (as_object value)

-- What a round of the loop pushes on `errors` and on `evidence`.
pub record Pushed : Type 0 where
  pub errors : List EvidenceSerializationError
  pub evidence : List EvidenceItem

-- The row's end: an item, if it has a type and a summary.
unfoldable pub push_item : Text → Text → Option JsonObject → List EvidenceItem
push_item type summary fields =
    if is_empty type || is_empty summary
    then []
    else record { type = type; summary = summary; item_data = fields } ∷ []

unfoldable pub required_errors : ℕ → Text → Text → List EvidenceSerializationError
required_errors index type summary =
    push_if (is_empty type) (error_at index type_field (codes "Type is required."))
    ++ push_if (is_empty summary) (error_at index summary_field (codes "Summary is required."))

unfoldable pub finish_row : ℕ → Text → Text → ParsedData → Pushed
unfolding push_item required_errors
finish_row index type summary absent = record {
  errors = required_errors index type summary;
  evidence = push_item type summary none;
}
finish_row index type summary (refused message) = record {
  errors = required_errors index type summary ++ error_at index data_field message ∷ [];
  evidence = [];
}
finish_row index type summary (parsed o) = record {
  errors = required_errors index type summary;
  evidence = push_item type summary (some o);
}

abbrev pub is_blank : EvidenceDraft → Bool
is_blank draft =
    is_empty (trim draft.type) && (is_empty (trim draft.summary) && is_empty (trim draft.data_text))

-- `errors.length > 0` decides.
abbrev pub conclude :
    List EvidenceSerializationError → List EvidenceItem → EvidenceSerializationResult
conclude [] items = ok items
conclude (e ∷ es) items = rejected (e ∷ es)

module _ (json : JsonEngine) where
  -- The text is already trimmed.
  unfoldable pub parse_data : Text → ParsedData
  unfolding value_or_refused
  parse_data [] = absent
  parse_data (c ∷ s) = value_or_refused (json.parse (c ∷ s))

  unfoldable pub check_row : ℕ → EvidenceDraft → Pushed
  check_row index draft =
      if is_blank draft
      then record { errors = []; evidence = [] }
      else finish_row index (trim draft.type) (trim draft.summary)
          (parse_data (trim draft.data_text))

  unfoldable pub visit_row : ℕ → EvidenceDraft → Pushed → Pushed
  visit_row index draft s = record {
    errors = s.errors ++ (check_row index draft).errors;
    evidence = s.evidence ++ (check_row index draft).evidence;
  }

  -- `drafts.forEach((draft, index) => …)`.
  unfoldable pub visit_rows : ℕ → List EvidenceDraft → Pushed → Pushed
  unfolding visit_row
  visit_rows index [] s = s
  visit_rows index (draft ∷ drafts) s = visit_rows (suc index) drafts (visit_row index draft s)

  unfoldable pub serialize_evidence : List EvidenceDraft → EvidenceSerializationResult
  serialize_evidence drafts =
      let loop = visit_rows 0 drafts (record { errors = []; evidence = [] }) in
      conclude loop.errors loop.evidence

  -- `data === undefined ? "" : JSON.stringify(data, null, 2)`.
  unfoldable pub format_evidence_data : Option JsonObject → Text
  format_evidence_data none = []
  format_evidence_data (some o) = json.stringify (obj o)
