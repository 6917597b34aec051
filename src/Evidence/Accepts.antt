-- ===== src/Evidence/Accepts.antt =====
-- Which rows `serializeEvidence` accepts, and what it makes of them.
use interbellum.Common.{
  ℕ, suc, List, [], ◌∷◌, ◌++◌, false, ◌≡◌, ◌≢◌, refl, sym, ◌∙◌, ap, subst, ◌↔◌, ◌⊎◌, inl, inr,
  arith, Option, none, some, append-nil, append_assoc, append-eq-nil, Bool-cases,
}
use interbellum.Text.{Text, trim}
use interbellum.Types.{JsonValue, JsonObject, EvidenceItem, obj, null, bool, num, str, arr}
use interbellum.Json.{JsonEngine}
use interbellum.Evidence.{
  EvidenceDraft, EvidenceSerializationError, ok, ParsedData, absent, refused, parsed, Pushed,
  value_or_refused, finish_row, is_blank, parse_data, check_row, visit_row, visit_rows, conclude,
  serialize_evidence,
}

-- All three boxes are blank.
abbrev pub IsBlank : EvidenceDraft → Type 0
IsBlank d = (trim d.type ≡ []) × (trim d.summary ≡ []) × (trim d.data_text ≡ [])

module _ (json : JsonEngine) where
  -- The box is blank and there is no object, or it is the text of the object.
  abbrev pub IsData : Text → Option JsonObject → Type 0
  IsData raw none = trim raw ≡ []
  IsData raw (some o) = (trim raw ≢ []) × (json.parse (trim raw) ≡ some (obj o))

  pub record Writes (d : EvidenceDraft) (item : EvidenceItem) : Type 0 where
    pub has_type : trim d.type ≢ []
    pub has_summary : trim d.summary ≢ []
    pub type_eq : item.type ≡ trim d.type
    pub summary_eq : item.summary ≡ trim d.summary
    pub data_eq : IsData d.data_text item.item_data

  -- The items are those of the rows in order, blank rows left out.
  pub data Serialized : List EvidenceDraft → List EvidenceItem → Type 0 where
    done : Serialized [] []
    skip :
        {d : EvidenceDraft} {ds : List EvidenceDraft} {items : List EvidenceItem}
        → IsBlank d
        → Serialized ds items
        → Serialized (d ∷ ds) items
    take :
        {d : EvidenceDraft} {ds : List EvidenceDraft} {item : EvidenceItem}
        {items : List EvidenceItem}
        → Writes d item
        → Serialized ds items
        → Serialized (d ∷ ds) (item ∷ items)

  report : ℕ → List EvidenceDraft → List EvidenceSerializationError
  report index [] = []
  report index (d ∷ ds) = (check_row json index d).errors ++ report (suc index) ds

  collect : ℕ → List EvidenceDraft → List EvidenceItem
  collect index [] = []
  collect index (d ∷ ds) = (check_row json index d).evidence ++ collect (suc index) ds

  visit_rows-errors :
      (index : ℕ) (ds : List EvidenceDraft) (s : Pushed)
      → (visit_rows json index ds s).errors ≡ s.errors ++ report index ds
  unfolding visit_rows report
  visit_rows-errors index [] s = sym (append-nil s.errors)
  visit_rows-errors index (d ∷ ds) s =
      visit_rows-errors (suc index) ds (visit_row json index d s) ∙ append_assoc s.errors _ _

  visit_rows-evidence :
      (index : ℕ) (ds : List EvidenceDraft) (s : Pushed)
      → (visit_rows json index ds s).evidence ≡ s.evidence ++ collect index ds
  unfolding visit_rows collect
  visit_rows-evidence index [] s = sym (append-nil s.evidence)
  visit_rows-evidence index (d ∷ ds) s =
      visit_rows-evidence (suc index) ds (visit_row json index d s) ∙ append_assoc s.evidence _ _

  serialize_evidence-conclude :
      (ds : List EvidenceDraft) → serialize_evidence json ds ≡ conclude (report 0 ds) (collect 0 ds)
  unfolding serialize_evidence
  serialize_evidence-conclude ds = λ i.
      conclude (visit_rows-errors 0 ds (record { errors = []; evidence = [] }) i)
        (visit_rows-evidence 0 ds (record { errors = []; evidence = [] }) i)

  conclude-ok_iff :
      (es : List EvidenceSerializationError) (items items' : List EvidenceItem)
      → (conclude es items ≡ ok items') ↔ ((es ≡ []) × (items ≡ items'))
  conclude-ok_iff [] items items' = (λ h. (refl, cc), λ h. ap ok h.1)
  conclude-ok_iff (e ∷ es) items items' = (λ h. cc, λ h. cc)

  -- What `parse_data` says of a trimmed text.
  abbrev IsParsed : Text → ParsedData → Type 0
  IsParsed s absent = s ≡ []
  IsParsed s (refused message) = Unit {0}
  IsParsed s (parsed o) = (s ≢ []) × (json.parse s ≡ some (obj o))

  value_or_refused-IsParsed :
      (c : ℕ) (s : Text) (v : Option JsonValue)
      → json.parse (c ∷ s) ≡ v
      → IsParsed (c ∷ s) (value_or_refused v)
  unfolding value_or_refused
  value_or_refused-IsParsed c s none h = tt
  value_or_refused-IsParsed c s (some null) h = tt
  value_or_refused-IsParsed c s (some (bool b)) h = tt
  value_or_refused-IsParsed c s (some (num n)) h = tt
  value_or_refused-IsParsed c s (some (str t)) h = tt
  value_or_refused-IsParsed c s (some (arr items)) h = tt
  value_or_refused-IsParsed c s (some (obj o)) h = ((λ e. cc), h)

  parse_data-IsParsed : (s : Text) → IsParsed s (parse_data json s)
  unfolding parse_data
  parse_data-IsParsed [] = refl
  parse_data-IsParsed (c ∷ s) = value_or_refused-IsParsed c s (json.parse (c ∷ s)) refl

  parse_data-parsed :
      (s : Text) (o : JsonObject)
      → s ≢ []
      → json.parse s ≡ some (obj o)
      → parse_data json s ≡ parsed o
  unfolding parse_data value_or_refused
  parse_data-parsed [] o h k = absurd (h refl)
  parse_data-parsed (c ∷ s) o h k = rw k

  -- A row that is not blank and reports nothing writes an item.
  finish_row-Writes :
      (index : ℕ) (d : EvidenceDraft) (p : ParsedData)
      → IsParsed (trim d.data_text) p
      → (finish_row index (trim d.type) (trim d.summary) p).errors ≡ []
      → (item : EvidenceItem) × ((finish_row index (trim d.type) (trim d.summary) p).evidence
          ≡ item ∷ [])
        × Writes d item
  unfolding finish_row
  finish_row-Writes index d absent q h = (
    record { type = trim d.type; summary = trim d.summary; item_data = none },
    ground arith,
    record {
      has_type = ground arith;
      has_summary = ground arith;
      type_eq = refl;
      summary_eq = refl;
      data_eq = q;
    },
  )
  finish_row-Writes index d (refused m) q h = absurd (ground arith)
  finish_row-Writes index d (parsed o) q h = (
    record { type = trim d.type; summary = trim d.summary; item_data = some o },
    ground arith,
    record {
      has_type = ground arith;
      has_summary = ground arith;
      type_eq = refl;
      summary_eq = refl;
      data_eq = q;
    },
  )

  check_row_sound :
      (index : ℕ) (d : EvidenceDraft)
      → (check_row json index d).errors ≡ []
      → (IsBlank d × ((check_row json index d).evidence ≡ []))
        ⊎ ((item : EvidenceItem) × ((check_row json index d).evidence ≡ item ∷ []) × Writes d item)
  unfolding check_row
  check_row_sound index d h = elim (Bool-cases (is_blank d)) [
    | inl blank ↦ inl ((ground arith, ground arith, ground arith), rw blank)
    | inr filled ↦ inr (
        rw filled
          (finish_row-Writes index d _ (parse_data-IsParsed (trim d.data_text)) (rw filled at h)))
  ]

  report_sound :
      (index : ℕ) (ds : List EvidenceDraft)
      → report index ds ≡ []
      → Serialized ds (collect index ds)
  unfolding report collect
  report_sound index [] h = done
  report_sound index (d ∷ ds) h =
      let (now, later) = append-eq-nil _ _ h in
      elim (check_row_sound index d now) [
        | inl (blank, none_written) ↦
            rw none_written (skip blank (report_sound (suc index) ds later))
        | inr (item, one_written, w) ↦ rw one_written (take w (report_sound (suc index) ds later))
      ]

  check_row-blank :
      (index : ℕ) (d : EvidenceDraft)
      → IsBlank d
      → check_row json index d ≡ record { errors = []; evidence = [] }
  unfolding check_row
  check_row-blank index d h = rw (h.0, h.1, h.2)

  abbrev data_box : Option JsonObject → ParsedData
  data_box none = absent
  data_box (some o) = parsed o

  parse_data-data_box :
      (raw : Text) (o : Option JsonObject) → IsData raw o → parse_data json (trim raw) ≡ data_box o
  unfolding parse_data
  parse_data-data_box raw none h = rw h
  parse_data-data_box raw (some o) h = parse_data-parsed (trim raw) o h.0 h.1

  finish_row-data_box :
      (index : ℕ) (type summary : Text) (o : Option JsonObject)
      → type ≢ []
      → summary ≢ []
      → finish_row index type summary (data_box o) ≡ record {
        errors = [];
        evidence = record { type = type; summary = summary; item_data = o } ∷ [];
      }
  unfolding finish_row
  finish_row-data_box index type summary none h k = ground arith
  finish_row-data_box index type summary (some o) h k = ground arith

  item-eq :
      (d : EvidenceDraft) (item : EvidenceItem)
      → Writes d item
      → record { type = trim d.type; summary = trim d.summary; item_data = item.item_data } ≡ item
  item-eq d item w = λ i. record item { type = sym w.type_eq i; summary = sym w.summary_eq i }

  check_row-Writes :
      (index : ℕ) (d : EvidenceDraft) (item : EvidenceItem)
      → Writes d item
      → check_row json index d ≡ record { errors = []; evidence = item ∷ [] }
  unfolding check_row
  check_row-Writes index d item w =
      let filled : is_blank d ≡ false = let h = w.has_type in ground arith in
      rw (filled, parse_data-data_box d.data_text item.item_data w.data_eq)
        (finish_row-data_box index (trim d.type) (trim d.summary) item.item_data w.has_type
            w.has_summary
          ∙ (λ i. record { errors = []; evidence = item-eq d item w i ∷ [] }))

  report_of_Serialized :
      (index : ℕ) {ds : List EvidenceDraft} {items : List EvidenceItem}
      → Serialized ds items
      → (report index ds ≡ []) × (collect index ds ≡ items)
  unfolding report collect
  report_of_Serialized index done = (refl, refl)
  report_of_Serialized index (skip {d = d} blank rest) =
      let (errors, items) = report_of_Serialized (suc index) rest in
      (rw (check_row-blank index d blank) errors, rw (check_row-blank index d blank) items)
  report_of_Serialized index (take {d = d} {item = item} w rest) =
      let (errors, items) = report_of_Serialized (suc index) rest in
      (
        rw (check_row-Writes index d item w) errors,
        rw (check_row-Writes index d item w) (ap (λ l. item ∷ l) items),
      )

  -- The evidence is accepted exactly if every row is blank, or has a type, a summary, and a data
  -- box that is blank or the text of an object; the items are then those rows, trimmed and in
  -- order.
  pub serialize_evidence-ok_iff :
      (ds : List EvidenceDraft) (items : List EvidenceItem)
      → (serialize_evidence json ds ≡ ok items) ↔ Serialized ds items
  serialize_evidence-ok_iff ds items = (
    λ h.
        let (none_reported, same) =
          (conclude-ok_iff _ _ items).0 (sym (serialize_evidence-conclude ds) ∙ h) in
        subst (Serialized ds) same (report_sound 0 ds none_reported),
    λ h. serialize_evidence-conclude ds ∙ (conclude-ok_iff _ _ items).1 (report_of_Serialized 0 h),
  )
