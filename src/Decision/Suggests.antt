-- ===== src/Decision/Suggests.antt =====
-- What frontend/src/components/DecisionForm.tsx fills in for a choice of the worked example of
-- frontend/src/lib/demo.ts can be submitted as it is.
use interbellum.Common.{
  ℕ, List, [], ◌∷◌, false, ◌≡◌, ◌≢◌, refl, sym, ◌∙◌, ap, subst, none, some, All, some-inj,
  Bool-cases, inl, inr,
}
use interbellum.Text.{Text, codes, trim, trim_start, trim_end, is_white, ◌==◌}
use interbellum.Text.Maps.{get}
use interbellum.Types.{Uuid, JsonObject, obj, AvailableChoice, EvidenceItem}
use interbellum.Json.{JsonEngine}
use interbellum.Evidence.{ok, new_evidence_draft, serialize_evidence}
use interbellum.Evidence.Accepts.{Writes, done, take, serialize_evidence-ok_iff}
use interbellum.Api.Endpoints.{WireFormat}
use interbellum.Demo.{Suggestion, demo_decisions, suggested_decision}
use interbellum.Draft.{or_else}
use interbellum.Draft.Load.Contract.{IsLine}
use interbellum.Decision.{
  FormState, choose_edge, trimmed_or_none, Submission, submit_evidence, submit, send,
}

-- The rationale, the type and the summary are set and trimmed, and there is a text for the data.
pub record IsUsable (suggestion : Suggestion) : Type 0 where
  pub rationale : IsLine suggestion.rationale
  pub type : Text
  pub type_eq : suggestion.evidence.type ≡ some type
  pub type_line : IsLine type
  pub summary : Text
  pub summary_eq : suggestion.evidence.summary ≡ some summary
  pub summary_line : IsLine summary
  pub text : Text
  pub text_eq : suggestion.evidence.data_text ≡ some text
  pub text_filled : trim text ≢ []

cons-nil : {c : ℕ} {t : Text} → ¬ ((c ∷ t) ≡ [])
cons-nil e = cc

IsUsable-of_lines :
    (rationale type summary text : Text)
    → IsLine rationale
    → IsLine type
    → IsLine summary
    → trim text ≢ []
    → IsUsable (record {
      rationale = rationale;
      evidence = record { type = some type; summary = some summary; data_text = some text };
    })
IsUsable-of_lines rationale type summary text r t u d = record {
  rationale = r;
  type = type;
  type_eq = refl;
  type_line = t;
  summary = summary;
  summary_eq = refl;
  summary_line = u;
  text = text;
  text_eq = refl;
  text_filled = d;
}

demo_decisions-IsUsable : All (λ (e : Text × Suggestion). IsUsable e.1) demo_decisions
unfolding codes trim trim_start trim_end is_white
demo_decisions-IsUsable = (
  IsUsable-of_lines _ _ _ _ (cons-nil, refl) (cons-nil, refl) (cons-nil, refl) cons-nil,
  (
    IsUsable-of_lines _ _ _ _ (cons-nil, refl) (cons-nil, refl) (cons-nil, refl) cons-nil,
    (IsUsable-of_lines _ _ _ _ (cons-nil, refl) (cons-nil, refl) (cons-nil, refl) cons-nil, tt),
  ),
)

get-All :
    {V : Type 0} (P : V → Type 0) (m : List (Text × V)) (k : Text) (v : V)
    → All (λ (e : Text × V). P e.1) m
    → get m k ≡ some v
    → P v
unfolding get
get-All P [] k v h e = cc
get-All P ((j, w) ∷ m) k v h e = elim (Bool-cases (j == k)) [
  | inl here ↦ subst P (some-inj (rw here at e)) h.0
  | inr there ↦ get-All P m k v h.1 (rw there at e)
]

suggested_decision-IsUsable :
    (node_title label : Text) (suggestion : Suggestion)
    → suggested_decision node_title label ≡ some suggestion
    → IsUsable suggestion
unfolding suggested_decision
suggested_decision-IsUsable node_title label suggestion h =
    get-All IsUsable demo_decisions _ suggestion demo_decisions-IsUsable h

-- The form after a choice with a suggestion, where nothing was typed.
abbrev filled : FormState → Uuid → Suggestion → FormState
filled s edge_id suggestion = record s {
  edge_id = some edge_id;
  error = none;
  rationale = suggestion.rationale;
  evidence = (new_evidence_draft suggestion.evidence s.counter).0 ∷ [];
  counter = (new_evidence_draft suggestion.evidence s.counter).1;
}

choose_edge-filled :
    (node_title : Text) (choice : AvailableChoice) (suggestion : Suggestion) (s : FormState)
    → suggested_decision node_title choice.label ≡ some suggestion
    → trim s.rationale ≡ []
    → s.evidence ≡ []
    → choose_edge node_title choice s ≡ filled s choice.edge_id suggestion
unfolding choose_edge
choose_edge-filled node_title choice suggestion s h blank empty = rw (h, blank, empty) refl

trimmed_or_none-line : (t : Text) → IsLine t → trimmed_or_none t ≡ some t
trimmed_or_none-line [] h = absurd (h.0 refl)
trimmed_or_none-line (c ∷ t) h = rw h.1 refl

module _ (json : JsonEngine) (wire : WireFormat) where
  suggested-Writes :
      (suggestion : Suggestion) (w : IsUsable suggestion) (counter : ℕ) (o : JsonObject)
      → json.parse (trim w.text) ≡ some (obj o)
      → Writes json
          (new_evidence_draft suggestion.evidence counter).0
          (record { type = w.type; summary = w.summary; item_data = some o })
  unfolding new_evidence_draft
  suggested-Writes suggestion w counter o h =
      let type = ap (λ t. or_else t []) w.type_eq in
      let summary = ap (λ t. or_else t []) w.summary_eq in
      let text = ap (λ t. or_else t []) w.text_eq in
      record {
        has_type = λ e. w.type_line.0 (sym w.type_line.1 ∙ ap trim (sym type) ∙ e);
        has_summary = λ e. w.summary_line.0 (sym w.summary_line.1 ∙ ap trim (sym summary) ∙ e);
        type_eq = sym w.type_line.1 ∙ ap trim (sym type);
        summary_eq = sym w.summary_line.1 ∙ ap trim (sym summary);
        data_eq =
            (λ e. w.text_filled (ap trim (sym text) ∙ e), ap (λ t. json.parse (trim t)) text ∙ h);
      }

  submit-ok :
      (s : FormState) (edge_id : Uuid) (items : List EvidenceItem) (fresh : Text)
      → s.submitting ≡ false
      → s.edge_id ≡ some edge_id
      → edge_id ≢ []
      → serialize_evidence json s.evidence ≡ ok items
      → (submit json wire s fresh).1 ≡ (submit_evidence json wire s edge_id fresh (ok items)).1
  unfolding submit
  submit-ok s [] items fresh idle edge picked h = absurd (picked refl)
  submit-ok s (c ∷ id) items fresh idle edge picked h = rw (idle, edge, h) refl

  -- In a form that is not being submitted, whose rationale is blank and which has no rows of
  -- evidence, choosing an edge of the worked example and submitting sends that edge, the rationale
  -- that is suggested and one item with the type and the summary that are, and with the object
  -- that JSON.parse reads in the text that is suggested for its data.
  pub submit-suggested :
      (node_title : Text) (choice : AvailableChoice) (suggestion : Suggestion) (s : FormState)
      (text fresh : Text) (o : JsonObject)
      → suggested_decision node_title choice.label ≡ some suggestion
      → suggestion.evidence.data_text ≡ some text
      → json.parse (trim text) ≡ some (obj o)
      → choice.edge_id ≢ []
      → trim s.rationale ≡ []
      → s.evidence ≡ []
      → s.submitting ≡ false
      → (sent : Submission) × (item : EvidenceItem) × ((submit json wire
            (choose_edge node_title choice s)
            fresh).1
          ≡ some sent)
        × (sent.body.edge_id ≡ choice.edge_id)
        × (sent.body.rationale ≡ some suggestion.rationale)
        × (sent.body.evidence ≡ some (item ∷ []))
        × (suggestion.evidence.type ≡ some item.type)
        × (suggestion.evidence.summary ≡ some item.summary)
        × (item.item_data ≡ some o)
  unfolding send
  submit-suggested node_title choice suggestion s text fresh o h k parses picked blank empty idle =
      let w = suggested_decision-IsUsable node_title choice.label suggestion h in
      let same : w.text ≡ text = some-inj (sym w.text_eq ∙ k) in
      let item : EvidenceItem = record { type = w.type; summary = w.summary; item_data = some o } in
      let writes =
        suggested-Writes suggestion w s.counter o (ap (λ t. json.parse (trim t)) same ∙ parses) in
      let form = filled s choice.edge_id suggestion in
      let accepted =
        (serialize_evidence-ok_iff json form.evidence (item ∷ [])).1 (take writes done) in
      (
        _,
        item,
        ap (λ f. (submit json wire f fresh).1)
              (choose_edge-filled node_title choice suggestion s h blank empty)
            ∙ submit-ok form choice.edge_id (item ∷ []) fresh idle refl picked accepted,
        refl,
        trimmed_or_none-line suggestion.rationale w.rationale,
        refl,
        w.type_eq,
        w.summary_eq,
        refl,
      )
