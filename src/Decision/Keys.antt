-- ===== src/Decision/Keys.antt =====
-- The idempotency keys of frontend/src/components/DecisionForm.tsx stand for one content each.
use interbellum.Common.{
  some-inj, ℕ, List, [], ◌∷◌, true, ◌&&◌, ◌≡◌, ◌≢◌, refl, sym, ◌∙◌, ap, subst, Option, none, some,
  All, if-ind, is_empty,
}
use interbellum.Text.{Text, trim}
use interbellum.Text.Equality.{==_iff, ==_refl}
use interbellum.Types.{Uuid, SubmitDecisionRequest}
use interbellum.Json.{JsonEngine}
use interbellum.Evidence.{EvidenceSerializationResult, ok, rejected, serialize_evidence}
use interbellum.Api.{Failure}
use interbellum.Api.Endpoints.{WireFormat}
use interbellum.Demo.{Suggestion, suggested_decision}
use interbellum.Decision.{
  KeyRefs, is_text, key_or_fresh, idempotency_key_for, FormState, suggested, choose_edge, FormInput,
  chooses, picks_actor, names_actor, argues, adds_evidence, updates_evidence, removes_evidence,
  input, Submission, signature_of, send, submit_evidence, submit_edge, submit, submitted,
  submit_failed, fresh_form,
}

-- A key and the text of the body that was sent under it.
abbrev pub Sent : Type 0
Sent = Text × Text

-- Everything sent under the key had that text.
abbrev pub IsFor : Text → Text → List Sent → Type 0
IsFor key signature = All (λ (sent : Sent). sent.0 ≡ key → sent.1 ≡ signature)

abbrev pub IsUnused : Text → List Sent → Type 0
IsUnused key = All (λ (sent : Sent). sent.0 ≢ key)

-- Of two submissions under one key both had one text.
abbrev pub AllAgree : List Sent → Type 0
AllAgree [] = Unit
AllAgree ((key, signature) ∷ sents) = IsFor key signature sents × AllAgree sents

-- The key that is held stands for the text that is held.
abbrev pub IsHeld : KeyRefs → List Sent → Type 0
IsHeld refs sents =
    (key signature : Text)
    → refs.key ≡ some key
    → refs.key_for ≡ some signature
    → IsFor key signature sents

IsFor-of_IsUnused :
    (key signature : Text) (sents : List Sent) → IsUnused key sents → IsFor key signature sents
IsFor-of_IsUnused key signature [] h = tt
IsFor-of_IsUnused key signature (sent ∷ sents) h =
    (λ e. absurd (h.0 e), IsFor-of_IsUnused key signature sents h.1)

-- The key that is used, and the key that is held from then on.
record IsKeyed (signature : Text) (r : Text × KeyRefs) (sents : List Sent) : Type 0 where
  pub key : r.1.key ≡ some r.0
  pub text : r.1.key_for ≡ some signature
  pub past : IsFor r.0 signature sents

key_or_fresh-IsKeyed :
    (refs : KeyRefs) (signature fresh : Text) (sents : List Sent)
    → IsUnused fresh sents
    → IsHeld refs sents
    → (o : Option Text) → refs.key ≡ o
    → IsKeyed signature (key_or_fresh refs signature fresh o) sents
key_or_fresh-IsKeyed refs signature fresh sents new held none e = record {
  key = refl;
  text = refl;
  past = IsFor-of_IsUnused _ _ sents new;
}
key_or_fresh-IsKeyed refs signature fresh sents new held (some key) e =
    if-ind (λ (r : Text × KeyRefs). IsKeyed signature r sents) (is_text refs.key_for signature) _ _
      (λ t.
        let same = is_text-eq refs.key_for signature t in
        record { key = e; text = same; past = held key signature e same })
      (λ f. record { key = refl; text = refl; past = IsFor-of_IsUnused _ _ sents new })
  where
    is_text-eq : (o : Option Text) (s : Text) → is_text o s ≡ true → o ≡ some s
    is_text-eq none s h = cc
    is_text-eq (some t) s h = ap some ((==_iff t s).0 h)

module _ (json : JsonEngine) (wire : WireFormat) where
  abbrev pub noted : Option Submission → List Sent → List Sent
  noted none sents = sents
  noted (some submission) sents = (submission.key, signature_of json wire submission.body) ∷ sents

  -- The states of the form, and what it has sent, the latest first.
  pub data Run : FormState → List Sent → Type 0 where
    opens : (counter : ℕ) → Run (fresh_form counter) []
    inputs :
        {s : FormState} {sents : List Sent} (i : FormInput) → Run s sents → Run (input i s) sents
    submits :
        {s : FormState} {sents : List Sent} (fresh : Text)
        → Run s sents
        → IsUnused fresh sents
        → Run (submit json wire s fresh).0 (noted (submit json wire s fresh).1 sents)
    succeeds : {s : FormState} {sents : List Sent} → Run s sents → Run (submitted s) sents
    fails :
        {s : FormState} {sents : List Sent} (failure : Failure)
        → Run s sents
        → Run (submit_failed failure s) sents

  pub record IsSound (s : FormState) (sents : List Sent) : Type 0 where
    pub held : IsHeld s.refs sents
    pub agree : AllAgree sents

  suggested-refs : (s : FormState) (o : Option Suggestion) → (suggested s o).refs ≡ s.refs
  suggested-refs s none = refl
  suggested-refs s (some suggestion) =
      if-ind (λ (s' : FormState). s'.refs ≡ s.refs)
        (is_empty (trim s.rationale) && is_empty s.evidence) _ _ (λ t. refl) (λ f. refl)

  input-refs : (i : FormInput) (s : FormState) → (input i s).refs ≡ s.refs
  unfolding input choose_edge
  input-refs (chooses node_title choice) s =
      suggested-refs _ (suggested_decision node_title choice.label)
  input-refs (picks_actor type) s = refl
  input-refs (names_actor id) s = refl
  input-refs (argues rationale) s = refl
  input-refs adds_evidence s = refl
  input-refs (updates_evidence index patch) s = refl
  input-refs (removes_evidence index) s = refl

  abbrev pub IsSoundAfter : List Sent → FormState × Option Submission → Type 0
  IsSoundAfter sents r = IsSound r.0 (noted r.1 sents)

  send-IsSound :
      (s : FormState) (body : SubmitDecisionRequest) (fresh : Text) (sents : List Sent)
      → IsUnused fresh sents
      → IsSound s sents
      → IsSoundAfter sents (send json wire s body fresh)
  unfolding send idempotency_key_for
  send-IsSound s body fresh sents new h =
      let k =
        key_or_fresh-IsKeyed s.refs (signature_of json wire body) fresh sents new h.held s.refs.key
          refl in
      record {
        held = λ key signature e f.
            let same = some-inj (sym k.key ∙ e) in
            let text = some-inj (sym k.text ∙ f) in
            (
              λ z. text,
              subst (λ x. IsFor x signature sents) same
                  (subst
                    (λ x.
                      IsFor (key_or_fresh s.refs (signature_of json wire body) fresh s.refs.key).0 x
                        sents)
                    text k.past),
            );
        agree = (k.past, h.agree);
      }

  submit_evidence-IsSound :
      (s : FormState) (id : Uuid) (fresh : Text) (r : EvidenceSerializationResult)
      (sents : List Sent)
      → IsUnused fresh sents
      → IsSound s sents
      → IsSoundAfter sents (submit_evidence json wire s id fresh r)
  submit_evidence-IsSound s id fresh (rejected errors) sents new h = record {
    held = h.held;
    agree = h.agree;
  }
  submit_evidence-IsSound s id fresh (ok items) sents new h = send-IsSound s _ fresh sents new h

  submit_edge-IsSound :
      (s : FormState) (fresh : Text) (o : Option Uuid) (sents : List Sent)
      → IsUnused fresh sents
      → IsSound s sents
      → IsSoundAfter sents (submit_edge json wire s fresh o)
  submit_edge-IsSound s fresh none sents new h = h
  submit_edge-IsSound s fresh (some []) sents new h = h
  submit_edge-IsSound s fresh (some (c ∷ id)) sents new h =
      submit_evidence-IsSound s (c ∷ id) fresh _ sents new h

  submit-IsSound :
      (s : FormState) (fresh : Text) (sents : List Sent)
      → IsUnused fresh sents
      → IsSound s sents
      → IsSoundAfter sents (submit json wire s fresh)
  unfolding submit
  submit-IsSound s fresh sents new h =
      if-ind (IsSoundAfter sents) s.submitting (s, none) (submit_edge json wire s fresh s.edge_id)
        (λ t. h) (λ f. submit_edge-IsSound s fresh s.edge_id sents new h)

  input-IsSound :
      (i : FormInput) (s : FormState) (sents : List Sent)
      → IsSound s sents
      → IsSound (input i s) sents
  input-IsSound i s sents h = record {
    held = subst (λ refs. IsHeld refs sents) (sym (input-refs i s)) h.held;
    agree = h.agree;
  }

  Run-IsSound : {s : FormState} {sents : List Sent} → Run s sents → IsSound s sents
  unfolding submit submitted submit_failed
  Run-IsSound (opens counter) = record { held = λ key signature e f. tt; agree = tt }
  Run-IsSound (inputs i r) = input-IsSound i _ _ (Run-IsSound r)
  Run-IsSound (submits fresh r new) = submit-IsSound _ fresh _ new (Run-IsSound r)
  Run-IsSound (succeeds r) = record {
    held = λ key signature e f. cc;
    agree = (Run-IsSound r).agree;
  }
  Run-IsSound (fails failure r) = record {
    held = (Run-IsSound r).held;
    agree = (Run-IsSound r).agree;
  }

  -- However the form is used, two submissions under one idempotency key carry the same text, where
  -- `crypto.randomUUID` never returns a key that was used before.
  pub AllAgree-of_Run : (s : FormState) (sents : List Sent) → Run s sents → AllAgree sents
  AllAgree-of_Run s sents r = (Run-IsSound r).agree

key_or_fresh-again :
    (refs : KeyRefs) (signature fresh other : Text) (o : Option Text)
    → refs.key ≡ o
    → key_or_fresh
        (key_or_fresh refs signature fresh o).1
        signature
        other
        (key_or_fresh refs signature fresh o).1.key
      ≡ key_or_fresh refs signature fresh o
key_or_fresh-again refs signature fresh other none e = rw (==_refl signature)
key_or_fresh-again refs signature fresh other (some key) e =
    if-ind (λ (r : Text × KeyRefs). key_or_fresh r.1 signature other r.1.key ≡ r)
      (is_text refs.key_for signature) _ _ (λ t. rw (e, t)) (λ f. rw (==_refl signature))

module _ (json : JsonEngine) (wire : WireFormat) (failure : Failure) (fresh other : Text) where
  abbrev pub IsRetried : FormState × Option Submission → Type 0
  IsRetried r =
      (submission : Submission)
      → r.1 ≡ some submission
      → (submit json wire (submit_failed failure r.0) other).1 ≡ some submission

  send-IsRetried :
      (s : FormState) (evidence : _) (c : ℕ) (id : Uuid)
      → s.edge_id ≡ some (c ∷ id)
      → serialize_evidence json s.evidence ≡ ok evidence
      → IsRetried (submit_evidence json wire s (c ∷ id) fresh (ok evidence))
  unfolding submit submit_failed send idempotency_key_for
  send-IsRetried s evidence c id e f submission h =
      rw (e, f, key_or_fresh-again s.refs _ fresh other s.refs.key refl) h

  submit_evidence-IsRetried :
      (s : FormState) (c : ℕ) (id : Uuid) (r : EvidenceSerializationResult)
      → s.edge_id ≡ some (c ∷ id)
      → serialize_evidence json s.evidence ≡ r
      → IsRetried (submit_evidence json wire s (c ∷ id) fresh r)
  submit_evidence-IsRetried s c id (rejected errors) e f submission h = cc
  submit_evidence-IsRetried s c id (ok evidence) e f submission h =
      send-IsRetried s evidence c id e f submission h

  submit_edge-IsRetried :
      (s : FormState) (o : Option Uuid)
      → s.edge_id ≡ o
      → IsRetried (submit_edge json wire s fresh o)
  submit_edge-IsRetried s none e submission h = cc
  submit_edge-IsRetried s (some []) e submission h = cc
  submit_edge-IsRetried s (some (c ∷ id)) e submission h =
      submit_evidence-IsRetried s c id _ e refl submission h

  -- A decision whose submission failed is sent again as it was, under the same key, whatever new
  -- key is at hand.
  pub submit-retry :
      (s : FormState) (submission : Submission)
      → (submit json wire s fresh).1 ≡ some submission
      → (submit json wire (submit_failed failure (submit json wire s fresh).0) other).1
        ≡ some submission
  unfolding submit
  submit-retry s submission h =
      if-ind IsRetried s.submitting (s, none) (submit_edge json wire s fresh s.edge_id)
        (λ t submission h. cc) (λ f. submit_edge-IsRetried s s.edge_id refl) submission h
