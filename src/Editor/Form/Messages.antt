-- ===== src/Editor/Form/Messages.antt =====
-- The messages that FieldError.tsx finds for a control.
use interbellum.Common.{
  ℕ, List, [], ◌∷◌, Bool, true, ◌&&◌, ◌≡◌, ◌↔◌, refl, sym, ◌∙◌, ap, inl, inr, arith, some, Any,
  Any-imp, some-inj, find?, get_elem?, Bool-cases,
}
use interbellum.Text.{Text}
use interbellum.Integers.{ℤ, pos, negsuc}
use interbellum.Draft.{or_else}
use interbellum.Draft.Errors.{
  DraftError, DraftScope, node, edge, root, DraftErrorField, id, title, terminal_resolution,
  metadata, label, from_node_id, to_node_id, root_node_id,
}
use interbellum.Draft.Faults.{IsAbout}
use interbellum.Editor.Form.{
  scope_number, field_number, same_scope, same_field, same_index, message_of, error_for,
}

-- The message is that of an error about that place and field.
abbrev pub IsMessage : List DraftError → DraftScope → ℤ → DraftErrorField → Text → Type 0
IsMessage es s index f message =
    Any (λ (err : DraftError). IsAbout s index f err × (err.message ≡ message)) es

abbrev all_scopes : List DraftScope
all_scopes = node ∷ edge ∷ root ∷ []

abbrev scope_of : ℕ → DraftScope
scope_of k = or_else (get_elem? all_scopes k) root

scope_of-number : (s : DraftScope) → scope_of (scope_number s) ≡ s
scope_of-number node = refl
scope_of-number edge = refl
scope_of-number root = refl

abbrev all_fields : List DraftErrorField
all_fields =
    id ∷ title ∷ terminal_resolution ∷ metadata ∷ label ∷ from_node_id ∷ to_node_id ∷ root_node_id
    ∷ []

abbrev field_of : ℕ → DraftErrorField
field_of k = or_else (get_elem? all_fields k) id

field_of-number : (f : DraftErrorField) → field_of (field_number f) ≡ f
field_of-number id = refl
field_of-number title = refl
field_of-number terminal_resolution = refl
field_of-number metadata = refl
field_of-number label = refl
field_of-number from_node_id = refl
field_of-number to_node_id = refl
field_of-number root_node_id = refl

same_scope_iff : (s t : DraftScope) → (same_scope s t ≡ true) ↔ (s ≡ t)
same_scope_iff s t = (
  λ h.
      let e : scope_number s ≡ scope_number t = ground arith in
      sym (scope_of-number s) ∙ ap scope_of e ∙ scope_of-number t,
  λ e. let k = ap scope_number e in ground arith,
)

same_field_iff : (f g : DraftErrorField) → (same_field f g ≡ true) ↔ (f ≡ g)
same_field_iff f g = (
  λ h.
      let e : field_number f ≡ field_number g = ground arith in
      sym (field_of-number f) ∙ ap field_of e ∙ field_of-number g,
  λ e. let k = ap field_number e in ground arith,
)

same_index_iff : (index : ℤ) (i : ℕ) → (same_index index i ≡ true) ↔ (index ≡ pos i)
same_index_iff (pos k) i =
    (λ h. let e : k ≡ i = ground arith in ap pos e, λ e. let k' : k ≡ i = cc in ground arith)
same_index_iff (negsuc k) i = (λ h. cc, λ e. cc)

-- What `errorFor` looks for.
abbrev is_about : DraftScope → ℕ → DraftErrorField → DraftError → Bool
is_about s i f err = same_scope err.scope s && (same_index err.index i && same_field err.field f)

is_about_iff :
    (s : DraftScope) (i : ℕ) (f : DraftErrorField) (err : DraftError)
    → (is_about s i f err ≡ true) ↔ IsAbout s (pos i) f err
is_about_iff s i f err =
    let a = same_scope_iff err.scope s in
    let b = same_index_iff err.index i in
    let c = same_field_iff err.field f in
    (
      λ h. (a.0 (ground arith), b.0 (ground arith), c.0 (ground arith)),
      λ (x, y, z). let a' = a.1 x in let b' = b.1 y in let c' = c.1 z in ground arith,
    )

find?-Any {ℓ} :
    {A : Type ℓ} (p : A → Bool) (xs : List A)
    → Any (λ x. p x ≡ true) xs
    → (x : A) × (find? p xs ≡ some x)
find?-Any p [] h = elim h [ ]
find?-Any p (x ∷ xs) h = elim (Bool-cases (p x)) [
  | inl t ↦ (x, rw t)
  | inr f ↦ elim h [
    | inl t ↦ absurd (cc)
    | inr later ↦ let (y, found) = find?-Any p xs later in (y, rw (f, found))
  ]
]

Any-found :
    (p : DraftError → Bool) (xs : List DraftError) (x : DraftError)
    → find? p xs ≡ some x
    → Any (λ y. (p y ≡ true) × (y.message ≡ x.message)) xs
Any-found p [] x h = cc
Any-found p (y ∷ xs) x h = elim (Bool-cases (p y)) [
  | inl t ↦ inl (t, ap (λ (err : DraftError). err.message) (some-inj (rw t at h)))
  | inr f ↦ inr (Any-found p xs x (rw f at h))
]

-- An error about a place and a field puts the message of such an error there.
pub error_for-Any :
    (es : List DraftError) (s : DraftScope) (i : ℕ) (f : DraftErrorField)
    → Any (IsAbout s (pos i) f) es
    → (message : Text) × (error_for es s i f ≡ some message) × IsMessage es s (pos i) f message
unfolding error_for
error_for-Any es s i f h =
    let (err, found) =
      find?-Any (is_about s i f) es (Any-imp _ _ (λ e k. (is_about_iff s i f e).1 k) es h) in
    (
      err.message,
      ap message_of found,
      Any-imp _ _ (λ e (k, same). ((is_about_iff s i f e).0 k, same)) es
          (Any-found (is_about s i f) es err found),
    )
