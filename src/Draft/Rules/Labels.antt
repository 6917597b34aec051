-- ===== src/Draft/Rules/Labels.antt =====
-- The labels that the loop over the edges collects, and when a choice repeats one.
use interbellum.Common.{List, [], ◌∷◌, Bool, true, false, ◌&&◌, ◌||◌, ◌≡◌, refl, arith, All}
use interbellum.Text.{Text, trim, ◌==◌}
use interbellum.Text.Equality.{==_iff}
use interbellum.Text.Sets.{has, add, has-add}
use interbellum.Text.Maps.{get, get-put}
use interbellum.Types.{Uuid}
use interbellum.Draft.{EdgeDraft}
use interbellum.Draft.Serialize.Edges.{or_empty, is_labelled, note_label}
use interbellum.Draft.Rules.{IsApart, AllApart}

-- The labels that are collected for choices leaving a node.
abbrev pub labels_of : List (Uuid × List Text) → Uuid → List Text
labels_of labels id = or_empty (get labels id)

-- `f` repeats the label of `e`.
abbrev pub clashes : EdgeDraft → EdgeDraft → Bool
clashes e f = is_labelled e && (e.from_node_id == f.from_node_id && trim e.label == trim f.label)

abbrev pub is_taken : List (Uuid × List Text) → EdgeDraft → Bool
is_taken labels f = has (labels_of labels f.from_node_id) (trim f.label)

get-eq :
    (labels : List (Uuid × List Text)) (x y : Uuid) → x == y ≡ true → get labels x ≡ get labels y
get-eq labels x y e = rw ((==_iff x y).0 e)

pub note_label-is_taken :
    (labels : List (Uuid × List Text)) (e f : EdgeDraft)
    → is_taken (note_label labels e) f ≡ (is_taken labels f || clashes e f)
unfolding note_label
note_label-is_taken labels e f = ground (
  arith,
  get-put labels e.from_node_id f.from_node_id
      (add (labels_of labels e.from_node_id) (trim e.label)),
  has-add (labels_of labels e.from_node_id) (trim e.label) (trim f.label),
  get-eq labels e.from_node_id f.from_node_id,
)

abbrev pub FreshLabels : List (Uuid × List Text) → List EdgeDraft → Type 0
FreshLabels labels [] = Unit {0}
FreshLabels labels (e ∷ es) = (is_taken labels e ≡ false) × FreshLabels (note_label labels e) es

abbrev pub IsLabelled : EdgeDraft → Type 0
IsLabelled e = is_labelled e ≡ true

abbrev IsUntaken : List (Uuid × List Text) → EdgeDraft → Type 0
IsUntaken labels f = is_taken labels f ≡ false

IsApart-of_clashes : (e f : EdgeDraft) → IsLabelled e → clashes e f ≡ false → IsApart e f
IsApart-of_clashes e f h k same =
    ground (arith, ==_iff e.from_node_id f.from_node_id, ==_iff (trim e.label) (trim f.label))

clashes_of_apart : (e f : EdgeDraft) → IsApart e f → clashes e f ≡ false
clashes_of_apart e f h =
    ground (arith, ==_iff e.from_node_id f.from_node_id, ==_iff (trim e.label) (trim f.label))

IsUntaken-of_noted :
    (labels : List (Uuid × List Text)) (e : EdgeDraft) (es : List EdgeDraft)
    → IsLabelled e
    → All (IsUntaken (note_label labels e)) es
    → All (IsUntaken labels) es × All (IsApart e) es
IsUntaken-of_noted labels e [] h k = (tt, tt)
IsUntaken-of_noted labels e (f ∷ es) h k =
    let (fresh, apart) = IsUntaken-of_noted labels e es h k.1 in
    let (old, new) = split f k.0 in ((old, fresh), (IsApart-of_clashes e f h new, apart))
  where
    split :
        (f : EdgeDraft)
        → IsUntaken (note_label labels e) f
        → IsUntaken labels f × (clashes e f ≡ false)
    split f u = ground (arith, note_label-is_taken labels e f)

noted_of_IsUntaken :
    (labels : List (Uuid × List Text)) (e : EdgeDraft) (es : List EdgeDraft)
    → All (IsUntaken labels) es
    → All (IsApart e) es
    → All (IsUntaken (note_label labels e)) es
noted_of_IsUntaken labels e [] h k = tt
noted_of_IsUntaken labels e (f ∷ es) h k = (
  ground (arith, note_label-is_taken labels e f, clashes_of_apart e f k.0),
  noted_of_IsUntaken labels e es h.1 k.1,
)

pub FreshLabels→ :
    (labels : List (Uuid × List Text)) (es : List EdgeDraft)
    → All IsLabelled es
    → FreshLabels labels es
    → All (IsUntaken labels) es × AllApart es
FreshLabels→ labels [] h k = (tt, tt)
FreshLabels→ labels (e ∷ es) h k =
    let (fresh, apart) = FreshLabels→ (note_label labels e) es h.1 k.1 in
    let (old, now) = IsUntaken-of_noted labels e es h.0 fresh in ((k.0, old), (now, apart))

pub →FreshLabels :
    (labels : List (Uuid × List Text)) (es : List EdgeDraft)
    → All (IsUntaken labels) es
    → AllApart es
    → FreshLabels labels es
→FreshLabels labels [] h k = tt
→FreshLabels labels (e ∷ es) h k =
    (h.0, →FreshLabels (note_label labels e) es (noted_of_IsUntaken labels e es h.1 k.0) k.1)

pub IsUntaken-by_none : (es : List EdgeDraft) → All (IsUntaken []) es
unfolding get has
IsUntaken-by_none [] = tt
IsUntaken-by_none (e ∷ es) = (refl, IsUntaken-by_none es)
