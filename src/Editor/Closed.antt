-- ===== src/Editor/Closed.antt =====
-- No edit of PlaybookEditorScreen.tsx leaves a reference to a node that the draft does not have.
use interbellum.Common.{
  All-imp, All-remove_at, All-modify_at, All-keep, some-inj, ℕ, zero, suc, List, [], ◌∷◌, ◌++◌,
  Bool, true, false, ◌||◌, ◌≡◌, refl, sym, ◌∙◌, ap, subst, arith, Option, none, some, is_empty, All,
  All-append, map-append, get_elem?, remove_at, modify_at, if◌then◌else◌,
}
use interbellum.Text.{◌==◌}
use interbellum.Text.Equality.{==_refl, ==_comm}
use interbellum.Text.Sets.{has, has-append, has-single}
use interbellum.Types.{Uuid}
use interbellum.Draft.{
  or_else, NodeDraft, EdgeDraft, PlaybookDraft, new_node_draft, new_edge_draft, empty_draft,
}
use interbellum.Draft.Rules.{node_ids}
use interbellum.Editor.{
  NodePatch, EdgePatch, Edit, added_node, updated_node, removed_node, added_edge, updated_edge,
  removed_edge, picked_root, set_root, apply, add_node, patch_node, update_node, avoids,
  without_node, remove_found, remove_node, add_edge, patch_edge, renumber, update_edge, remove_edge,
}

-- Nothing is picked, or it is one of the nodes.
abbrev pub is_placed : List Uuid → Uuid → Bool
is_placed ids id = is_empty id || has ids id

pub record IsAnchored (ids : List Uuid) (e : EdgeDraft) : Type 0 where
  pub from : is_placed ids e.from_node_id ≡ true
  pub to : is_placed ids e.to_node_id ≡ true

-- The root and both ends of every edge are unset or nodes of the draft.
pub record IsClosed (d : PlaybookDraft) : Type 0 where
  pub root : is_placed (node_ids d.nodes) d.root_node_id ≡ true
  pub edges : All (IsAnchored (node_ids d.nodes)) d.edges

-- What the form offers: a node keeps its id, and an end is picked from the nodes.
abbrev pub IsOffered : PlaybookDraft → Edit → Type 0
IsOffered d (added_node new_id kind) = Unit
IsOffered d (updated_node index patch) = patch.id ≡ none
IsOffered d (removed_node index) = Unit
IsOffered d (added_edge new_id from_node_id) = is_placed (node_ids d.nodes) from_node_id ≡ true
IsOffered d (updated_edge index patch) =
    ((id : Uuid) → patch.from_node_id ≡ some id → is_placed (node_ids d.nodes) id ≡ true)
    × ((id : Uuid) → patch.to_node_id ≡ some id → is_placed (node_ids d.nodes) id ≡ true)
IsOffered d (removed_edge index) = Unit
IsOffered d (picked_root id) = is_placed (node_ids d.nodes) id ≡ true

placed_mono :
    (ids ids' : List Uuid)
    → ((x : Uuid) → has ids x ≡ true → has ids' x ≡ true)
    → (x : Uuid) → is_placed ids x ≡ true
    → is_placed ids' x ≡ true
placed_mono ids ids' more x h = let k = more x in ground arith

has-remove_at :
    (ns : List NodeDraft) (i : ℕ) (n : NodeDraft) (x : Uuid)
    → get_elem? ns i ≡ some n
    → (n.id == x) ≡ false
    → has (node_ids ns) x ≡ true
    → has (node_ids (remove_at ns i)) x ≡ true
unfolding has
has-remove_at [] i n x e apart h = cc
has-remove_at (m ∷ ns) zero n x e apart h =
    let same : m ≡ n = cc in let k : (m.id == x) ≡ false = rw (same, apart) in ground arith
has-remove_at (m ∷ ns) (suc i) n x e apart h =
    let k = has-remove_at ns i n x e apart in ground arith

node_ids-modify_at :
    (ns : List NodeDraft) (i : ℕ) (f : NodeDraft → NodeDraft)
    → ((n : NodeDraft) → (f n).id ≡ n.id)
    → node_ids (modify_at ns i f) ≡ node_ids ns
node_ids-modify_at [] i f h = refl
node_ids-modify_at (n ∷ ns) zero f h = rw (h n)
node_ids-modify_at (n ∷ ns) (suc i) f h = rw (node_ids-modify_at ns i f h)

has-add_node :
    (ns : List NodeDraft) (n : NodeDraft) (x : Uuid)
    → has (node_ids (ns ++ n ∷ [])) x ≡ (has (node_ids ns) x || n.id == x)
has-add_node ns n x =
    ap (λ ids. has ids x) (map-append (λ n. n.id) ns (n ∷ []))
    ∙ has-append (node_ids ns) (n.id ∷ []) x
    ∙ ap (λ b. has (node_ids ns) x || b) (has-single n.id x)

anchor_mono :
    (ids ids' : List Uuid)
    → ((x : Uuid) → has ids x ≡ true → has ids' x ≡ true)
    → (e : EdgeDraft) → IsAnchored ids e
    → IsAnchored ids' e
anchor_mono ids ids' more e h = record {
  from = placed_mono ids ids' more e.from_node_id h.from;
  to = placed_mono ids ids' more e.to_node_id h.to;
}

if-placed :
    (ids : List Uuid) (b : Bool) (x y : Uuid)
    → is_placed ids x ≡ true
    → is_placed ids y ≡ true
    → is_placed ids (if b then x else y) ≡ true
if-placed ids true x y h k = h
if-placed ids false x y h k = k

add_node-IsClosed :
    (new_id : Uuid) (kind : _) (d : PlaybookDraft) → IsClosed d → IsClosed (add_node new_id kind d)
unfolding add_node new_node_draft
add_node-IsClosed new_id kind d h = record {
  root =
      if-placed _ _ new_id d.root_node_id
        (let new = has-add_node d.nodes n new_id in let same = ==_refl new_id in ground arith)
        (placed_mono _ _ more d.root_node_id h.root);
  edges = All-imp _ _ (anchor_mono (node_ids d.nodes) _ more) d.edges h.edges;
}
  where
    n : NodeDraft
    n =
        new_node_draft
          (record {
            kind = some kind;
            title = none;
            description = none;
            terminal_resolution = none;
            metadata = none;
          })
          new_id

    more :
        (x : Uuid)
        → has (node_ids d.nodes) x ≡ true
        → has (node_ids (add_node new_id kind d).nodes) x ≡ true
    more x k = has-add_node d.nodes n x ∙ ap (λ b. b || new_id == x) k

remove_node-IsClosed :
    (index : ℕ) (n : NodeDraft) (d : PlaybookDraft)
    → get_elem? d.nodes index ≡ some n
    → IsClosed d
    → IsClosed (without_node index n d)
unfolding without_node
remove_node-IsClosed index n d found h = record {
  root = let k = keeps d.root_node_id in let r = h.root in ground arith;
  edges =
      All-keep _ _ (avoids n.id)
        (λ e a away. record {
          from = keeps e.from_node_id (ground arith) a.from;
          to = keeps e.to_node_id (ground arith) a.to;
        })
        d.edges h.edges;
}
  where
    keeps :
        (x : Uuid)
        → (x == n.id) ≡ false
        → is_placed (node_ids d.nodes) x ≡ true
        → is_placed (node_ids (remove_at d.nodes index)) x ≡ true
    keeps x apart placed =
        let k = has-remove_at d.nodes index n x found (==_comm n.id x ∙ apart) in ground arith

add_edge-IsClosed :
    (new_id from_node_id : Uuid) (d : PlaybookDraft)
    → is_placed (node_ids d.nodes) from_node_id ≡ true
    → IsClosed d
    → IsClosed (add_edge new_id from_node_id d)
unfolding add_edge new_edge_draft
add_edge-IsClosed new_id from_node_id d known h = record {
  root = h.root;
  edges = All-append _ _ _ h.edges (record { from = known; to = refl }, tt);
}

or_else-placed :
    (ids : List Uuid) (o : Option Uuid) (x : Uuid)
    → ((id : Uuid) → o ≡ some id → is_placed ids id ≡ true)
    → is_placed ids x ≡ true
    → is_placed ids (or_else o x) ≡ true
or_else-placed ids none x h k = k
or_else-placed ids (some y) x h k = h y refl

renumber-ends :
    (others : List EdgeDraft) (o : Option Uuid) (e next : EdgeDraft)
    → ((renumber others o e next).from_node_id ≡ next.from_node_id)
      × ((renumber others o e next).to_node_id ≡ next.to_node_id)
unfolding renumber
renumber-ends others none e next = (refl, refl)
renumber-ends others (some x) e next = (ground arith, ground arith)

patch_edge-IsAnchored :
    (ids : List Uuid) (others : List EdgeDraft) (patch : EdgePatch)
    → ((id : Uuid) → patch.from_node_id ≡ some id → is_placed ids id ≡ true)
    → ((id : Uuid) → patch.to_node_id ≡ some id → is_placed ids id ≡ true)
    → (e : EdgeDraft) → IsAnchored ids e
    → IsAnchored ids (renumber others patch.from_node_id e (patch_edge patch e))
unfolding renumber patch_edge
patch_edge-IsAnchored ids others patch from to e a = record {
  from =
      ap (is_placed ids) (renumber-ends others patch.from_node_id e (patch_edge patch e)).0
      ∙ or_else-placed ids patch.from_node_id e.from_node_id from a.from;
  to =
      ap (is_placed ids) (renumber-ends others patch.from_node_id e (patch_edge patch e)).1
      ∙ or_else-placed ids patch.to_node_id e.to_node_id to a.to;
}

update_node-IsClosed :
    (index : ℕ) (patch : NodePatch) (d : PlaybookDraft)
    → patch.id ≡ none
    → IsClosed d
    → IsClosed (update_node index patch d)
unfolding update_node patch_node
update_node-IsClosed index patch d same h =
    let ids = sym (node_ids-modify_at d.nodes index (patch_node patch) λ n. rw same) in
    record {
      root = subst (λ l. is_placed l d.root_node_id ≡ true) ids h.root;
      edges = subst (λ l. All (IsAnchored l) d.edges) ids h.edges;
    }

update_edge-IsClosed :
    (index : ℕ) (patch : EdgePatch) (d : PlaybookDraft)
    → IsOffered d (updated_edge index patch)
    → IsClosed d
    → IsClosed (update_edge index patch d)
unfolding update_edge
update_edge-IsClosed index patch d (from, to) h = record {
  root = h.root;
  edges =
      All-modify_at _ _
        (patch_edge-IsAnchored (node_ids d.nodes) (remove_at d.edges index) patch from to) d.edges
        index h.edges;
}

remove_edge-IsClosed : (index : ℕ) (d : PlaybookDraft) → IsClosed d → IsClosed (remove_edge index d)
unfolding remove_edge
remove_edge-IsClosed index d h = record {
  root = h.root;
  edges = All-remove_at _ d.edges index h.edges;
}

set_root-IsClosed :
    (id : Uuid) (d : PlaybookDraft)
    → is_placed (node_ids d.nodes) id ≡ true
    → IsClosed d
    → IsClosed (set_root id d)
unfolding set_root
set_root-IsClosed id d known h = record { root = known; edges = h.edges }

remove_found-IsClosed :
    (index : ℕ) (d d' : PlaybookDraft) → IsClosed d → remove_node index d ≡ some d' → IsClosed d'
unfolding remove_node
remove_found-IsClosed index d d' h e = case_of (get_elem? d.nodes index) refl e
  where
    case_of :
        (o : Option NodeDraft)
        → get_elem? d.nodes index ≡ o
        → remove_found index d o ≡ some d'
        → IsClosed d'
    case_of none found k = cc
    case_of (some n) found k = subst IsClosed (some-inj k) (remove_node-IsClosed index n d found h)

-- An edit that the form offers leaves a draft with no reference to a node that it does not have.
pub apply-IsClosed :
    (edit : Edit) (d d' : PlaybookDraft)
    → IsClosed d
    → IsOffered d edit
    → apply edit d ≡ some d'
    → IsClosed d'
unfolding apply
apply-IsClosed (added_node new_id kind) d d' h o e =
    subst IsClosed (some-inj e) (add_node-IsClosed new_id kind d h)
apply-IsClosed (updated_node index patch) d d' h o e =
    subst IsClosed (some-inj e) (update_node-IsClosed index patch d o h)
apply-IsClosed (removed_node index) d d' h o e = remove_found-IsClosed index d d' h e
apply-IsClosed (added_edge new_id from_node_id) d d' h o e =
    subst IsClosed (some-inj e) (add_edge-IsClosed new_id from_node_id d o h)
apply-IsClosed (updated_edge index patch) d d' h o e =
    subst IsClosed (some-inj e) (update_edge-IsClosed index patch d o h)
apply-IsClosed (removed_edge index) d d' h o e =
    subst IsClosed (some-inj e) (remove_edge-IsClosed index d h)
apply-IsClosed (picked_root id) d d' h o e =
    subst IsClosed (some-inj e) (set_root-IsClosed id d o h)

-- The drafts that edits which the form offers lead to from a draft.
pub data Reaches (d : PlaybookDraft) : PlaybookDraft → Type 0 where
  start : Reaches d d
  edited :
      {d' d'' : PlaybookDraft} (edit : Edit)
      → Reaches d d'
      → IsOffered d' edit
      → apply edit d' ≡ some d''
      → Reaches d d''

pub Reaches-IsClosed : {d d' : PlaybookDraft} → IsClosed d → Reaches d d' → IsClosed d'
Reaches-IsClosed h start = h
Reaches-IsClosed h (edited edit r o e) = apply-IsClosed edit _ _ (Reaches-IsClosed h r) o e

empty_draft-IsClosed : IsClosed empty_draft
empty_draft-IsClosed = record { root = refl; edges = tt }

-- Every draft that is authored from the empty one by edits which the form offers refers, by its
-- root and by the ends of its edges, to nothing but nodes that it has.
pub IsClosed-of_Reaches : (d : PlaybookDraft) → Reaches empty_draft d → IsClosed d
IsClosed-of_Reaches d r = Reaches-IsClosed empty_draft-IsClosed r
