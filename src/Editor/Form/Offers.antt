-- ===== src/Editor/Form/Offers.antt =====
-- Every edit that a control of the form makes is one that the form may offer, and takes effect.
use interbellum.Common.{
  ℕ, zero, suc, ◌+◌, List, [], ◌∷◌, Bool, true, false, not, ◌&&◌, ◌≡◌, refl, sym, ◌∙◌, ap, subst,
  inl, inr, arith, Option, none, some, some-inj, is_empty, All, All-append, All-imp, All-map,
  All-keep, All-get_elem?, map, keep, find?, get_elem?, Bool-cases, if-ind,
}
use interbellum.Text.Equality.{==_refl}
use interbellum.Text.Sets.{has}
use interbellum.Types.{Uuid}
use interbellum.Draft.{NodeDraft, EdgeDraft, PlaybookDraft}
use interbellum.Draft.Errors.{DraftError}
use interbellum.Draft.Rules.{node_ids}
use interbellum.Editor.{Edit, picked_root, apply, remove_node, remove_found}
use interbellum.Editor.Closed.{is_placed, IsOffered}
use interbellum.Editor.Form.{
  PlacedNode, placed_from, is_source, SelectOption, node_option, has_id, any_place, stale_node,
  option_of_stale, node_options, root_options, NodeRow, node_row, node_rows, EdgeRow, edge_row,
  edge_rows,
}
use interbellum.Editor.Form.Touches.{
  Touch, on_row, on_value, on_choice, edit_of, clicks_add_node, picks_kind, types_title,
  types_node_description, types_resolution, types_metadata, clicks_remove_node, clicks_choice_from,
  clicks_add_choice, picks_from, picks_to, types_label, types_sort_order, types_edge_description,
  clicks_remove_edge, picks_root,
}

-- A node of the draft.
abbrev IsListed : List Uuid → PlacedNode → Type 0
IsListed ids p = has ids p.item.id ≡ true

-- The empty option, or a node of the draft.
abbrev IsChoice : List Uuid → SelectOption → Type 0
IsChoice ids o = is_placed ids o.value ≡ true

has-node_ids : (ns : List NodeDraft) → All (λ n. has (node_ids ns) n.id ≡ true) ns
unfolding has
has-node_ids [] = tt
has-node_ids (n ∷ ns) =
    let same = ==_refl n.id in
    (ground arith, All-imp _ _ (λ m h. ground arith) ns (has-node_ids ns))

placed_from-IsListed :
    (ids : List Uuid) (k : ℕ) (ns : List NodeDraft)
    → All (λ n. has ids n.id ≡ true) ns
    → All (IsListed ids) (placed_from k ns)
unfolding placed_from
placed_from-IsListed ids k [] h = tt
placed_from-IsListed ids k (n ∷ ns) h = (h.0, placed_from-IsListed ids (suc k) ns h.1)

find?-IsListed :
    (ids : List Uuid) (p : PlacedNode → Bool) (nodes : List PlacedNode) (x : PlacedNode)
    → All (IsListed ids) nodes
    → find? p nodes ≡ some x
    → IsListed ids x
find?-IsListed ids p [] x h e = cc
find?-IsListed ids p (y ∷ ys) x h e = elim (Bool-cases (p y)) [
  | inl t ↦ subst (IsListed ids) (some-inj (rw t at e)) h.0
  | inr f ↦ find?-IsListed ids p ys x h.1 (rw f at e)
]

node_option-IsChoice :
    (ids : List Uuid) (nodes : List PlacedNode)
    → All (IsListed ids) nodes
    → All (IsChoice ids) (map node_option nodes)
node_option-IsChoice ids nodes h = All-map (IsChoice ids) node_option (λ p k. ground arith) nodes h

option_of_stale-IsChoice :
    (ids : List Uuid) (nodes all_nodes : List PlacedNode) (selected : Uuid)
    → All (IsListed ids) all_nodes
    → All (IsChoice ids) (option_of_stale (stale_node nodes all_nodes selected))
unfolding stale_node
option_of_stale-IsChoice ids nodes all_nodes selected h =
    if-ind (λ (o : Option PlacedNode). All (IsChoice ids) (option_of_stale o))
      (not (is_empty selected) && not (any_place (has_id selected) nodes)) _ _
      (λ _. of_found (find? (has_id selected) all_nodes) refl) (λ _. tt)
  where
    of_found :
        (o : Option PlacedNode)
        → find? (has_id selected) all_nodes ≡ o
        → All (IsChoice ids) (option_of_stale o)
    of_found none e = tt
    of_found (some p) e =
        let k = find?-IsListed ids (has_id selected) all_nodes p h e in (ground arith, tt)

node_options-IsChoice :
    (ids : List Uuid) (nodes all_nodes : List PlacedNode) (selected : Uuid)
    → All (IsListed ids) nodes
    → All (IsListed ids) all_nodes
    → All (IsChoice ids) (node_options nodes all_nodes selected)
unfolding node_options
node_options-IsChoice ids nodes all_nodes selected h k = (
  refl,
  All-append _ _ _ (node_option-IsChoice ids nodes h)
      (option_of_stale-IsChoice ids nodes all_nodes selected k),
)

-- The row of a place shows the node of that place.
pub get_elem?-node_rows :
    (errors : List DraftError) (root_id : Uuid) (k : ℕ) (ns : List NodeDraft) (i : ℕ) (r : NodeRow)
    → get_elem? (node_rows errors root_id k ns) i ≡ some r
    → (n : NodeDraft) × (get_elem? ns i ≡ some n) × (node_row errors root_id (k + i) n ≡ r)
unfolding node_rows
get_elem?-node_rows errors root_id k [] i r e = cc
get_elem?-node_rows errors root_id k (n ∷ ns) zero r e =
    (n, refl, ap (λ j. node_row errors root_id j n) (omega arith) ∙ some-inj e)
get_elem?-node_rows errors root_id k (n ∷ ns) (suc i) r e =
    let (m, at, shown) = get_elem?-node_rows errors root_id (suc k) ns i r e in
    (m, at, ap (λ j. node_row errors root_id j m) (omega arith) ∙ shown)

edge_rows-options :
    (errors : List DraftError) (ids : List Uuid) (nodes : List PlacedNode)
    → All (IsListed ids) nodes
    → (k : ℕ) (es : List EdgeDraft)
    → All
        (λ (r : EdgeRow). All (IsChoice ids) r.from_options × All (IsChoice ids) r.to_options)
        (edge_rows errors nodes k es)
unfolding edge_rows edge_row
edge_rows-options errors ids nodes h k [] = tt
edge_rows-options errors ids nodes h k (e ∷ es) = (
  (
    node_options-IsChoice ids (keep is_source nodes) nodes e.from_node_id
        (All-keep _ _ is_source (λ p x _. x) nodes h) h,
    node_options-IsChoice ids nodes nodes e.to_node_id h h,
  ),
  edge_rows-options errors ids nodes h (suc k) es,
)

-- Where a control makes an edit, the form may offer it and it does not throw.
abbrev pub Takes : PlaybookDraft → Option Edit → Type 0
Takes d none = Unit
Takes d (some e) = IsOffered d e × ((d' : PlaybookDraft) × (apply e d ≡ some d'))

on_row-Takes {ℓ} :
    {R : Type ℓ} (d : PlaybookDraft) (o : Option R) (f : R → Option Edit)
    → ((r : R) → o ≡ some r → Takes d (f r))
    → Takes d (on_row o f)
on_row-Takes d none f each = tt
on_row-Takes d (some r) f each = each r refl

on_choice-Takes :
    (d : PlaybookDraft) (b : Bool) (e : Edit) → Takes d (some e) → Takes d (on_choice b e)
on_choice-Takes d true e h = h
on_choice-Takes d false e h = tt

on_value-Takes :
    (d : PlaybookDraft) (options : List SelectOption) (k : ℕ) (f : Uuid → Edit)
    → All (IsChoice (node_ids d.nodes)) options
    → ((id : Uuid) → is_placed (node_ids d.nodes) id ≡ true → Takes d (some (f id)))
    → Takes d (on_value (get_elem? options k) f)
on_value-Takes d options k f h each = of_option (get_elem? options k) refl
  where
    of_option : (o : Option SelectOption) → get_elem? options k ≡ o → Takes d (on_value o f)
    of_option none e = tt
    of_option (some v) e = each v.value (All-get_elem? _ options k v h e)

edge_end-Takes :
    (d : PlaybookDraft) (errors : List DraftError) (i : ℕ) (f : EdgeRow → Option Edit)
    → ((r : EdgeRow)
        → All (IsChoice (node_ids d.nodes)) r.from_options
          × All (IsChoice (node_ids d.nodes)) r.to_options
        → Takes d (f r))
    → Takes d (on_row (get_elem? (edge_rows errors (placed_from 0 d.nodes) 0 d.edges) i) f)
edge_end-Takes d errors i f each = on_row-Takes d _ f λ r at. each r (
    All-get_elem? _ _ i r
      (edge_rows-options errors (node_ids d.nodes) _
        (placed_from-IsListed _ 0 d.nodes (has-node_ids d.nodes)) 0 d.edges)
      at)

root_options-IsChoice :
    (d : PlaybookDraft) → All (IsChoice (node_ids d.nodes)) (root_options (placed_from 0 d.nodes))
unfolding root_options
root_options-IsChoice d =
    (refl, node_option-IsChoice _ _ (placed_from-IsListed _ 0 d.nodes (has-node_ids d.nodes)))

module _ (d : PlaybookDraft) (errors : List DraftError) where
  on_node-Takes :
      (i : ℕ) (f : NodeRow → Option Edit)
      → ((r : NodeRow) (n : NodeDraft) → get_elem? d.nodes i ≡ some n → r.draft ≡ n → Takes d (f r))
      → Takes d (on_row (get_elem? (node_rows errors d.root_node_id 0 d.nodes) i) f)
  unfolding node_row
  on_node-Takes i f each = on_row-Takes d _ f λ r at.
      let (n, found, shown) = get_elem?-node_rows errors d.root_node_id 0 d.nodes i r at in
      each r n found (ap (λ (x : NodeRow). x.draft) (sym shown))

  pub edit_of-Takes :
      (touch : Touch)
      → Takes d (
          edit_of
            (node_rows errors d.root_node_id 0 d.nodes)
            (edge_rows errors (placed_from 0 d.nodes) 0 d.edges)
            (root_options (placed_from 0 d.nodes))
            touch)
  unfolding edit_of apply remove_node
  edit_of-Takes (clicks_add_node kind new_id) = (tt, (_, refl))
  edit_of-Takes (picks_kind i kind) = on_node-Takes i _ λ r n at shown. (refl, (_, refl))
  edit_of-Takes (types_title i text) = on_node-Takes i _ λ r n at shown. (refl, (_, refl))
  edit_of-Takes (types_node_description i text) =
      on_node-Takes i _ λ r n at shown. (refl, (_, refl))
  edit_of-Takes (types_resolution i text) =
      on_node-Takes i _ λ r n at shown. on_choice-Takes d _ _ (refl, (_, refl))
  edit_of-Takes (types_metadata i text) = on_node-Takes i _ λ r n at shown. (refl, (_, refl))
  edit_of-Takes (clicks_remove_node i) =
      on_node-Takes i _ λ r n at shown. (tt, (_, ap (remove_found i d) at))
  edit_of-Takes (clicks_choice_from i new_id) = on_node-Takes i _ λ r n at shown.
      on_choice-Takes d _ _ (
        let known = All-get_elem? _ d.nodes i n (has-node_ids d.nodes) at in
            subst (λ (m : NodeDraft). is_placed (node_ids d.nodes) m.id ≡ true) (sym shown)
              (ground arith),
        (_, refl),
      )
  edit_of-Takes (clicks_add_choice new_id) = on_choice-Takes d _ _ (refl, (_, refl))
  edit_of-Takes (picks_from i k) = edge_end-Takes d errors i _ λ r options.
      on_value-Takes d r.from_options k _ options.0 λ id known. (
        (λ x e. subst (λ y. is_placed (node_ids d.nodes) y ≡ true) (some-inj e) known, λ x e. cc),
        (_, refl),
      )
  edit_of-Takes (picks_to i k) = edge_end-Takes d errors i _ λ r options.
      on_value-Takes d r.to_options k _ options.1 λ id known. (
        (λ x e. cc, λ x e. subst (λ y. is_placed (node_ids d.nodes) y ≡ true) (some-inj e) known),
        (_, refl),
      )
  edit_of-Takes (types_label i text) =
      edge_end-Takes d errors i _ λ r _. ((λ x e. cc, λ x e. cc), (_, refl))
  edit_of-Takes (types_sort_order i text) =
      edge_end-Takes d errors i _ λ r _. ((λ x e. cc, λ x e. cc), (_, refl))
  edit_of-Takes (types_edge_description i text) =
      edge_end-Takes d errors i _ λ r _. ((λ x e. cc, λ x e. cc), (_, refl))
  edit_of-Takes (clicks_remove_edge i) = edge_end-Takes d errors i _ λ r _. (tt, (_, refl))
  edit_of-Takes (picks_root k) =
      on_value-Takes d _ k picked_root (root_options-IsChoice d) λ id known. (known, (_, refl))
