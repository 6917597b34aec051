-- ===== src/Editor/Form/Selects.antt =====
-- What the selects of an edge show, which NodeOptions of EdgeListEditor.tsx is there for.
use interbellum.Common.{
  ℕ, suc, List, [], ◌∷◌, true, not, ◌≡◌, refl, inl, inr, arith, Option, All, Any, Any-map,
  Any-append_left, Any-append_right, map, keep, find?, if-ind, Bool-cases,
}
use interbellum.Text.{◌==◌}
use interbellum.Text.Equality.{==_iff}
use interbellum.Text.Sets.{has}
use interbellum.Types.{Uuid}
use interbellum.Draft.{NodeDraft, EdgeDraft, PlaybookDraft}
use interbellum.Draft.Errors.{DraftError}
use interbellum.Draft.Rules.{node_ids}
use interbellum.Editor.Closed.{is_placed, IsAnchored, IsClosed}
use interbellum.Editor.Form.{
  PlacedNode, placed_from, is_source, SelectOption, node_option, has_id, any_place, stale_node,
  option_of_stale, node_options, EdgeRow, edge_row, edge_rows,
}

-- The select lists the value that the draft holds.
abbrev pub Lists : Uuid → List SelectOption → Type 0
Lists id options = Any (λ (o : SelectOption). o.value ≡ id) options

any_place-Any :
    (id : Uuid) (ps : List PlacedNode)
    → any_place (has_id id) ps ≡ true
    → Any (λ (p : PlacedNode). p.item.id ≡ id) ps
any_place-Any id [] h = cc
any_place-Any id (p ∷ ps) h = elim (Bool-cases (p.item.id == id)) [
  | inl same ↦ inl ((==_iff _ _).0 same)
  | inr other ↦ inr (any_place-Any id ps (ground arith))
]

find?-has_id :
    (id : Uuid) (k : ℕ) (ns : List NodeDraft)
    → has (node_ids ns) id ≡ true
    → Lists id (option_of_stale (find? (has_id id) (placed_from k ns)))
unfolding has placed_from
find?-has_id id k [] h = cc
find?-has_id id k (n ∷ ns) h =
    if-ind (λ (o : Option PlacedNode). Lists id (option_of_stale o)) (n.id == id) _ _
      (λ same. inl ((==_iff _ _).0 same)) (λ other. find?-has_id id (suc k) ns (ground arith))

node_options-Lists :
    (nodes : List PlacedNode) (ns : List NodeDraft) (id : Uuid)
    → is_placed (node_ids ns) id ≡ true
    → Lists id (node_options nodes (placed_from 0 ns) id)
unfolding node_options stale_node
node_options-Lists nodes ns [] h = inl refl
node_options-Lists nodes ns (c ∷ id) h = elim (Bool-cases (any_place (has_id (c ∷ id)) nodes)) [
  | inl there ↦ inr (
      Any-append_left _ (map node_option nodes) _
        (Any-map _ node_option nodes (any_place-Any (c ∷ id) nodes there)))
  | inr gone ↦ inr (
      Any-append_right _ (map node_option nodes) _ (
        if-ind (λ (o : Option PlacedNode). Lists (c ∷ id) (option_of_stale o))
          (not (any_place (has_id (c ∷ id)) nodes)) _ _ (λ _. find?-has_id (c ∷ id) 0 ns h)
          (λ there. absurd (ground arith))))
]

-- Where every reference of a draft is to a node that it has, both selects of each choice list the
-- node that the draft holds, also where it is a terminal node that the choice still leaves.
pub edge_rows-Lists :
    (errors : List DraftError) (d : PlaybookDraft)
    → IsClosed d
    → All
        (λ (r : EdgeRow).
          Lists r.draft.from_node_id r.from_options × Lists r.draft.to_node_id r.to_options)
        (edge_rows errors (placed_from 0 d.nodes) 0 d.edges)
unfolding edge_rows edge_row
edge_rows-Lists errors d closed = rows 0 d.edges closed.edges
  where
    rows :
        (k : ℕ) (es : List EdgeDraft)
        → All (IsAnchored (node_ids d.nodes)) es
        → All
            (λ (r : EdgeRow).
              Lists r.draft.from_node_id r.from_options × Lists r.draft.to_node_id r.to_options)
            (edge_rows errors (placed_from 0 d.nodes) k es)
    rows k [] h = tt
    rows k (e ∷ es) h = (
      (
        node_options-Lists (keep is_source (placed_from 0 d.nodes)) d.nodes e.from_node_id h.0.from,
        node_options-Lists (placed_from 0 d.nodes) d.nodes e.to_node_id h.0.to,
      ),
      rows (suc k) es h.1,
    )
