-- ===== src/Draft/Rules/Edges.antt =====
-- The loop over the edges reports nothing exactly on edges that are writable and told apart.
use interbellum.Common.{ℕ, suc, List, [], ◌∷◌, false, ◌≡◌, refl, ◌↔◌, arith, All, append-eq-nil}
use interbellum.Text.{Text}
use interbellum.Text.Sets.{has, add, has_iff, DistinctFrom}
use interbellum.Types.{Uuid}
use interbellum.Draft.{EdgeDraft}
use interbellum.Draft.Serialize.Edges.{note_label, check_edge}
use interbellum.Draft.Serialize.Loops.{report_edges}
use interbellum.Draft.Rules.{IsWritableEdge, AllApart, edge_ids}
use interbellum.Draft.Rules.Labels.{
  is_taken, IsLabelled, FreshLabels, FreshLabels→, →FreshLabels, IsUntaken-by_none,
}

-- `known` is what the loop over the nodes has seen, `ids` the ids of the nodes.
module _ (known ids : List Uuid) (same : (x : Uuid) → has known x ≡ has ids x) where
  check_edge-fresh :
      (seen : List Uuid) (labels : List (Uuid × List Text)) (index : ℕ) (e : EdgeDraft)
      → check_edge known seen labels index e ≡ []
      → (has seen e.id ≡ false) × IsWritableEdge ids e × (is_taken labels e ≡ false)
  unfolding check_edge
  check_edge-fresh seen labels index e h = (
    ground arith,
    record {
      label = ground arith;
      from_picked = ground arith;
      from_known = (has_iff ids e.from_node_id).0 (ground (arith, same e.from_node_id));
      to_picked = ground arith;
      to_known = (has_iff ids e.to_node_id).0 (ground (arith, same e.to_node_id));
    },
    ground arith,
  )

  check_edge-eq :
      (seen : List Uuid) (labels : List (Uuid × List Text)) (index : ℕ) (e : EdgeDraft)
      → has seen e.id ≡ false
      → IsWritableEdge ids e
      → is_taken labels e ≡ false
      → check_edge known seen labels index e ≡ []
  unfolding check_edge
  check_edge-eq seen labels index e fresh w untaken =
      let from = (has_iff ids e.from_node_id).1 w.from_known in
      let to = (has_iff ids e.to_node_id).1 w.to_known in
      ground (arith, same e.from_node_id, same e.to_node_id)

  report_edges-fresh :
      (seen : List Uuid) (labels : List (Uuid × List Text)) (index : ℕ) (es : List EdgeDraft)
      → report_edges known seen labels index es ≡ []
      → DistinctFrom seen (edge_ids es) × All (IsWritableEdge ids) es × FreshLabels labels es
  unfolding report_edges
  report_edges-fresh seen labels index [] h = (tt, tt, tt)
  report_edges-fresh seen labels index (e ∷ es) h =
      let (now, later) = append-eq-nil _ _ h in
      let (fresh, writable, untaken) = check_edge-fresh seen labels index e now in
      let (distinct, rest, others) =
        report_edges-fresh (add seen e.id) (note_label labels e) (suc index) es later in
      ((fresh, distinct), (writable, rest), (untaken, others))

  report_edges-eq :
      (seen : List Uuid) (labels : List (Uuid × List Text)) (index : ℕ) (es : List EdgeDraft)
      → DistinctFrom seen (edge_ids es)
      → All (IsWritableEdge ids) es
      → FreshLabels labels es
      → report_edges known seen labels index es ≡ []
  unfolding report_edges
  report_edges-eq seen labels index [] h k l = refl
  report_edges-eq seen labels index (e ∷ es) h k l = rw (
    check_edge-eq seen labels index e h.0 k.0 l.0,
    report_edges-eq (add seen e.id) (note_label labels e) (suc index) es h.1 k.1 l.1,
  )

  IsLabelled-of_IsWritableEdge :
      (es : List EdgeDraft) → All (IsWritableEdge ids) es → All IsLabelled es
  IsLabelled-of_IsWritableEdge [] h = tt
  IsLabelled-of_IsWritableEdge (e ∷ es) h = (one e h.0, IsLabelled-of_IsWritableEdge es h.1)
    where
      one : (e : EdgeDraft) → IsWritableEdge ids e → IsLabelled e
      one e w = let p = w.label in let q = w.from_picked in ground arith

  -- The loop over the edges reports nothing exactly on distinct, writable edges labelled apart.
  pub report_edges-nil_iff :
      (es : List EdgeDraft)
      → (report_edges known [] [] 0 es ≡ [])
        ↔ (DistinctFrom [] (edge_ids es) × All (IsWritableEdge ids) es × AllApart es)
  report_edges-nil_iff es = (
    λ h.
        let (distinct, writable, fresh) = report_edges-fresh [] [] 0 es h in
        (
          distinct,
          writable,
          (FreshLabels→ [] es (IsLabelled-of_IsWritableEdge es writable) fresh).1,
        ),
    λ h. report_edges-eq [] [] 0 es h.0 h.1 (→FreshLabels [] es (IsUntaken-by_none es) h.2),
  )
