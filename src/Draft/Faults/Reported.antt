-- ===== src/Draft/Faults/Reported.antt =====
-- What a draft is rejected with: its faults, each at its place and field, and nothing else.
use interbellum.Common.{
  List, [], ◌∷◌, ◌++◌, not, ◌≡◌, refl, sym, ◌∙◌, subst, inl, inr, arith, All, All-append, Any,
  Any-append_left, Any-append_right, Bool-cases, is_empty, ◌&&◌,
}
use interbellum.Text.Sets.{has, has_iff}
use interbellum.Integers.{ℤ}
use interbellum.Types.{Uuid, PlaybookGraphInput}
use interbellum.Json.{JsonEngine}
use interbellum.Draft.{PlaybookDraft}
use interbellum.Draft.Errors.{DraftError, DraftScope, DraftErrorField, node, edge, root, rejected}
use interbellum.Draft.Serialize.{check_root, conclude, node_loop, serialize_playbook_draft}
use interbellum.Draft.Serialize.Loops.{report_nodes, report_edges}
use interbellum.Draft.Rules.{node_ids}
use interbellum.Draft.Rules.Accepts.{
  reported, written, node_loop-seen, serialize_playbook_draft-conclude,
}
use interbellum.Draft.Faults.{FaultAt, IsFault, IsAbout}
use interbellum.Draft.Faults.Nodes.{
  report_nodes-IsFault, report_nodes-Any, push_if-All, push_if-Any,
}
use interbellum.Draft.Faults.Edges.{report_edges-IsFault, report_edges-Any}

conclude-rejected :
    (es es' : List DraftError) (g : PlaybookGraphInput) → conclude es g ≡ rejected es' → es ≡ es'
conclude-rejected [] es' g h = cc
conclude-rejected (e ∷ es) es' g h = cc

-- `known` is what the loop over the nodes has seen.
module _ (json : JsonEngine) (d : PlaybookDraft) (known : List Uuid)
    (same_known : (x : Uuid) → has known x ≡ has (node_ids d.nodes) x) where
  check_root-IsFault : All (IsFault json d) (check_root known d.root_node_id)
  unfolding check_root
  check_root-IsFault =
      push_if-All (IsFault json d) (not (is_empty d.root_node_id) && not (has known d.root_node_id))
        _
        λ h. (
          refl,
          refl,
          ground arith,
          λ m. let old = (has_iff _ _).1 m in ground (arith, same_known d.root_node_id),
        )

  check_root-Any :
      (i : ℤ) (f : DraftErrorField)
      → FaultAt json d root i f
      → Any (IsAbout root i f) (check_root known d.root_node_id)
  unfolding check_root
  check_root-Any i f (at, field, set, out) = elim (Bool-cases (has known d.root_node_id)) [
    | inl old ↦ absurd (out ((has_iff _ _).0 (sym (same_known d.root_node_id) ∙ old)))
    | inr new ↦
        push_if-Any (IsAbout root i f)
          (not (is_empty d.root_node_id) && not (has known d.root_node_id)) _ (ground arith)
          (refl, sym at, sym field)
  ]

module _ (json : JsonEngine) (d : PlaybookDraft) where
  reported-IsFault : All (IsFault json d) (reported json d)
  unfolding reported
  reported-IsFault =
      All-append _ _ _
        (All-append _ _ _ (report_nodes-IsFault json d)
          (report_edges-IsFault json d _ (node_loop-seen json d)))
        (check_root-IsFault json d _ (node_loop-seen json d))

  reported-Any :
      (scope : DraftScope) (i : ℤ) (f : DraftErrorField)
      → FaultAt json d scope i f
      → Any (IsAbout scope i f) (reported json d)
  unfolding reported
  reported-Any node i f (pre, n, rest, e, at, fault) = Any-append_left _ _ _ (
      Any-append_left _ _ _ (
        subst (λ k. Any (IsAbout node k f) (report_nodes json [] 0 d.nodes)) (sym at)
          (report_nodes-Any json d pre rest n f e fault)))
  reported-Any edge i f (pre, x, rest, e, at, fault) =
      let known = (node_loop json d).seen_node_ids in
      Any-append_left _ _ _ (
        Any-append_right _ (report_nodes json [] 0 d.nodes) _ (
          subst (λ k. Any (IsAbout edge k f) (report_edges known [] [] 0 d.edges)) (sym at)
            (report_edges-Any json d known (node_loop-seen json d) pre rest x f e fault)))
  reported-Any root i f fault =
      let known = (node_loop json d).seen_node_ids in
      Any-append_right _ (report_nodes json [] 0 d.nodes ++ report_edges known [] [] 0 d.edges) _
        (check_root-Any json d known (node_loop-seen json d) i f fault)

  -- A draft that is rejected is rejected with its faults: each error is about a fault of the
  -- draft, at its place and field, and each fault of the draft has an error about it.
  pub serialize-rejected :
      (es : List DraftError)
      → serialize_playbook_draft json d ≡ rejected es
      → All (IsFault json d) es
        × ((scope : DraftScope) (i : ℤ) (f : DraftErrorField)
            → FaultAt json d scope i f
            → Any (IsAbout scope i f) es)
  serialize-rejected es h =
      let same : reported json d ≡ es =
        conclude-rejected (reported json d) es (written json d)
          (sym (serialize_playbook_draft-conclude json d) ∙ h) in
      (
        subst (All (IsFault json d)) same reported-IsFault,
        λ scope i f fault. subst (Any (IsAbout scope i f)) same (reported-Any scope i f fault),
      )
