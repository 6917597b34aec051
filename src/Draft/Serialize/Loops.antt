-- ===== src/Draft/Serialize/Loops.antt =====
-- The two loops of `serializePlaybookDraft` in closed form.
use interbellum.Common.{
  ℕ, suc, List, [], ◌∷◌, ◌++◌, ◌||◌, ◌≡◌, sym, arith, append-nil, append_assoc, map, ◌∙◌,
}
use interbellum.Text.{Text}
use interbellum.Text.Sets.{has, add, has-add}
use interbellum.Types.{Uuid}
use interbellum.Json.{JsonEngine}
use interbellum.Draft.{NodeDraft, EdgeDraft}
use interbellum.Draft.Errors.{DraftError}
use interbellum.Draft.Serialize.Nodes.{NodeLoop, check_node, visit_node, visit_nodes, write_node}
use interbellum.Draft.Serialize.Edges.{
  EdgeLoop, check_edge, note_label, visit_edge, visit_edges, write_edge,
}

-- One round's errors after another's, regrouped.
pub append-shift {ℓ} : {A : Type ℓ} (xs ys zs : List A) → (xs ++ ys) ++ zs ≡ xs ++ (ys ++ zs)
append-shift xs ys zs = append_assoc xs ys zs

module _ (json : JsonEngine) where
  unfoldable pub report_nodes : List Uuid → ℕ → List NodeDraft → List DraftError
  report_nodes seen index [] = []
  report_nodes seen index (n ∷ ns) =
      check_node json seen index n ++ report_nodes (add seen n.id) (suc index) ns

  pub visit_nodes-errors :
      (index : ℕ) (ns : List NodeDraft) (s : NodeLoop)
      → (visit_nodes json index ns s).errors ≡ s.errors ++ report_nodes s.seen_node_ids index ns
  unfolding visit_nodes report_nodes
  visit_nodes-errors index [] s = sym (append-nil s.errors)
  visit_nodes-errors index (n ∷ ns) s =
      visit_nodes-errors (suc index) ns (visit_node json index n s) ∙ append_assoc s.errors _ _

  pub visit_nodes-nodes :
      (index : ℕ) (ns : List NodeDraft) (s : NodeLoop)
      → (visit_nodes json index ns s).nodes ≡ s.nodes ++ map (write_node json) ns
  unfolding visit_nodes
  visit_nodes-nodes index [] s = sym (append-nil s.nodes)
  visit_nodes-nodes index (n ∷ ns) s =
      visit_nodes-nodes (suc index) ns (visit_node json index n s) ∙ append_assoc s.nodes _ _

  -- The loop has seen the ids that it had seen, and those of its nodes.
  pub visit_nodes-seen :
      (index : ℕ) (ns : List NodeDraft) (s : NodeLoop) (x : Uuid)
      → has (visit_nodes json index ns s).seen_node_ids x
        ≡ (has s.seen_node_ids x || has (map (λ n. n.id) ns) x)
  unfolding visit_nodes has
  visit_nodes-seen index [] s x = ground arith
  visit_nodes-seen index (n ∷ ns) s x = ground (
    arith,
    visit_nodes-seen (suc index) ns (visit_node json index n s) x,
    has-add s.seen_node_ids n.id x,
  )

unfoldable pub report_edges :
    List Uuid → List Uuid → List (Uuid × List Text) → ℕ → List EdgeDraft → List DraftError
report_edges known seen labels index [] = []
report_edges known seen labels index (e ∷ es) =
    check_edge known seen labels index e
    ++ report_edges known (add seen e.id) (note_label labels e) (suc index) es

pub visit_edges-errors :
    (known : List Uuid) (index : ℕ) (es : List EdgeDraft) (s : EdgeLoop)
    → (visit_edges known index es s).errors
      ≡ s.errors ++ report_edges known s.seen_edge_ids s.labels_by_from_node index es
unfolding visit_edges report_edges
visit_edges-errors known index [] s = sym (append-nil s.errors)
visit_edges-errors known index (e ∷ es) s =
    visit_edges-errors known (suc index) es (visit_edge known index e s) ∙ append_assoc s.errors _ _

pub visit_edges-edges :
    (known : List Uuid) (index : ℕ) (es : List EdgeDraft) (s : EdgeLoop)
    → (visit_edges known index es s).edges ≡ s.edges ++ map write_edge es
unfolding visit_edges
visit_edges-edges known index [] s = sym (append-nil s.edges)
visit_edges-edges known index (e ∷ es) s =
    visit_edges-edges known (suc index) es (visit_edge known index e s) ∙ append_assoc s.edges _ _
