-- ===== src/Draft/Rules/Accepts.antt =====
-- What `serializePlaybookDraft` accepts, and what it then returns.
use interbellum.Common.{
  List, [], ◌∷◌, ◌++◌, ◌≡◌, refl, sym, ◌↔◌, ◌⊎◌, inl, inr, arith, append-eq-nil, map, Mem, ◌∙◌, ap,
}
use interbellum.Text.Sets.{has, has_iff, DistinctFrom-nil_iff}
use interbellum.Types.{Uuid, PlaybookGraphInput}
use interbellum.Json.{JsonEngine}
use interbellum.Draft.{PlaybookDraft}
use interbellum.Draft.Errors.{DraftError, ok}
use interbellum.Draft.Serialize.{
  check_root, conclude, node_loop, edge_loop, serialize_playbook_draft,
}
use interbellum.Draft.Serialize.Nodes.{write_node}
use interbellum.Draft.Serialize.Edges.{write_edge, unless_empty}
use interbellum.Draft.Serialize.Loops.{
  report_nodes, report_edges, visit_nodes-errors, visit_nodes-nodes, visit_nodes-seen,
  visit_edges-errors, visit_edges-edges,
}
use interbellum.Draft.Rules.{node_ids, IsWritable}
use interbellum.Draft.Rules.Nodes.{report_nodes-nil, report_nodes-eq}
use interbellum.Draft.Rules.Edges.{report_edges-nil_iff}

-- Where the root is empty or known the check of the root reports nothing, and only there.
check_root-nil_iff :
    (known ids : List Uuid) (root_id : Uuid)
    → has known root_id ≡ has ids root_id
    → (check_root known root_id ≡ []) ↔ ((root_id ≡ []) ⊎ Mem root_id ids)
unfolding check_root has
check_root-nil_iff known ids [] same = (λ _. inl refl, λ _. refl)
check_root-nil_iff known ids (c ∷ s) same = (
  λ h. inr ((has_iff ids (c ∷ s)).0 (ground arith)),
  λ h. elim h [
    | inl none ↦ cc
    | inr known_id ↦ let old = (has_iff ids (c ∷ s)).1 known_id in ground arith
  ],
)

conclude-ok_iff :
    (es : List DraftError) (g g' : PlaybookGraphInput)
    → (conclude es g ≡ ok g') ↔ ((es ≡ []) × (g ≡ g'))
conclude-ok_iff [] g g' = (λ h. (refl, cc), λ h. ap ok h.1)
conclude-ok_iff (e ∷ es) g g' = (λ h. cc, λ h. cc)

module _ (json : JsonEngine) (d : PlaybookDraft) where
  -- The graph that the loops build, errors or not.
  unfoldable pub written : PlaybookGraphInput
  written = record {
    root_node_id = unless_empty d.root_node_id;
    nodes = map (write_node json) d.nodes;
    edges = map write_edge d.edges;
  }

  pub node_loop-seen :
      (x : Uuid) → has (node_loop json d).seen_node_ids x ≡ has (node_ids d.nodes) x
  unfolding node_loop has
  node_loop-seen x = visit_nodes-seen json 0 d.nodes _ x

  node_loop-errors : (node_loop json d).errors ≡ report_nodes json [] 0 d.nodes
  unfolding node_loop
  node_loop-errors = visit_nodes-errors json 0 d.nodes _

  edge_loop-errors :
      (edge_loop json d).errors
      ≡ report_nodes json [] 0 d.nodes
        ++ report_edges (node_loop json d).seen_node_ids [] [] 0 d.edges
  unfolding edge_loop
  edge_loop-errors =
      visit_edges-errors (node_loop json d).seen_node_ids 0 d.edges _
      ∙ ap (λ es. es ++ report_edges (node_loop json d).seen_node_ids [] [] 0 d.edges)
          node_loop-errors

  -- The errors of a draft: those of its nodes, of its edges, and of its root.
  unfoldable pub reported : List DraftError
  reported =
      (report_nodes json [] 0 d.nodes
        ++ report_edges (node_loop json d).seen_node_ids [] [] 0 d.edges)
      ++ check_root (node_loop json d).seen_node_ids d.root_node_id

  node_loop-nodes : (node_loop json d).nodes ≡ map (write_node json) d.nodes
  unfolding node_loop
  node_loop-nodes = visit_nodes-nodes json 0 d.nodes _

  edge_loop-edges : (edge_loop json d).edges ≡ map write_edge d.edges
  unfolding edge_loop
  edge_loop-edges = visit_edges-edges (node_loop json d).seen_node_ids 0 d.edges _

  -- The loops in closed form.
  pub serialize_playbook_draft-conclude :
      serialize_playbook_draft json d ≡ conclude reported written
  unfolding serialize_playbook_draft reported written
  serialize_playbook_draft-conclude = rw (edge_loop-errors, node_loop-nodes, edge_loop-edges)

  reported-nil : reported ≡ [] → IsWritable json d
  unfolding reported
  reported-nil h =
      let (loops, root) = append-eq-nil _ _ h in
      let (nodes, edges) = append-eq-nil _ _ loops in
      let (nodes_distinct, nodes_writable) = report_nodes-nil json [] 0 d.nodes nodes in
      let known = (node_loop json d).seen_node_ids in
      let (edges_distinct, edges_writable, apart) =
        (report_edges-nil_iff known (node_ids d.nodes) node_loop-seen d.edges).0 edges in
      record {
        nodes_distinct = (DistinctFrom-nil_iff _).0 nodes_distinct;
        nodes_writable = nodes_writable;
        edges_distinct = (DistinctFrom-nil_iff _).0 edges_distinct;
        edges_writable = edges_writable;
        labels_apart = apart;
        root_known = (check_root-nil_iff known _ d.root_node_id (node_loop-seen _)).0 root;
      }

  reported-eq : IsWritable json d → reported ≡ []
  unfolding reported
  reported-eq w =
      let known = (node_loop json d).seen_node_ids in
      rw (
        report_nodes-eq json [] 0 d.nodes ((DistinctFrom-nil_iff _).1 w.nodes_distinct)
            w.nodes_writable,
        (report_edges-nil_iff known (node_ids d.nodes) node_loop-seen d.edges).1
            ((DistinctFrom-nil_iff _).1 w.edges_distinct, w.edges_writable, w.labels_apart),
        (check_root-nil_iff known (node_ids d.nodes) d.root_node_id (node_loop-seen _)).1
            w.root_known,
      )

  -- A draft is accepted exactly if it keeps every write-time rule, and the graph that is returned
  -- then is the one that its nodes and edges are written to.
  pub serialize-ok_iff :
      (g : PlaybookGraphInput)
      → (serialize_playbook_draft json d ≡ ok g) ↔ (IsWritable json d × (written ≡ g))
  serialize-ok_iff g = (
    λ h.
        let (none, same) =
          (conclude-ok_iff reported written g).0 (sym serialize_playbook_draft-conclude ∙ h) in
        (reported-nil none, same),
    λ h.
        serialize_playbook_draft-conclude
        ∙ (conclude-ok_iff reported written g).1 (reported-eq h.0, h.1),
  )
