-- ===== src/Draft/Faults/Edges.antt =====
-- The loop over the edges reports the faults of the edges, and nothing else.
use interbellum.Common.{
  ℕ, suc, ◌+◌, List, [], ◌∷◌, ◌++◌, Bool, true, false, not, ◌&&◌, ◌||◌, ◌≡◌, ◌≢◌, refl, sym, ◌∙◌,
  ap, subst, inl, inr, arith, All, All-append, Any, Any-append_left, Any-append_right, Mem, length,
  length-append, append_assoc, Bool-cases, is_empty, ◌⊎◌, map-append, append-nil,
}
use interbellum.Text.{Text, trim, ◌==◌}
use interbellum.Text.Equality.{==_iff}
use interbellum.Text.Sets.{has, add, has-add, has-append, has-single, has_iff}
use interbellum.Text.Maps.{get}
use interbellum.Integers.{pos}
use interbellum.Types.{Uuid}
use interbellum.Json.{JsonEngine}
use interbellum.Draft.{EdgeDraft, PlaybookDraft}
use interbellum.Draft.Errors.{
  DraftError, DraftErrorField, edge, id, title, terminal_resolution, metadata, label, from_node_id,
  to_node_id, root_node_id, push_if, error_at,
}
use interbellum.Draft.Serialize.Edges.{
  check_edge, check_endpoint, check_label, is_labelled, note_label,
}
use interbellum.Draft.Serialize.Loops.{report_edges}
use interbellum.Draft.Rules.{node_ids, edge_ids}
use interbellum.Draft.Rules.Labels.{is_taken, clashes, note_label-is_taken}
use interbellum.Draft.Faults.{EdgeFault, IsFault, IsAbout, IsRepeat}
use interbellum.Draft.Faults.Nodes.{push_if-All, push_if-Any}

-- Some edge of the list clashes with this one.
abbrev clashes_any : List EdgeDraft → EdgeDraft → Bool
clashes_any [] f = false
clashes_any (e ∷ es) f = clashes_any es f || clashes e f

clashes_any-snoc :
    (pre : List EdgeDraft) (e f : EdgeDraft)
    → clashes_any (pre ++ e ∷ []) f ≡ (clashes_any pre f || clashes e f)
clashes_any-snoc [] e f = refl
clashes_any-snoc (d ∷ pre) e f = ground (arith, clashes_any-snoc pre e f)

IsRepeat-of_clashes :
    (pre : List EdgeDraft) (f : EdgeDraft) → clashes_any pre f ≡ true → Any (IsRepeat f) pre
IsRepeat-of_clashes [] f h = cc
IsRepeat-of_clashes (e ∷ pre) f h = elim (Bool-cases (clashes_any pre f)) [
  | inl before ↦ inr (IsRepeat-of_clashes pre f before)
  | inr new ↦ inl (
    ground (arith, ==_iff e.from_node_id f.from_node_id, ==_iff (trim e.label) (trim f.label)),
    ground (arith, ==_iff e.from_node_id f.from_node_id, ==_iff (trim e.label) (trim f.label)),
  )
]

clashes_of_repeat :
    (e f : EdgeDraft) → IsRepeat f e → f.from_node_id ≢ [] → trim f.label ≢ [] → clashes e f ≡ true
clashes_of_repeat e f (p, q) h k =
    ground (arith, ==_iff e.from_node_id f.from_node_id, ==_iff (trim e.label) (trim f.label))

clashes_any_of_repeat :
    (pre : List EdgeDraft) (f : EdgeDraft)
    → Any (IsRepeat f) pre
    → f.from_node_id ≢ []
    → trim f.label ≢ []
    → clashes_any pre f ≡ true
clashes_any_of_repeat [] f r h k = elim r [ ]
clashes_any_of_repeat (e ∷ pre) f (inl r) h k = ground (arith, clashes_of_repeat e f r h k)
clashes_any_of_repeat (e ∷ pre) f (inr r) h k = ground (arith, clashes_any_of_repeat pre f r h k)

-- `known` is what the loop over the nodes has seen.
module _ (json : JsonEngine) (d : PlaybookDraft) (known : List Uuid)
    (same_known : (x : Uuid) → has known x ≡ has (node_ids d.nodes) x) where
  -- What the loop holds behind the edges `pre`.
  record IsBehind (pre : List EdgeDraft) (seen : List Uuid) (labels : List (Uuid × List Text))
      : Type 0 where
    pub ids : (x : Uuid) → has seen x ≡ has (edge_ids pre) x
    pub taken : (f : EdgeDraft) → is_taken labels f ≡ clashes_any pre f

  check_endpoint-All :
      (P : DraftError → Type 0) (index : ℕ) (field : DraftErrorField) (value : Uuid)
      → ((value ≡ []) ⊎ (¬ Mem value (node_ids d.nodes))
          → (m : Text) → P (error_at edge index field m))
      → All P (check_endpoint known index field value)
  unfolding check_endpoint
  check_endpoint-All P index field [] h = (h (inl refl) _, tt)
  check_endpoint-All P index field (c ∷ s) h =
      push_if-All P (not (has known (c ∷ s))) _
        λ k. h (inr (λ m. let old = (has_iff _ _).1 m in ground (arith, same_known (c ∷ s)))) _

  check_endpoint-Any :
      (index : ℕ) (field : DraftErrorField) (value : Uuid)
      → (value ≡ []) ⊎ (¬ Mem value (node_ids d.nodes))
      → Any (IsAbout edge (pos index) field) (check_endpoint known index field value)
  unfolding check_endpoint
  check_endpoint-Any index field [] h = inl (refl, refl, refl)
  check_endpoint-Any index field (c ∷ s) (inl e) = cc
  check_endpoint-Any index field (c ∷ s) (inr out) = elim (Bool-cases (has known (c ∷ s))) [
    | inl in_draft ↦ absurd (out ((has_iff _ _).0 (sym (same_known (c ∷ s)) ∙ in_draft)))
    | inr absent ↦
        push_if-Any (IsAbout edge (pos index) field) (not (has known (c ∷ s))) _ (ground arith)
          (refl, refl, refl)
  ]

  check_edge_sound :
      (pre rest : List EdgeDraft) (e : EdgeDraft) (seen : List Uuid)
      (labels : List (Uuid × List Text)) (index : ℕ)
      → index ≡ length pre
      → d.edges ≡ pre ++ e ∷ rest
      → IsBehind pre seen labels
      → All (IsFault json d) (check_edge known seen labels index e)
  unfolding check_edge check_label
  check_edge_sound pre rest e seen labels index at eq behind =
      All-append _ _ _
        (push_if-All (IsFault json d) (has seen e.id) _
          λ h. (pre, e, rest, eq, ap pos at, (has_iff _ _).0 (sym (behind.ids e.id) ∙ h)))
        (All-append _ _ _
          (push_if-All (IsFault json d) (is_empty (trim e.label)) _
            λ h. (pre, e, rest, eq, ap pos at, inl (ground arith)))
          (All-append _ _ _
            (check_endpoint-All (IsFault json d) index from_node_id e.from_node_id
              λ h m. (pre, e, rest, eq, ap pos at, h))
            (All-append _ _ _
              (check_endpoint-All (IsFault json d) index to_node_id e.to_node_id
                λ h m. (pre, e, rest, eq, ap pos at, h))
              (push_if-All (IsFault json d) (is_labelled e && is_taken labels e) _ λ h. (
                pre,
                e,
                rest,
                eq,
                ap pos at,
                inr (
                  ground arith,
                  ground arith,
                  IsRepeat-of_clashes pre e (sym (behind.taken e) ∙ ground arith),
                ),
              )))))

  IsBehind-next :
      (pre : List EdgeDraft) (e : EdgeDraft) (seen : List Uuid) (labels : List (Uuid × List Text))
      → IsBehind pre seen labels
      → IsBehind (pre ++ e ∷ []) (add seen e.id) (note_label labels e)
  IsBehind-next pre e seen labels h = record {
    ids = λ x.
        has-add seen e.id x
        ∙ ap (λ b. b || e.id == x) (h.ids x)
        ∙ sym (
            ap (λ ids. has ids x) (map-append (λ e. e.id) pre (e ∷ []))
            ∙ has-append (edge_ids pre) (e.id ∷ []) x
            ∙ ap (λ b. has (edge_ids pre) x || b) (has-single e.id x));
    taken = λ f.
        note_label-is_taken labels e f
        ∙ ap (λ b. b || clashes e f) (h.taken f)
        ∙ sym (clashes_any-snoc pre e f);
  }

  report_edges_sound :
      (pre es : List EdgeDraft) (seen : List Uuid) (labels : List (Uuid × List Text)) (index : ℕ)
      → index ≡ length pre
      → d.edges ≡ pre ++ es
      → IsBehind pre seen labels
      → All (IsFault json d) (report_edges known seen labels index es)
  unfolding report_edges
  report_edges_sound pre [] seen labels index at eq behind = tt
  report_edges_sound pre (e ∷ es) seen labels index at eq behind =
      All-append _ _ _ (check_edge_sound pre es e seen labels index at eq behind) (
        report_edges_sound (pre ++ e ∷ []) es (add seen e.id) (note_label labels e) (suc index)
          (omega (arith, length-append pre (e ∷ []))) (eq ∙ sym (append_assoc pre (e ∷ []) es))
          (IsBehind-next pre e seen labels behind))

  IsBehind-none : IsBehind [] [] []
  unfolding has get
  IsBehind-none = record { ids = λ x. refl; taken = λ f. refl }

  -- Each error of the edges is a fault of the draft.
  pub report_edges-IsFault : All (IsFault json d) (report_edges known [] [] 0 d.edges)
  report_edges-IsFault = report_edges_sound [] d.edges [] [] 0 (omega arith) refl IsBehind-none

  check_edge_complete :
      (pre : List EdgeDraft) (e : EdgeDraft) (seen : List Uuid) (labels : List (Uuid × List Text))
      (index : ℕ) (f : DraftErrorField)
      → IsBehind pre seen labels
      → EdgeFault (node_ids d.nodes) pre e f
      → Any (IsAbout edge (pos index) f) (check_edge known seen labels index e)
  unfolding check_edge check_label
  check_edge_complete pre e seen labels index id behind h =
      let P = IsAbout edge (pos index) id in
      Any-append_left P _ _
        (push_if-Any P (has seen e.id) _ (behind.ids e.id ∙ (has_iff _ _).1 h) (refl, refl, refl))
  check_edge_complete pre e seen labels index label behind (inl h) =
      let P = IsAbout edge (pos index) label in
      Any-append_right P (push_if (has seen e.id) _) _ (
        Any-append_left P _ _
          (push_if-Any P (is_empty (trim e.label)) _ (ground arith) (refl, refl, refl)))
  check_edge_complete pre e seen labels index label behind (inr (h, k, r)) =
      let P = IsAbout edge (pos index) label in
      let taken : is_taken labels e ≡ true = behind.taken e ∙ clashes_any_of_repeat pre e r h k in
      Any-append_right P (push_if (has seen e.id) _) _ (
        Any-append_right P (push_if (is_empty (trim e.label)) _) _ (
          Any-append_right P (check_endpoint known index from_node_id e.from_node_id) _ (
            Any-append_right P (check_endpoint known index to_node_id e.to_node_id) _ (
              push_if-Any P (is_labelled e && is_taken labels e) _ (ground arith)
                (refl, refl, refl)))))
  check_edge_complete pre e seen labels index from_node_id behind h =
      let P = IsAbout edge (pos index) from_node_id in
      Any-append_right P (push_if (has seen e.id) _) _ (
        Any-append_right P (push_if (is_empty (trim e.label)) _) _
          (Any-append_left P _ _ (check_endpoint-Any index from_node_id e.from_node_id h)))
  check_edge_complete pre e seen labels index to_node_id behind h =
      let P = IsAbout edge (pos index) to_node_id in
      Any-append_right P (push_if (has seen e.id) _) _ (
        Any-append_right P (push_if (is_empty (trim e.label)) _) _ (
          Any-append_right P (check_endpoint known index from_node_id e.from_node_id) _
            (Any-append_left P _ _ (check_endpoint-Any index to_node_id e.to_node_id h))))
  check_edge_complete pre e seen labels index title behind h = elim h [ ]
  check_edge_complete pre e seen labels index terminal_resolution behind h = elim h [ ]
  check_edge_complete pre e seen labels index metadata behind h = elim h [ ]
  check_edge_complete pre e seen labels index root_node_id behind h = elim h [ ]

  report_edges_complete :
      (old pre rest : List EdgeDraft) (e : EdgeDraft) (seen : List Uuid)
      (labels : List (Uuid × List Text)) (index : ℕ) (f : DraftErrorField)
      → IsBehind old seen labels
      → EdgeFault (node_ids d.nodes) (old ++ pre) e f
      → Any
          (IsAbout edge (pos (index + length pre)) f)
          (report_edges known seen labels index (pre ++ e ∷ rest))
  unfolding report_edges
  report_edges_complete old [] rest e seen labels index f behind h = Any-append_left _ _ _ (
      subst (λ k. Any (IsAbout edge (pos k) f) (check_edge known seen labels index e)) (omega arith)
        (check_edge_complete old e seen labels index f behind
          (subst (λ l. EdgeFault (node_ids d.nodes) l e f) (append-nil old) h)))
  report_edges_complete old (m ∷ pre) rest e seen labels index f behind h = Any-append_right _ _ _ (
      subst
        (λ k.
          Any (IsAbout edge (pos k) f) (
            report_edges known (add seen m.id) (note_label labels m) (suc index) (pre ++ e ∷ rest)))
        (omega arith)
        (report_edges_complete (old ++ m ∷ []) pre rest e (add seen m.id) (note_label labels m)
          (suc index) f (IsBehind-next old m seen labels behind)
          (subst (λ l. EdgeFault (node_ids d.nodes) l e f) (sym (append_assoc old (m ∷ []) pre))
            h)))

  -- Each fault of an edge is reported.
  pub report_edges-Any :
      (pre rest : List EdgeDraft) (e : EdgeDraft) (f : DraftErrorField)
      → d.edges ≡ pre ++ e ∷ rest
      → EdgeFault (node_ids d.nodes) pre e f
      → Any (IsAbout edge (pos (length pre)) f) (report_edges known [] [] 0 d.edges)
  report_edges-Any pre rest e f eq h =
      subst (λ es. Any (IsAbout edge (pos (length pre)) f) (report_edges known [] [] 0 es)) (sym eq)
        (subst (λ k. Any (IsAbout edge (pos k) f) (report_edges known [] [] 0 (pre ++ e ∷ rest)))
          (omega arith) (report_edges_complete [] pre rest e [] [] 0 f IsBehind-none h))
