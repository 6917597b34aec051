-- ===== src/Draft/Faults/Nodes.antt =====
-- The loop over the nodes reports the faults of the nodes, and nothing else.
use interbellum.Common.{
  ℕ, suc, ◌+◌, List, [], ◌∷◌, ◌++◌, Bool, true, false, ◌&&◌, ◌||◌, ◌≡◌, ◌≢◌, refl, sym, ◌∙◌, ap,
  subst, inl, arith, Option, none, some, All, All-append, Any, Any-append_left, Any-append_right,
  length, length-append, append_assoc, is_empty, map-append, append-nil,
}
use interbellum.Text.{Text, trim, ◌==◌}
use interbellum.Text.Sets.{has, add, has-add, has-append, has-single, has_iff}
use interbellum.Integers.{pos}
use interbellum.Types.{Uuid}
use interbellum.Json.{JsonEngine}
use interbellum.Draft.{NodeDraft, PlaybookDraft, is_terminal}
use interbellum.Draft.Errors.{
  DraftError, DraftErrorField, node, id, title, terminal_resolution, metadata, label, from_node_id,
  to_node_id, root_node_id, push_if, error_at,
}
use interbellum.Draft.Serialize.Nodes.{check_node, metadata_errors}
use interbellum.Draft.Serialize.Loops.{report_nodes}
use interbellum.Draft.Rules.{node_ids}
use interbellum.Draft.Rules.Nodes.{parse_metadata-IsMetadata}
use interbellum.Draft.Faults.{NodeFault, IsFault, IsAbout}

pub push_if-All :
    (P : DraftError → Type 0) (b : Bool) (err : DraftError)
    → (b ≡ true → P err)
    → All P (push_if b err)
push_if-All P true err h = (h refl, tt)
push_if-All P false err h = tt

pub push_if-Any :
    (P : DraftError → Type 0) (b : Bool) (err : DraftError)
    → b ≡ true
    → P err
    → Any P (push_if b err)
push_if-Any P true err h p = inl p
push_if-Any P false err h p = cc

metadata_errors-All :
    (P : DraftError → Type 0) (index : ℕ) (o : Option Text)
    → (o ≢ none → (m : Text) → P (error_at node index metadata m))
    → All P (metadata_errors index o)
metadata_errors-All P index none h = tt
metadata_errors-All P index (some m) h = (h (λ e. cc) m, tt)

metadata_errors-Any :
    (index : ℕ) (o : Option Text)
    → o ≢ none
    → Any (IsAbout node (pos index) metadata) (metadata_errors index o)
metadata_errors-Any index none h = absurd (h refl)
metadata_errors-Any index (some m) h = inl (refl, refl, refl)

module _ (json : JsonEngine) (d : PlaybookDraft) where
  check_node_sound :
      (pre rest : List NodeDraft) (n : NodeDraft) (seen : List Uuid) (index : ℕ)
      → index ≡ length pre
      → d.nodes ≡ pre ++ n ∷ rest
      → has seen n.id ≡ has (node_ids pre) n.id
      → All (IsFault json d) (check_node json seen index n)
  unfolding check_node
  check_node_sound pre rest n seen index at e same =
      All-append _ _ _
        (push_if-All (IsFault json d) _ _
          (λ h. (pre, n, rest, e, ap pos at, (has_iff _ _).0 (sym same ∙ h))))
        (All-append _ _ _
          (push_if-All (IsFault json d) (is_empty (trim n.title)) _
            (λ h. (pre, n, rest, e, ap pos at, ground arith)))
          (All-append _ _ _
            (push_if-All (IsFault json d)
              (is_terminal n.kind && is_empty (trim n.terminal_resolution)) _
              (λ h. (pre, n, rest, e, ap pos at, (ground arith, ground arith))))
            (metadata_errors-All _ index _ λ h m. (
              pre,
              n,
              rest,
              e,
              ap pos at,
              λ ok. h ((parse_metadata-IsMetadata json n.metadata).1 ok),
            ))))

  has-snoc :
      (pre : List NodeDraft) (n : NodeDraft) (x : Uuid)
      → has (node_ids (pre ++ n ∷ [])) x ≡ (has (node_ids pre) x || n.id == x)
  has-snoc pre n x =
      ap (λ ids. has ids x) (map-append (λ n. n.id) pre (n ∷ []))
      ∙ has-append (node_ids pre) (n.id ∷ []) x
      ∙ ap (λ b. has (node_ids pre) x || b) (has-single n.id x)

  seen-snoc :
      (pre : List NodeDraft) (n : NodeDraft) (seen : List Uuid)
      → ((x : Uuid) → has seen x ≡ has (node_ids pre) x)
      → (x : Uuid) → has (add seen n.id) x ≡ has (node_ids (pre ++ n ∷ [])) x
  seen-snoc pre n seen same x =
      has-add seen n.id x ∙ ap (λ b. b || n.id == x) (same x) ∙ sym (has-snoc pre n x)

  report_nodes_sound :
      (pre ns : List NodeDraft) (seen : List Uuid) (index : ℕ)
      → index ≡ length pre
      → d.nodes ≡ pre ++ ns
      → ((x : Uuid) → has seen x ≡ has (node_ids pre) x)
      → All (IsFault json d) (report_nodes json seen index ns)
  unfolding report_nodes
  report_nodes_sound pre [] seen index at e same = tt
  report_nodes_sound pre (n ∷ ns) seen index at e same =
      All-append _ _ _ (check_node_sound pre ns n seen index at e (same n.id)) (
        report_nodes_sound (pre ++ n ∷ []) ns (add seen n.id) (suc index)
          (omega (arith, length-append pre (n ∷ []))) (e ∙ sym (append_assoc pre (n ∷ []) ns))
          (seen-snoc pre n seen same))

  -- Each error of the nodes is a fault of the draft.
  pub report_nodes-IsFault : All (IsFault json d) (report_nodes json [] 0 d.nodes)
  report_nodes-IsFault = report_nodes_sound [] d.nodes [] 0 (omega arith) refl (λ x. refl)

  check_node_complete :
      (pre : List NodeDraft) (n : NodeDraft) (seen : List Uuid) (index : ℕ) (f : DraftErrorField)
      → has seen n.id ≡ has (node_ids pre) n.id
      → NodeFault json pre n f
      → Any (IsAbout node (pos index) f) (check_node json seen index n)
  unfolding check_node
  check_node_complete pre n seen index id same h =
      let P = IsAbout node (pos index) id in
      Any-append_left P _ _
        (push_if-Any P (has seen n.id) _ (same ∙ (has_iff _ _).1 h) (refl, refl, refl))
  check_node_complete pre n seen index title same h =
      let P = IsAbout node (pos index) title in
      Any-append_right P (push_if (has seen n.id) _) _ (
        Any-append_left P _ _
          (push_if-Any P (is_empty (trim n.title)) _ (ground arith) (refl, refl, refl)))
  check_node_complete pre n seen index terminal_resolution same (k, h) =
      let P = IsAbout node (pos index) terminal_resolution in
      Any-append_right P (push_if (has seen n.id) _) _ (
        Any-append_right P (push_if (is_empty (trim n.title)) _) _ (
          Any-append_left P _ _ (
            push_if-Any P (is_terminal n.kind && is_empty (trim n.terminal_resolution)) _
              (ground arith) (refl, refl, refl))))
  check_node_complete pre n seen index metadata same h =
      let P = IsAbout node (pos index) metadata in
      Any-append_right P (push_if (has seen n.id) _) _ (
        Any-append_right P (push_if (is_empty (trim n.title)) _) _ (
          Any-append_right P
            (push_if (is_terminal n.kind && is_empty (trim n.terminal_resolution)) _) _
            (metadata_errors-Any index _ λ e. h ((parse_metadata-IsMetadata json n.metadata).0 e))))
  check_node_complete pre n seen index label same h = elim h [ ]
  check_node_complete pre n seen index from_node_id same h = elim h [ ]
  check_node_complete pre n seen index to_node_id same h = elim h [ ]
  check_node_complete pre n seen index root_node_id same h = elim h [ ]

  report_nodes_complete :
      (old pre rest : List NodeDraft) (n : NodeDraft) (seen : List Uuid) (index : ℕ)
      (f : DraftErrorField)
      → ((x : Uuid) → has seen x ≡ has (node_ids old) x)
      → NodeFault json (old ++ pre) n f
      → Any
          (IsAbout node (pos (index + length pre)) f)
          (report_nodes json seen index (pre ++ n ∷ rest))
  unfolding report_nodes
  report_nodes_complete old [] rest n seen index f same h = Any-append_left _ _ _ (
      subst (λ k. Any (IsAbout node (pos k) f) (check_node json seen index n)) (omega arith)
        (check_node_complete old n seen index f (same n.id)
          (subst (λ l. NodeFault json l n f) (append-nil old) h)))
  report_nodes_complete old (m ∷ pre) rest n seen index f same h = Any-append_right _ _ _ (
      subst
        (λ k.
          Any (IsAbout node (pos k) f)
            (report_nodes json (add seen m.id) (suc index) (pre ++ n ∷ rest)))
        (omega arith)
        (report_nodes_complete (old ++ m ∷ []) pre rest n (add seen m.id) (suc index) f
          (seen-snoc old m seen same)
          (subst (λ l. NodeFault json l n f) (sym (append_assoc old (m ∷ []) pre)) h)))

  -- Each fault of a node is reported.
  pub report_nodes-Any :
      (pre rest : List NodeDraft) (n : NodeDraft) (f : DraftErrorField)
      → d.nodes ≡ pre ++ n ∷ rest
      → NodeFault json pre n f
      → Any (IsAbout node (pos (length pre)) f) (report_nodes json [] 0 d.nodes)
  report_nodes-Any pre rest n f e h =
      subst (λ ns. Any (IsAbout node (pos (length pre)) f) (report_nodes json [] 0 ns)) (sym e)
        (subst (λ k. Any (IsAbout node (pos k) f) (report_nodes json [] 0 (pre ++ n ∷ rest)))
          (omega arith) (report_nodes_complete [] pre rest n [] 0 f (λ x. refl) h))
