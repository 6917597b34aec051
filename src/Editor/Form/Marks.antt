-- ===== src/Editor/Form/Marks.antt =====
-- Each error that a save is rejected with is shown at the row and the control that it is about.
use interbellum.Common.{
  ℕ, suc, ◌+◌, List, [], ◌∷◌, ◌++◌, true, ◌≡◌, refl, sym, ◌∙◌, ap, subst, inl, inr, arith, Option,
  none, some, All, All-imp, Any, Mem, Nodup, get_elem?, length, map, map-append, Bool-cases,
  is_empty,
}
use interbellum.Text.{Text}
use interbellum.Text.Sets.{has, has_iff, has-before}
use interbellum.Integers.{ℤ, pos}
use interbellum.Types.{Uuid}
use interbellum.Json.{JsonEngine}
use interbellum.Draft.{NodeDraft, EdgeDraft, PlaybookDraft}
use interbellum.Draft.Errors.{
  DraftError, DraftScope, node, edge, root, DraftErrorField, id, title, terminal_resolution,
  metadata, label, from_node_id, to_node_id, root_node_id, rejected,
}
use interbellum.Draft.Serialize.{serialize_playbook_draft}
use interbellum.Draft.Rules.{node_ids, edge_ids}
use interbellum.Draft.Faults.{NodeFault, EdgeFault, FaultAt, IsAbout}
use interbellum.Draft.Faults.Reported.{serialize-rejected}
use interbellum.Editor.Closed.{IsClosed}
use interbellum.Editor.Form.Messages.{IsMessage, error_for-Any}
use interbellum.Editor.Form.{
  error_for, PlacedNode, placed_from, NodeRow, resolution_input, node_row, node_rows, EdgeRow,
  edge_row, edge_rows,
}

-- The message under a control of a row.
abbrev under_resolution : Option (Text × Option Text) → Option Text
under_resolution none = none
under_resolution (some (value, message)) = message

abbrev node_mark : NodeRow → DraftErrorField → Option Text
node_mark r title = r.title_error
node_mark r terminal_resolution = under_resolution r.resolution
node_mark r metadata = r.metadata_error
node_mark r _ = none

abbrev edge_mark : EdgeRow → DraftErrorField → Option Text
edge_mark r from_node_id = r.from_error
edge_mark r label = r.label_error
edge_mark r to_node_id = r.to_error
edge_mark r _ = none

-- A row at the place of the error has the message of such an error at its field.
abbrev pub IsMarked :
    List DraftError → List NodeRow → List EdgeRow → DraftScope → ℤ → DraftErrorField → Type 0
IsMarked es nodes edges node index f =
    (i : ℕ) × (r : NodeRow) × (message : Text) × (index ≡ pos i)
    × (get_elem? nodes i ≡ some r)
    × (node_mark r f ≡ some message)
    × IsMessage es node index f message
IsMarked es nodes edges edge index f =
    (i : ℕ) × (r : EdgeRow) × (message : Text) × (index ≡ pos i)
    × (get_elem? edges i ≡ some r)
    × (edge_mark r f ≡ some message)
    × IsMessage es edge index f message
IsMarked es nodes edges root index f = ⊥

get_elem?-node_rows_at :
    (es : List DraftError) (root_id : Uuid) (k : ℕ) (pre rest : List NodeDraft) (n : NodeDraft)
    → get_elem? (node_rows es root_id k (pre ++ n ∷ rest)) (length pre)
      ≡ some (node_row es root_id (k + length pre) n)
unfolding node_rows
get_elem?-node_rows_at es root_id k [] rest n =
    ap (λ i. some (node_row es root_id i n)) (omega arith)
get_elem?-node_rows_at es root_id k (m ∷ pre) rest n =
    get_elem?-node_rows_at es root_id (suc k) pre rest n
    ∙ ap (λ i. some (node_row es root_id i n)) (omega arith)

get_elem?-edge_rows_at :
    (es : List DraftError) (nodes : List PlacedNode) (k : ℕ) (pre rest : List EdgeDraft)
    (e : EdgeDraft)
    → get_elem? (edge_rows es nodes k (pre ++ e ∷ rest)) (length pre)
      ≡ some (edge_row es nodes (k + length pre) e)
unfolding edge_rows
get_elem?-edge_rows_at es nodes k [] rest e = ap (λ i. some (edge_row es nodes i e)) (omega arith)
get_elem?-edge_rows_at es nodes k (f ∷ pre) rest e =
    get_elem?-edge_rows_at es nodes (suc k) pre rest e
    ∙ ap (λ i. some (edge_row es nodes i e)) (omega arith)

not-repeated {ℓ} :
    {A : Type ℓ} (f : A → Uuid) (pre rest : List A) (x : A)
    → Nodup (map f (pre ++ x ∷ rest))
    → ¬ Mem (f x) (map f pre)
not-repeated f pre rest x h m =
    let out =
      has-before (map f pre) (map f rest) (f x) (subst Nodup (map-append f pre (x ∷ rest)) h) in
    let seen = (has_iff _ _).1 m in absurd (cc)

module _ (json : JsonEngine) (d : PlaybookDraft) (es : List DraftError)
    (told : (s : DraftScope) (i : ℤ) (f : DraftErrorField)
      → FaultAt json d s i f
      → Any (IsAbout s i f) es)
    (nodes : Nodup (node_ids d.nodes)) (edges : Nodup (edge_ids d.edges)) where
  IsMessage-at :
      (s : DraftScope) (i : ℕ) (f : DraftErrorField)
      → FaultAt json d s (pos i) f
      → (message : Text) × (error_for es s i f ≡ some message) × IsMessage es s (pos i) f message
  IsMessage-at s i f fault = error_for-Any es s i f (told s (pos i) f fault)

  node_row_at :
      (pre rest : List NodeDraft) (n : NodeDraft)
      → d.nodes ≡ pre ++ n ∷ rest
      → get_elem? (node_rows es d.root_node_id 0 d.nodes) (length pre)
        ≡ some (node_row es d.root_node_id (length pre) n)
  node_row_at pre rest n e =
      ap (λ ns. get_elem? (node_rows es d.root_node_id 0 ns) (length pre)) e
      ∙ get_elem?-node_rows_at es d.root_node_id 0 pre rest n
      ∙ ap (λ i. some (node_row es d.root_node_id i n)) (omega arith)

  edge_row_at :
      (pre rest : List EdgeDraft) (x : EdgeDraft)
      → d.edges ≡ pre ++ x ∷ rest
      → get_elem? (edge_rows es (placed_from 0 d.nodes) 0 d.edges) (length pre)
        ≡ some (edge_row es (placed_from 0 d.nodes) (length pre) x)
  edge_row_at pre rest x e =
      ap (λ xs. get_elem? (edge_rows es (placed_from 0 d.nodes) 0 xs) (length pre)) e
      ∙ get_elem?-edge_rows_at es (placed_from 0 d.nodes) 0 pre rest x
      ∙ ap (λ i. some (edge_row es (placed_from 0 d.nodes) i x)) (omega arith)

  node_mark-of_message :
      (i : ℕ) (n : NodeDraft) (f : DraftErrorField) (message : Text)
      → (pre : List NodeDraft) → ¬ Mem n.id (node_ids pre)
      → NodeFault json pre n f
      → error_for es node i f ≡ some message
      → node_mark (node_row es d.root_node_id i n) f ≡ some message
  unfolding node_row
  node_mark-of_message i n id message pre new fault e = absurd (new fault)
  node_mark-of_message i n title message pre new fault e = e
  node_mark-of_message i n terminal_resolution message pre new (kind, blank) e =
      ap (λ k. under_resolution (resolution_input n k (error_for es node i terminal_resolution)))
        kind
      ∙ e
  node_mark-of_message i n metadata message pre new fault e = e
  node_mark-of_message i n label message pre new fault e = absurd fault
  node_mark-of_message i n from_node_id message pre new fault e = absurd fault
  node_mark-of_message i n to_node_id message pre new fault e = absurd fault
  node_mark-of_message i n root_node_id message pre new fault e = absurd fault

  edge_mark-of_message :
      (i : ℕ) (x : EdgeDraft) (f : DraftErrorField) (message : Text)
      → (pre : List EdgeDraft) → ¬ Mem x.id (edge_ids pre)
      → EdgeFault (node_ids d.nodes) pre x f
      → error_for es edge i f ≡ some message
      → edge_mark (edge_row es (placed_from 0 d.nodes) i x) f ≡ some message
  unfolding edge_row
  edge_mark-of_message i x id message pre new fault e = absurd (new fault)
  edge_mark-of_message i x label message pre new fault e = e
  edge_mark-of_message i x from_node_id message pre new fault e = e
  edge_mark-of_message i x to_node_id message pre new fault e = e
  edge_mark-of_message i x title message pre new fault e = absurd fault
  edge_mark-of_message i x terminal_resolution message pre new fault e = absurd fault
  edge_mark-of_message i x metadata message pre new fault e = absurd fault
  edge_mark-of_message i x root_node_id message pre new fault e = absurd fault

  fault-IsMarked :
      IsClosed d
      → (s : DraftScope) (i : ℤ) (f : DraftErrorField) → FaultAt json d s i f
      → IsMarked es
          (node_rows es d.root_node_id 0 d.nodes)
          (edge_rows es (placed_from 0 d.nodes) 0 d.edges)
          s
          i
          f
  fault-IsMarked closed node i f (pre, n, rest, e, at, fault) =
      let new =
        not-repeated (λ (m : NodeDraft). m.id) pre rest n
          (subst (λ ns. Nodup (node_ids ns)) e nodes) in
      let (message, found, told_by) =
        IsMessage-at node (length pre) f (pre, n, rest, e, refl, fault) in
      (
        length pre,
        _,
        message,
        at,
        node_row_at pre rest n e,
        node_mark-of_message (length pre) n f message pre new fault found,
        subst (λ k. IsMessage es node k f message) (sym at) told_by,
      )
  fault-IsMarked closed edge i f (pre, x, rest, e, at, fault) =
      let new =
        not-repeated (λ (y : EdgeDraft). y.id) pre rest x
          (subst (λ xs. Nodup (edge_ids xs)) e edges) in
      let (message, found, told_by) =
        IsMessage-at edge (length pre) f (pre, x, rest, e, refl, fault) in
      (
        length pre,
        _,
        message,
        at,
        edge_row_at pre rest x e,
        edge_mark-of_message (length pre) x f message pre new fault found,
        subst (λ k. IsMessage es edge k f message) (sym at) told_by,
      )
  fault-IsMarked closed root i f (at, field, set, out) =
      let k = closed.root in
      elim (Bool-cases (has (node_ids d.nodes) d.root_node_id)) [
        | inl old ↦ absurd (out ((has_iff _ _).0 old))
        | inr new ↦ absurd (set (empty_root d.root_node_id (ground arith)))
      ]
    where
      empty_root : (x : Uuid) → is_empty x ≡ true → x ≡ []
      empty_root [] h = refl
      empty_root (c ∷ x) h = cc

-- Where every reference of a draft is to a node that it has, and no two of its nodes and no two of
-- its edges share an identifier, each error that it is rejected with is about a row that the form
-- shows, which then shows the message of such an error under the field that the error names.
pub serialize-IsMarked :
    (json : JsonEngine) (d : PlaybookDraft) (es : List DraftError)
    → Nodup (node_ids d.nodes)
    → Nodup (edge_ids d.edges)
    → IsClosed d
    → serialize_playbook_draft json d ≡ rejected es
    → All
        (λ (err : DraftError).
          IsMarked es
            (node_rows es d.root_node_id 0 d.nodes)
            (edge_rows es (placed_from 0 d.nodes) 0 d.edges)
            err.scope
            err.index
            err.field)
        es
serialize-IsMarked json d es nodes edges closed h =
    let (real, told) = serialize-rejected json d es h in
    All-imp _ _
      (λ err fault.
        fault-IsMarked json d es told nodes edges closed err.scope err.index err.field fault)
      es real
