-- ===== src/Draft/Rules/Nodes.antt =====
-- The loop over the nodes reports nothing exactly on nodes that are writable and distinct.
use interbellum.Common.{
  ℕ, suc, List, [], ◌∷◌, false, ◌≡◌, refl, ◌↔◌, inl, inr, ◌⊎◌, arith, Option, none, some, All,
  append-eq-nil,
}
use interbellum.Text.{Text, trim}
use interbellum.Text.Sets.{has, add, DistinctFrom}
use interbellum.Types.{Uuid, JsonValue, JsonObject, obj, null, bool, num, str, arr}
use interbellum.Json.{JsonEngine}
use interbellum.Draft.{NodeDraft}
use interbellum.Draft.Serialize.Nodes.{
  parsed_metadata, metadata_of_text, parse_metadata, check_node,
}
use interbellum.Draft.Serialize.Loops.{report_nodes}
use interbellum.Draft.Rules.{IsMetadata, IsWritableNode, node_ids}

parsed_metadata-error :
    (parsed : Option JsonValue)
    → (parsed_metadata parsed).error ≡ none
    → (fields : JsonObject) × (parsed ≡ some (obj fields))
unfolding parsed_metadata
parsed_metadata-error none h = cc
parsed_metadata-error (some null) h = cc
parsed_metadata-error (some (bool b)) h = cc
parsed_metadata-error (some (num n)) h = cc
parsed_metadata-error (some (str t)) h = cc
parsed_metadata-error (some (arr items)) h = cc
parsed_metadata-error (some (obj o)) h = (o, refl)

module _ (json : JsonEngine) where
  metadata_of_text-error :
      (s : Text)
      → (metadata_of_text json s).error ≡ none
      → (s ≡ []) ⊎ ((fields : JsonObject) × (json.parse s ≡ some (obj fields)))
  unfolding metadata_of_text
  metadata_of_text-error [] h = inl refl
  metadata_of_text-error (c ∷ s) h = inr (parsed_metadata-error (json.parse (c ∷ s)) h)

  metadata_of_text-eq :
      (s : Text) (fields : JsonObject)
      → json.parse s ≡ some (obj fields)
      → (metadata_of_text json s).error ≡ none
  unfolding metadata_of_text parsed_metadata
  metadata_of_text-eq [] o h = refl
  metadata_of_text-eq (c ∷ s) o h = rw h

  -- No error is reported exactly on what is blank or writes an object.
  pub parse_metadata-IsMetadata :
      (raw : Text) → ((parse_metadata json raw).error ≡ none) ↔ IsMetadata json raw
  unfolding parse_metadata metadata_of_text
  parse_metadata-IsMetadata raw = (
    metadata_of_text-error (trim raw),
    λ ok. elim ok [
      | inl blank ↦ rw blank
      | inr (o, parsed) ↦ metadata_of_text-eq (trim raw) o parsed
    ],
  )

  check_node-fresh :
      (seen : List Uuid) (index : ℕ) (n : NodeDraft)
      → check_node json seen index n ≡ []
      → (has seen n.id ≡ false) × IsWritableNode json n
  unfolding check_node
  check_node-fresh seen index n h = (
    ground arith,
    record {
      title = ground arith;
      resolution = ground arith;
      metadata = (parse_metadata-IsMetadata n.metadata).0 (ground arith);
    },
  )

  check_node-eq :
      (seen : List Uuid) (index : ℕ) (n : NodeDraft)
      → has seen n.id ≡ false
      → IsWritableNode json n
      → check_node json seen index n ≡ []
  unfolding check_node
  check_node-eq seen index n fresh w =
      ground (arith, (parse_metadata-IsMetadata n.metadata).1 w.metadata)

  pub report_nodes-nil :
      (seen : List Uuid) (index : ℕ) (ns : List NodeDraft)
      → report_nodes json seen index ns ≡ []
      → DistinctFrom seen (node_ids ns) × All (IsWritableNode json) ns
  unfolding report_nodes
  report_nodes-nil seen index [] h = (tt, tt)
  report_nodes-nil seen index (n ∷ ns) h =
      let (now, later) = append-eq-nil _ _ h in
      let (fresh, writable) = check_node-fresh seen index n now in
      let (distinct, rest) = report_nodes-nil (add seen n.id) (suc index) ns later in
      ((fresh, distinct), (writable, rest))

  pub report_nodes-eq :
      (seen : List Uuid) (index : ℕ) (ns : List NodeDraft)
      → DistinctFrom seen (node_ids ns)
      → All (IsWritableNode json) ns
      → report_nodes json seen index ns ≡ []
  unfolding report_nodes
  report_nodes-eq seen index [] h k = refl
  report_nodes-eq seen index (n ∷ ns) h k =
      rw
        (check_node-eq seen index n h.0 k.0, report_nodes-eq (add seen n.id) (suc index) ns h.1 k.1)
