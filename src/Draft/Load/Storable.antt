-- ===== src/Draft/Load/Storable.antt =====
-- What of the API's contract for `PlaybookGraphInput` the serializer leaves to the ids and to the
-- sort orders of the draft: api/openapi.yaml asks for UUIDs, and the column that
-- migrations/000001_init_schema.up.sql stores sort orders in is INTEGER.
use interbellum.Common.{
  ℕ, zero, suc, ◌<◌, List, [], ◌∷◌, Bool, true, false, ◌&&◌, ◌||◌, ◌≡◌, refl, sym, ◌↔◌, inl, inr,
  Option, none, some, All, Mem, map, subst, leb, eqb, Bool-cases,
}
use interbellum.Text.{Text, codes, ◌==◌}
use interbellum.Text.Equality.{==_iff}
use interbellum.Text.Sets.{has, has_iff}
use interbellum.Integers.{ℤ, pos, negsuc}
use interbellum.Types.{Uuid, PlaybookEdge, PlaybookGraphInput}
use interbellum.Json.{JsonEngine}
use interbellum.Draft.{EdgeDraft, PlaybookDraft}
use interbellum.Draft.Errors.{ok}
use interbellum.Draft.Serialize.{serialize_playbook_draft}
use interbellum.Draft.Serialize.Edges.{write_edge, parse_sort_order}
use interbellum.Draft.Rules.{node_ids, edge_ids}
use interbellum.Draft.Rules.Accepts.{written, serialize-ok_iff}
use interbellum.Draft.Load.Contract.{IsCoherentEdge, IsRoot, IsCoherent, graph_node_ids}
use interbellum.Draft.Load.Output.{serialize-IsCoherent, write_node-ids, write_edge-ids}

unfoldable pub is_hex : ℕ → Bool
is_hex c = (leb 48 c && leb c 57) || (leb 65 c && leb c 70) || (leb 97 c && leb c 102)

-- `n` hexadecimal digits, and then what `rest` asks for.
unfoldable pub hex_then : ℕ → (Text → Bool) → Text → Bool
unfolding is_hex
hex_then zero rest s = rest s
hex_then (suc n) rest [] = false
hex_then (suc n) rest (c ∷ s) = is_hex c && hex_then n rest s

unfoldable pub dash_then : (Text → Bool) → Text → Bool
dash_then rest [] = false
dash_then rest (c ∷ s) = eqb c b'-' && rest s

abbrev pub is_end : Text → Bool
is_end [] = true
is_end (c ∷ s) = false

-- 8, 4, 4, 4 and 12 hexadecimal digits between dashes.
unfoldable pub is_uuid : Text → Bool
unfolding hex_then dash_then
is_uuid = hex_then 8 (
    dash_then (
      hex_then 4
        (dash_then (hex_then 4 (dash_then (hex_then 4 (dash_then (hex_then 12 is_end))))))))

is_uuid_tests :
    (is_uuid (codes "a0000000-0000-4000-8000-00000000000F") ≡ true)
    × (is_uuid (codes "a0000000-0000-4000-8000-00000000000") ≡ false)
    × (is_uuid (codes "a0000000-0000-4000-8000-00000000000g") ≡ false)
    × (is_uuid (codes "a0000000-0000-4000-8000-00000000000Fa") ≡ false)
    × (is_uuid [] ≡ false)
unfolding is_uuid codes
is_uuid_tests = (refl, refl, refl, refl, refl)

abbrev pub IsUuid : Text → Type 0
IsUuid s = is_uuid s ≡ true

abbrev pub IsUuidOrNone : Option Text → Type 0
IsUuidOrNone none = Unit {0}
IsUuidOrNone (some s) = IsUuid s

-- From -2^31 to 2^31 - 1: `negsuc n` is -(n + 1).
abbrev pub FitsInteger : ℤ → Type 0
FitsInteger (pos n) = n < 2147483648
FitsInteger (negsuc n) = n < 2147483648

-- A coherent graph whose ids are UUIDs wherever it names one, and whose sort orders can be stored.
pub record IsStorable (g : PlaybookGraphInput) : Type 0 where
  pub coherent : IsCoherent g
  pub node_ids_uuid : All IsUuid (graph_node_ids g)
  pub edge_ids_uuid : All IsUuid (map (λ e. e.id) g.edges)
  pub ends_uuid : All (λ e. IsUuid e.from_node_id × IsUuid e.to_node_id) g.edges
  pub root_uuid : IsUuidOrNone g.root_node_id
  pub sort_orders_fit : All (λ e. FitsInteger e.sort_order) g.edges

uuid-of_has : (ids : List Uuid) (x : Uuid) → All IsUuid ids → has ids x ≡ true → IsUuid x
unfolding has
uuid-of_has [] x h k = cc
uuid-of_has (y ∷ ids) x h k = elim (Bool-cases (y == x)) [
  | inl same ↦ subst IsUuid ((==_iff y x).0 same) h.0
  | inr other ↦ uuid-of_has ids x h.1 (rw other at k)
]

uuid-of_mem : (ids : List Uuid) (x : Uuid) → All IsUuid ids → Mem x ids → IsUuid x
uuid-of_mem ids x h m = uuid-of_has ids x h ((has_iff ids x).1 m)

ends-uuid :
    (ids : List Uuid) (es : List PlaybookEdge)
    → All IsUuid ids
    → All (IsCoherentEdge ids) es
    → All (λ e. IsUuid e.from_node_id × IsUuid e.to_node_id) es
ends-uuid ids [] h k = tt
ends-uuid ids (e ∷ es) h k = (
  (uuid-of_mem ids e.from_node_id h k.0.from_known, uuid-of_mem ids e.to_node_id h k.0.to_known),
  ends-uuid ids es h k.1,
)

root-uuid :
    (ids : List Uuid) (root : Option Uuid) → All IsUuid ids → IsRoot ids root → IsUuidOrNone root
root-uuid ids none h k = tt
root-uuid ids (some r) h k = uuid-of_mem ids r h k.1

sort_orders-fit_iff :
    (es : List EdgeDraft)
    → All (λ (e : PlaybookEdge). FitsInteger e.sort_order) (map write_edge es)
      ↔ All (λ e. FitsInteger (parse_sort_order e.sort_order)) es
unfolding write_edge
sort_orders-fit_iff [] = (λ h. tt, λ h. tt)
sort_orders-fit_iff (e ∷ es) =
    (λ h. (h.0, (sort_orders-fit_iff es).0 h.1), λ h. (h.0, (sort_orders-fit_iff es).1 h.1))

module _ (json : JsonEngine) where
  written-IsStorable_iff :
      (d : PlaybookDraft)
      → IsCoherent (written json d)
      → IsStorable (written json d) ↔ (
          All IsUuid (node_ids d.nodes)
          × All IsUuid (edge_ids d.edges)
          × All (λ e. FitsInteger (parse_sort_order e.sort_order)) d.edges)
  unfolding written
  written-IsStorable_iff d w = (
    λ h. (
      subst (All IsUuid) (write_node-ids json d.nodes) h.node_ids_uuid,
      subst (All IsUuid) (write_edge-ids d.edges) h.edge_ids_uuid,
      (sort_orders-fit_iff d.edges).0 h.sort_orders_fit,
    ),
    λ h.
        let nodes = subst (All IsUuid) (sym (write_node-ids json d.nodes)) h.0 in
        record {
          coherent = w;
          node_ids_uuid = nodes;
          edge_ids_uuid = subst (All IsUuid) (sym (write_edge-ids d.edges)) h.1;
          ends_uuid = ends-uuid _ _ nodes w.edges;
          root_uuid = root-uuid _ _ nodes w.root_known;
          sort_orders_fit = (sort_orders-fit_iff d.edges).1 h.2;
        },
  )

  -- A graph that is returned is storable (its parts fit together as docs/domain-model.md, section
  -- 5, asks, ids are UUIDs and sort orders fit the column) exactly if the ids of the draft's nodes
  -- and edges are UUIDs and every sort order that its texts are read as lies between -2^31 and 2^31
  -- - 1.
  pub serialize-IsStorable_iff :
      (d : PlaybookDraft) (g : PlaybookGraphInput)
      → serialize_playbook_draft json d ≡ ok g
      → IsStorable g ↔ (
          All IsUuid (node_ids d.nodes)
          × All IsUuid (edge_ids d.edges)
          × All (λ e. FitsInteger (parse_sort_order e.sort_order)) d.edges)
  serialize-IsStorable_iff d g h =
      let (writable, same) = (serialize-ok_iff json d g).0 h in
      subst
        (λ graph.
          IsCoherent graph
          → IsStorable graph ↔ (
              All IsUuid (node_ids d.nodes)
              × All IsUuid (edge_ids d.edges)
              × All (λ e. FitsInteger (parse_sort_order e.sort_order)) d.edges))
        same (written-IsStorable_iff d) (serialize-IsCoherent json d g h)
