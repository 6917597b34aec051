-- ===== src/Tests/Draft.antt =====
-- Serializing, loading and previewing the sample playbook.
use interbellum.Common.{[], ◌∷◌, none, some, arith, ◌≡◌, refl, ◌↔◌, map, All}
use interbellum.Text.{codes, trim, trim_start, trim_end, is_white, ◌==◌}
use interbellum.Text.Sets.{has, add}
use interbellum.Text.Maps.{get, put}
use interbellum.Integers.{ℤ, pos, parse_int}
use interbellum.Types.{PlaybookGraphInput}
use interbellum.Draft.Errors.{ok}
use interbellum.Draft.Serialize.{serialize_playbook_draft, node_loop, edge_loop, check_root}
use interbellum.Draft.Serialize.Nodes.{
  visit_nodes, visit_node, check_node, write_node, parse_metadata,
}
use interbellum.Draft.Serialize.Edges.{
  visit_edges, visit_edge, check_edge, note_label, write_edge, parse_sort_order,
}
use interbellum.Draft.Rules.{IsWritable, node_ids, edge_ids}
use interbellum.Draft.Rules.Accepts.{written, serialize-ok_iff}
use interbellum.Draft.Load.{draft_from_definition}
use interbellum.Draft.Load.Contract.{IsCoherent}
use interbellum.Draft.Load.Output.{serialize-IsCoherent}
use interbellum.Draft.Load.Storable.{
  is_uuid, IsUuid, FitsInteger, IsStorable, serialize-IsStorable_iff,
}
use interbellum.Draft.Load.RoundTrip.{
  AllReadable, serialize-draft_from_definition, serialize_reload,
}
use interbellum.Draft.Preview.{preview_graph}
use interbellum.Draft.Preview.Shape.{
  IsJoined, preview_graph-IsJoined, preview_graph-serialize, without_metadata, without_description,
}
use interbellum.Tests.Samples.{
  small_engine, sample_draft, sample_graph, first_uuid, second_uuid, third_uuid, uuid_draft,
}

sample_saved : serialize_playbook_draft small_engine sample_draft ≡ ok sample_graph
unfolding serialize_playbook_draft node_loop edge_loop check_root visit_nodes visit_node check_node
    write_node parse_metadata visit_edges visit_edge check_edge note_label write_edge trim
    trim_start trim_end is_white codes has add get put parse_int ◌==◌
sample_saved = refl

serialize-ok_iff_example :
    (serialize_playbook_draft small_engine sample_draft ≡ ok sample_graph)
    ↔ (IsWritable small_engine sample_draft × (written small_engine sample_draft ≡ sample_graph))
serialize-ok_iff_example = serialize-ok_iff small_engine sample_draft sample_graph

sample-IsCoherent : IsCoherent sample_graph
sample-IsCoherent = serialize-IsCoherent small_engine sample_draft sample_graph sample_saved

abbrev uuid_graph : ℤ → PlaybookGraphInput
uuid_graph sort_order = record {
  root_node_id = some first_uuid;
  nodes = map (write_node small_engine) (uuid_draft []).nodes;
  edges =
      record {
        id = third_uuid;
        from_node_id = first_uuid;
        to_node_id = second_uuid;
        label = codes "Yes";
        description = none;
        sort_order = sort_order;
      }
      ∷ [];
}

uuid_saved :
    serialize_playbook_draft small_engine (uuid_draft (codes "7")) ≡ ok (uuid_graph (pos 7))
unfolding uuid_draft serialize_playbook_draft node_loop edge_loop check_root visit_nodes visit_node
    check_node write_node parse_metadata visit_edges visit_edge check_edge note_label write_edge
    trim trim_start trim_end is_white codes has add get put parse_int ◌==◌
uuid_saved = refl

serialize-IsStorable_iff_example : IsStorable (uuid_graph (pos 7)) ↔ (
    All IsUuid (node_ids (uuid_draft (codes "7")).nodes)
    × All IsUuid (edge_ids (uuid_draft (codes "7")).edges)
    × All (λ e. FitsInteger (parse_sort_order e.sort_order)) (uuid_draft (codes "7")).edges)
serialize-IsStorable_iff_example =
    serialize-IsStorable_iff small_engine (uuid_draft (codes "7")) (uuid_graph (pos 7)) uuid_saved

-- 99999999999 is accepted, and cannot be stored.
big_saved :
    serialize_playbook_draft small_engine (uuid_draft (codes "99999999999"))
    ≡ ok (uuid_graph (pos 99999999999))
unfolding uuid_draft serialize_playbook_draft node_loop edge_loop check_root visit_nodes visit_node
    check_node write_node parse_metadata visit_edges visit_edge check_edge note_label write_edge
    trim trim_start trim_end is_white codes has add get put parse_int ◌==◌
big_saved = refl

uuid_draft-ids :
    All IsUuid (node_ids (uuid_draft (codes "7")).nodes)
    × All IsUuid (edge_ids (uuid_draft (codes "7")).edges)
unfolding is_uuid uuid_draft
uuid_draft-ids = ((refl, (refl, tt)), (refl, tt))

small_fits : FitsInteger (parse_sort_order (codes "7"))
unfolding parse_sort_order parse_int trim_start is_white codes
small_fits = omega arith

stored : IsStorable (uuid_graph (pos 7))
unfolding uuid_draft
stored = serialize-IsStorable_iff_example.1 (uuid_draft-ids.0, uuid_draft-ids.1, (small_fits, tt))

not_stored : ¬ IsStorable (uuid_graph (pos 99999999999))
not_stored w = let fits = w.sort_orders_fit.0 in omega arith

sample_readable : AllReadable small_engine sample_graph
unfolding codes trim trim_start trim_end is_white ◌==◌
sample_readable = (((λ e. cc), refl), (tt, tt))

serialize-draft_from_definition_example :
    serialize_playbook_draft small_engine (draft_from_definition small_engine sample_graph)
    ≡ ok sample_graph
serialize-draft_from_definition_example =
    serialize-draft_from_definition small_engine sample_graph sample-IsCoherent sample_readable

serialize_reload_example :
    serialize_playbook_draft small_engine (draft_from_definition small_engine sample_graph)
    ≡ ok sample_graph
serialize_reload_example =
    serialize_reload small_engine sample_draft sample_graph sample_saved sample_readable

preview_graph-IsJoined_example :
    All
      (IsJoined (map (λ n. n.id) (preview_graph sample_draft).nodes))
      (preview_graph sample_draft).edges
preview_graph-IsJoined_example = preview_graph-IsJoined sample_draft

preview_graph-serialize_example : preview_graph sample_draft ≡ record {
  nodes = map without_metadata sample_graph.nodes;
  edges = map without_description sample_graph.edges;
}
preview_graph-serialize_example =
    preview_graph-serialize small_engine sample_draft sample_graph sample_saved
