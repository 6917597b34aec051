-- ===== src/Tests/Samples.antt =====
-- Sample inputs: an engine that knows the object `{}`, and a playbook of two nodes.
use interbellum.Common.{[], ◌∷◌, Bool, true, false, Option, none, some}
use interbellum.Text.{Text, codes, ◌==◌}
use interbellum.Integers.{pos}
use interbellum.Types.{Uuid, JsonValue, obj, no_fields, decision, terminal, PlaybookGraphInput}
use interbellum.Json.{JsonEngine}
use interbellum.Draft.{PlaybookDraft}

abbrev pub braces_or_none : Bool → Option JsonValue
braces_or_none true = some (obj no_fields)
braces_or_none false = none

abbrev pub small_engine : JsonEngine
unfolding codes
small_engine = record {
  parse = λ text. braces_or_none (text == codes "{}");
  stringify = λ value. codes "{}";
}

abbrev pub sample_draft : PlaybookDraft
unfolding codes
sample_draft = record {
  root_node_id = codes "a";
  nodes =
      record {
        id = codes "a";
        kind = decision;
        title = codes " Known host? ";
        description = codes "";
        terminal_resolution = codes "kept";
        metadata = codes " {} ";
      }
      ∷ record {
        id = codes "b";
        kind = terminal;
        title = codes "Close";
        description = codes "Nothing to do. ";
        terminal_resolution = codes "close_authorized";
        metadata = codes "";
      }
      ∷ [];
  edges =
      record {
        id = codes "e";
        from_node_id = codes "a";
        to_node_id = codes "b";
        label = codes "Yes ";
        description = codes "";
        sort_order = codes "1";
      }
      ∷ [];
}

abbrev pub sample_graph : PlaybookGraphInput
unfolding codes
sample_graph = record {
  root_node_id = some (codes "a");
  nodes =
      record {
        id = codes "a";
        kind = decision;
        title = codes "Known host?";
        description = codes "";
        terminal_resolution = none;
        metadata = some no_fields;
      }
      ∷ record {
        id = codes "b";
        kind = terminal;
        title = codes "Close";
        description = codes "Nothing to do.";
        terminal_resolution = some (codes "close_authorized");
        metadata = none;
      }
      ∷ [];
  edges =
      record {
        id = codes "e";
        from_node_id = codes "a";
        to_node_id = codes "b";
        label = codes "Yes";
        description = none;
        sort_order = pos 1;
      }
      ∷ [];
}

abbrev pub first_uuid : Uuid
unfolding codes
first_uuid = codes "a0000000-0000-4000-8000-000000000001"

abbrev pub second_uuid : Uuid
unfolding codes
second_uuid = codes "a0000000-0000-4000-8000-000000000002"

abbrev pub third_uuid : Uuid
unfolding codes
third_uuid = codes "a0000000-0000-4000-8000-000000000003"

-- An unfinished graph of two nodes and an edge, under identifiers that are UUIDs.
unfoldable pub uuid_draft : Text → PlaybookDraft
unfolding codes
uuid_draft sort_order = record {
  root_node_id = first_uuid;
  nodes =
      record {
        id = first_uuid;
        kind = decision;
        title = codes "Known host?";
        description = codes "";
        terminal_resolution = codes "";
        metadata = codes "";
      }
      ∷ record {
        id = second_uuid;
        kind = decision;
        title = codes "Seen before?";
        description = codes "";
        terminal_resolution = codes "";
        metadata = codes "";
      }
      ∷ [];
  edges =
      record {
        id = third_uuid;
        from_node_id = first_uuid;
        to_node_id = second_uuid;
        label = codes "Yes";
        description = codes "";
        sort_order = sort_order;
      }
      ∷ [];
}
