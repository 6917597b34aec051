-- ===== src/Api/Encode.antt =====
-- What `JSON.stringify` is given by the calls of frontend/src/lib/api.ts that have a body.
use interbellum.Common.{List, [], ◌∷◌, Option, none, some}
use interbellum.Text.{Text, codes}
use interbellum.Integers.{to_text}
use interbellum.Types.{
  JsonValue, null, num, str, arr, obj, JsonItems, nil, cons, JsonObject, no_fields, field,
  PlaybookNodeKind, decision, terminal, PlaybookNode, PlaybookEdge, PlaybookGraphInput,
  CreatePlaybookRequest, CreatePlaybookVersionRequest, CreateAlertRequest, ActorType, human, agent,
  Actor, EvidenceItem, StartInvestigationRequest, SubmitDecisionRequest,
}

abbrev pub items_of {ℓ} : {A : Type ℓ} → (A → JsonValue) → List A → JsonItems
items_of f [] = nil
items_of f (x ∷ xs) = cons (f x) (items_of f xs)

abbrev pub text_or_null : Option Text → JsonValue
text_or_null none = null
text_or_null (some s) = str s

abbrev pub object_or_null : Option JsonObject → JsonValue
object_or_null none = null
object_or_null (some o) = obj o

-- A member that is undefined is left out.
abbrev pub field_if : Text → Option JsonValue → JsonObject → JsonObject
field_if key none rest = rest
field_if key (some value) rest = field key value rest

abbrev pub kind_text : PlaybookNodeKind → Text
kind_text decision = codes "decision"
kind_text terminal = codes "terminal"

unfoldable pub node_json : PlaybookNode → JsonValue
node_json n = obj (
    field (codes "id") (str n.id) (
      field (codes "kind") (str (kind_text n.kind)) (
        field (codes "title") (str n.title) (
          field (codes "description") (str n.description) (
            field (codes "terminal_resolution") (text_or_null n.terminal_resolution)
              (field (codes "metadata") (object_or_null n.metadata) no_fields))))))

unfoldable pub edge_json : PlaybookEdge → JsonValue
edge_json e = obj (
    field (codes "id") (str e.id) (
      field (codes "from_node_id") (str e.from_node_id) (
        field (codes "to_node_id") (str e.to_node_id) (
          field (codes "label") (str e.label) (
            field (codes "description") (text_or_null e.description)
              (field (codes "sort_order") (num (to_text e.sort_order)) no_fields))))))

unfoldable pub graph_json : PlaybookGraphInput → JsonValue
graph_json g = obj (
    field (codes "root_node_id") (text_or_null g.root_node_id) (
      field (codes "nodes") (arr (items_of node_json g.nodes))
        (field (codes "edges") (arr (items_of edge_json g.edges)) no_fields)))

abbrev pub text? : Option Text → Option JsonValue
text? none = none
text? (some s) = some (str s)

abbrev pub graph? : Option PlaybookGraphInput → Option JsonValue
graph? none = none
graph? (some g) = some (graph_json g)

unfoldable pub playbook_json : CreatePlaybookRequest → JsonValue
playbook_json r = obj (
    field (codes "name") (str r.name) (
      field_if (codes "description") (text? r.description) (
        field (codes "alert_type") (str r.alert_type)
          (field_if (codes "definition") (graph? r.definition) no_fields))))

unfoldable pub version_json : CreatePlaybookVersionRequest → JsonValue
version_json r =
    obj (field_if (codes "clone_from_version_id") (text? r.clone_from_version_id) no_fields)

abbrev pub object? : Option JsonObject → Option JsonValue
object? none = none
object? (some o) = some (obj o)

unfoldable pub alert_json : CreateAlertRequest → JsonValue
alert_json r = obj (
    field (codes "external_id") (text_or_null r.external_id) (
      field (codes "alert_type") (str r.alert_type) (
        field (codes "title") (str r.title) (
          field_if (codes "description") (text? r.description) (
            field (codes "occurred_at") (str r.occurred_at)
              (field_if (codes "payload") (object? r.payload) no_fields))))))

unfoldable pub start_json : StartInvestigationRequest → JsonValue
start_json r = obj (field (codes "playbook_version_id") (str r.playbook_version_id) no_fields)

abbrev pub actor_text : ActorType → Text
actor_text human = codes "human"
actor_text agent = codes "agent"

unfoldable pub actor_json : Actor → JsonValue
actor_json a = obj (
    field (codes "type") (str (actor_text a.type))
      (field (codes "id") (text_or_null a.id) no_fields))

unfoldable pub evidence_json : EvidenceItem → JsonValue
evidence_json item = obj (
    field (codes "type") (str item.type) (
      field (codes "summary") (str item.summary)
        (field_if (codes "data") (object? item.item_data) no_fields)))

abbrev pub evidence? : Option (List EvidenceItem) → Option JsonValue
evidence? none = none
evidence? (some items) = some (arr (items_of evidence_json items))

unfoldable pub decision_json : SubmitDecisionRequest → JsonValue
decision_json r = obj (
    field (codes "edge_id") (str r.edge_id) (
      field (codes "actor") (actor_json r.actor) (
        field (codes "rationale") (text_or_null r.rationale)
          (field_if (codes "evidence") (evidence? r.evidence) no_fields))))
