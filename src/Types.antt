-- ===== src/Types.antt =====
-- frontend/src/lib/types.ts: the contract's types. Nullable and optional fields are `Option`.
use interbellum.Common.{ℕ, Bool, Option, List}
use interbellum.Text.{Text}
use interbellum.Integers.{ℤ}

abbrev pub Uuid : Type 0
Uuid = Text

-- `JsonValue`. A number is kept as the text that `JSON.stringify` prints for it.
mutual
  pub data JsonValue : Type 0 where
    null : JsonValue
    bool : Bool → JsonValue
    num : Text → JsonValue
    str : Text → JsonValue
    arr : JsonItems → JsonValue
    obj : JsonObject → JsonValue

  pub data JsonItems : Type 0 where
    nil : JsonItems
    cons : JsonValue → JsonItems → JsonItems

  pub data JsonObject : Type 0 where
    no_fields : JsonObject
    field : Text → JsonValue → JsonObject → JsonObject

pub record GraphValidationIssue : Type 0 where
  pub node_id : Option Uuid
  pub edge_id : Option Uuid
  pub reason : Text

pub record ApiErrorBody : Type 0 where
  pub code : Text
  pub message : Text
  pub details : Option (List JsonObject)

pub data PlaybookVersionStatus : Type 0 where
  draft published archived : PlaybookVersionStatus

pub data PlaybookNodeKind : Type 0 where
  decision terminal : PlaybookNodeKind

pub record PlaybookNode : Type 0 where
  pub id : Uuid
  pub kind : PlaybookNodeKind
  pub title : Text
  pub description : Text
  pub terminal_resolution : Option Text
  pub metadata : Option JsonObject

pub record PlaybookEdge : Type 0 where
  pub id : Uuid
  pub from_node_id : Uuid
  pub to_node_id : Uuid
  pub label : Text
  pub description : Option Text
  pub sort_order : ℤ

pub record PlaybookGraphInput : Type 0 where
  pub root_node_id : Option Uuid
  pub nodes : List PlaybookNode
  pub edges : List PlaybookEdge

pub record PlaybookVersionDefinition : Type 0 where
  pub graph : PlaybookGraphInput
  pub open graph use *
  pub id : Uuid
  pub playbook_id : Uuid
  pub version : ℕ
  pub status : PlaybookVersionStatus
  pub created_at : Text
  pub published_at : Option Text

pub data ActorType : Type 0 where
  human agent : ActorType

pub record Actor : Type 0 where
  pub type : ActorType
  pub id : Option Text

pub record EvidenceItem : Type 0 where
  pub type : Text
  pub summary : Text
  pub item_data : Option JsonObject

pub record InvestigationStep : Type 0 where
  pub id : Uuid
  pub sequence_number : ℕ
  pub node_id : Uuid
  pub selected_edge_id : Uuid
  pub actor : Actor
  pub rationale : Option Text
  pub evidence : List EvidenceItem
  pub created_at : Text

pub record PathStep : Type 0 where
  pub step_number : ℕ
  pub node_id : Uuid
  pub selected_edge_id : Uuid
  pub actor : Actor
  pub rationale : Option Text
  pub evidence : List EvidenceItem
  pub created_at : Text

pub record Playbook : Type 0 where
  pub id : Uuid
  pub name : Text
  pub description : Text
  pub alert_type : Text
  pub created_at : Text
  pub updated_at : Text

pub record PlaybookVersionSummary : Type 0 where
  pub id : Uuid
  pub version : ℕ
  pub status : PlaybookVersionStatus
  pub created_at : Text
  pub published_at : Option Text

-- The fields of `Playbook` are those of the record `playbook`.
pub record PlaybookWithVersions : Type 0 where
  pub playbook : Playbook
  pub versions : List PlaybookVersionSummary

pub record PlaybookList : Type 0 where
  pub items : List Playbook

pub record CreatePlaybookRequest : Type 0 where
  pub name : Text
  pub description : Option Text
  pub alert_type : Text
  pub definition : Option PlaybookGraphInput

pub record CreatePlaybookVersionRequest : Type 0 where
  pub clone_from_version_id : Option Uuid

pub record Alert : Type 0 where
  pub id : Uuid
  pub external_id : Option Text
  pub alert_type : Text
  pub title : Text
  pub description : Text
  pub payload : JsonObject
  pub occurred_at : Text
  pub created_at : Text

pub record CreateAlertRequest : Type 0 where
  pub external_id : Option Text
  pub alert_type : Text
  pub title : Text
  pub description : Option Text
  pub occurred_at : Text
  pub payload : Option JsonObject

pub data InvestigationStatus : Type 0 where
  in_progress completed : InvestigationStatus

pub record AvailableChoice : Type 0 where
  pub edge_id : Uuid
  pub label : Text
  pub description : Option Text
  pub to_node_id : Uuid

pub record InvestigationState : Type 0 where
  pub id : Uuid
  pub alert : Alert
  pub playbook_version_id : Uuid
  pub status : InvestigationStatus
  pub current_node : PlaybookNode
  pub available_choices : List AvailableChoice
  pub final_resolution : Option Text
  pub started_at : Text
  pub completed_at : Option Text
  pub steps : List InvestigationStep

pub record StartInvestigationRequest : Type 0 where
  pub playbook_version_id : Uuid

pub record SubmitDecisionRequest : Type 0 where
  pub edge_id : Uuid
  pub actor : Actor
  pub rationale : Option Text
  pub evidence : Option (List EvidenceItem)

-- The member `investigation` of a report.
pub record InvestigationSummary : Type 0 where
  pub id : Uuid
  pub status : InvestigationStatus
  pub final_resolution : Option Text
  pub started_at : Text
  pub completed_at : Option Text

pub record InvestigationReport : Type 0 where
  pub investigation : InvestigationSummary
  pub alert : Alert
  pub playbook_version : PlaybookVersionDefinition
  pub path : List PathStep
