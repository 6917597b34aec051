-- ===== src/Demo.antt =====
-- frontend/src/lib/demo.ts: the example playbook that the console offers to install.
use interbellum.Common.{ℕ, suc, List, [], ◌∷◌, ◌++◌, Option, none, some, map}
use interbellum.Text.{Text, codes}
use interbellum.Text.Maps.{get}
use interbellum.Integers.{ℤ, pos}
use interbellum.Types.{
  Uuid, JsonObject, no_fields, field, str, arr, nil, cons, PlaybookNodeKind, decision, terminal,
  PlaybookNode, PlaybookEdge, PlaybookGraphInput, CreatePlaybookRequest, CreateAlertRequest,
}
use interbellum.Evidence.{EvidenceSeed}

pub data NodeKey : Type 0 where
  known_workstation maintenance_window safety_register historian_anomaly seen_before
        close_authorized escalate_safety escalate_unauthorized contain_isolate escalate_suspicious
        escalate_intrusion :
      NodeKey

pub record DemoNode : Type 0 where
  pub key : NodeKey
  pub kind : PlaybookNodeKind
  pub title : Text
  pub description : Text
  pub terminal_resolution : Option Text
  pub metadata : Option JsonObject

pub record DemoEdge : Type 0 where
  pub from : NodeKey
  pub to : NodeKey
  pub label : Text
  pub description : Option Text
  pub sort_order : ℤ

abbrev pub demo_nodes : List DemoNode
demo_nodes =
    record {
      key = known_workstation;
      kind = decision;
      title = codes "Write came from a known engineering workstation?";
      description = codes "Resolve the source address against the asset inventory.";
      terminal_resolution = none;
      metadata = some (
          field (codes "suggested_evidence") (arr (cons (str (codes "asset_inventory_lookup")) nil))
            (field (codes "payload_fields") (arr (cons (str (codes "source_ip")) nil)) no_fields));
    }
    ∷ record {
      key = maintenance_window;
      kind = decision;
      title = codes "Inside an approved maintenance window?";
      description = codes "Check the change calendar for an approved window covering this asset.";
      terminal_resolution = none;
      metadata = some (
          field (codes "suggested_evidence") (arr (cons (str (codes "change_calendar_lookup")) nil))
            no_fields);
    }
    ∷ record {
      key = safety_register;
      kind = decision;
      title = codes "Register tied to a safety (SIS) function?";
      description =
          codes "Determine whether the register participates in a safety instrumented function.";
      terminal_resolution = none;
      metadata = some (
          field (codes "suggested_evidence") (arr (cons (str (codes "register_map_lookup")) nil))
            no_fields);
    }
    ∷ record {
      key = historian_anomaly;
      kind = decision;
      title = codes "Historian shows anomalous process values?";
      description = codes "Compare process values around the write against the historian baseline.";
      terminal_resolution = none;
      metadata = some (
          field (codes "suggested_evidence") (arr (cons (str (codes "historian_query")) nil))
            no_fields);
    }
    ∷ record {
      key = seen_before;
      kind = decision;
      title = codes "Source device seen on this network before?";
      description = codes "Check whether the source address has prior presence on this segment.";
      terminal_resolution = none;
      metadata = some (
          field (codes "suggested_evidence") (arr (cons (str (codes "network_flow_history")) nil))
            no_fields);
    }
    ∷ record {
      key = close_authorized;
      kind = terminal;
      title = codes "Close: authorized maintenance";
      description = codes "Known workstation, approved window, non-safety register.";
      terminal_resolution = some (codes "close_authorized_maintenance");
      metadata = none;
    }
    ∷ record {
      key = escalate_safety;
      kind = terminal;
      title = codes "Escalate: safety review";
      description = codes "Authorized change touching a safety function requires review.";
      terminal_resolution = some (codes "escalate_safety_review");
      metadata = none;
    }
    ∷ record {
      key = escalate_unauthorized;
      kind = terminal;
      title = codes "Escalate: unauthorized change";
      description = codes "Known workstation, but outside any approved maintenance window.";
      terminal_resolution = some (codes "escalate_unauthorized_change");
      metadata = none;
    }
    ∷ record {
      key = contain_isolate;
      kind = terminal;
      title = codes "Contain: isolate segment, start incident response";
      description = codes "Unknown source combined with anomalous process values.";
      terminal_resolution = some (codes "contain_isolate_segment");
      metadata = none;
    }
    ∷ record {
      key = escalate_suspicious;
      kind = terminal;
      title = codes "Escalate: suspicious activity";
      description = codes "Unknown source, no process anomaly, device seen before.";
      terminal_resolution = some (codes "escalate_suspicious_activity");
      metadata = none;
    }
    ∷ record {
      key = escalate_intrusion;
      kind = terminal;
      title = codes "Escalate: possible intrusion";
      description = codes "Unknown source never seen on this network before.";
      terminal_resolution = some (codes "escalate_possible_intrusion");
      metadata = none;
    }
    ∷ []

abbrev pub demo_edges : List DemoEdge
demo_edges =
    record {
      from = known_workstation;
      to = maintenance_window;
      label = codes "Yes";
      description = some (codes "Source resolves to a registered engineering workstation.");
      sort_order = pos 1;
    }
    ∷ record {
      from = known_workstation;
      to = historian_anomaly;
      label = codes "No";
      description = some (codes "Source is unknown or not an engineering workstation.");
      sort_order = pos 2;
    }
    ∷ record {
      from = maintenance_window;
      to = safety_register;
      label = codes "Yes";
      description = none;
      sort_order = pos 1;
    }
    ∷ record {
      from = maintenance_window;
      to = escalate_unauthorized;
      label = codes "No";
      description = none;
      sort_order = pos 2;
    }
    ∷ record {
      from = safety_register;
      to = escalate_safety;
      label = codes "Yes";
      description = none;
      sort_order = pos 1;
    }
    ∷ record {
      from = safety_register;
      to = close_authorized;
      label = codes "No";
      description = none;
      sort_order = pos 2;
    }
    ∷ record {
      from = historian_anomaly;
      to = contain_isolate;
      label = codes "Yes";
      description = none;
      sort_order = pos 1;
    }
    ∷ record {
      from = historian_anomaly;
      to = seen_before;
      label = codes "No";
      description = none;
      sort_order = pos 2;
    }
    ∷ record {
      from = seen_before;
      to = escalate_suspicious;
      label = codes "Yes";
      description = none;
      sort_order = pos 1;
    }
    ∷ record {
      from = seen_before;
      to = escalate_intrusion;
      label = codes "No";
      description = none;
      sort_order = pos 2;
    }
    ∷ []

abbrev pub alert_type_of_demo : Text
alert_type_of_demo = codes "unauthorized_plc_register_write"

-- The position of a key among the nodes.
abbrev pub place : NodeKey → ℕ
place known_workstation = 0
place maintenance_window = 1
place safety_register = 2
place historian_anomaly = 3
place seen_before = 4
place close_authorized = 5
place escalate_safety = 6
place escalate_unauthorized = 7
place contain_isolate = 8
place escalate_suspicious = 9
place escalate_intrusion = 10

-- `new_id i` is what the call of `newId` number `i` returns; the nodes draw their ids first, so
-- that `ids.get(key)` is the id drawn at the place of the key.
module _ (new_id : ℕ → Uuid) where
  unfoldable pub demo_node : DemoNode → PlaybookNode
  demo_node n = record {
    id = new_id (place n.key);
    kind = n.kind;
    title = n.title;
    description = n.description;
    terminal_resolution = n.terminal_resolution;
    metadata = n.metadata;
  }

  unfoldable pub demo_edge : ℕ → DemoEdge → PlaybookEdge
  demo_edge call e = record {
    id = new_id call;
    from_node_id = new_id (place e.from);
    to_node_id = new_id (place e.to);
    label = e.label;
    description = e.description;
    sort_order = e.sort_order;
  }

  -- The edges draw one id each, from that call on.
  unfoldable pub demo_edges_from : ℕ → List DemoEdge → List PlaybookEdge
  demo_edges_from call [] = []
  demo_edges_from call (e ∷ es) = demo_edge call e ∷ demo_edges_from (suc call) es

  unfoldable pub demo_graph : PlaybookGraphInput
  demo_graph = record {
    root_node_id = some (new_id (place known_workstation));
    nodes = map demo_node demo_nodes;
    edges = demo_edges_from 11 demo_edges;
  }

  unfoldable pub build_demo_playbook_request : CreatePlaybookRequest
  unfolding demo_graph
  build_demo_playbook_request = record {
    name = codes "Unauthorized PLC Register Write";
    description =
        some (codes "Triage procedure for an unexpected write to a PLC holding register.");
    alert_type = alert_type_of_demo;
    definition = some demo_graph;
  }

abbrev pub demo_alert : CreateAlertRequest
demo_alert = record {
  external_id = some (codes "INTERBELLUM-2026-0001");
  alert_type = alert_type_of_demo;
  title = codes "Unauthorized PLC Register Write";
  description = some (codes "Write detected on PLC-17");
  occurred_at = codes "2026-08-19T10:30:00Z";
  payload = some (
      field (codes "plc") (str (codes "PLC-17")) (
        field (codes "register") (str (codes "40021"))
          (field (codes "source_ip") (str (codes "10.20.1.44")) no_fields)));
}

pub record Suggestion : Type 0 where
  pub rationale : Text
  pub evidence : EvidenceSeed

abbrev pub demo_decisions : List (Text × Suggestion)
demo_decisions =
    (
      codes "Write came from a known engineering workstation?|Yes",
      record {
        rationale =
            codes "The source address belongs to ENG-WS-14, a registered engineering workstation.";
        evidence = record {
          type = some (codes "asset_inventory_lookup");
          summary = some (codes "10.20.1.44 maps to ENG-WS-14");
          data_text = some (codes "{\n  \"asset\": \"ENG-WS-14\",\n  \"trusted\": true\n}");
        };
      },
    )
    ∷ (
      codes "Inside an approved maintenance window?|Yes",
      record {
        rationale =
            codes "Change calendar shows an approved window 10:00-12:00 UTC covering PLC-17.";
        evidence = record {
          type = some (codes "change_calendar_lookup");
          summary = some (codes "Approved window 10:00-12:00 UTC");
          data_text = some (codes "{\n  \"change_id\": \"CHG-4471\"\n}");
        };
      },
    )
    ∷ (
      codes "Register tied to a safety (SIS) function?|No",
      record {
        rationale = codes "Register 40021 is a non-safety setpoint; the SIS range is 41000-41100.";
        evidence = record {
          type = some (codes "register_map_lookup");
          summary = some (codes "40021 is outside the SIS register range");
          data_text = some (codes "{\n  \"sis_range\": \"41000-41100\"\n}");
        };
      },
    )
    ∷ []

unfoldable pub suggested_decision : Text → Text → Option Suggestion
suggested_decision node_title choice_label =
    get demo_decisions (node_title ++ (codes "|" ++ choice_label))
