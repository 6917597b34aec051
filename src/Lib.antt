-- ===== src/Lib.antt =====
-- Interbellum: the web console of frontend/, its core logic.
--
-- The console is a client of the HTTP API. Its logic lies in frontend/src/lib: the authoring form
-- holds a playbook graph as a draft of texts, serializes it to the graph that the API takes, loads
-- a stored graph back, and previews it; the screen around it keeps the draft, its errors and the
-- writes in flight; a report highlights the path that an investigation took
-- through the graph; a decision carries evidence that is serialized from rows of texts, and is
-- submitted under an idempotency key. Every screen reads through one hook and one client.
--
-- Common       lists, Boolean tests, the stable sort of Array.prototype.sort.
-- Text         JavaScript strings as lists of UTF-16 code units; trim, ===, Set and Map by strings.
-- Integers     Number.parseInt(raw, 10) and String(n). Integers are exact; an engine agrees up to 2^53.
-- Json         JSON.parse and JSON.stringify are a parameter, a record `JsonEngine` with no law.
--              Where a theorem needs that what is printed is read back, it says so of the objects
--              at hand in a hypothesis.
-- Types        frontend/src/lib/types.ts. Nullable and optional fields are `Option`; a JSON number is
--              kept as the text that is printed for it.
-- Draft        frontend/src/lib/playbook-draft.ts. A camelCase name of the source is the same name in
--              snake_case here: serializePlaybookDraft is `serialize_playbook_draft`. The forEach
--              loops are `visit_nodes` and `visit_edges`, whose state record holds the variables that
--              the loop changes; one round is `visit_node` and `visit_edge`, and what a round pushes
--              on `errors` is `check_node` and `check_edge`. Draft/Rules states the write-time rules
--              without the loops, Draft/Faults the place and field of each breach of them, Draft/Load
--              the form of a stored graph and
--              what of the API's contract is left to ids and sort orders (Storable).
-- ReportPath   frontend/src/lib/report-path.ts. The overlay is passed from step to step.
-- Evidence     frontend/src/lib/evidence.ts. The module's counter is passed explicitly.
-- Editor       frontend/src/app/playbooks/PlaybookEditorScreen.tsx. `apply` is what the lists of the form do
--              to the draft; Editor/Screen holds the state of the screen and its handlers, of which one
--              that awaits a call is two functions, `save` and `save_answered`. `Step` lists what can
--              happen to the screen, an answer only where its call is in flight. Editor/Form is the two
--              lists of frontend/src/components/playbook, NodeListEditor.tsx and EdgeListEditor.tsx, with
--              FieldError.tsx: `node_rows` and `edge_rows` are what they show, `Touch` what is done to a
--              control, `edit_on` the edit that it makes (Editor/Form/Touches).
-- Decision     frontend/src/components/DecisionForm.tsx, with the idempotency key of a submission, and the
--              rows of EvidenceEditor.tsx. `Run` keeps what was sent, beside the state;
--              Decision/Suggests follows what is filled in for the worked example.
-- Playbooks    frontend/src/app/playbooks/PlaybooksScreen.tsx. `Browser` is the address with what was loaded
--              last, `navigate` the two effects, `settle` their runs; Playbooks/Writes has the handlers
--              that install the demo and publish.
-- Intake       frontend/src/app/investigations/new/StartInvestigationScreen.tsx: the alert form, `ingest` up
--              to its call and `ingested` after it, the candidates and the start.
-- Investigation  frontend/src/app/investigations/[id]/InvestigationRunner.tsx and
--              report/InvestigationReportScreen.tsx, with InvestigationOutcome.tsx and StatusChips.tsx of
--              frontend/src/components: overlays, timeline, history and legend.
-- Graph        frontend/src/components/graph/PlaybookGraph.tsx, nodes.tsx and edges.tsx: what is drawn of a
--              node and an edge, given the overlay of ReportPath.
-- Resource     frontend/src/lib/use-resource.ts. A load is a number in place of its AbortController.
-- Api          frontend/src/lib/api.ts: the call of fetch that each function makes, and what is made of
--              its end. ApiError is frontend/src/lib/api-error.ts; a body that came over the wire is
--              any JSON value.
-- Proxy        frontend/src/app/api/[...path]/route.ts, between the browser and the API. Header names
--              are taken in lower case, and fetch is what `proxy_response` is given the end of.
-- Format       frontend/src/lib/format.ts, but for timestamp and prettyJson. A date is a number of
--              milliseconds since the earliest date, so that it is not negative.
-- Layout       frontend/src/lib/graph-layout.ts up to the call of dagre. localeCompare is a parameter;
--              its laws are a hypothesis, `IsOrder`, and so is that it tells the texts at hand apart.
-- Demo         frontend/src/lib/demo.ts. The identifiers are a function of the number of the call.
-- Tests        runs at concrete inputs, and the theorems applied there.
--
-- All loops recur on the list that they run over, so no fuel is needed but for the digits of a
-- number, where `decimal` gives one round more than the number, and for `settle`, which runs the
-- effects as often as it is told.
--
-- crypto.randomUUID is an argument, and the time of the clock. The text of a URLSearchParams is not
-- modelled, only its entries, which it keeps. Not modelled: styling and the panels that repeat the
-- fields of a record, fetch itself, the positions that dagre computes, the scrolling and fitting of
-- views, and the services of the backend in Go.
pub mod Common
pub mod Text
pub mod Integers
pub mod Types
pub mod Json
pub mod Draft
pub mod ReportPath
pub mod Evidence
pub mod Tests
pub mod Editor
pub mod ApiError
pub mod Api
pub mod Resource
pub mod Demo
pub mod Playbooks
pub mod Intake
pub mod Decision
pub mod Proxy
pub mod Format
pub mod Layout
pub mod Graph
pub mod Investigation
