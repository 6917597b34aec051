-- ===== src/Tests/Screens.antt =====
-- The playbooks screen with two playbooks, and the intake of the demo alert.
use interbellum.Common.{[], ◌∷◌, true, false, ◌≡◌, ◌≢◌, ◌↔◌, refl, Option, none, some, Any}
use interbellum.Text.{trim, trim_start, trim_end, is_white, ◌==◌}
use interbellum.Types.{
  Uuid, JsonObject, no_fields, obj, draft, published, Playbook, PlaybookVersionSummary,
  PlaybookWithVersions,
}
use interbellum.Json.{JsonEngine}
use interbellum.Draft.{or_else}
use interbellum.Demo.{demo_alert}
use interbellum.Playbooks.{
  playbook_id, version_id, Browser, truthy_id, has_version, navigate, opened, loaded, settle,
}
use interbellum.Playbooks.Landing.{IsLanding}
use interbellum.Playbooks.Settles.{IsHome, settle-IsHome}
use interbellum.Playbooks.Opened.{open-IsLanding}
use interbellum.Intake.{fresh_intake, ingest, load_demo, Candidate, CandidateRow, candidate_rows}
use interbellum.Intake.Sends.{IsPayload, IsRequest, ingest-sends_iff, ingest-load_demo}
use interbellum.Intake.Candidates.{HasPublished, candidate_rows_iff}

abbrev plain_playbook : Uuid → Playbook
plain_playbook id = record {
  id = id;
  name = [];
  description = [];
  alert_type = [];
  created_at = [];
  updated_at = [];
}

abbrev version_1 : PlaybookVersionSummary
version_1 = record {
  id = 49 ∷ [];
  version = 1;
  status = published;
  created_at = [];
  published_at = some [];
}

abbrev version_2 : PlaybookVersionSummary
version_2 = record {
  id = 50 ∷ [];
  version = 2;
  status = draft;
  created_at = [];
  published_at = none;
}

abbrev old_playbook : PlaybookWithVersions
old_playbook = record { playbook = plain_playbook (97 ∷ []); versions = version_2 ∷ [] }

abbrev new_playbook : PlaybookWithVersions
new_playbook = record { playbook = plain_playbook (98 ∷ []); versions = version_1 ∷ [] }

abbrev sample_browser : Browser
sample_browser = record {
  query = [];
  items = some (plain_playbook (97 ∷ []) ∷ plain_playbook (98 ∷ []) ∷ []);
  detail = some old_playbook;
}

settle-IsHome_example :
    (navigate (settle 2 sample_browser) ≡ none) × IsHome (settle 2 sample_browser)
settle-IsHome_example =
    settle-IsHome sample_browser
      (record { playbooks = ((λ e. cc), ((λ e. cc), tt)); versions = ((λ e. cc), tt) })

abbrev sample_opened : Browser
sample_opened = settle 2 (loaded new_playbook (settle 2 (opened (some (98 ∷ [])) sample_browser)))

apart : has_version new_playbook.versions (some version_2.id) ≡ false
unfolding ◌==◌
apart = refl

open-IsLanding_example :
    (v : PlaybookVersionSummary) × IsLanding new_playbook.versions v
    × (truthy_id (playbook_id sample_opened.query) ≡ some (98 ∷ []))
    × (version_id sample_opened.query ≡ some v.id)
open-IsLanding_example =
    open-IsLanding sample_browser new_playbook (98 ∷ [])
      (record { playbooks = ((λ e. cc), ((λ e. cc), tt)); versions = ((λ e. cc), tt) }) (λ e. cc)
      ((λ e. cc), tt) (λ e. cc) (apart, tt)

-- An engine for the payload of the demo alert, which it prints as a text of one letter.
abbrev payload_engine : JsonEngine
payload_engine = record {
  parse = λ text. some (obj (or_else demo_alert.payload no_fields));
  stringify = λ value. 120 ∷ [];
}

printed : trim (120 ∷ []) ≢ []
unfolding trim trim_start trim_end is_white
printed = λ e. cc

ingest-load_demo_example :
    (ingest payload_engine [] (load_demo payload_engine fresh_intake)).1 ≡ some demo_alert
ingest-load_demo_example = ingest-load_demo payload_engine [] fresh_intake printed refl

ingest-sends_iff_example :
    ((ingest payload_engine [] (load_demo payload_engine fresh_intake)).1 ≡ some demo_alert) ↔ (
      (content : JsonObject) × IsPayload payload_engine
        (trim (load_demo payload_engine fresh_intake).form.payload)
        content
      × IsRequest [] (load_demo payload_engine fresh_intake).form content demo_alert)
ingest-sends_iff_example =
    ingest-sends_iff payload_engine [] (load_demo payload_engine fresh_intake) demo_alert

abbrev not_chosen : Option Uuid
not_chosen = none

abbrev IsFirst : Candidate → Type 0
IsFirst c = c.version.version ≡ 1

candidate_rows_iff_example :
    Any
      (λ (r : CandidateRow). (r.startable ≡ true) × IsFirst r.shown)
      (candidate_rows not_chosen not_chosen (old_playbook ∷ new_playbook ∷ []))
    ↔ ((not_chosen ≡ none) × Any (HasPublished IsFirst) (old_playbook ∷ new_playbook ∷ []))
candidate_rows_iff_example =
    candidate_rows_iff IsFirst not_chosen not_chosen (old_playbook ∷ new_playbook ∷ [])
