-- ===== src/Tests/Evidence.antt =====
-- Serializing sample evidence.
use interbellum.Common.{List, [], ◌∷◌, ◌≡◌, refl, ◌↔◌, map, none, some, Nodup}
use interbellum.Text.{codes, trim, trim_start, trim_end, is_white, ◌==◌}
use interbellum.Types.{EvidenceItem, no_fields}
use interbellum.Evidence.{
  EvidenceDraft, EvidenceSeed, serialize_evidence, visit_rows, check_row, finish_row, parse_data,
  ok,
}
use interbellum.Evidence.Accepts.{Serialized, serialize_evidence-ok_iff}
use interbellum.Evidence.Keys.{make_drafts, make_drafts-Nodup}
use interbellum.Tests.Samples.{small_engine}

-- A row with an object, and one that was added and left blank.
abbrev sample_rows : List EvidenceDraft
unfolding codes
sample_rows =
    record {
      key = codes "ev-1";
      type = codes "log ";
      summary = codes "Seen";
      data_text = codes " {}";
    }
    ∷ record { key = codes "ev-2"; type = codes ""; summary = codes " "; data_text = codes "" }
    ∷ []

abbrev sample_items : List EvidenceItem
unfolding codes
sample_items =
    record { type = codes "log"; summary = codes "Seen"; item_data = some no_fields } ∷ []

rows_accepted : serialize_evidence small_engine sample_rows ≡ ok sample_items
unfolding serialize_evidence visit_rows check_row finish_row parse_data trim trim_start trim_end
    is_white codes ◌==◌
rows_accepted = refl

serialize_evidence-ok_iff_example :
    (serialize_evidence small_engine sample_rows ≡ ok sample_items)
    ↔ Serialized small_engine sample_rows sample_items
serialize_evidence-ok_iff_example = serialize_evidence-ok_iff small_engine sample_rows sample_items

abbrev blank_seed : EvidenceSeed
blank_seed = record { type = none; summary = none; data_text = none }

make_drafts-Nodup_example : Nodup (map (λ d. d.key) (make_drafts (blank_seed ∷ blank_seed ∷ []) 7))
make_drafts-Nodup_example = make_drafts-Nodup (blank_seed ∷ blank_seed ∷ []) 7
