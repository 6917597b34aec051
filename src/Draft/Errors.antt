-- ===== src/Draft/Errors.antt =====
-- The errors of `serializePlaybookDraft` of frontend/src/lib/playbook-draft.ts, and its result.
use interbellum.Common.{ℕ, List, [], ◌∷◌, Bool, true, false}
use interbellum.Text.{Text}
use interbellum.Integers.{ℤ, pos}
use interbellum.Types.{PlaybookGraphInput}

pub data DraftScope : Type 0 where
  node edge root : DraftScope

pub data DraftErrorField : Type 0 where
  id title terminal_resolution metadata label from_node_id to_node_id root_node_id : DraftErrorField

pub record DraftError : Type 0 where
  pub scope : DraftScope
  pub index : ℤ
  pub field : DraftErrorField
  pub message : Text

pub data DraftSerializationResult : Type 0 where
  ok : PlaybookGraphInput → DraftSerializationResult
  rejected : List DraftError → DraftSerializationResult

-- `if (test) errors.push(error)`: what is pushed.
abbrev pub push_if {ℓ} : {A : Type ℓ} → Bool → A → List A
push_if true error = error ∷ []
push_if false error = []

-- An error at a position of the node or edge list.
abbrev pub error_at : DraftScope → ℕ → DraftErrorField → Text → DraftError
error_at scope index field message = record {
  scope = scope;
  index = pos index;
  field = field;
  message = message;
}
