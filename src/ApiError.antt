-- ===== src/ApiError.antt =====
-- frontend/src/lib/api-error.ts: the error of a failed API call, and how its codes are worded.
use interbellum.Common.{
  ℕ, List, [], ◌∷◌, ◌++◌, Bool, true, false, not, Option, none, some, is_empty, if◌then◌else◌,
}
use interbellum.Text.{Text, codes, ◌==◌}
use interbellum.Text.Maps.{get}
use interbellum.Integers.{pos, to_text}
use interbellum.Types.{JsonValue, null, bool, num, str, arr, obj, JsonObject, no_fields, field}
use interbellum.Draft.{or_else}

-- A member of an object; none is `undefined`.
unfoldable pub member_of : JsonObject → Text → Option JsonValue
member_of no_fields name = none
member_of (field key value rest) name = if key == name then some value else member_of rest name

-- `body.name`: of a value that is not an object these members are undefined.
unfoldable pub member : JsonValue → Text → Option JsonValue
unfolding member_of
member (obj fields) name = member_of fields name
member _ name = none

unfoldable pub truthy : JsonValue → Bool
unfolding codes
truthy null = false
truthy (bool b) = b
truthy (num n) = not (n == codes "0")
truthy (str s) = not (is_empty s)
truthy (arr items) = true
truthy (obj _) = true

-- `value || fallback`.
unfoldable pub or_truthy : Option JsonValue → JsonValue → JsonValue
or_truthy none fallback = fallback
or_truthy (some value) fallback = if truthy value then value else fallback

-- `value ?? fallback`.
unfoldable pub or_nullish : Option JsonValue → JsonValue → JsonValue
or_nullish none fallback = fallback
or_nullish (some null) fallback = fallback
or_nullish (some (bool b)) fallback = bool b
or_nullish (some (num n)) fallback = num n
or_nullish (some (str s)) fallback = str s
or_nullish (some (arr items)) fallback = arr items
or_nullish (some (obj fields)) fallback = obj fields

-- The members are what the body carries, whatever its type promises.
pub record ApiError : Type 0 where
  pub message : JsonValue
  pub status : ℕ
  pub code : JsonValue
  pub detail : JsonValue
  pub details : Option JsonValue

abbrev pub status_message : ℕ → Text
status_message status = codes "request failed with status " ++ to_text (pos status)

unfoldable pub new_api_error : ℕ → JsonValue → ApiError
unfolding codes
new_api_error status body = record {
  message = or_truthy (member body (codes "message")) (str (status_message status));
  status = status;
  code = or_truthy (member body (codes "code")) (str (codes "UNKNOWN"));
  detail = or_nullish (member body (codes "message")) (str []);
  details = member body (codes "details");
}

-- Keys that every JavaScript object inherits, such as toString, are left aside.
abbrev pub code_titles : List (Text × Text)
code_titles =
    (
      codes "PLAYBOOK_VERSION_NOT_PUBLISHED",
      codes
          "That playbook version is still a draft. Publish it before starting an investigation against it.",
    )
    ∷ (
      codes "PLAYBOOK_VERSION_NOT_DRAFT",
      codes
          "That playbook version is published, so its graph is frozen. Create a new version to change it.",
    )
    ∷ (
      codes "ALERT_TYPE_MISMATCH",
      codes
          "This playbook is written for a different alert type. Pick a playbook registered for this alert's type.",
    )
    ∷ (
      codes "INVALID_TRANSITION",
      codes
          "That choice is no longer available. The investigation has moved on — reload to see the current question.",
    )
    ∷ (
      codes "INVESTIGATION_ALREADY_COMPLETED",
      codes
          "This investigation reached a terminal resolution and cannot be advanced. Open its report instead.",
    )
    ∷ (
      codes "IDEMPOTENCY_KEY_REUSED",
      codes
          "This submission reused an idempotency key with different content, so it was rejected rather than recorded. Reload and submit again.",
    )
    ∷ (
      codes "INVALID_PLAYBOOK_GRAPH",
      codes "The playbook graph cannot be published yet. Every problem found is listed below.",
    )
    ∷ (
      codes "RESOURCE_NOT_FOUND",
      codes "That record does not exist. It may have been created against a different database.",
    )
    ∷ (codes "VALIDATION_FAILED", codes "The request was rejected as invalid.")
    ∷ (codes "BAD_REQUEST", codes "The request was malformed.")
    ∷ (codes "PAYLOAD_TOO_LARGE", codes "The request body exceeded the server's size limit.")
    ∷ (codes "METHOD_NOT_ALLOWED", codes "That path exists, but not for this operation.")
    ∷ (
      codes "NOT_READY",
      codes "The API is not ready to serve traffic — its database is unreachable.",
    )
    ∷ (codes "INTERNAL_ERROR", codes "The API failed unexpectedly. The cause is in its logs.")
    ∷ (
      codes "NETWORK_ERROR",
      codes "The console could not reach the API. Check that it is running.",
    )
    ∷ []

unfoldable pub explain_error_code : Text → Option Text
explain_error_code code = get code_titles code

-- The detail itself, if it is an issue.
unfoldable pub as_graph_issue : JsonValue → Option JsonValue
as_graph_issue detail = if_text (member detail (codes "reason")) detail
  where
    if_text : Option JsonValue → JsonValue → Option JsonValue
    if_text (some (str s)) detail = some detail
    if_text _ detail = none

abbrev pub graph_reasons : List (Text × Text)
graph_reasons =
    (codes "missing_root", codes "No root node is set")
    ∷ (codes "dangling_reference", codes "References a node that does not exist in this version")
    ∷ (codes "unreachable_from_root", codes "Not reachable from the root node")
    ∷ (codes "cycle_detected", codes "Part of a cycle — playbooks must be acyclic")
    ∷ (codes "decision_node_without_edges", codes "Decision node offers no choices")
    ∷ (codes "terminal_node_with_edges", codes "Terminal node has outgoing choices")
    ∷ (codes "terminal_node_missing_resolution", codes "Terminal node has no resolution")
    ∷ (codes "decision_node_with_resolution", codes "Decision node carries a terminal resolution")
    ∷ []

unfoldable pub explain_graph_reason : Text → Text
explain_graph_reason reason = or_else (get graph_reasons reason) reason
