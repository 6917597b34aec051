-- ===== src/Json.antt =====
-- `JSON.parse` and `JSON.stringify(value, null, 2)` of the JavaScript engine, as parameters.
use interbellum.Common.{Option, none, some}
use interbellum.Text.{Text}
use interbellum.Types.{JsonValue, JsonObject, null, bool, num, str, arr, obj}

-- `parse` is `none` where `JSON.parse` throws.
pub record JsonEngine : Type 0 where
  pub parse : Text → Option JsonValue
  pub stringify : JsonValue → Text

-- The value, where it is an object: neither null, nor an array, nor of another `typeof`.
abbrev pub as_object : JsonValue → Option JsonObject
as_object null = none
as_object (bool b) = none
as_object (num n) = none
as_object (str s) = none
as_object (arr items) = none
as_object (obj fields) = some fields
