-- ===== src/StructuredOutput.antt =====
-- `response_schema` of mixapi/structured_output.py. The validator itself is a library.
use mixapi.Shared.{Option, none, some, String, ◌==◌, if◌then◌else◌}
use mixapi.Json.{Value, Fields, get, get_in, obj, str}

-- The value, if it is a dict.
abbrev pub as_dict : Option Value → Option Fields
as_dict (some (obj fs)) = some fs
as_dict _ = none

-- `value == s`, for a value that may be missing or no text.
abbrev is_text : String → Option Value → Option (Unit {0})
is_text s (some (str t)) = if t == s then some tt else none
is_text s _ = none

-- The schema of a request for structured output: `response.format.json_schema` where the format has
-- the type `json_schema`.
unfoldable pub response_schema : Fields → Option Fields
response_schema body =
    let format = get_in "format" (get "response" body) in
    elim (is_text "json_schema" (get_in "type" format)) [
      | none ↦ none
      | some _ ↦ as_dict (get_in "json_schema" format)
    ]
