-- ===== src/Validation.antt =====
-- mixapi/validation.py: what a request body must look like.
pub mod Accepted
use mixapi.Shared.{
  zero, Bool, true, false, not, ◌&&◌, ◌||◌, Option, none, some, List, [], ◌∷◌, any, all, String,
  ◌==◌, Result, ok, err, ◌>>=◌, ◌>>◌, raise_if, if◌then◌else◌, is_some,
}
use mixapi.Shared.Int.{ℤ, pos, leb_ℤ, ltb_ℤ}
use mixapi.Errors.{MixApiError, validation_error, capability_unsupported}
use mixapi.Money.{Decimal}
use mixapi.Json.{
  Value, Items, Fields, end, null, bool, int, float, str, arr, obj, nil, cons, get, get_in, to_list,
}

-- `get(key)` of a value that is a dict, with `None` for a missing key.
abbrev pub value_or_null : Option Value → Value
value_or_null none = null
value_or_null (some v) = v

-- What Python takes for true: all but `None`, `False`, 0, and the empty text, list and dict. A zero
-- that is a float is left out.
abbrev pub is_truthy : Value → Bool
is_truthy null = false
is_truthy (bool b) = b
is_truthy (int (pos zero)) = false
is_truthy (int n) = true
is_truthy (float t) = true
is_truthy (str t) = not (t == "")
is_truthy (arr nil) = false
is_truthy (arr (cons v vs)) = true
is_truthy (obj end) = false
is_truthy (obj fs) = true

-- A list as it is, another value as the empty list.
abbrev pub arr_or_nil : Value → Value
arr_or_nil (arr vs) = arr vs
arr_or_nil _ = arr nil

-- The members of a list, or none for another value.
abbrev pub members : Value → List Value
members (arr vs) = to_list vs
members _ = []

abbrev pub is_string : Value → Bool
is_string (str t) = true
is_string _ = false

abbrev pub is_bool : Value → Bool
is_bool (bool b) = true
is_bool _ = false

abbrev pub is_object : Value → Bool
is_object (obj fs) = true
is_object _ = false

-- `value in texts`
abbrev pub is_one_of : Value → List String → Bool
is_one_of (str t) texts = any (λ x. t == x) texts
is_one_of _ texts = false

-- `key not in fields or is_fine(fields[key])`
abbrev pub fine_if_there : (Value → Bool) → Option Value → Bool
fine_if_there fine none = true
fine_if_there fine (some v) = fine v

-- `str.strip`, `Decimal(str(value))` where it is a finite number, and whether the JSON Schema library
-- takes a value for a schema, are parameters.
module _ (strip : String → String) (decimal_of : Value → Option Decimal)
    (schema_is_valid : Value → Bool) where
  -- `isinstance(value, str) and value.strip()`
  abbrev pub has_text : Value → Bool
  has_text (str t) = not (strip t == "")
  has_text _ = false

  unfoldable pub validate_response_schema : Fields → Bool → Result MixApiError (Unit {0})
  validate_response_schema body stream =
      let format = get_in "format" (get "response" body) in
      if is_one_of (value_or_null (get_in "type" format)) ("json_schema" ∷ [])
      then (do
        raise_if (not (schema_is_valid (value_or_null (get_in "json_schema" format))))
            (validation_error "invalid_json_schema")
        raise_if stream (capability_unsupported "streaming_structured_output_unsupported"))
      else ok tt

  unfoldable pub part_has_input : Value → Bool
  part_has_input (obj fs) =
      let kind = value_or_null (get "type" fs) in
      (is_one_of kind ("input_text" ∷ "text" ∷ []) && has_text (value_or_null (get "text" fs)))
      || (is_one_of kind ("input_image" ∷ "image" ∷ [])
          && is_truthy (value_or_null (get "image_url" fs)))
      || (is_one_of kind ("input_file" ∷ "file" ∷ [])
          && (is_truthy (value_or_null (get "file_ref" fs))
              || is_truthy (value_or_null (get "file_url" fs))))
  part_has_input _ = false

  unfoldable pub message_has_input : Value → Bool
  unfolding part_has_input
  message_has_input (obj fs) =
      let content = value_or_null (get "content" fs) in
      has_text content || any part_has_input (members content)
  message_has_input _ = false

  unfoldable pub has_response_input : Value → Bool
  unfolding message_has_input
  has_response_input (str t) = not (strip t == "")
  has_response_input (arr messages) = any message_has_input (to_list messages)
  has_response_input _ = false

  -- One entry of `tools`.
  unfoldable pub is_tool : Value → Bool
  is_tool (obj fs) =
      is_one_of (value_or_null (get "type" fs)) ("function" ∷ [])
      && has_text (value_or_null (get "name" fs))
      && is_object (value_or_null (get "parameters" fs))
      && fine_if_there is_string (get "description" fs)
      && fine_if_there is_bool (get "strict" fs)
  is_tool _ = false

  unfoldable pub validate_tools : Value → Result MixApiError (Unit {0})
  unfolding is_tool
  validate_tools null = ok tt
  validate_tools (arr tools) =
      raise_if (not (all is_tool (to_list tools))) (validation_error "invalid_tools")
  validate_tools _ = err (validation_error "invalid_tools")

  unfoldable pub validate_max_output_tokens : Value → Result MixApiError (Unit {0})
  validate_max_output_tokens null = ok tt
  validate_max_output_tokens (int n) =
      raise_if (leb_ℤ n (pos 0)) (validation_error "invalid_max_output_tokens")
  validate_max_output_tokens _ = err (validation_error "invalid_max_output_tokens")

  -- `max_cost_usd`, where it is there.
  unfoldable pub validate_max_cost : Value → Result MixApiError (Unit {0})
  validate_max_cost (bool b) = err (validation_error "invalid_max_cost_usd")
  validate_max_cost v = elim (decimal_of v) [
    | none ↦ err (validation_error "invalid_max_cost_usd")
    | some amount ↦ raise_if (leb_ℤ amount (pos 0)) (validation_error "invalid_max_cost_usd")
  ]

  unfoldable pub validate_routing_budget : Option Value → Result MixApiError (Unit {0})
  unfolding validate_max_cost
  validate_routing_budget routing = elim (get_in "max_cost_usd" routing) [
    | none ↦ ok tt
    | some v ↦ validate_max_cost v
  ]

  -- `request_body.get("stream", False)`
  unfoldable pub stream_of : Fields → Result MixApiError Bool
  stream_of body = elim (get "stream" body) [
    | none ↦ ok false
    | some (bool b) ↦ ok b
    | some _ ↦ err (validation_error "invalid_stream")
  ]

  -- An empty idempotency key counts as none.
  abbrev pub is_key : Option String → Bool
  is_key none = false
  is_key (some k) = not (k == "")

  unfoldable pub validate_response_request : Fields → Option String → Result MixApiError (Unit {0})
  unfolding stream_of validate_response_schema has_response_input validate_tools
      validate_max_output_tokens validate_routing_budget
  validate_response_request body key = do
    stream ← stream_of body
    validate_response_schema body stream
    raise_if (stream && is_key key) (validation_error "streaming_idempotency_unsupported")
    raise_if (not (has_response_input (value_or_null (get "input" body))))
        (validation_error "input_required")
    validate_max_output_tokens (value_or_null (get "max_output_tokens" body))
    let tools = value_or_null (get "tools" body)
    validate_tools tools
    raise_if (stream && is_truthy (arr_or_nil tools))
        (capability_unsupported "streaming_tools_unsupported")
    validate_routing_budget (get "routing" body)

  -- An embedding takes a text or a list of texts, none of them blank.
  unfoldable pub has_embedding_input : Value → Bool
  has_embedding_input (str t) = not (strip t == "")
  has_embedding_input (arr (cons v vs)) = all has_text (v ∷ to_list vs)
  has_embedding_input _ = false

  unfoldable pub validate_embedding_request : Fields → Result MixApiError (Unit {0})
  unfolding validate_routing_budget has_embedding_input
  validate_embedding_request body = do
    validate_routing_budget (get "routing" body)
    raise_if (not (has_embedding_input (value_or_null (get "input" body))))
        (validation_error "input_required")
