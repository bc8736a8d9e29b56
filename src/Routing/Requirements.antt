-- ===== src/Routing/Requirements.antt =====
-- What a request asks for, and whether a candidate has it.
use mixapi.Shared.{
  ◌>>=◌, Bool, true, false, not, ◌&&◌, ◌||◌, Option, none, some, List, [], ◌∷◌, ◌++◌, contains, any,
  all, String, ◌==◌, Result, ok, err, if◌then◌else◌, or_else, ℕ, leb,
}
use mixapi.Errors.{MixApiError, validation_error}
use mixapi.Json.{Value, Fields, null, str, arr, obj, cons, get, get_in, to_list}
use mixapi.Models.{
  ProviderModel, ProviderStatus, active, SchemaSupport, no_schema, json_mode, best_effort_schema,
  strict_json_schema,
}

abbrev is_active : ProviderStatus → Bool
is_active active = true
is_active _ = false

-- `_schema_supports`
abbrev rank : SchemaSupport → ℕ
rank no_schema = 0
rank json_mode = 1
rank best_effort_schema = 2
rank strict_json_schema = 3

unfoldable pub schema_supports : SchemaSupport → SchemaSupport → Bool
schema_supports actual required = leb (rank required) (rank actual)

-- `TypeError`, which a set raises when it is asked for a list or a dict, and which nothing on the way
-- catches.
abbrev pub type_error : MixApiError
type_error = record { type = "TypeError"; code = ""; status_code = 500 }

-- The kinds of input that one content part asks for; other parts ask for none.
unfoldable pub part_modality : Value → Result MixApiError (List String)
part_modality (obj fs) = elim (get "type" fs) [
  | some (str t) ↦ ok (
      if t == "input_text" || t == "text"
      then "text" ∷ []
      else if t == "input_image" || t == "image"
      then "image" ∷ []
      else if t == "input_file" || t == "file"
      then "file" ∷ []
      else [])
  | some (arr vs) ↦ err type_error
  | some (obj gs) ↦ err type_error
  | _ ↦ ok []
]
part_modality _ = ok []

unfoldable pub flat {ℓ} :
    {A : Type ℓ}
    → (A → Result MixApiError (List String))
    → List A
    → Result MixApiError (List String)
flat f [] = ok []
flat f (x ∷ xs) = let rest = flat f xs in (do found ← f x; more ← rest; ok (found ++ more))

unfoldable pub message_modalities : Value → Result MixApiError (List String)
unfolding part_modality flat
message_modalities (obj fs) = elim (get "content" fs) [
  | some (str t) ↦ ok ("text" ∷ [])
  | some (arr parts) ↦ flat part_modality (to_list parts)
  | _ ↦ ok []
]
message_modalities _ = ok []

-- `modalities or {"text"}`
abbrev or_text : List String → List String
or_text [] = "text" ∷ []
or_text (m ∷ ms) = m ∷ ms

-- `_required_input_modalities`. A set is a list here, and is only asked what it contains.
unfoldable pub required_input_modalities : Fields → Result MixApiError (List String)
unfolding message_modalities flat
required_input_modalities body = elim (get "input" body) [
  | none ↦ ok ("text" ∷ [])
  | some (str t) ↦ ok ("text" ∷ [])
  | some (arr messages) ↦ do found ← flat message_modalities (to_list messages); ok (or_text found)
  | some _ ↦ err (validation_error "invalid_input")
]

-- `value == s`, for a value that may be missing or no text.
abbrev pub is_text : String → Option Value → Bool
is_text s (some (str t)) = t == s
is_text s _ = false

unfoldable pub requires_strict_schema : Fields → Bool
requires_strict_schema body =
    is_text "json_schema" (get_in "type" (get_in "format" (get "response" body)))

unfoldable pub requires_function_tools : Fields → Bool
requires_function_tools body = elim (get "tools" body) [ some (arr (cons v vs)) ↦ true | _ ↦ false ]

-- `_provider_pin`: the pin `auto` is none.
unfoldable pub provider_pin : Fields → Result MixApiError (Option String)
provider_pin body = elim (get_in "provider" (get "native" body)) [
  | none ↦ ok none
  | some null ↦ ok none
  | some (str p) ↦ ok (if p == "auto" then none else some p)
  | some (arr vs) ↦ err type_error
  | some (obj gs) ↦ err type_error
  | some _ ↦ err (validation_error "invalid_provider_pin")
]

pub data Objective : Type 0 where
  balanced lowest_cost lowest_latency highest_reliability : Objective

unfoldable pub objective_of : String → Option Objective
objective_of t =
    if t == "balanced"
    then some balanced
    else if t == "lowest-cost"
    then some lowest_cost
    else if t == "lowest-latency"
    then some lowest_latency
    else if t == "highest-reliability"
    then some highest_reliability
    else none

-- `x or "balanced"`
abbrev or_balanced : Option String → String
or_balanced none = "balanced"
or_balanced (some t) = if t == "" then "balanced" else t

abbrev checked : Option Objective → Result MixApiError Objective
checked none = err (validation_error "invalid_routing_objective")
checked (some o) = ok o

-- `_routing_objective`. Without a `routing` object the default is taken as it is; a default that
-- names no objective is then scored as `balanced`.
unfoldable pub routing_objective : Fields → Option String → Result MixApiError Objective
unfolding objective_of
routing_objective body default = elim (get "routing" body) [
  | some (obj routing) ↦ elim (get "objective" routing) [
    | none ↦ checked (objective_of (or_balanced default))
    | some (str t) ↦ checked (objective_of t)
    | some _ ↦ err (validation_error "invalid_routing_objective")
  ]
  | _ ↦ ok (or_else (objective_of (or_balanced default)) balanced)
]

-- `name == pin`, for a name that may be missing.
abbrev is_name : String → Option String → Bool
is_name pin none = false
is_name pin (some n) = n == pin

pub record Requirements : Type 0 where
  pub provider_pin : Option String
  pub connection_pin : Option String
  pub required_input_modalities : List String
  pub required_output_modality : String
  pub requires_strict_schema : Bool
  pub requires_function_tools : Bool
  pub endpoint : String

-- A pin that is set and names none of the texts.
abbrev pinned_away : Option String → List (Option String) → Bool
pinned_away none names = false
pinned_away (some pin) names = not (pin == "") && not (any (λ n. is_name pin n) names)

-- `_rejection_reason`: the first requirement that the candidate does not meet.
unfoldable pub rejection_reason : ProviderModel → Requirements → Option String
unfolding schema_supports
rejection_reason c r =
    if not (is_active c.status)
    then some "model_disabled"
    else if pinned_away r.connection_pin (c.provider_connection_id ∷ [])
    then some "connection_not_pinned"
    else if pinned_away r.provider_pin
        (some c.provider ∷ c.provider_connection_id ∷ c.protocol ∷ [])
    then some "provider_not_pinned"
    else if r.endpoint == "embeddings" && not c.embeddings_support
    then some "embeddings_not_supported"
    else if not (contains r.required_output_modality c.output_modalities)
    then some "missing_output_modality"
    else if not (all (λ m. contains m c.input_modalities) r.required_input_modalities)
    then some "missing_input_modality"
    else if r.requires_strict_schema && not (schema_supports c.schema_support strict_json_schema)
    then some "strict_schema_not_supported"
    else if r.requires_function_tools && not (contains "function" c.tool_modes)
    then some "tools_not_supported"
    else none
