-- ===== src/Routing/Order.antt =====
-- The scores of the eligible candidates, their order, and `plan_route`.
use mixapi.Shared.{
  Bool, true, false, not, ◌&&◌, ◌||◌, Option, none, some, List, [], ◌∷◌, ◌++◌, map, String, ◌==◌,
  Result, ok, err, ◌>>=◌, ◌>>◌, raise_if, or_raise, if◌then◌else◌, or_else, ◌+◌, ◌*◌,
}
use mixapi.Shared.Int.{ℤ, pos, negsuc, ◌-ℤ◌, leb_ℤ}
use mixapi.Errors.{MixApiError, validation_error, capability_unsupported, permission_denied}
use mixapi.Json.{Fields, str, get}
use mixapi.Money.{Decimal}
use mixapi.Models.{ProviderModel, LogicalModel}
use mixapi.Routing.Requirements.{
  Objective, balanced, lowest_cost, lowest_latency, highest_reliability, Requirements,
  rejection_reason, required_input_modalities, requires_strict_schema, requires_function_tools,
  provider_pin, routing_objective,
}

-- An entry of `rejected`.
pub record Rejection : Type 0 where
  pub provider : String
  pub model : String
  pub reason : String

pub record Scored : Type 0 where
  pub candidate : ProviderModel
  pub score : Decimal

-- `_token_cost`
abbrev token_cost : ProviderModel → Decimal
token_cost c = pos (or_else c.pricing.input_per_million 0 + or_else c.pricing.output_per_million 0)

-- `Decimal(n)` of a whole number.
abbrev scaled : ℤ → Decimal
scaled (pos n) = pos (n * 100000000)
scaled (negsuc n) = negsuc (n * 100000000 + 99999999)

-- `_score_candidate`; the priority is a whole number, and decimals count 10^-8.
unfoldable pub score_candidate : ProviderModel → Objective → Decimal
unfolding ◌-ℤ◌
score_candidate c lowest_cost = token_cost c
score_candidate c lowest_latency = c.latency_ms
score_candidate c highest_reliability = pos 0 -ℤ c.reliability
score_candidate c balanced = scaled c.priority

-- A candidate joins those that can serve the request, with its score, or the others, with the reason.
unfoldable pub add_judged :
    ProviderModel
    → Objective
    → Option String
    → List Scored × List Rejection
    → List Scored × List Rejection
unfolding score_candidate
add_judged c o (some reason) (eligible, rejected) = (
  eligible,
  record { provider = c.provider; model = c.provider_model_id; reason = reason } ∷ rejected,
)
add_judged c o none (eligible, rejected) =
    (record { candidate = c; score = score_candidate c o } ∷ eligible, rejected)

-- The loop over the candidates.
unfoldable pub sort_out :
    Requirements → Objective → List ProviderModel → List Scored × List Rejection
unfolding add_judged
sort_out r o [] = ([], [])
sort_out r o (c ∷ cs) = add_judged c o (rejection_reason c r) (sort_out r o cs)

-- The first reason that is not a pin.
unfoldable pub first_reason : List Rejection → Option String
first_reason [] = none
first_reason (r ∷ rs) =
    if r.reason == "provider_not_pinned" || r.reason == "connection_not_pinned"
    then first_reason rs
    else some r.reason

-- `_best_rejection_code`
unfoldable pub best_rejection_code : List Rejection → String
unfolding first_reason
best_rejection_code rejected =
    or_else (first_reason rejected)
      (elim rejected [ [] ↦ "no_eligible_provider" | r ∷ rs ↦ r.reason ])

-- `sorted(l, key=key)`, which keeps equal items in their order.
module _ {A : Type 0} (key : A → Decimal) where
  unfoldable pub insert_by : A → List A → List A
  insert_by x [] = x ∷ []
  insert_by x (y ∷ ys) = if leb_ℤ (key x) (key y) then x ∷ y ∷ ys else y ∷ insert_by x ys

  unfoldable pub sorted_by : List A → List A
  unfolding insert_by
  sorted_by [] = []
  sorted_by (x ∷ xs) = insert_by x (sorted_by xs)

-- A bucket: a score, and the items that have it.
abbrev pub Bucket : Type 0
Bucket = Decimal × List Scored

abbrev pub same_score : Decimal → Decimal → Bool
same_score a b = leb_ℤ a b && leb_ℤ b a

-- `buckets.setdefault(item[1], []).append(item)`
unfoldable pub add_item : Scored → List Bucket → List Bucket
add_item x [] = (x.score, x ∷ []) ∷ []
add_item x ((score, items) ∷ bs) =
    if same_score score x.score
    then (score, items ++ x ∷ []) ∷ bs
    else (score, items) ∷ add_item x bs

unfoldable pub fill : List Scored → List Bucket → List Bucket
unfolding add_item
fill [] bs = bs
fill (x ∷ xs) bs = fill xs (add_item x bs)

-- `_rendezvous_rank` is a hash and a logarithm: a parameter, of which nothing is assumed.
module _ (rendezvous_rank : String → ProviderModel → Decimal) where
  -- `ordered.extend(sorted(buckets[score], key=…))`, over the sorted scores.
  unfoldable pub extend_all : String → List Bucket → List Scored
  unfolding sorted_by
  extend_all seed [] = []
  extend_all seed ((_, items) ∷ bs) =
      sorted_by (λ x. rendezvous_rank seed x.candidate) items ++ extend_all seed bs

  -- `_ordered_candidates`
  unfoldable pub ordered_candidates : List Scored → String → List Scored
  unfolding fill sorted_by extend_all
  ordered_candidates eligible seed = extend_all seed (sorted_by (λ b. b.0) (fill eligible []))

-- What the snapshot offers: `resolve_model_id`, and the logical models by their identifiers.
pub record Catalog : Type 0 where
  pub resolve_model_id : String → Option String
  pub model_of : String → Option LogicalModel

pub record RouteDecision : Type 0 where
  pub candidate : ProviderModel
  pub candidates : List ProviderModel
  pub rejected : List Rejection
  pub score : Decimal
  pub logical_model_id : String

-- `resolved in canonical_allowlist`
unfoldable pub is_listed : Catalog → String → List String → Bool
is_listed catalog m [] = false
is_listed catalog m (v ∷ vs) = elim (catalog.resolve_model_id v) [
  | none ↦ is_listed catalog m vs
  | some resolved ↦ resolved == m || is_listed catalog m vs
]

-- `canonical_allowlist is None or logical_model_id in canonical_allowlist`
unfoldable pub is_allowed : Catalog → String → Option (List String) → Bool
unfolding is_listed
is_allowed catalog m none = true
is_allowed catalog m (some allowlist) = is_listed catalog m allowlist

-- The requested model, which must be a text that is not empty.
abbrev pub requested_model : Fields → Result MixApiError String
requested_model body = elim (get "model" body) [
  | some (str m) ↦ if m == "" then err (validation_error "model_required") else ok m
  | _ ↦ err (validation_error "model_required")
]

-- The decision, from the candidates in their order.
unfoldable pub decide : List Scored → List Rejection → String → Result MixApiError RouteDecision
unfolding best_rejection_code
decide [] rejected model_id = err (capability_unsupported (best_rejection_code rejected))
decide (x ∷ xs) rejected model_id = ok (record {
  candidate = x.candidate;
  candidates = map (λ (y : Scored). y.candidate) (x ∷ xs);
  rejected = rejected;
  score = x.score;
  logical_model_id = model_id;
})

pub record Request : Type 0 where
  pub body : Fields
  pub endpoint : String
  pub model_allowlist : Option (List String)
  pub default_objective : Option String
  pub selection_seed : String
  pub connection_pin : Option String

-- What the request asks of a candidate, and by what the candidates are ordered.
unfoldable pub read_request : Request → Result MixApiError (Requirements × Objective)
read_request q = do
  modalities ← required_input_modalities q.body
  pin ← provider_pin q.body
  objective ← routing_objective q.body q.default_objective
  ok (
    (record {
      provider_pin = pin;
      connection_pin = q.connection_pin;
      required_input_modalities = modalities;
      required_output_modality = if q.endpoint == "embeddings" then "embedding" else "text";
      requires_strict_schema = requires_strict_schema q.body;
      requires_function_tools = requires_function_tools q.body;
      endpoint = q.endpoint;
    }),
    objective,
  )

module _ (rendezvous_rank : String → ProviderModel → Decimal) where
  -- The routing of a model that is found, for what the request asks.
  unfoldable pub route_model :
      Request → LogicalModel → String → Requirements × Objective → Result MixApiError RouteDecision
  unfolding sort_out ordered_candidates decide
  route_model q model model_id (r, objective) =
      let sorted = sort_out r objective model.candidates in
      let seed = if q.selection_seed == "" then model_id else q.selection_seed in
      decide (ordered_candidates rendezvous_rank (sorted.0) seed) (sorted.1) model_id

  unfoldable pub plan_route : Catalog → Request → Result MixApiError RouteDecision
  unfolding is_allowed read_request route_model
  plan_route catalog q = do
    requested ← requested_model q.body
    model_id ←
        or_raise (catalog.resolve_model_id requested) (capability_unsupported "model_not_found")
    raise_if (not (is_allowed catalog model_id q.model_allowlist))
        (permission_denied "model_not_allowed")
    model ← or_raise (catalog.model_of model_id) (capability_unsupported "model_not_found")
    needs ← read_request q
    route_model q model model_id needs
