-- ===== src/App/Estimates.antt =====
-- What a request may cost and use at most, and the candidates that its cost limit leaves
-- (`_budget_eligible_candidates`, `_estimate_candidate_request_cost` and
-- `_estimate_request_tokens` of mixapi/app.py).
pub mod Cover
use Prim.Native.Nat.{max}
use mixapi.Shared.{
  ℕ, ◌+◌, ◌*◌, Bool, true, false, not, ◌&&◌, Option, none, some, List, [], ◌∷◌, map, String, Result,
  ok, err, or_else, if◌then◌else◌,
}
use mixapi.Shared.Int.{pos, ltb_ℤ}
use mixapi.Errors.{MixApiError, budget_exceeded}
use mixapi.Money.{Decimal, Money, estimate_cost}
use mixapi.Models.{ProviderModel}
use mixapi.Routing.Order.{Rejection}
use mixapi.App.Dispatch.Billing.{sum_of}

-- What the estimates read of a request: the tokens of its input, its own limits, whether it is for
-- embeddings, and whether `response_schema` finds a schema. How a text is
-- cut into tokens is left out, and a cost limit counts 10^-8 like every cost.
pub record RequestSize : Type 0 where
  pub embeddings : Bool
  pub input_tokens : ℕ
  pub max_output_tokens : Option ℕ
  pub max_cost_usd : Option Decimal
  pub has_schema : Bool

-- `CORRECTIVE_RETRY_TOKEN_RESERVE`
abbrev pub corrective_retry_token_reserve : ℕ
corrective_retry_token_reserve = 320

abbrev pub output_tokens_of : RequestSize → ProviderModel → ℕ
output_tokens_of z c = if z.embeddings then 0 else or_else z.max_output_tokens c.max_output_tokens

-- `endpoint == "responses" and response_schema(request_body) is not None`
abbrev pub is_structured : RequestSize → Bool
is_structured z = not z.embeddings && z.has_schema

unfoldable pub estimate_candidate_request_cost : RequestSize → ProviderModel → Money
estimate_candidate_request_cost z c = estimate_cost z.input_tokens (output_tokens_of z c) c.pricing

-- The first dispatch and the corrective one.
unfoldable pub estimate_structured_candidate_request_cost : RequestSize → ProviderModel → Money
estimate_structured_candidate_request_cost z c =
    let output = or_else z.max_output_tokens c.max_output_tokens in
    estimate_cost z.input_tokens output c.pricing
    + estimate_cost (z.input_tokens + corrective_retry_token_reserve) output c.pricing

abbrev pub estimate_of : RequestSize → ProviderModel → Money
estimate_of z c =
    if is_structured z
    then estimate_structured_candidate_request_cost z c
    else estimate_candidate_request_cost z c

-- `limit is not None and cost > limit`
abbrev pub exceeds : Option Decimal → Money → Bool
exceeds none cost = false
exceeds (some limit) cost = ltb_ℤ limit (pos cost)

-- `max(f(x) for x in l)`, or 0
unfoldable pub max_of : {A : Type 0} → (A → ℕ) → List A → ℕ
max_of f [] = 0
max_of f (x ∷ xs) = max (f x) (max_of f xs)

-- `max((f(x) for x in l), default=d)`
unfoldable pub max_or : {A : Type 0} → ℕ → (A → ℕ) → List A → ℕ
unfolding max_of
max_or d f [] = d
max_or d f (x ∷ xs) = max_of f (x ∷ xs)

-- The loop over the candidates: those that are kept, and the others with the reason.
unfoldable pub within_limit : RequestSize → List ProviderModel → List ProviderModel × List Rejection
unfolding estimate_candidate_request_cost estimate_structured_candidate_request_cost
within_limit z [] = ([], [])
within_limit z (c ∷ cs) =
    let (eligible, rejected) = within_limit z cs in
    if not (is_structured z) && exceeds z.max_cost_usd (estimate_of z c)
    then (
      eligible,
      record {
        provider = c.provider;
        model = c.provider_model_id;
        reason = "request_budget_exceeded";
      }
          ∷ rejected,
    )
    else (c ∷ eligible, rejected)

-- The most that the request may cost: with a schema each candidate may be asked in turn, and twice.
unfoldable pub estimated_cost : RequestSize → List ProviderModel → Money
unfolding estimate_candidate_request_cost estimate_structured_candidate_request_cost
estimated_cost z eligible =
    if is_structured z then sum_of (estimate_of z) eligible else max_of (estimate_of z) eligible

-- What follows the loop.
unfoldable pub check_cost :
    RequestSize
    → List ProviderModel × List Rejection
    → Result MixApiError (List ProviderModel × List Rejection × Money)
unfolding estimated_cost
check_cost z ([], rejected) = err (budget_exceeded "request_budget_exceeded")
check_cost z (c ∷ cs, rejected) =
    let cost = estimated_cost z (c ∷ cs) in
    if is_structured z && exceeds z.max_cost_usd cost
    then err (budget_exceeded "request_budget_exceeded")
    else ok (c ∷ cs, rejected, cost)

unfoldable pub budget_eligible_candidates :
    RequestSize
    → List ProviderModel
    → Result MixApiError (List ProviderModel × List Rejection × Money)
unfolding within_limit check_cost
budget_eligible_candidates z candidates = check_cost z (within_limit z candidates)

unfoldable pub estimate_request_tokens : RequestSize → List ProviderModel → ℕ
unfolding max_or
estimate_request_tokens z candidates =
    let tokens =
      λ (c : ProviderModel). z.input_tokens + or_else z.max_output_tokens c.max_output_tokens in
    if z.embeddings
    then z.input_tokens
    else if z.has_schema
    then sum_of (λ c. tokens c * 2 + corrective_retry_token_reserve) candidates
    else max_or z.input_tokens tokens candidates
