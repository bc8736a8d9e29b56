-- ===== src/App/Dispatch/Billing.antt =====
-- What a dispatch bills, and `_billable_dispatch_totals`, `_billable_response_usage_events` and
-- `_public_error_for_failed_attempts` of mixapi/app.py.
use mixapi.Shared.{
  ℕ, ◌+◌, ◌≡◌, refl, ap, Bool, false, Option, List, [], ◌∷◌, all, String, ◌==◌, if◌then◌else◌,
}
use mixapi.Errors.{
  MixApiError, structured_output_error, provider_rate_limited, upstream_timeout,
  provider_unavailable,
}
use mixapi.Money.{Money, estimate_cost}
use mixapi.App.Dispatch.{BillableDispatch, FailedAttempt}

-- `UsageEvent` of mixapi/usage.py, without what the database adds (its time and its sequence number).
pub record UsageEvent : Type 0 where
  pub request_id : String
  pub tenant_id : String
  pub project_id : String
  pub api_key_id : String
  pub endpoint : String
  pub logical_model : String
  pub provider : String
  pub provider_model : String
  pub input_tokens : ℕ
  pub output_tokens : ℕ
  pub cost_usd : Money
  pub provider_connection_id : Option String
  pub provider_protocol : Option String
  pub configuration_version : ℕ

-- `sum(f(x) for x in l)`
unfoldable pub sum_of {ℓ} : {A : Type ℓ} → (A → ℕ) → List A → ℕ
sum_of f [] = 0
sum_of f (x ∷ xs) = f x + sum_of f xs

abbrev pub cost_of : BillableDispatch → Money
cost_of d = estimate_cost d.response.input_tokens d.response.output_tokens d.candidate.pricing

pub record Totals : Type 0 where
  pub input_tokens : ℕ
  pub output_tokens : ℕ
  pub cost : Money

unfoldable pub billable_dispatch_totals : List BillableDispatch → Totals
unfolding sum_of
billable_dispatch_totals ds = record {
  input_tokens = sum_of (λ d. d.response.input_tokens) ds;
  output_tokens = sum_of (λ d. d.response.output_tokens) ds;
  cost = sum_of cost_of ds;
}

-- Who a request is for: the request and the principal's fields that an event carries.
pub record Billed : Type 0 where
  pub request_id : String
  pub tenant_id : String
  pub project_id : String
  pub api_key_id : String
  pub logical_model : String
  pub configuration_version : ℕ

abbrev pub usage_event : Billed → BillableDispatch → UsageEvent
usage_event b d = record {
  request_id = b.request_id;
  tenant_id = b.tenant_id;
  project_id = b.project_id;
  api_key_id = b.api_key_id;
  endpoint = "responses";
  logical_model = b.logical_model;
  provider = d.candidate.provider;
  provider_model = d.candidate.provider_model_id;
  input_tokens = d.response.input_tokens;
  output_tokens = d.response.output_tokens;
  cost_usd = cost_of d;
  provider_connection_id = d.candidate.provider_connection_id;
  provider_protocol = d.candidate.protocol;
  configuration_version = b.configuration_version;
}

unfoldable pub billable_response_usage_events : Billed → List BillableDispatch → List UsageEvent
billable_response_usage_events b [] = []
billable_response_usage_events b (d ∷ ds) = usage_event b d ∷ billable_response_usage_events b ds

-- What a request settles is the sum over the usage events that it writes, in tokens and in cost.
pub totals-events :
    (b : Billed) (ds : List BillableDispatch)
    → let t = billable_dispatch_totals ds in
      let es = billable_response_usage_events b ds in
      (t.input_tokens ≡ sum_of (λ e. e.input_tokens) es)
      × (t.output_tokens ≡ sum_of (λ e. e.output_tokens) es)
      × (t.cost ≡ sum_of (λ e. e.cost_usd) es)
unfolding billable_dispatch_totals billable_response_usage_events
totals-events b [] = (refl, refl, refl)
totals-events b (d ∷ ds) =
    let (i, o, c) = totals-events b ds in
    (
      ap (λ n. d.response.input_tokens + n) i,
      ap (λ n. d.response.output_tokens + n) o,
      ap (λ n. cost_of d + n) c,
    )

-- `reasons == {reason}`: there are attempts, and all failed for that reason.
unfoldable pub only_reason : String → List FailedAttempt → Bool
only_reason reason [] = false
only_reason reason (a ∷ as') = all (λ x. x.reason == reason) (a ∷ as')

unfoldable pub public_error_for_failed_attempts : List FailedAttempt → MixApiError
unfolding only_reason
public_error_for_failed_attempts attempts =
    if only_reason "schema_validation_failed" attempts
    then structured_output_error "schema_validation_failed"
    else if only_reason "upstream_http_429" attempts
    then provider_rate_limited "all_candidates_rate_limited"
    else if only_reason "upstream_timeout" attempts
    then upstream_timeout "all_candidates_timed_out"
    else provider_unavailable "all_candidates_failed"
