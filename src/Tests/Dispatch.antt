-- ===== src/Tests/Dispatch.antt =====
-- A dispatch to one candidate.
use mixapi.Shared.{some, ◌≡◌, refl, ◌*◌, ◌+◌, ◌≤◌, true, false, none, List, [], ◌∷◌, arith, length}
use mixapi.Shared.Int.{pos}
use mixapi.Exec.{pure}
use mixapi.Json.{Fields, end, field, str}
use mixapi.Money.{estimate_cost, estimate_cost_error}
use mixapi.Models.{ProviderModel}
use mixapi.StructuredOutput.{response_schema}
use mixapi.App.Dispatch.{Gateway, AdapterResponse, answered, World, BillableDispatch, both}
use mixapi.App.Dispatch.Loops.{dispatch_response_with_fallback, dispatch_embedding_with_fallback}
use mixapi.App.Dispatch.Slots.{Taken}
use mixapi.App.Dispatch.Release.{IsPlain, embedding_slots_restored}
use mixapi.App.Dispatch.Keep.{Kept, dispatch_response-Kept}
use mixapi.App.Dispatch.Outcome.{IsAccounted, dispatch_response-IsAccounted}
use mixapi.App.Dispatch.Billing.{
  Billed, billable_dispatch_totals, billable_response_usage_events, sum_of, totals-events,
}
use mixapi.Tests.{quota_store, quiet, candidate}

abbrev reply : AdapterResponse
reply = record {
  output_text = "hi";
  input_tokens = 3;
  output_tokens = 1;
  embedding = none;
  tool_calls = [];
}

-- Every provider answers.
abbrev pub gateway : Gateway
gateway = record {
  Env = Unit;
  dispatch_response = λ body c e. (answered reply, e);
  dispatch_embedding = λ body c e. (answered reply, e);
  record_success = λ p m. pure tt;
  record_failure = λ p m r. pure tt;
  is_open = λ p m. pure false;
  validate_output = λ t s. record { valid = true; failures = [] };
  corrective_request = λ body failures. body;
}

abbrev world : World quota_store gateway
world = record { quota = quiet; env = tt }

-- Prices of 2.5 and 10 dollars.
estimate_cost_error_example :
    let exact = 250000000 * 7 + 1000000000 * 3 in
    let cost =
      estimate_cost 7 3
        (record { input_per_million = some 250000000; output_per_million = some 1000000000 }) in
    (2 * (cost * 1000000) ≤ 2 * exact + 1000000) × (2 * exact ≤ 2 * (cost * 1000000) + 1000000)
estimate_cost_error_example = estimate_cost_error 7 3 250000000 1000000000

abbrev body : Fields
body = field "model" (str "chat") end

abbrev candidates : List ProviderModel
candidates = candidate "openai" (pos 1) ∷ candidate "local" (pos 2) ∷ []

openai-IsPlain : IsPlain (candidate "openai" (pos 1))
unfolding both
openai-IsPlain = record { positive = λ connection limit e. ground (arith, e); no_quota = refl }

local-IsPlain : IsPlain (candidate "local" (pos 2))
unfolding both
local-IsPlain = record { positive = λ connection limit e. ground (arith, e); no_quota = refl }

quiet-Taken : Taken quota_store (λ _. 0) quiet
quiet-Taken = record { up = refl; count_is = λ x. refl }

dispatch_response-IsAccounted_example :
    IsAccounted quota_store gateway
      (λ c. c.provider_model_id ≡ "m-1")
      (response_schema body)
      (2 * length candidates)
      (dispatch_response_with_fallback quota_store gateway body candidates world)
dispatch_response-IsAccounted_example =
    dispatch_response-IsAccounted quota_store gateway (λ c. c.provider_model_id ≡ "m-1") body
      candidates world (refl, (refl, tt))

dispatch_response-Kept_example :
    Kept quota_store gateway
      (λ _. 0)
      (dispatch_response_with_fallback quota_store gateway body candidates world)
dispatch_response-Kept_example =
    dispatch_response-Kept quota_store gateway body candidates (λ _. 0) world
      (openai-IsPlain, (local-IsPlain, tt)) quiet-Taken

embedding_slots_restored_example :
    Taken quota_store
      (λ _. 0)
      (dispatch_embedding_with_fallback quota_store gateway body candidates world).1.quota
embedding_slots_restored_example =
    embedding_slots_restored quota_store gateway body candidates (λ _. 0) world
      (openai-IsPlain, (local-IsPlain, tt)) quiet-Taken

abbrev billed : Billed
billed = record {
  request_id = "req";
  tenant_id = "t";
  project_id = "p";
  api_key_id = "a";
  logical_model = "chat";
  configuration_version = 1;
}

abbrev dispatched : List BillableDispatch
dispatched = record { candidate = candidate "openai" (pos 1); response = reply } ∷ []

totals-events_example :
    let t = billable_dispatch_totals dispatched in
    let es = billable_response_usage_events billed dispatched in
    (t.input_tokens ≡ sum_of (λ e. e.input_tokens) es)
    × (t.output_tokens ≡ sum_of (λ e. e.output_tokens) es)
    × (t.cost ≡ sum_of (λ e. e.cost_usd) es)
totals-events_example = totals-events billed dispatched
