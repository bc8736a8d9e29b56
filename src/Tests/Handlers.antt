-- ===== src/Tests/Handlers.antt =====
-- A request that is answered, and sent again.
use mixapi.Shared.{◌≡◌, refl, true, Option, none, some, [], ◌∷◌, String, ok, ◌==◌, if◌then◌else◌}
use mixapi.Shared.Int.{pos}
use mixapi.Exec.{Exec, pure, raise}
use mixapi.Errors.{not_found}
use mixapi.Auth.{Principal}
use mixapi.Json.{Fields, end, field, str}
use mixapi.Money.{Decimal}
use mixapi.Models.{ProviderModel, LogicalModel, active}
use mixapi.Redis.{Redis}
use mixapi.Redis.Memory.{memory, String-discrete}
use mixapi.Routing.Requirements.{
  required_input_modalities, provider_pin, routing_objective, rejection_reason,
  requires_strict_schema, requires_function_tools,
}
use mixapi.Routing.Order.{Catalog, plan_route}
use mixapi.StructuredOutput.{response_schema}
use mixapi.App.Dispatch.{both}
use mixapi.Runtime.Quota.{Limits, reserve_concurrency, reserve_slot_script, reconcile_tokens}
use mixapi.Runtime.Budget.{reserve}
use mixapi.Runtime.Idempotency.{IdempotencyKey, Stored}
use mixapi.App.Handlers.{Ledger, Services, Call, Desk}
use mixapi.App.Handlers.Endpoints.{create_response, create_embedding}
use mixapi.App.Handlers.Endpoints.Retry.{create_response_again, create_embedding_again}
use mixapi.App.Handlers.Opening.{Admitted}
use mixapi.Tests.{quota_store, quiet, candidate}
use mixapi.Tests.Dispatch.{gateway}
use mixapi.Tests.Routing.{no_rank}
use mixapi.Tests.Budget.{plain, budget_store, no_strip, no_decimal, any_schema}

pub IdempotencyKey-discrete : Discrete IdempotencyKey
IdempotencyKey-discrete = hlevel String-discrete

abbrev records_store : Redis IdempotencyKey Stored
records_store = memory Stored IdempotencyKey-discrete

abbrev session_store : Redis String String
session_store = memory String String-discrete

-- A database that takes what it is given.
abbrev pub ledger : Ledger
ledger = record {
  State = Unit;
  actual_spend = λ s k. pos 0;
  begin_intent = λ i. pure tt;
  fail_intent = λ r. pure tt;
  reconcile_with_usage = λ h c es. pure tt;
  mark_reconciliation_processed = λ r. pure tt;
  record_decision = λ d. pure tt;
}

abbrev pub services_with : Limits → Option Decimal → Services
services_with limits limit_usd = record {
  quota = quota_store;
  limits = limits;
  gateway = gateway;
  budget = budget_store;
  limit_usd = limit_usd;
  idempotency = records_store;
  request_hash = λ body. "hash";
  sessions = session_store;
  ledger = ledger;
  rendezvous_rank = no_rank;
  strip = no_strip;
  decimal_of = no_decimal;
  schema_is_valid = any_schema;
  request_size = λ endpoint body. record plain { embeddings = endpoint == "embeddings" };
  write_payload = λ endpoint p. field "output_text" (str p.response.output_text) end;
}

-- The services with no limits.
abbrev services : Services
services = services_with (record { request_limit = none; token_limit = none }) none

abbrev embedder : ProviderModel
embedder = record (candidate "local" (pos 2)) {
  embeddings_support = true;
  concurrency_limit = none;
  output_modalities = "embedding" ∷ [];
}

abbrev model : LogicalModel
model = record {
  id = "chat";
  status = active;
  description = "";
  candidates = candidate "openai" (pos 1) ∷ embedder ∷ [];
}

abbrev catalog : Catalog
catalog = record {
  resolve_model_id = λ m. if m == "chat" then some "chat" else none;
  model_of = λ m. if m == "chat" then some model else none;
}

abbrev principal : Principal
principal = record {
  tenant_id = "t";
  project_id = "p";
  api_key_id = "a";
  scopes = "responses:create" ∷ "embeddings:create" ∷ [];
  model_allowlist = none;
  budget_limit_usd = none;
  routing_objective = none;
}

abbrev pub request : Call
request = record {
  request_id = "req-1";
  idempotency_key = some "key";
  session_id = none;
  body = field "model" (str "chat") (field "input" (str "hi") end);
  principal = principal;
  catalog = catalog;
  configuration_version = 1;
  budget_uuid = "b-1";
  token_uuid = "t-1";
  response_uuid = "r-1";
}

abbrev again : Call
again = record request {
  request_id = "req-2";
  budget_uuid = "b-2";
  token_uuid = "t-2";
  response_uuid = "r-2";
}

abbrev pub desk_with :
    (limits : Limits) (limit_usd : Option Decimal) → Desk (services_with limits limit_usd)
desk_with limits limit_usd = record {
  quota = quiet;
  env = tt;
  budget = record { reachable = true; store = λ _. none };
  records = record { reachable = true; store = λ _. none };
  sessions = λ _. none;
  ledger = tt;
}

abbrev fresh_desk : Desk services
fresh_desk = desk_with (record { request_limit = none; token_limit = none }) none

abbrev answer : Fields
answer = field "output_text" (str "hi") end

abbrev no_stream : Call → Admitted → Exec (Desk services) Fields
no_stream q admitted = raise (not_found "no_stream")

abbrev answered_desk : Desk services
answered_desk = (create_response services no_stream request fresh_desk).1

answered : create_response services no_stream request fresh_desk ≡ (ok answer, answered_desk)
unfolding create_response plan_route required_input_modalities provider_pin routing_objective
    rejection_reason requires_strict_schema requires_function_tools reserve both reserve_concurrency
    reserve_slot_script response_schema reconcile_tokens
answered = refl

create_response_again_example :
    create_response services no_stream again answered_desk ≡ (ok answer, answered_desk)
create_response_again_example =
    create_response_again services request refl again refl refl refl fresh_desk answered_desk
      answered_desk refl answer refl no_stream answered

abbrev embedded_desk : Desk services
embedded_desk = (create_embedding services request fresh_desk).1

embedded : create_embedding services request fresh_desk ≡ (ok answer, embedded_desk)
unfolding create_embedding plan_route required_input_modalities provider_pin routing_objective
    rejection_reason requires_strict_schema requires_function_tools reserve both reconcile_tokens
embedded = refl

create_embedding_again_example :
    create_embedding services again embedded_desk ≡ (ok answer, embedded_desk)
create_embedding_again_example =
    create_embedding_again services request refl again refl refl refl fresh_desk embedded_desk
      embedded_desk refl answer refl embedded
