-- ===== src/Tests.antt =====
-- Concrete data, on which the theorems are applied.
mod Runtime
mod Dispatch
mod Routing
mod Budget
mod Handlers
mod Accounts
mod Snapshots
mod Publication
use mixapi.Shared.{ℕ, Bool, true, false, Option, none, some, List, [], ◌∷◌, String}
use mixapi.Shared.Int.{ℤ, pos}
use mixapi.Models.{ProviderModel, LogicalModel, active, no_schema}
use mixapi.Redis.{Redis, Conn}
use mixapi.Redis.Memory.{memory, String-discrete}
use mixapi.Runtime.Quota.{QuotaKey}

pub QuotaKey-discrete : Discrete QuotaKey
QuotaKey-discrete = hlevel String-discrete

-- An empty store, on a server that answers.
abbrev pub quota_store : Redis QuotaKey ℤ
quota_store = memory ℤ QuotaKey-discrete

abbrev pub quiet : Conn quota_store.State
quiet = record { reachable = true; store = λ _. none }

abbrev pub candidate : String → ℤ → ProviderModel
candidate name priority = record {
  id = name;
  provider = name;
  provider_model_id = "m-1";
  logical_model_id = "chat";
  status = active;
  context_window_tokens = 8000;
  max_output_tokens = 1000;
  input_modalities = "text" ∷ [];
  output_modalities = "text" ∷ [];
  tool_modes = [];
  schema_support = no_schema;
  streaming_support = false;
  embeddings_support = false;
  retention_class = "none";
  regions = [];
  pricing = record { input_per_million = some 100000000; output_per_million = none };
  native_features = [];
  unsupported_parameters = [];
  provider_connection_id = some name;
  provider_connection_name = none;
  protocol = none;
  priority = priority;
  weight = pos 1;
  latency_ms = pos 0;
  reliability = pos 0;
  concurrency_limit = some (pos 2);
  request_quota = none;
}
