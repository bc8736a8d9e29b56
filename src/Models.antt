-- ===== src/Models.antt =====
-- mixapi/models.py: a logical model and the provider models that can serve it.
use mixapi.Shared.{ℕ, Bool, Option, List, String}
use mixapi.Shared.Int.{ℤ}
use mixapi.Money.{Decimal, Pricing}

pub data SchemaSupport : Type 0 where
  no_schema json_mode best_effort_schema strict_json_schema : SchemaSupport

pub data ProviderStatus : Type 0 where
  active disabled deprecated expired : ProviderStatus

pub record ProviderModel : Type 0 where
  pub id : String
  pub provider : String
  pub provider_model_id : String
  pub logical_model_id : String
  pub status : ProviderStatus
  pub context_window_tokens : ℕ
  pub max_output_tokens : ℕ
  pub input_modalities : List String
  pub output_modalities : List String
  pub tool_modes : List String
  pub schema_support : SchemaSupport
  pub streaming_support : Bool
  pub embeddings_support : Bool
  pub retention_class : String
  pub regions : List String
  pub pricing : Pricing
  pub native_features : List String
  pub unsupported_parameters : List String
  pub provider_connection_id : Option String
  pub provider_connection_name : Option String
  pub protocol : Option String
  pub priority : ℤ
  pub weight : ℤ
  pub latency_ms : Decimal
  pub reliability : Decimal
  pub concurrency_limit : Option ℤ
  pub request_quota : Option ℤ

pub record LogicalModel : Type 0 where
  pub id : String
  pub status : ProviderStatus
  pub description : String
  pub candidates : List ProviderModel
