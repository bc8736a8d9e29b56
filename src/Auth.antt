-- ===== src/Auth.antt =====
-- mixapi/auth.py: who a request comes from, and what it may ask for.
use mixapi.Shared.{not, Option, List, any, String, ◌==◌, Result, raise_if}
use mixapi.Money.{Decimal}
use mixapi.Errors.{MixApiError, permission_denied}

pub record Principal : Type 0 where
  pub tenant_id : String
  pub project_id : String
  pub api_key_id : String
  pub scopes : List String
  pub model_allowlist : Option (List String)
  pub budget_limit_usd : Option Decimal
  pub routing_objective : Option String

unfoldable pub require_scope : Principal → String → Result MixApiError (Unit {0})
require_scope p required =
    raise_if (not (any (λ s. s == required) p.scopes)) (permission_denied "missing_scope")
