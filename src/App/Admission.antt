-- ===== src/App/Admission.antt =====
-- What a request passes before it is dispatched: the circuits, its budget, and its quotas
-- (`_circuit_eligible_candidates`, `_reserve_budget` and `_reserve_quotas` of mixapi/app.py). Metrics
-- and spans are left out.
pub mod Quotas
pub mod Tokens
use mixapi.Shared.{Bool, true, false, Option, List, [], ◌∷◌, String, ok, err}
use mixapi.Shared.Int.{ℤ, pos}
use mixapi.Exec.{Exec, pure, raise, on_error, ◌>>=◌, ◌>>◌}
use mixapi.Money.{Decimal}
use mixapi.Models.{ProviderModel}
use mixapi.Redis.{Redis, Conn}
use mixapi.Routing.Order.{Rejection}
use mixapi.Runtime.Quota.{
  QuotaKey, Limits, TokenReservation, reserve_tokens, release_tokens, reserve_request,
}
use mixapi.Runtime.Budget.{BudgetKey, BudgetReservation, reserve}
use mixapi.App.Estimates.{RequestSize, budget_eligible_candidates}

-- A candidate whose circuit is open is rejected.
abbrev pub sort_by_circuit :
    ProviderModel → Bool → List ProviderModel × List Rejection → List ProviderModel × List Rejection
sort_by_circuit c true (eligible, rejected) = (
  eligible,
  record { provider = c.provider; model = c.provider_model_id; reason = "provider_circuit_open" }
      ∷ rejected,
)
sort_by_circuit c false (eligible, rejected) = (c ∷ eligible, rejected)

-- `is_open` is the breaker's.
module _ {S : Type 0} (is_open : String → String → Exec S Bool) where
  unfoldable pub circuit_eligible_candidates :
      List ProviderModel → Exec S (List ProviderModel × List Rejection)
  circuit_eligible_candidates [] = pure ([], [])
  circuit_eligible_candidates (c ∷ cs) =
      let rest = circuit_eligible_candidates cs in
      (do
        opened ← is_open c.provider c.provider_model_id
        sorted ← rest
        pure (sort_by_circuit c opened sorted))

module _ (R : Redis BudgetKey ℤ) where
  -- `limit_usd` is the service's, `key_limit` the principal's; `spent` and `uuid` are as in `reserve`.
  unfoldable pub reserve_budget :
      Option Decimal
      → String
      → Option Decimal
      → ℤ
      → String
      → RequestSize
      → List ProviderModel
      → Exec (Conn R.State) (List ProviderModel × List Rejection × BudgetReservation)
  unfolding budget_eligible_candidates
  reserve_budget limit_usd api_key_id key_limit spent uuid z candidates =
      elim (budget_eligible_candidates z candidates) [
        | err e ↦ raise e
        | ok (eligible, rejected, cost) ↦ do
          reservation ← reserve R limit_usd api_key_id (pos cost) key_limit spent uuid
          pure (eligible, rejected, reservation)
      ]

module _ (R : Redis QuotaKey ℤ) (limits : Limits) where
  unfoldable pub reserve_quotas : String → ℤ → String → Exec (Conn R.State) TokenReservation
  unfolding reserve_tokens reserve_request release_tokens
  reserve_quotas api_key_id estimated uuid = do
    reservation ← reserve_tokens R limits api_key_id estimated uuid
    on_error (reserve_request R limits api_key_id) (release_tokens R limits reservation)
    pure reservation
