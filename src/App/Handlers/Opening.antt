-- ===== src/App/Handlers/Opening.antt =====
-- What a handler of mixapi/app.py does before it dispatches: routing, circuits, and the reservations.
use mixapi.Shared.{Option, none, some, List, [], ◌∷◌, ◌++◌, String, ◌==◌, if◌then◌else◌}
use mixapi.Shared.Int.{pos}
use mixapi.Errors.{provider_unavailable}
use mixapi.Exec.{Exec, pure, raise, on_error, ◌>>=◌, ◌>>◌}
use mixapi.Json.{Fields, str, get}
use mixapi.Models.{ProviderModel}
use mixapi.Routing.Order.{Rejection, RouteDecision, plan_route}
use mixapi.Runtime.Quota.{TokenReservation, release_tokens}
use mixapi.Runtime.Budget.{BudgetReservation, release}
use mixapi.Runtime.Sessions.{get_connection_id}
use mixapi.App.Estimates.{estimate_request_tokens}
use mixapi.App.Admission.{circuit_eligible_candidates, reserve_budget, reserve_quotas}
use mixapi.App.Handlers.{
  UsageWriteIntent, RouteAttempt, RouteDecisionRecord, Services, Call, Desk, on_quota, on_env,
  on_budget, on_ledger, checked,
}

-- `request_body["model"]`, which routing has found to be a text.
abbrev pub logical_model : Fields → String
logical_model body = elim (get "model" body) [ some (str m) ↦ m | _ ↦ "" ]

-- A session identifier that is not empty.
abbrev pub session_of : Call → Option String
session_of q = elim q.session_id [ none ↦ none | some s ↦ if s == "" then none else some s ]

abbrev pub usage_write_intent :
    String → Call → BudgetReservation → TokenReservation → UsageWriteIntent
usage_write_intent endpoint q hold tokens = record {
  request_id = q.request_id;
  tenant_id = q.principal.tenant_id;
  project_id = q.principal.project_id;
  api_key_id = q.principal.api_key_id;
  endpoint = endpoint;
  logical_model = logical_model q.body;
  configuration_version = q.configuration_version;
  budget_reservation_id = hold.reservation_id;
  token_reservation_id = tokens.reservation_id;
}

-- The record of a request that no candidate has answered.
abbrev pub failed_decision :
    String → Call → List RouteAttempt → List Rejection → RouteDecisionRecord
failed_decision endpoint q attempts rejected = record {
  request_id = q.request_id;
  tenant_id = q.principal.tenant_id;
  project_id = q.principal.project_id;
  endpoint = endpoint;
  logical_model = logical_model q.body;
  status = "failed";
  selected_provider = none;
  selected_provider_model = none;
  attempts = attempts;
  rejected_candidates = rejected;
  selected_provider_connection_id = none;
  selected_provider_protocol = none;
  configuration_version = q.configuration_version;
}

-- What the handler goes on with.
pub record Admitted : Type 0 where
  pub candidates : List ProviderModel
  pub rejected : List Rejection
  pub reservation : BudgetReservation
  pub token_reservation : TokenReservation

module _ (P : Services) where
  -- `_reserve_budget`, with the durable spend that it reads.
  unfoldable pub reserve_spend :
      String
      → Call
      → List ProviderModel
      → Exec (Desk P) (List ProviderModel × List Rejection × BudgetReservation)
  unfolding reserve_budget
  reserve_spend endpoint q candidates d =
      on_budget P
        (reserve_budget P.budget P.limit_usd q.principal.api_key_id q.principal.budget_limit_usd
          (P.ledger.actual_spend d.ledger q.principal.api_key_id) q.budget_uuid
          (P.request_size endpoint q.body) candidates)
        d

  -- `budget.release(…)`, and `quota.release_tokens(…)`.
  abbrev pub refund : BudgetReservation → Exec (Desk P) (Unit {0})
  refund hold = on_budget P (release P.budget hold)

  abbrev pub return_tokens : TokenReservation → Exec (Desk P) (Unit {0})
  return_tokens tokens = on_quota P (release_tokens P.quota P.limits tokens)

  -- The quotas, or the budget is given back.
  unfoldable pub take_quotas :
      String → Call → List ProviderModel → BudgetReservation → Exec (Desk P) TokenReservation
  unfolding reserve_quotas
  take_quotas endpoint q candidates hold =
      on_error
        (on_quota P (
          reserve_quotas P.quota P.limits q.principal.api_key_id
            (pos (estimate_request_tokens (P.request_size endpoint q.body) candidates))
            q.token_uuid))
        (refund hold)

  -- The intent, or both reservations are given back.
  unfoldable pub write_intent :
      String → Call → BudgetReservation → TokenReservation → Exec (Desk P) (Unit {0})
  write_intent endpoint q hold tokens =
      on_error (on_ledger P (P.ledger.begin_intent (usage_write_intent endpoint q hold tokens)))
        (refund hold >> return_tokens tokens)

  abbrev pub admitted_of :
      List ProviderModel → List Rejection → BudgetReservation → TokenReservation → Admitted
  admitted_of candidates rejected hold tokens = record {
    candidates = candidates;
    rejected = rejected;
    reservation = hold;
    token_reservation = tokens;
  }

  -- The quotas and the intent, for a budget that is reserved.
  unfoldable pub reserve_rest :
      String
      → Call
      → List ProviderModel
      → List Rejection
      → BudgetReservation
      → Exec (Desk P) Admitted
  unfolding take_quotas write_intent
  reserve_rest endpoint q candidates rejected hold = do
    tokens ← take_quotas endpoint q candidates hold
    write_intent endpoint q hold tokens
    pure (admitted_of candidates rejected hold tokens)

  -- From the reservation of the budget to the intent.
  unfoldable pub admit :
      String → Call → List Rejection → List ProviderModel → Exec (Desk P) Admitted
  unfolding reserve_spend reserve_rest
  admit endpoint q rejected candidates = do
    reserved ← reserve_spend endpoint q candidates
    reserve_rest endpoint q (reserved.0) (rejected ++ reserved.1) (reserved.2)

  -- `if not circuit_candidates`
  unfoldable pub admit_any :
      String → Call → List Rejection → List ProviderModel → Exec (Desk P) Admitted
  unfolding admit
  admit_any endpoint q rejected [] = do
    on_ledger P (P.ledger.record_decision (failed_decision endpoint q [] rejected))
    raise (provider_unavailable "all_provider_circuits_open")
  admit_any endpoint q rejected (c ∷ cs) = admit endpoint q rejected (c ∷ cs)

  -- The connection that the session of the request sticks to.
  abbrev pub connection_pin : Call → Desk P → Option String
  connection_pin q d = elim (session_of q) [
    | none ↦ none
    | some s ↦ get_connection_id P.sessions q.principal.tenant_id s d.sessions
  ]

  unfoldable pub route : String → Call → Exec (Desk P) RouteDecision
  route endpoint q d =
      checked P
        (plan_route P.rendezvous_rank q.catalog (record {
          body = q.body;
          endpoint = endpoint;
          model_allowlist = q.principal.model_allowlist;
          default_objective = q.principal.routing_objective;
          selection_seed = q.request_id;
          connection_pin = connection_pin q d;
        }))
        d

  abbrev pub pass_circuits :
      List ProviderModel → Exec (Desk P) (List ProviderModel × List Rejection)
  pass_circuits candidates = on_env P (circuit_eligible_candidates P.gateway.is_open candidates)

  -- From the session to the intent.
  unfoldable pub open_request : String → Call → Exec (Desk P) Admitted
  unfolding route circuit_eligible_candidates admit_any
  open_request endpoint q = do
    decision ← route endpoint q
    sorted ← pass_circuits decision.candidates
    admit_any endpoint q (decision.rejected ++ sorted.1) (sorted.0)
