-- ===== src/App/Handlers/Closing.antt =====
-- What a handler of mixapi/app.py does after it has dispatched: what was used is settled, or the
-- reservations are given back; the route decision is recorded; and the answer is stored for replays.
use mixapi.Shared.{
  ℕ, false, none, some, List, [], ◌∷◌, ◌++◌, map, String, ◌==◌, ◌+◌, Result, ok, err, if◌then◌else◌,
}
use mixapi.Shared.Int.{pos}
use mixapi.Exec.{Exec, pure, raise, ◌>>◌}
use mixapi.Json.{Fields}
use mixapi.Money.{Money, estimate_cost}
use mixapi.Models.{ProviderModel}
use mixapi.Routing.Order.{Rejection}
use mixapi.Runtime.Quota.{reconcile_tokens}
use mixapi.Runtime.Budget.{BudgetReservation, finish_redis_reconciliation}
use mixapi.Runtime.Sessions.{set_connection_id}
use mixapi.Runtime.Idempotency.{store}
use mixapi.App.Dispatch.{
  AdapterResponse, FailedAttempt, BillableDispatch, ResponseDispatchOutcome, DispatchError,
  all_candidates_failed, service_error,
}
use mixapi.App.Dispatch.Billing.{
  UsageEvent, Billed, billable_dispatch_totals, billable_response_usage_events,
  public_error_for_failed_attempts,
}
use mixapi.App.Handlers.{
  RouteAttempt, tried, succeeded, RouteDecisionRecord, Payload, Services, Call, Desk, on_quota,
  on_budget, on_records, on_ledger,
}
use mixapi.App.Handlers.Opening.{
  Admitted, logical_model, session_of, failed_decision, refund, return_tokens,
}

abbrev pub route_attempts : List FailedAttempt → ProviderModel → List RouteAttempt
route_attempts failed c = map tried failed ++ succeeded c.provider c.provider_model_id ∷ []

-- The record of a request that the candidate `c` has answered.
abbrev pub succeeded_decision :
    String → Call → List FailedAttempt → ProviderModel → List Rejection → RouteDecisionRecord
succeeded_decision endpoint q failed c rejected =
    record (failed_decision endpoint q (route_attempts failed c) rejected) {
      status = "succeeded";
      selected_provider = some c.provider;
      selected_provider_model = some c.provider_model_id;
      selected_provider_connection_id = c.provider_connection_id;
      selected_provider_protocol = c.protocol;
    }

abbrev pub billed_of : Call → Billed
billed_of q = record {
  request_id = q.request_id;
  tenant_id = q.principal.tenant_id;
  project_id = q.principal.project_id;
  api_key_id = q.principal.api_key_id;
  logical_model = logical_model q.body;
  configuration_version = q.configuration_version;
}

-- An embedding is charged for its input alone.
abbrev pub embedding_cost : AdapterResponse → ProviderModel → Money
embedding_cost r c = estimate_cost r.input_tokens 0 (record c.pricing { output_per_million = none })

abbrev pub embedding_event : Call → AdapterResponse → ProviderModel → UsageEvent
embedding_event q r c = record {
  request_id = q.request_id;
  tenant_id = q.principal.tenant_id;
  project_id = q.principal.project_id;
  api_key_id = q.principal.api_key_id;
  endpoint = "embeddings";
  logical_model = logical_model q.body;
  provider = c.provider;
  provider_model = c.provider_model_id;
  input_tokens = r.input_tokens;
  output_tokens = 0;
  cost_usd = embedding_cost r c;
  provider_connection_id = c.provider_connection_id;
  provider_protocol = c.protocol;
  configuration_version = q.configuration_version;
}

abbrev pub response_payload : Call → Admitted → ResponseDispatchOutcome → Payload
response_payload q admitted o =
    let t = billable_dispatch_totals o.billable_dispatches in
    record {
      id = some q.response_uuid;
      logical_model = logical_model q.body;
      response = o.response;
      selected = o.selected_candidate;
      input_tokens = t.input_tokens;
      output_tokens = t.output_tokens;
      cost = t.cost;
      failed_attempts = o.failed_attempts;
      decision_trace_id = q.request_id;
      configuration_version = q.configuration_version;
      rejected_candidates = admitted.rejected;
    }

abbrev pub embedding_payload :
    Call → Admitted → AdapterResponse → ProviderModel → List FailedAttempt → Payload
embedding_payload q admitted r c failed = record {
  id = none;
  logical_model = logical_model q.body;
  response = r;
  selected = c;
  input_tokens = r.input_tokens;
  output_tokens = 0;
  cost = embedding_cost r c;
  failed_attempts = failed;
  decision_trace_id = q.request_id;
  configuration_version = q.configuration_version;
  rejected_candidates = admitted.rejected;
}

module _ (P : Services) where
  -- `_finish_redis_reconciliation`, with the durable spend that it reads.
  unfoldable pub finish_reconciliation : BudgetReservation → Exec (Desk P) (Unit {0})
  unfolding finish_redis_reconciliation
  finish_reconciliation hold d =
      (do
        on_budget P (
            finish_redis_reconciliation P.budget hold
              (P.ledger.actual_spend d.ledger hold.api_key_id))
        on_ledger P (P.ledger.mark_reconciliation_processed hold.reservation_id))
        d

  -- The database settles the reservation as one that is not tracked, and then Redis does.
  unfoldable pub reconcile_with_usage :
      BudgetReservation → Money → List UsageEvent → Exec (Desk P) (Unit {0})
  unfolding finish_reconciliation
  reconcile_with_usage hold cost events = do
    on_ledger P (P.ledger.reconcile_with_usage (record hold { tracked = false }) cost events)
    finish_reconciliation hold

  unfoldable pub settle_accounting :
      BudgetReservation → Money → List UsageEvent → Exec (Desk P) (Unit {0})
  unfolding reconcile_with_usage
  settle_accounting hold cost events = reconcile_with_usage hold cost events

  -- What was used is settled, in money and in tokens.
  unfoldable pub settle : Admitted → Money → List UsageEvent → ℕ → Exec (Desk P) (Unit {0})
  unfolding settle_accounting
  settle admitted cost events used = do
    settle_accounting admitted.reservation cost events
    on_quota P (reconcile_tokens P.quota P.limits admitted.token_reservation (pos used))

  -- What the dispatches of a response have used.
  unfoldable pub settle_billable :
      Call → Admitted → List BillableDispatch → Exec (Desk P) (Unit {0})
  unfolding settle billable_dispatch_totals billable_response_usage_events
  settle_billable q admitted dispatches =
      let t = billable_dispatch_totals dispatches in
      settle admitted t.cost (billable_response_usage_events (billed_of q) dispatches)
        (t.input_tokens + t.output_tokens)

  -- Both reservations are given back, and the intent has failed.
  unfoldable pub give_back : Call → Admitted → Exec (Desk P) (Unit {0})
  give_back q admitted =
      refund P admitted.reservation
      >> return_tokens P admitted.token_reservation
      >> on_ledger P (P.ledger.fail_intent q.request_id)

  -- The end of a request that no candidate has answered.
  unfoldable pub reject : String → Call → Admitted → List FailedAttempt → Exec (Desk P) Fields
  unfolding public_error_for_failed_attempts
  reject endpoint q admitted failed = do
    on_ledger P
        (P.ledger.record_decision (failed_decision endpoint q (map tried failed) admitted.rejected))
    raise (public_error_for_failed_attempts failed)

  -- The end of a request that a candidate has answered: the decision, the payload, and its record.
  unfoldable pub reply : String → Call → Admitted → Payload → Exec (Desk P) Fields
  unfolding store
  reply endpoint q admitted payload =
      let written = P.write_payload endpoint payload in
      (do
        on_ledger P (
            P.ledger.record_decision (
              succeeded_decision endpoint q payload.failed_attempts payload.selected
                admitted.rejected))
        on_records P (
            store P.idempotency P.request_hash q.principal.tenant_id endpoint q.idempotency_key
              q.body written)
        pure written)

  -- The session of the request sticks to the connection of the candidate.
  unfoldable pub stick : Call → ProviderModel → Exec (Desk P) (Unit {0})
  unfolding set_connection_id
  stick q c d = elim (session_of q) [
    | none ↦ (ok tt, d)
    | some s ↦ elim c.provider_connection_id [
      | none ↦ (ok tt, d)
      | some connection ↦ if connection == "" then (ok tt, d) else (
        ok tt,
        record d {
          sessions = set_connection_id P.sessions q.principal.tenant_id s connection d.sessions;
        },
      )
    ]
  ]

  -- What follows the dispatch of a response.
  unfoldable pub close_response :
      Call → Admitted → Result DispatchError ResponseDispatchOutcome → Exec (Desk P) Fields
  unfolding stick settle_billable reply give_back reject
  close_response q admitted (ok o) = do
    stick q o.selected_candidate
    settle_billable q admitted o.billable_dispatches
    reply "responses" q admitted (response_payload q admitted o)
  close_response q admitted (err (all_candidates_failed failed [] failures)) = do
    give_back q admitted
    reject "responses" q admitted failed
  close_response q admitted (err (all_candidates_failed failed (b ∷ bs) failures)) = do
    settle_billable q admitted (b ∷ bs)
    reject "responses" q admitted failed
  close_response q admitted (err (service_error e)) = raise e

  -- What follows the dispatch of an embedding, where nothing is billed unless a candidate answers.
  unfoldable pub close_embedding :
      Call
      → Admitted
      → Result DispatchError (AdapterResponse × ProviderModel × List FailedAttempt)
      → Exec (Desk P) Fields
  unfolding settle reply give_back reject
  close_embedding q admitted (ok (r, c, failed)) = do
    settle admitted (embedding_cost r c) (embedding_event q r c ∷ []) r.input_tokens
    reply "embeddings" q admitted (embedding_payload q admitted r c failed)
  close_embedding q admitted (err (all_candidates_failed failed billable failures)) = do
    give_back q admitted
    reject "embeddings" q admitted failed
  close_embedding q admitted (err (service_error e)) = raise e
