-- ===== src/App/Handlers.antt =====
-- What the request handlers of mixapi/app.py are given: the services, and the state behind them. The
-- database is an interface (`Ledger`): the usage ledger, the durable budget, and the route decisions.
-- A read of the durable spend is taken to succeed. The event stream is left out.
pub mod Opening
pub mod Closing
pub mod Endpoints
pub mod Accounts
use mixapi.Shared.{ℕ, Bool, Option, none, some, List, String, Result, ok, err}
use mixapi.Shared.Int.{ℤ}
use mixapi.Errors.{MixApiError}
use mixapi.Exec.{Exec}
use mixapi.Auth.{Principal}
use mixapi.Json.{Value, Fields}
use mixapi.Money.{Decimal, Money}
use mixapi.Models.{ProviderModel}
use mixapi.Redis.{Redis, Conn}
use mixapi.Routing.Order.{Rejection, Catalog}
use mixapi.Runtime.Quota.{QuotaKey, Limits, TokenReservation}
use mixapi.Runtime.Budget.{BudgetKey, BudgetReservation}
use mixapi.Runtime.Idempotency.{IdempotencyKey, Stored}
use mixapi.App.Dispatch.{AdapterResponse, FailedAttempt, DispatchError, Gateway, World}
use mixapi.App.Dispatch.Billing.{UsageEvent}
use mixapi.App.Estimates.{RequestSize}

-- An intent names the two reservations (`reservation_data`).
pub record UsageWriteIntent : Type 0 where
  pub request_id : String
  pub tenant_id : String
  pub project_id : String
  pub api_key_id : String
  pub endpoint : String
  pub logical_model : String
  pub configuration_version : ℕ
  pub budget_reservation_id : String
  pub token_reservation_id : String

-- An entry of `attempts`.
pub data RouteAttempt : Type 0 where
  tried : FailedAttempt → RouteAttempt
  succeeded : String → String → RouteAttempt

pub record RouteDecisionRecord : Type 0 where
  pub request_id : String
  pub tenant_id : String
  pub project_id : String
  pub endpoint : String
  pub logical_model : String
  pub status : String
  pub selected_provider : Option String
  pub selected_provider_model : Option String
  pub attempts : List RouteAttempt
  pub rejected_candidates : List Rejection
  pub selected_provider_connection_id : Option String
  pub selected_provider_protocol : Option String
  pub configuration_version : ℕ

-- The database. `reconcile_with_usage` settles the durable budget and writes the events at once.
pub record Ledger : Type 1 where
  pub State : Type 0
  pub actual_spend : State → String → ℤ
  pub begin_intent : UsageWriteIntent → Exec State (Unit {0})
  pub fail_intent : String → Exec State (Unit {0})
  pub reconcile_with_usage : BudgetReservation → Money → List UsageEvent → Exec State (Unit {0})
  pub mark_reconciliation_processed : String → Exec State (Unit {0})
  pub record_decision : RouteDecisionRecord → Exec State (Unit {0})

-- What the payload of an answer is made of; `output` and `embedding` are written from the response.
pub record Payload : Type 0 where
  pub id : Option String
  pub logical_model : String
  pub response : AdapterResponse
  pub selected : ProviderModel
  pub input_tokens : ℕ
  pub output_tokens : ℕ
  pub cost : Money
  pub failed_attempts : List FailedAttempt
  pub decision_trace_id : String
  pub configuration_version : ℕ
  pub rejected_candidates : List Rejection

-- The services that the application is built with. `request_size` is what the estimates read of a
-- body, and `write_payload` the dict that an endpoint builds; both are parameters, as are the hash of
-- a body, the rendezvous rank, and what validation takes from libraries.
pub record Services : Type 1 where
  pub quota : Redis QuotaKey ℤ
  pub limits : Limits
  pub gateway : Gateway
  pub budget : Redis BudgetKey ℤ
  pub limit_usd : Option Decimal
  pub idempotency : Redis IdempotencyKey Stored
  pub request_hash : Fields → String
  pub sessions : Redis String String
  pub ledger : Ledger
  pub rendezvous_rank : String → ProviderModel → Decimal
  pub strip : String → String
  pub decimal_of : Value → Option Decimal
  pub schema_is_valid : Value → Bool
  pub request_size : String → Fields → RequestSize
  pub write_payload : String → Payload → Fields

-- A request with what the runtime context and the caller add to it. The three last are the
-- `uuid4().hex` that its handler draws.
pub record Call : Type 0 where
  pub request_id : String
  pub idempotency_key : Option String
  pub session_id : Option String
  pub body : Fields
  pub principal : Principal
  pub catalog : Catalog
  pub configuration_version : ℕ
  pub budget_uuid : String
  pub token_uuid : String
  pub response_uuid : String

module _ (P : Services) where
  pub record Desk : Type 0 where
    pub quota : Conn P.quota.State
    pub env : P.gateway.Env
    pub budget : Conn P.budget.State
    pub records : Conn P.idempotency.State
    pub sessions : P.sessions.State
    pub ledger : P.ledger.State

  -- A call of one service.
  abbrev pub on_quota : {A : Type 0} → Exec (Conn P.quota.State) A → Exec Desk A
  on_quota m d = let (r, c) = m d.quota in (r, record d { quota = c })

  abbrev pub on_env : {A : Type 0} → Exec P.gateway.Env A → Exec Desk A
  on_env m d = let (r, e) = m d.env in (r, record d { env = e })

  abbrev pub on_budget : {A : Type 0} → Exec (Conn P.budget.State) A → Exec Desk A
  on_budget m d = let (r, c) = m d.budget in (r, record d { budget = c })

  abbrev pub on_records : {A : Type 0} → Exec (Conn P.idempotency.State) A → Exec Desk A
  on_records m d = let (r, c) = m d.records in (r, record d { records = c })

  abbrev pub on_ledger : {A : Type 0} → Exec P.ledger.State A → Exec Desk A
  on_ledger m d = let (r, l) = m d.ledger in (r, record d { ledger = l })

  -- What raises or returns and changes nothing.
  abbrev pub checked : {A : Type 0} → Result MixApiError A → Exec Desk A
  checked r d = (r, d)

  -- A dispatch runs on the providers and the quota service.
  abbrev pub on_world :
      {A : Type 0}
      → (World P.quota P.gateway → Result DispatchError A × World P.quota P.gateway)
      → Desk
      → Result DispatchError A × Desk
  on_world m d =
      let (r, w) = m (record { quota = d.quota; env = d.env }) in
      (r, record d { quota = w.quota; env = w.env })
