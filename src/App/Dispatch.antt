-- ===== src/App/Dispatch.antt =====
-- `_dispatch_response_with_fallback` and `_dispatch_embedding_with_fallback` of mixapi/app.py: the
-- candidates are tried in turn. Metrics and spans are left out: they change nothing that the code
-- reads, but for the read of the circuit, which may raise.
pub mod Loops
pub mod Rule
pub mod Guards
pub mod Frame
pub mod Slots
pub mod Release
pub mod Keep
pub mod Outcome
pub mod Billing
use mixapi.Shared.{
  ℕ, zero, suc, Bool, true, false, not, ◌&&◌, Option, none, some, List, [], ◌∷◌, ◌++◌, String, ◌==◌,
  Result, ok, err, if◌then◌else◌,
}
use mixapi.Shared.Int.{ℤ, pos}
use mixapi.Errors.{MixApiError}
use mixapi.Exec.{Exec, ◌>>=◌, ◌>>◌, pure}
use mixapi.Json.{Value, Fields}
use mixapi.Models.{ProviderModel}
use mixapi.Redis.{Redis, Conn}
use mixapi.Runtime.Quota.{
  QuotaKey, reserve_concurrency, release_concurrency, reserve_connection_requests,
}

-- A number of an embedding is the text that `str` writes for it.
pub record AdapterResponse : Type 0 where
  pub output_text : String
  pub input_tokens : ℕ
  pub output_tokens : ℕ
  pub embedding : Option (List String)
  pub tool_calls : List Value

-- An entry of `failed_attempts`; the entries for a refused quota have no `status`.
pub record FailedAttempt : Type 0 where
  pub provider : String
  pub model : String
  pub reason : String

pub record ValidationFailure : Type 0 where
  pub path : String
  pub message : String

-- `StructuredOutputValidation`
pub record Validation : Type 0 where
  pub valid : Bool
  pub failures : List ValidationFailure

pub record BillableDispatch : Type 0 where
  pub candidate : ProviderModel
  pub response : AdapterResponse

pub record ResponseDispatchOutcome : Type 0 where
  pub response : AdapterResponse
  pub selected_candidate : ProviderModel
  pub failed_attempts : List FailedAttempt
  pub billable_dispatches : List BillableDispatch

-- How a dispatch ends other than by a response: `AllCandidatesFailed`, or an error of a service.
pub data DispatchError : Type 0 where
  all_candidates_failed :
      List FailedAttempt → List BillableDispatch → List ValidationFailure → DispatchError
  service_error : MixApiError → DispatchError

-- What a provider does with one request: it answers, or the adapter raises `ProviderDispatchError`.
pub data Answer : Type 0 where
  answered : AdapterResponse → Answer
  failed : String → String → String → Answer

-- The parts of the gateway that a dispatch calls and that stand outside it: the providers behind
-- their adapters, the circuit breaker, and the JSON Schema validator, on a state `Env` of their own.
pub record Gateway : Type 1 where
  pub Env : Type 0
  pub dispatch_response : Fields → ProviderModel → Env → Answer × Env
  pub dispatch_embedding : Fields → ProviderModel → Env → Answer × Env
  pub record_success : String → String → Exec Env (Unit {0})
  pub record_failure : String → String → String → Exec Env (Unit {0})
  pub is_open : String → String → Exec Env Bool
  pub validate_output : String → Fields → Validation
  pub corrective_request : Fields → List ValidationFailure → Fields

-- `a and b` of an optional text and an optional number, as a test: both are there, and neither is
-- empty or 0.
unfoldable pub both : Option String → Option ℤ → Option (String × ℤ)
both none limit = none
both (some c) none = none
both (some c) (some (pos zero)) = none
both (some c) (some limit) = if c == "" then none else some (c, limit)

-- The connection and the limit under which a candidate takes a slot, and those of its request quota.
abbrev pub slot_of : ProviderModel → Option (String × ℤ)
slot_of c = both c.provider_connection_id c.concurrency_limit

abbrev pub quota_of : ProviderModel → Option (String × ℤ)
quota_of c = both c.provider_connection_id c.request_quota

-- What the loop keeps from one candidate to the next.
pub record Progress : Type 0 where
  pub failed_attempts : List FailedAttempt
  pub billable_dispatches : List BillableDispatch
  pub validation_failures : List ValidationFailure

abbrev pub start : Progress
start = record { failed_attempts = []; billable_dispatches = []; validation_failures = [] }

abbrev pub attempt_of : ProviderModel → String → FailedAttempt
attempt_of c reason = record { provider = c.provider; model = c.provider_model_id; reason = reason }

abbrev pub add_attempt : FailedAttempt → Progress → Progress
add_attempt a p = record p { failed_attempts = p.failed_attempts ++ a ∷ [] }

-- One round of a loop: `return`, a raise, or on to the next round.
pub data Round (A : Type 0) : Type 0 where
  returned : A → Round A
  raised : MixApiError → Round A
  next : Progress → Round A

module _ (R : Redis QuotaKey ℤ) (G : Gateway) where
  pub record World : Type 0 where
    pub quota : Conn R.State
    pub env : G.Env

  abbrev pub Step : Type 0 → Type 0
  Step A = World → Round A × World

  -- A call of the quota service, and one of a service of the gateway.
  abbrev pub on_quota : {A : Type 0} → Exec (Conn R.State) A → Exec World A
  on_quota m w = let (r, q) = m w.quota in (r, record w { quota = q })

  abbrev pub on_env : {A : Type 0} → Exec G.Env A → Exec World A
  on_env m w = let (r, e) = m w.env in (r, record w { env = e })

  -- Goes on with the value of a call; an error of the call ends the dispatch.
  abbrev pub then_do : {A B : Type 0} → Exec World A → (A → Step B) → Step B
  then_do m f w = let (r, w') = m w in elim r [ ok a ↦ f a w' | err e ↦ (raised e, w') ]

  unfoldable pub release_slot : ProviderModel → Exec World (Unit {0})
  release_slot c = elim (slot_of c) [
    | none ↦ pure tt
    | some (connection, _) ↦ on_quota (release_concurrency R connection)
  ]

  -- The two guards at the head of the loop. A refusal goes on to the next candidate.
  unfoldable pub reserve_slot : {A : Type 0} → ProviderModel → Progress → Step A → Step A
  reserve_slot c p rest = elim (slot_of c) [
    | none ↦ rest
    | some (connection, limit) ↦
        then_do (on_quota (reserve_concurrency R connection (some limit))) λ accepted w.
          elim accepted [
            | true ↦ rest w
            | false ↦ (next (add_attempt (attempt_of c "concurrency_limit_exceeded") p), w)
          ]
  ]

  unfoldable pub reserve_quota : {A : Type 0} → ProviderModel → Progress → Step A → Step A
  reserve_quota c p rest = elim (quota_of c) [
    | none ↦ rest
    | some (connection, limit) ↦
        then_do (on_quota (reserve_connection_requests R connection (some limit))) λ accepted w.
          elim accepted [
            | true ↦ rest w
            | false ↦ (next (add_attempt (attempt_of c "request_quota_exceeded") p), w)
          ]
  ]

  -- What follows an answer: `record_success`, and the read of the circuit.
  unfoldable pub note_success : ProviderModel → Exec World (Unit {0})
  note_success c = do
    on_env (G.record_success c.provider c.provider_model_id)
    on_env (G.is_open c.provider c.provider_model_id)
    pure tt

  -- What follows a failure, under the names that the error carries.
  unfoldable pub note_failure : String → String → String → Exec World (Unit {0})
  note_failure provider model reason = do
    on_env (G.record_failure provider model reason)
    on_env (G.is_open provider model)
    pure tt
