-- ===== src/Tests/Runtime.antt =====
-- Runs of the coordination services on an empty store.
use Prim.Native.Nat.{min}
use mixapi.Shared.{
  ◌≡◌, refl, true, false, Option, none, some, List, [], ◌∷◌, String, arith, ok, err, if◌then◌else◌,
  ◌≤◌, ◌-◌,
}
use mixapi.Shared.Int.{ℤ, pos, ◌+ℤ◌, ◌≤ℤ◌, leb_ℤ}
use mixapi.Errors.{quota_exceeded, validation_error}
use mixapi.Json.{Fields, end, field, int}
use mixapi.Redis.{Redis, Conn, number}
use mixapi.Redis.Memory.{memory, String-discrete}
use mixapi.Runtime.Holds.{Account, open_hold, find, total}
use mixapi.Runtime.Quota.{actual, reserved, concurrency, Limits, TokenReservation, reserve_tokens}
use mixapi.Runtime.Quota.Tokens.{Represents}
use mixapi.Runtime.Quota.Runs.{
  Call, reserve, reconcile, spec_step, spec_run, run, run-Represents, run_within_limit,
  reserve_tokens_answer,
}
use mixapi.Runtime.Quota.Counters.{
  acquire, free, slot_spec, slot_run, slot_run_bounded, request_run, request_run_exact,
}
use mixapi.Runtime.Circuits.{CircuitKey, Circuit, Settings, is_transient_failure, is_open, live}
use mixapi.Runtime.Circuits.Opening.{fail_all, is_open_exact, is_open_recovers}
use mixapi.Runtime.Idempotency.{
  IdempotencyKey, Stored, Write, replay, store, store_all, replay_first,
}
use mixapi.Runtime.Sessions.{session_key}
use mixapi.App.Admission.{reserve_quotas}
use mixapi.App.Admission.Quotas.{IsAllOrNothing, reserve_quotas-IsAllOrNothing}
use mixapi.Tests.{quota_store, quiet}

abbrev limits : Limits
limits = record { request_limit = some (pos 2); token_limit = some (pos 100) }

abbrev hold : TokenReservation
hold = record { api_key_id = "a"; amount_tokens = pos 60; reservation_id = "r1" }

-- The second reservation is refused, for want of room.
abbrev calls : List Call
calls = reserve "a" (pos 60) "r1" ∷ reserve "a" (pos 60) "r2" ∷ reconcile hold (pos 50) ∷ []

abbrev fresh_account : Account
fresh_account = record { actual = pos 0; holds = [] }

quiet-Represents : Represents quota_store "a" quiet.store fresh_account
unfolding find total
quiet-Represents = record {
  actual_is = refl;
  reserved_is = refl;
  hold_is = λ r. refl;
  distinct = tt;
}

run-Represents_example :
    Represents quota_store "a"
      (run quota_store limits calls quiet).store
      (spec_run (pos 100) "a" calls fresh_account)
unfolding spec_step open_hold find total ◌+ℤ◌
run-Represents_example =
    run-Represents quota_store limits refl "a" calls quiet fresh_account refl
      ((λ _. refl), ((λ _. refl), (tt, tt))) quiet-Represents

run_within_limit_example :
    number quota_store (run quota_store limits calls quiet).store (actual "a")
      +ℤ number quota_store (run quota_store limits calls quiet).store (reserved "a")
    ≤ℤ pos 100
unfolding spec_step open_hold find total ◌+ℤ◌
run_within_limit_example =
    run_within_limit quota_store limits refl "a" calls quiet fresh_account refl quiet-Represents
      (record { within = omega arith; nonneg = tt }) ((λ _. refl), ((λ _. refl), (tt, tt)))
      (omega arith, (omega arith, ((λ a e. ground (arith, e)), tt)))

reserve_tokens_answer_example : (reserve_tokens quota_store limits "a" (pos 101) "r1" quiet).0 ≡ (
    if leb_ℤ (fresh_account.actual +ℤ total fresh_account.holds +ℤ pos 101) (pos 100)
    then ok (record { api_key_id = "a"; amount_tokens = pos 101; reservation_id = "r1" })
    else err (quota_exceeded "token_quota_exceeded"))
reserve_tokens_answer_example =
    reserve_tokens_answer quota_store limits refl "a" "r1" (pos 101) quiet fresh_account refl
      quiet-Represents

slot_run_bounded_example :
    (number quota_store
        (slot_run quota_store "conn" 2 (acquire ∷ acquire ∷ acquire ∷ free ∷ []) quiet).store
        (concurrency "conn")
      ≡ pos (slot_spec 2 (acquire ∷ acquire ∷ acquire ∷ free ∷ []) 0))
    × (slot_spec 2 (acquire ∷ acquire ∷ acquire ∷ free ∷ []) 0 ≤ 2)
slot_run_bounded_example =
    slot_run_bounded quota_store "conn" 2 (omega arith) (acquire ∷ acquire ∷ acquire ∷ free ∷ [])
      quiet 0 refl refl (omega arith)

request_run_exact_example : request_run quota_store limits "a" 5 quiet ≡ min 5 (2 - 0)
request_run_exact_example = request_run_exact quota_store limits "a" 2 0 5 quiet refl refl refl

pair-discrete : Discrete (String × String)
pair-discrete = hlevel String-discrete

triple-discrete : Discrete (String × String × String)
triple-discrete = hlevel String-discrete

abbrev circuit_store : Redis CircuitKey Circuit
circuit_store = memory Circuit pair-discrete

abbrev unbroken : Conn circuit_store.State
unbroken = record { reachable = true; store = λ _. none }

abbrev settings : Settings
settings = record { failure_threshold = 3; recovery_timeout_ms = 30000 }

abbrev no_status : String → Option ℤ
no_status _ = none

is_open_exact_example :
    (is_open circuit_store settings 20000
      ("p", "m")
      (fail_all circuit_store settings no_status
        ("p", "m")
        "upstream_timeout"
        (1000 ∷ 2000 ∷ 9000 ∷ [])
        unbroken)).0
    ≡ ok true
unfolding is_transient_failure
is_open_exact_example =
    is_open_exact circuit_store settings no_status ("p", "m") "upstream_timeout" 1000
      (2000 ∷ 9000 ∷ []) 20000 unbroken refl refl refl
      (omega arith, omega arith, (omega arith, omega arith, tt)) (omega arith) (omega arith)

abbrev broken : Circuit
broken = record { failures = 3; opened_ms = some 9000; expires_ms = 69000 }

abbrev broken_conn : Conn circuit_store.State
broken_conn = record { reachable = true; store = λ _. some broken }

is_open_recovers_example :
    let (answer, c') = is_open circuit_store settings 40000 ("p", "m") broken_conn in
    (answer ≡ ok false) × (live circuit_store 40000 ("p", "m") c'.store ≡ none)
is_open_recovers_example =
    is_open_recovers circuit_store settings no_status ("p", "m") 3 9000 40000 broken_conn refl
      (omega arith) refl (omega arith)

abbrev reply_store : Redis IdempotencyKey Stored
reply_store = memory Stored triple-discrete

abbrev no_replies : Conn reply_store.State
no_replies = record { reachable = true; store = λ _. none }

-- A hash that tells two bodies apart.
abbrev first_name : Fields → String
first_name end = ""
first_name (field name v fs) = name

abbrev body : Fields
body = field "input" (int (pos 1)) end

abbrev answer_one : Fields
answer_one = field "output" (int (pos 1)) end

abbrev other_write : Write
other_write = record {
  tenant = "t";
  endpoint = "responses";
  key = some "k";
  body = end;
  response = end;
}

replay_first_example :
    (replay reply_store first_name "t" "responses" (some "k") end (
      store_all reply_store first_name
        (other_write ∷ [])
        (store reply_store first_name "t" "responses" (some "k") body answer_one no_replies).1)).0
    ≡ err (validation_error "idempotency_key_reused")
replay_first_example =
    replay_first reply_store first_name "t" "responses" "k" body end answer_one (other_write ∷ [])
      no_replies refl refl refl

-- Two sessions of two tenants that share a key.
sessions_collide : session_key "a" "b:c" ≡ session_key "a:b" "c"
sessions_collide = refl

-- No request is left to the key, so the tokens are released again.
abbrev no_requests : Limits
no_requests = record { request_limit = some (pos 0); token_limit = some (pos 100) }

reserve_quotas-IsAllOrNothing_example :
    IsAllOrNothing quota_store no_requests "a" "r1"
      (pos 60)
      fresh_account
      (reserve_quotas quota_store no_requests "a" (pos 60) "r1" quiet)
unfolding find
reserve_quotas-IsAllOrNothing_example =
    reserve_quotas-IsAllOrNothing quota_store no_requests "a" "r1" (pos 60) (pos 100) refl
      fresh_account quiet refl quiet-Represents refl
