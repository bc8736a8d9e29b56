-- ===== src/Tests/Budget.antt =====
-- Estimates, reservations and their settlement, and the validation of a body.
use mixapi.Shared.{
  ◌≡◌, refl, ◌≤◌, ◌+◌, arith, Bool, true, false, Option, none, some, List, [], ◌∷◌, String, ok, All,
}
use mixapi.Shared.Int.{ℤ, pos, ◌+ℤ◌}
use mixapi.Money.{Decimal, quantize, estimate_cost}
use mixapi.Json.{Value, Fields, end, field, str, bool}
use mixapi.Models.{ProviderModel}
use mixapi.Redis.{Redis, number}
use mixapi.Redis.Memory.{memory, String-discrete}
use mixapi.Routing.Requirements.{requires_strict_schema, requires_function_tools}
use mixapi.App.Dispatch.{AdapterResponse}
use mixapi.App.Dispatch.Billing.{sum_of}
use mixapi.App.Estimates.{RequestSize, budget_eligible_candidates, exceeds, max_of}
use mixapi.App.Estimates.Cover.{cost_at, plain_reservation_covers, structured_reservation_covers}
use mixapi.Runtime.Budget.{
  BudgetKey, actual, reserved, reservation, reconciled, reserve_script, reconcile_script,
  release_script,
}
use mixapi.Runtime.Budget.Settlement.{reconcile_once, release-reserve}
use mixapi.Validation.{validate_response_request, stream_of, is_key}
use mixapi.Validation.Accepted.{accepted_stream}
use mixapi.Tests.{candidate}

abbrev pub plain : RequestSize
plain = record {
  embeddings = false;
  input_tokens = 10;
  max_output_tokens = some 20;
  max_cost_usd = none;
  has_schema = false;
}

abbrev structured : RequestSize
structured = record plain { has_schema = true }

abbrev short_reply : AdapterResponse
short_reply = record {
  output_text = "hi";
  input_tokens = 10;
  output_tokens = 2;
  embedding = none;
  tool_calls = [];
}

abbrev candidates : List ProviderModel
candidates = candidate "openai" (pos 1) ∷ candidate "local" (pos 2) ∷ []

plain_reservation_covers_example : All (λ c. cost_at c short_reply ≤ 1000) candidates
unfolding budget_eligible_candidates quantize estimate_cost max_of
plain_reservation_covers_example =
    plain_reservation_covers plain candidates candidates [] 1000 (λ c. short_reply) refl refl
      (λ c. record { input = omega arith; output = omega arith })

structured_reservation_covers_example :
    (sum_of (λ c. cost_at c short_reply + cost_at c short_reply) candidates ≤ 68000)
    × (exceeds structured.max_cost_usd 68000 ≡ false)
unfolding budget_eligible_candidates quantize estimate_cost sum_of
structured_reservation_covers_example =
    structured_reservation_covers structured candidates candidates [] 68000 (λ c. short_reply)
      (λ c. short_reply) refl refl (λ c. record { input = omega arith; output = omega arith })
      (λ c. record { input = omega arith; output = omega arith })

abbrev pub no_strip : String → String
no_strip t = t

abbrev pub no_decimal : Value → Option Decimal
no_decimal v = none

abbrev pub any_schema : Value → Bool
any_schema v = true

abbrev streamed : Fields
streamed = field "stream" (bool true) (field "input" (str "hi") end)

streamed_accepted : validate_response_request no_strip no_decimal any_schema streamed none ≡ ok tt
unfolding validate_response_request
streamed_accepted = refl

accepted_stream_example :
    (is_key no_strip no_decimal any_schema none ≡ false)
    × (requires_strict_schema streamed ≡ false)
    × (requires_function_tools streamed ≡ false)
unfolding stream_of
accepted_stream_example =
    accepted_stream no_strip no_decimal any_schema streamed none streamed_accepted refl

pub BudgetKey-discrete : Discrete BudgetKey
BudgetKey-discrete = hlevel String-discrete

abbrev pub budget_store : Redis BudgetKey ℤ
budget_store = memory ℤ BudgetKey-discrete

abbrev unspent : budget_store.State
unspent = λ _. none

reconcile_once_example :
    let s' =
      (reconcile_script budget_store
        (actual "a")
        (reserved "a")
        (reservation "a" "r")
        (reconciled "a" "r")
        (pos 5)
        unspent).1 in
    (reconcile_script budget_store
        (actual "a")
        (reserved "a")
        (reservation "a" "r")
        (reconciled "a" "r")
        (pos 9)
        s'
      ≡ (false, s'))
    × (release_script budget_store (reserved "a") (reservation "a" "r") s' ≡ (false, s'))
reconcile_once_example = reconcile_once budget_store "a" "r" (pos 5) (pos 9) unspent refl

-- A store where everything counts 5.
abbrev five : budget_store.State
five = λ _. some (pos 5)

granted :
    (reserve_script budget_store
      (actual "a")
      (reserved "a")
      (reservation "a" "r")
      (pos 5)
      (pos 7)
      (pos 20)
      five).0
    ≡ true
unfolding reserve_script ◌+ℤ◌
granted = refl

release-reserve_example :
    let s' =
      (release_script budget_store
        (reserved "a")
        (reservation "a" "r")
        (reserve_script budget_store
          (actual "a")
          (reserved "a")
          (reservation "a" "r")
          (pos 5)
          (pos 7)
          (pos 20)
          five).1).1 in
    (number budget_store s' (reserved "a") ≡ number budget_store five (reserved "a"))
    × (budget_store.get s' (reservation "a" "r") ≡ none)
release-reserve_example = release-reserve budget_store "a" "r" (pos 5) (pos 7) (pos 20) five granted
