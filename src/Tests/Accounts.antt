-- ===== src/Tests/Accounts.antt =====
-- The accounts of a request, for an API key with a limit on its tokens and on its budget.
use mixapi.App.Estimates.{estimate_request_tokens}
use mixapi.Shared.{
  ◌⊎◌, inl, ok, List, ◌≡◌, refl, sym, true, Option, none, some, [], ◌∷◌, String, is_ok, ◌==◌,
  if◌then◌else◌,
}
use mixapi.Shared.Int.{ℤ, pos, ◌+ℤ◌, +ℤ_zero}
use mixapi.Runtime.Holds.{Account, find, total}
use mixapi.Runtime.Quota.{QuotaKey, reservation, reserved, Limits}
use mixapi.Runtime.Budget.{BudgetKey}
use mixapi.Exec.Ends.{Ends}
use mixapi.App.Handlers.{Services, Desk}
use mixapi.App.Handlers.Opening.{Admitted, open_request}
use mixapi.App.Handlers.Endpoints.{answer_embedding}
use mixapi.App.Handlers.Accounts.{AreHeld, AreReserved}
use mixapi.App.Handlers.Accounts.Opened.{Free, open_request-Ends}
use mixapi.App.Handlers.Accounts.Settled.{IsReliable}
use mixapi.App.Handlers.Accounts.Answered.{
  AfterEmbedding, embedding_dispatched, answer_embedding-Ends,
}
use mixapi.Exec.{Exec, raise, pure}
use mixapi.Errors.{not_found}
use mixapi.Json.{Fields}
use mixapi.App.Handlers.{Call}
use mixapi.Money.{Money}
use mixapi.App.Dispatch.Billing.{UsageEvent}
use mixapi.App.Handlers.{Ledger}
use mixapi.Tests.{candidate, quiet}
use mixapi.Tests.Handlers.{services_with, request}

abbrev limits : Limits
limits = record { request_limit = none; token_limit = some (pos 10000) }

abbrev Entry : Type 0
Entry = String × Money × List UsageEvent

-- A database that lists what it has settled.
abbrev book : Ledger
book = record {
  State = List Entry;
  actual_spend = λ s k. pos 0;
  begin_intent = λ i. pure tt;
  fail_intent = λ r. pure tt;
  reconcile_with_usage = λ h c es s. (ok tt, (h.reservation_id, c, es) ∷ s);
  mark_reconciliation_processed = λ r. pure tt;
  record_decision = λ d. pure tt;
}

abbrev IsListed : String → Money → List UsageEvent → List Entry → Type 0
IsListed r c es [] = ⊥
IsListed r c es (e ∷ s) = (e ≡ (r, c, es)) ⊎ IsListed r c es s

abbrev services : Services
services = record (services_with limits (some (pos 1000000000))) { ledger = book }

abbrev desk : Desk services
desk = record {
  quota = quiet;
  env = tt;
  budget = record { reachable = true; store = λ _. none };
  records = record { reachable = true; store = λ _. none };
  sessions = λ _. none;
  ledger = [];
}

abbrev untouched : Account
untouched = record { actual = pos 0; holds = [] }

abbrev no_stream : Call → Admitted → Exec (Desk services) Fields
no_stream q admitted = raise (not_found "no_stream")

desk-Free : Free services request (pos 10000) refl untouched (pos 0) desk
unfolding find total ◌+ℤ◌
desk-Free = (
  (refl, record { actual_is = refl; reserved_is = refl; hold_is = λ r. refl; distinct = tt }),
  record { up = refl; reserved_is = refl; hold_is = refl; open_is = refl },
)

ledger-IsReliable : IsReliable book
ledger-IsReliable = record {
  IsBooked = IsListed;
  settles = λ h c es s. refl;
  books = λ h c es s. inl refl;
  marks = λ r s. refl;
  marks_keep = λ r c es q s listed. listed;
  decisions_keep = λ r c es x s listed. listed;
}

open_request-Ends_example :
    Ends
      (AreReserved services request (pos 10000) refl untouched (pos 0) "responses")
      (λ _. Free services request (pos 10000) refl untouched (pos 0))
      (open_request services "responses" request desk)
unfolding find
open_request-Ends_example =
    open_request-Ends services request (pos 10000) refl untouched (pos 0) refl "responses" desk
      desk-Free

-- A request whose two reservations are made.
abbrev tokens : String → ℤ
tokens endpoint = pos (
    estimate_request_tokens (services.request_size endpoint request.body)
      (candidate "openai" (pos 1) ∷ []))

abbrev admitted : String → Admitted
admitted endpoint = record {
  candidates = candidate "openai" (pos 1) ∷ [];
  rejected = [];
  reservation = record {
    api_key_id = "a";
    amount_usd = pos 7;
    tracked = true;
    reservation_id = "b-1";
  };
  token_reservation = record {
    api_key_id = "a";
    amount_tokens = tokens endpoint;
    reservation_id = "t-1";
  };
}

abbrev held_tokens : ℤ → QuotaKey → Option ℤ
held_tokens a (reserved k) = some a
held_tokens a (reservation k r) = if "t-1" == r then some a else none
held_tokens a _ = none

abbrev held_money : BudgetKey → Option ℤ
held_money (BudgetKey.reserved k) = some (pos 7)
held_money (BudgetKey.reservation k r) = some (pos 7)
held_money _ = none

abbrev held_desk : String → Desk services
held_desk endpoint = record desk {
  quota = record { reachable = true; store = held_tokens (tokens endpoint) };
  budget = record { reachable = true; store = held_money };
}

desk-AreHeld :
    (endpoint : String)
    → AreHeld services request
        (pos 10000)
        refl
        untouched
        (pos 0)
        endpoint
        (admitted endpoint)
        (held_desk endpoint)
unfolding find total ◌+ℤ◌
desk-AreHeld endpoint = (
  pos 7,
  (
    refl,
    (
      refl,
      record {
        actual_is = refl;
        reserved_is = sym (+ℤ_zero (tokens endpoint));
        hold_is = λ r. refl;
        distinct = (refl, tt);
      },
    ),
  ),
  (true, refl, record { up = refl; reserved_is = refl; hold_is = refl; open_is = refl }),
)

answer_embedding-Ends_example :
    let r =
      embedding_dispatched services ledger-IsReliable request
        (pos 10000)
        refl
        untouched
        (pos 0)
        (admitted "embeddings")
        (held_desk "embeddings") in
    Ends
      (λ _ d'.
        (is_ok r ≡ true)
        × AfterEmbedding services ledger-IsReliable request
            (pos 10000)
            refl
            untouched
            (pos 0)
            (admitted "embeddings")
            r
            d')
      (λ _.
        AfterEmbedding services ledger-IsReliable request
          (pos 10000)
          refl
          untouched
          (pos 0)
          (admitted "embeddings")
          r)
      (answer_embedding services request (admitted "embeddings") (held_desk "embeddings"))
answer_embedding-Ends_example =
    answer_embedding-Ends services ledger-IsReliable request (pos 10000) refl untouched (pos 0)
      (admitted "embeddings") (held_desk "embeddings") (desk-AreHeld "embeddings")
