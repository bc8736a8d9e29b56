-- ===== src/App/Handlers/Accounts.antt =====
-- What a request of mixapi/app.py does to the token account of its API key and to its spend budget:
-- both are kept by Redis, and the calls of the other services leave them alone.
pub mod Opened
pub mod Settled
pub mod Closed
pub mod Answered
pub mod Created
use mixapi.Shared.{is_some, ◌||◌, List, String, ◌≡◌, true, none, some, Result, ok, err}
use mixapi.Shared.Int.{ℤ, pos, ◌+ℤ◌}
use mixapi.Errors.{MixApiError}
use mixapi.Exec.{Exec}
use mixapi.Exec.Ends.{Ends, Ends-state}
use mixapi.Money.{Decimal, Money}
use mixapi.Redis.{Conn}
use mixapi.Runtime.Holds.{Account}
use mixapi.Runtime.Quota.Apart.{Kept}
use mixapi.Runtime.Budget.Holding.{Holding, IsHeld, IsHeldAs, IsOver}
use mixapi.Models.{ProviderModel}
use mixapi.Routing.Order.{Rejection}
use mixapi.App.Estimates.{estimate_request_tokens, budget_eligible_candidates}
use mixapi.App.Admission.Tokens.{IsReserved}
use mixapi.App.Handlers.{Services, Call, Desk, on_quota, on_budget}
use mixapi.App.Handlers.Opening.{Admitted}

module _ (P : Services) where
  pub on_quota-Ends :
      {A : Type 0} (Good : A → Conn P.quota.State → Type 0)
      (Bad : MixApiError → Conn P.quota.State → Type 0) (B : Conn P.budget.State → Type 0)
      (m : Exec (Conn P.quota.State) A) (d : Desk P)
      → Ends Good Bad (m d.quota)
      → B d.budget
      → Ends
          (λ a d'. Good a d'.quota × B d'.budget)
          (λ e d'. Bad e d'.quota × B d'.budget)
          (on_quota P m d)
  on_quota-Ends {A} Good Bad B m d h b = go (m d.quota).0 (m d.quota).1 h
    where
      go :
          (r : Result MixApiError A) (c : Conn P.quota.State)
          → Ends Good Bad (r, c)
          → Ends
              (λ a d'. Good a d'.quota × B d'.budget)
              (λ e d'. Bad e d'.quota × B d'.budget)
              (on_quota P (λ _. (r, c)) d)
      go (ok a) c h' = (h', b)
      go (err e) c h' = (h', b)

  pub on_budget-Ends :
      {A : Type 0} (Good : A → Conn P.budget.State → Type 0)
      (Bad : MixApiError → Conn P.budget.State → Type 0) (T : Conn P.quota.State → Type 0)
      (m : Exec (Conn P.budget.State) A) (d : Desk P)
      → Ends Good Bad (m d.budget)
      → T d.quota
      → Ends
          (λ a d'. T d'.quota × Good a d'.budget)
          (λ e d'. T d'.quota × Bad e d'.budget)
          (on_budget P m d)
  on_budget-Ends {A} Good Bad T m d h t = go (m d.budget).0 (m d.budget).1 h
    where
      go :
          (r : Result MixApiError A) (c : Conn P.budget.State)
          → Ends Good Bad (r, c)
          → Ends
              (λ a d'. T d'.quota × Good a d'.budget)
              (λ e d'. T d'.quota × Bad e d'.budget)
              (on_budget P (λ _. (r, c)) d)
      go (ok a) c h' = (t, h')
      go (err e) c h' = (t, h')

  module _ (q : Call) (limit : ℤ) (limited : P.limits.token_limit ≡ some limit) (l : Account)
      (n : ℤ) where
    -- The token account is `l`, and the budget holds nothing for the request, beside the `n` that it
    -- holds for others.
    abbrev pub IsFree : Desk P → Type 0
    IsFree d =
        Kept P.quota q.principal.api_key_id l d.quota
        × Holding P.budget q.principal.api_key_id q.budget_uuid n none d.budget

    -- The tokens that the endpoint estimates, and some money, are reserved for the request, under the
    -- two reservations.
    abbrev pub AreHeld : String → Admitted → Desk P → Type 0
    AreHeld endpoint admitted d =
        let tokens =
          pos (estimate_request_tokens (P.request_size endpoint q.body) admitted.candidates) in
        (amount : Decimal) × IsReserved P.quota P.limits q.principal.api_key_id q.token_uuid tokens
          limit limited l admitted.token_reservation d.quota
        × IsHeld P.budget q.principal.api_key_id q.budget_uuid n amount admitted.reservation
            d.budget

    -- The same, with the money that the estimate of the request comes to: for some of the candidates that were
    -- offered, the ones that the handler goes on with are those that are eligible, at that cost; and the
    -- reservation is tracked just when the service or the principal has a limit.
    abbrev pub AreReserved : String → Admitted → Desk P → Type 0
    AreReserved endpoint admitted d =
        let z = P.request_size endpoint q.body in
        let tracked = is_some P.limit_usd || is_some q.principal.budget_limit_usd in
        (offered : List ProviderModel) × (rejected : List Rejection) × (cost : Money)
        × (budget_eligible_candidates z offered ≡ ok (admitted.candidates, rejected, cost))
        × IsReserved P.quota P.limits q.principal.api_key_id q.token_uuid
            (pos (estimate_request_tokens z admitted.candidates)) limit limited l
            admitted.token_reservation d.quota
        × IsHeldAs P.budget q.principal.api_key_id q.budget_uuid n (pos cost) tracked
            admitted.reservation d.budget

    -- The account is charged, and neither reservation is open.
    abbrev pub IsCharged : ℤ → Desk P → Type 0
    IsCharged used d =
        Kept P.quota q.principal.api_key_id (record l { actual = l.actual +ℤ used }) d.quota
        × IsOver P.budget q.principal.api_key_id q.budget_uuid n d.budget
