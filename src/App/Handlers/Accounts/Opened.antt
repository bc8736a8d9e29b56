-- ===== src/App/Handlers/Accounts/Opened.antt =====
-- The reservations that a handler of mixapi/app.py makes before it dispatches.
use mixapi.Shared.{
  Bool, is_some, ◌||◌, refl, ◌≡◌, Option, none, some, List, [], ◌∷◌, ◌++◌, String, Result, ok, err,
}
use mixapi.Shared.Int.{ℤ, pos}
use mixapi.Errors.{MixApiError, provider_unavailable}
use mixapi.Exec.{Exec, pure, raise, ◌>>=◌, ◌>>◌}
use mixapi.Exec.Ends.{Ends, Ends-state, Ends-map, Ends-safe, >>=-Ends, on_error-Ends}
use mixapi.Money.{Decimal, Money}
use mixapi.Models.{ProviderModel}
use mixapi.Redis.{Conn}
use mixapi.Routing.Order.{Rejection}
use mixapi.Runtime.Holds.{Account, find}
use mixapi.Runtime.Quota.{TokenReservation, release_tokens}
use mixapi.Runtime.Quota.Apart.{Kept}
use mixapi.Runtime.Budget.{BudgetReservation, reserve, release}
use mixapi.Runtime.Budget.Holding.{Holding, IsHeld, IsHeldAs, hold_of, reserve-Ends, release-Ends}
use mixapi.App.Estimates.{RequestSize, budget_eligible_candidates, estimate_request_tokens}
use mixapi.App.Admission.{reserve_budget, reserve_quotas}
use mixapi.App.Admission.Tokens.{IsReserved, reserve_quotas-Ends, release_tokens-Ends}
use mixapi.App.Handlers.{Services, Call, Desk, on_quota, on_ledger}
use mixapi.App.Handlers.Opening.{
  Admitted, admitted_of, reserve_spend, take_quotas, write_intent, usage_write_intent, refund,
  return_tokens, reserve_rest, admit, admit_any, failed_decision, route, pass_circuits,
  open_request,
}
use mixapi.App.Handlers.Accounts.{on_quota-Ends, on_budget-Ends, IsFree, AreReserved}

module _ (P : Services) (q : Call) (limit : ℤ) (limited : P.limits.token_limit ≡ some limit)
    (l : Account) (n : ℤ) where
  abbrev pub key : String
  key = q.principal.api_key_id

  abbrev Budgeted : Conn P.budget.State → Type 0
  Budgeted = Holding P.budget key q.budget_uuid n none

  abbrev Tokened : Conn P.quota.State → Type 0
  Tokened = Kept P.quota key l

  abbrev pub Free : Desk P → Type 0
  Free = IsFree P q limit limited l n

  abbrev pub HeldTokens : ℤ → TokenReservation → Conn P.quota.State → Type 0
  HeldTokens a = IsReserved P.quota P.limits key q.token_uuid a limit limited l

  abbrev pub HeldMoney : Decimal → BudgetReservation → Conn P.budget.State → Type 0
  HeldMoney amount = IsHeld P.budget key q.budget_uuid n amount

  -- The eligible candidates, their cost, and a reservation of it.
  abbrev IsSpend :
      RequestSize
      → List ProviderModel
      → Bool
      → List ProviderModel × List Rejection × BudgetReservation
      → Conn P.budget.State
      → Type 0
  IsSpend z cs tracked x c =
      (cost : Money) × (budget_eligible_candidates z cs ≡ ok (x.0, x.1, cost))
      × IsHeldAs P.budget key q.budget_uuid n (pos cost) tracked (x.2) c

  reserve_budget-Ends :
      (limit_usd key_limit : Option Decimal) (spent : ℤ) (z : RequestSize) (cs : List ProviderModel)
      (c : Conn P.budget.State)
      → Budgeted c
      → Ends
          (IsSpend z cs (is_some limit_usd || is_some key_limit))
          (λ _. Budgeted)
          (reserve_budget P.budget limit_usd key key_limit spent q.budget_uuid z cs c)
  unfolding reserve_budget
  reserve_budget-Ends limit_usd key_limit spent z cs c h = go (budget_eligible_candidates z cs) refl
    where
      go :
          (x : Result MixApiError (List ProviderModel × List Rejection × Money))
          → budget_eligible_candidates z cs ≡ x
          → Ends
              (IsSpend z cs (is_some limit_usd || is_some key_limit))
              (λ _. Budgeted)
              (elim x
                  as (λ _.
                    Exec
                      (Conn P.budget.State)
                      (List ProviderModel × List Rejection × BudgetReservation)) [
                        | err e ↦ raise e
                        | ok (eligible, rejected, cost) ↦
                            reserve P.budget limit_usd key (pos cost) key_limit spent q.budget_uuid
                            >>= λ hold. pure (eligible, rejected, hold)
                      ]
                c)
      go (err e) is = h
      go (ok (eligible, rejected, cost)) is =
          let tracked = is_some limit_usd || is_some key_limit in
          >>=-Ends (IsHeldAs P.budget key q.budget_uuid n (pos cost) tracked) (IsSpend z cs tracked)
            (λ _. Budgeted)
            (reserve P.budget limit_usd key (pos cost) key_limit spent q.budget_uuid)
            (λ hold. pure (eligible, rejected, hold)) c
            (reserve-Ends P.budget key q.budget_uuid n (pos cost) limit_usd key_limit spent c h)
            (λ hold c' held. (cost, is, held))

  module _ (amount : Decimal) (hold : BudgetReservation) where
    refund-Ends :
        (d : Desk P)
        → Tokened d.quota × HeldMoney amount hold d.budget
        → Ends (λ _. Free) (λ _. Free) (refund P hold d)
    refund-Ends d (free, held) =
        on_budget-Ends P (λ _. Budgeted) (λ _. Budgeted) Tokened (release P.budget hold) d
          (Ends-safe (λ _. Budgeted) (λ _. Budgeted) (release P.budget hold d.budget)
            (release-Ends P.budget key q.budget_uuid n amount hold d.budget held))
          free

    take_quotas-Ends :
        (endpoint : String) (cs : List ProviderModel)
        → let a = pos (estimate_request_tokens (P.request_size endpoint q.body) cs) in
          find q.token_uuid l.holds ≡ none
          → (d : Desk P) → Tokened d.quota × HeldMoney amount hold d.budget
          → Ends
              (λ tokens d'. HeldTokens a tokens d'.quota × HeldMoney amount hold d'.budget)
              (λ _. Free)
              (take_quotas P endpoint q cs hold d)
    unfolding take_quotas
    take_quotas-Ends endpoint cs fresh d (free, held) =
        let a = pos (estimate_request_tokens (P.request_size endpoint q.body) cs) in
        let ask = reserve_quotas P.quota P.limits key a q.token_uuid in
        on_error-Ends (λ tokens d'. HeldTokens a tokens d'.quota × HeldMoney amount hold d'.budget)
          (λ _ d'. Tokened d'.quota × HeldMoney amount hold d'.budget) (λ _. Free) (on_quota P ask)
          (refund P hold) d
          (on_quota-Ends P (HeldTokens a) (λ _. Tokened) (HeldMoney amount hold) ask d
            (reserve_quotas-Ends P.quota P.limits key q.token_uuid a limit limited l fresh d.quota
              free)
            held)
          (λ e d'. refund-Ends d')

    module _ (a : ℤ) (tokens : TokenReservation) where
      pub give_up-Ends :
          (d : Desk P)
          → HeldTokens a tokens d.quota × HeldMoney amount hold d.budget
          → Ends (λ _. Free) (λ _. Free) ((refund P hold >> return_tokens P tokens) d)
      give_up-Ends d (reserved, held) =
          >>=-Ends (λ _ d'. HeldTokens a tokens d'.quota × Budgeted d'.budget) (λ _. Free)
            (λ _. Free) (refund P hold) (λ _. return_tokens P tokens) d
            (Ends-map (λ _ d'. HeldTokens a tokens d'.quota × Budgeted d'.budget)
              (λ _ d'. HeldTokens a tokens d'.quota × Budgeted d'.budget)
              (λ _ d'. HeldTokens a tokens d'.quota × ⊥) (λ _. Free) (λ _ _ x. x)
              (λ _ _ x. absurd (x.1)) (refund P hold d)
              (on_budget-Ends P (λ _. Budgeted) (λ _ _. ⊥) (HeldTokens a tokens)
                (release P.budget hold) d
                (release-Ends P.budget key q.budget_uuid n amount hold d.budget held) reserved))
            (λ _ d' (reserved', none_held).
              on_quota-Ends P (λ _. Tokened) (λ _. Tokened) Budgeted
                (release_tokens P.quota P.limits tokens) d'
                (Ends-safe (λ _. Tokened) (λ _. Tokened)
                  (release_tokens P.quota P.limits tokens d'.quota)
                  (release_tokens-Ends P.quota P.limits key q.token_uuid a limit limited l tokens
                    d'.quota reserved'))
                none_held)

      write_intent-Ends :
          (endpoint : String) (d : Desk P)
          → HeldTokens a tokens d.quota × HeldMoney amount hold d.budget
          → Ends
              (λ _ d'. HeldTokens a tokens d'.quota × HeldMoney amount hold d'.budget)
              (λ _. Free)
              (write_intent P endpoint q hold tokens d)
      unfolding write_intent
      write_intent-Ends endpoint d both =
          let begin =
            on_ledger P (P.ledger.begin_intent (usage_write_intent endpoint q hold tokens)) in
          let Both =
            λ (d' : Desk P). HeldTokens a tokens d'.quota × HeldMoney amount hold d'.budget in
          on_error-Ends (λ _. Both) (λ _. Both) (λ _. Free) begin
            (refund P hold >> return_tokens P tokens) d (Ends-state Both (begin d) both)
            (λ e d'. give_up-Ends d')

  module _ (fresh : find q.token_uuid l.holds ≡ none) (endpoint : String) where
    abbrev Held : Admitted → Desk P → Type 0
    Held = AreReserved P q limit limited l n endpoint

    abbrev tracked : Bool
    tracked = is_some P.limit_usd || is_some q.principal.budget_limit_usd

    reserve_rest-Ends :
        (cost : Money) (hold : BudgetReservation) (offered cs : List ProviderModel)
        (rejected dear : List Rejection) (d : Desk P)
        → budget_eligible_candidates (P.request_size endpoint q.body) offered ≡ ok (cs, dear, cost)
        → hold ≡ hold_of P.budget key q.budget_uuid n (pos cost) tracked
        → Tokened d.quota × HeldMoney (pos cost) hold d.budget
        → Ends Held (λ _. Free) (reserve_rest P endpoint q cs rejected hold d)
    unfolding reserve_rest
    reserve_rest-Ends cost hold offered cs rejected dear d priced same both =
        let amount = pos cost in
        let a = pos (estimate_request_tokens (P.request_size endpoint q.body) cs) in
        >>=-Ends (λ tokens d'. HeldTokens a tokens d'.quota × HeldMoney amount hold d'.budget) Held
          (λ _. Free) (take_quotas P endpoint q cs hold)
          (λ tokens.
            write_intent P endpoint q hold tokens >> pure (admitted_of P cs rejected hold tokens))
          d (take_quotas-Ends amount hold endpoint cs fresh d both)
          λ tokens d1 both1.
            >>=-Ends (λ _ d'. HeldTokens a tokens d'.quota × HeldMoney amount hold d'.budget) Held
              (λ _. Free) (write_intent P endpoint q hold tokens)
              (λ _. pure (admitted_of P cs rejected hold tokens)) d1
              (write_intent-Ends amount hold a tokens endpoint d1 both1)
              (λ _ d2 (reserved, held). (offered, dear, cost, priced, reserved, (same, held)))

    admit_any-Ends :
        (rejected : List Rejection) (cs : List ProviderModel) (d : Desk P)
        → Free d
        → Ends Held (λ _. Free) (admit_any P endpoint q rejected cs d)
    unfolding admit_any admit reserve_spend
    admit_any-Ends rejected [] d free =
        let record_failure =
          on_ledger P (P.ledger.record_decision (failed_decision endpoint q [] rejected)) in
        >>=-Ends (λ _. Free) Held (λ _. Free) record_failure
          (λ _. raise (provider_unavailable "all_provider_circuits_open")) d
          (Ends-state Free (record_failure d) free) (λ _ d' free'. free')
    admit_any-Ends rejected (c ∷ cs) d (tokens, money) =
        let z = P.request_size endpoint q.body in
        let ask =
          reserve_budget P.budget P.limit_usd key q.principal.budget_limit_usd
            (P.ledger.actual_spend d.ledger key) q.budget_uuid z (c ∷ cs) in
        >>=-Ends (λ x d'. Tokened d'.quota × IsSpend z (c ∷ cs) tracked x d'.budget) Held
          (λ _. Free) (reserve_spend P endpoint q (c ∷ cs))
          (λ x. reserve_rest P endpoint q (x.0) (rejected ++ x.1) (x.2)) d
          (on_budget-Ends P (IsSpend z (c ∷ cs) tracked) (λ _. Budgeted) Tokened ask d
            (reserve_budget-Ends P.limit_usd q.principal.budget_limit_usd
              (P.ledger.actual_spend d.ledger key) z (c ∷ cs) d.budget money)
            tokens)
          (λ x d' (tokens', (cost, priced, (same, held))).
            reserve_rest-Ends cost (x.2) (c ∷ cs) (x.0) (rejected ++ x.1) (x.1) d' priced same
              (tokens', held))

    -- For an API key with a token limit, on servers that answer, from a state in which nothing is
    -- reserved for the request and its token reservation identifier is not in use: when what comes before the dispatch returns, the
    -- tokens that the endpoint estimates for the candidates it goes on with, and the cost at which the estimate found these candidates
    -- eligible, are reserved under the two reservations that it returns (the cost where the service or the
    -- principal has a spend limit); when it raises, neither is, and the accounts are as before.
    pub open_request-Ends :
        (d : Desk P) → Free d → Ends Held (λ _. Free) (open_request P endpoint q d)
    unfolding open_request route
    open_request-Ends d free =
        >>=-Ends (λ _. Free) Held (λ _. Free) (route P endpoint q)
          (λ decision. pass_circuits P decision.candidates >>= λ sorted.
            admit_any P endpoint q (decision.rejected ++ sorted.1) (sorted.0))
          d (Ends-state Free (route P endpoint q d) free)
          λ decision d1 free1.
            >>=-Ends (λ _. Free) Held (λ _. Free) (pass_circuits P decision.candidates)
              (λ sorted. admit_any P endpoint q (decision.rejected ++ sorted.1) (sorted.0)) d1
              (Ends-state Free (pass_circuits P decision.candidates d1) free1)
              (λ sorted d2. admit_any-Ends (decision.rejected ++ sorted.1) (sorted.0) d2)
