-- ===== src/App/Handlers/Endpoints/Untouched.antt =====
-- Of a request's steps (mixapi/app.py) only the last one changes the idempotency records.
use mixapi.Shared.{
  ◌≡◌, refl, ◌∙◌, List, [], ◌∷◌, ◌++◌, String, ◌==◌, Bool-cases, inl, inr, Result, ok, err,
  Option-cases, false,
}
use mixapi.Shared.{ℕ}
use mixapi.Shared.Int.{pos}
use mixapi.Errors.{MixApiError, provider_unavailable}
use mixapi.Exec.{Exec, on_error, raise, pure, ◌>>=◌, ◌>>◌}
use mixapi.Money.{Money}
use mixapi.Models.{ProviderModel}
use mixapi.Routing.Order.{Rejection}
use mixapi.Runtime.Quota.{TokenReservation, reconcile_tokens}
use mixapi.Runtime.Budget.{BudgetReservation, finish_redis_reconciliation}
use mixapi.App.Dispatch.{BillableDispatch}
use mixapi.App.Dispatch.Billing.{UsageEvent}
use mixapi.App.Estimates.{estimate_request_tokens}
use mixapi.App.Admission.{reserve_quotas}
use mixapi.App.Handlers.{Services, Call, Desk, on_quota, on_budget, on_ledger}
use mixapi.App.Handlers.Opening.{
  Admitted, refund, return_tokens, reserve_spend, take_quotas, write_intent, admitted_of,
  usage_write_intent, failed_decision, reserve_rest, admit, admit_any, route, pass_circuits,
  open_request, session_of,
}
use mixapi.App.Handlers.Closing.{
  settle_accounting, finish_reconciliation, settle, settle_billable, stick,
}

module _ (P : Services) where
  abbrev pub Keeps : {A : Type 0} → Exec (Desk P) A → Type 0
  Keeps m = (d : Desk P) → (m d).1.records ≡ d.records

  pub >>=-Keeps :
      {A B : Type 0} (m : Exec (Desk P) A) (f : A → Exec (Desk P) B)
      → Keeps m
      → ((a : A) → Keeps (f a))
      → Keeps (m >>= f)
  >>=-Keeps {A} m f first rest d = go (m d).0 (m d).1 (first d)
    where
      go :
          (r : Result MixApiError A) (d' : Desk P)
          → d'.records ≡ d.records
          → (((λ _. (r, d')) >>= f) d).1.records ≡ d.records
      go (ok a) d' h = rest a d' ∙ h
      go (err e) d' h = h

  on_error-Keeps :
      {A : Type 0} (m : Exec (Desk P) A) (h : Exec (Desk P) (Unit {0}))
      → Keeps m
      → Keeps h
      → Keeps (on_error m h)
  on_error-Keeps {A} m h first rest d = go (m d).0 (m d).1 (first d)
    where
      go :
          (r : Result MixApiError A) (d' : Desk P)
          → d'.records ≡ d.records
          → (on_error (λ _. (r, d')) h d).1.records ≡ d.records
      go (ok a) d' k = k
      go (err e) d' k = >>=-Keeps h (λ _. raise {A = A} e) rest (λ _ _. refl) d' ∙ k

  take_quotas-Keeps :
      (endpoint : String) (q : Call) (cs : List ProviderModel) (hold : BudgetReservation)
      → Keeps (take_quotas P endpoint q cs hold)
  unfolding take_quotas
  take_quotas-Keeps endpoint q cs hold =
      on_error-Keeps
        (on_quota P (
          reserve_quotas P.quota P.limits q.principal.api_key_id
            (pos (estimate_request_tokens (P.request_size endpoint q.body) cs)) q.token_uuid))
        (refund P hold) (λ _. refl) (λ _. refl)

  write_intent-Keeps :
      (endpoint : String) (q : Call) (hold : BudgetReservation) (tokens : TokenReservation)
      → Keeps (write_intent P endpoint q hold tokens)
  unfolding write_intent
  write_intent-Keeps endpoint q hold tokens =
      on_error-Keeps
        (on_ledger P (P.ledger.begin_intent (usage_write_intent endpoint q hold tokens)))
        (refund P hold >> return_tokens P tokens) (λ _. refl)
        (>>=-Keeps (refund P hold) (λ _. return_tokens P tokens) (λ _. refl) (λ _ _. refl))

  reserve_rest-Keeps :
      (endpoint : String) (q : Call) (cs : List ProviderModel) (rejected : List Rejection)
      (hold : BudgetReservation)
      → Keeps (reserve_rest P endpoint q cs rejected hold)
  unfolding reserve_rest
  reserve_rest-Keeps endpoint q cs rejected hold =
      >>=-Keeps (take_quotas P endpoint q cs hold)
        (λ tokens.
          write_intent P endpoint q hold tokens >> pure (admitted_of P cs rejected hold tokens))
        (take_quotas-Keeps endpoint q cs hold)
        λ tokens.
          >>=-Keeps (write_intent P endpoint q hold tokens)
            (λ _. pure (admitted_of P cs rejected hold tokens))
            (write_intent-Keeps endpoint q hold tokens) (λ _ _. refl)

  admit_any-Keeps :
      (endpoint : String) (q : Call) (rejected : List Rejection) (cs : List ProviderModel)
      → Keeps (admit_any P endpoint q rejected cs)
  unfolding admit_any admit reserve_spend
  admit_any-Keeps endpoint q rejected [] =
      >>=-Keeps (on_ledger P (P.ledger.record_decision (failed_decision endpoint q [] rejected)))
        (λ _. raise (provider_unavailable "all_provider_circuits_open")) (λ _. refl) (λ _ _. refl)
  admit_any-Keeps endpoint q rejected (c ∷ cs) =
      >>=-Keeps (reserve_spend P endpoint q (c ∷ cs))
        (λ x. reserve_rest P endpoint q (x.0) (rejected ++ x.1) (x.2)) (λ _. refl)
        (λ x. reserve_rest-Keeps endpoint q (x.0) (rejected ++ x.1) (x.2))

  pub open_request-Keeps : (endpoint : String) (q : Call) → Keeps (open_request P endpoint q)
  unfolding open_request route
  open_request-Keeps endpoint q =
      >>=-Keeps (route P endpoint q)
        (λ decision. pass_circuits P decision.candidates >>= λ sorted.
          admit_any P endpoint q (decision.rejected ++ sorted.1) (sorted.0))
        (λ _. refl)
        λ decision.
          >>=-Keeps (pass_circuits P decision.candidates)
            (λ sorted. admit_any P endpoint q (decision.rejected ++ sorted.1) (sorted.0))
            (λ _. refl)
            (λ sorted. admit_any-Keeps endpoint q (decision.rejected ++ sorted.1) (sorted.0))

  finish_reconciliation-Keeps : (hold : BudgetReservation) → Keeps (finish_reconciliation P hold)
  unfolding finish_reconciliation
  finish_reconciliation-Keeps hold d =
      >>=-Keeps
        (on_budget P (
          finish_redis_reconciliation P.budget hold
            (P.ledger.actual_spend d.ledger hold.api_key_id)))
        (λ _. on_ledger P (P.ledger.mark_reconciliation_processed hold.reservation_id)) (λ _. refl)
        (λ _ _. refl) d

  pub settle-Keeps :
      (admitted : Admitted) (cost : Money) (events : List UsageEvent) (used : ℕ)
      → Keeps (settle P admitted cost events used)
  unfolding settle settle_accounting
  settle-Keeps admitted cost events used =
      >>=-Keeps (settle_accounting P admitted.reservation cost events)
        (λ _. on_quota P (reconcile_tokens P.quota P.limits admitted.token_reservation (pos used)))
        (>>=-Keeps
          (on_ledger P (
            P.ledger.reconcile_with_usage (record admitted.reservation { tracked = false }) cost
              events))
          (λ _. finish_reconciliation P admitted.reservation) (λ _. refl)
          (λ _. finish_reconciliation-Keeps admitted.reservation))
        (λ _ _. refl)

  pub settle_billable-Keeps :
      (q : Call) (admitted : Admitted) (ds : List BillableDispatch)
      → Keeps (settle_billable P q admitted ds)
  unfolding settle_billable
  settle_billable-Keeps q admitted ds = settle-Keeps admitted _ _ _

  pub stick-Keeps : (q : Call) (c : ProviderModel) → Keeps (stick P q c)
  unfolding stick
  stick-Keeps q c d = elim (Option-cases (session_of q)) [
    | inl unset ↦ rw (stick, unset) refl
    | inr (s, set) ↦ elim (Option-cases c.provider_connection_id) [
      | inl none_there ↦ rw (stick, set, none_there) refl
      | inr (connection, there) ↦ elim (Bool-cases (connection == "")) [
        | inl empty ↦ rw (stick, set, there, empty) refl
        | inr full ↦ rw (stick, set, there, full) refl
      ]
    ]
  ]
