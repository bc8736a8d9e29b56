-- ===== src/App/Handlers/Accounts/Settled.antt =====
-- What a handler of mixapi/app.py leaves of its reservations, by how the dispatch has ended.
use mixapi.Shared.{ℕ, ◌≡◌, true, false, some, List, String, Result, ok, err, is_ok}
use mixapi.Shared.Int.{ℤ, pos, ◌+ℤ◌}
use mixapi.Errors.{MixApiError}
use mixapi.Exec.{Exec}
use mixapi.Exec.Ends.{Ends, Ends-map, Ends-with, >>=-Ends}
use mixapi.Money.{Decimal, Money}
use mixapi.Redis.{Conn}
use mixapi.Runtime.Holds.{Account}
use mixapi.Runtime.Quota.{reconcile_tokens}
use mixapi.Runtime.Quota.Apart.{Kept}
use mixapi.Runtime.Budget.{BudgetReservation, finish_redis_reconciliation}
use mixapi.Runtime.Budget.Holding.{IsHeld, IsOver, finish-Ends}
use mixapi.App.Dispatch.Billing.{UsageEvent}
use mixapi.App.Estimates.{estimate_request_tokens}
use mixapi.App.Admission.Tokens.{reconcile_tokens-Ends}
use mixapi.App.Handlers.{
  RouteDecisionRecord, Ledger, Services, Call, Desk, on_quota, on_budget, on_ledger,
}
use mixapi.App.Handlers.Opening.{Admitted}
use mixapi.App.Handlers.Closing.{
  settle_accounting, reconcile_with_usage, finish_reconciliation, settle,
}
use mixapi.App.Handlers.Accounts.{on_quota-Ends, on_budget-Ends, AreHeld, IsCharged}
use mixapi.App.Handlers.Accounts.Opened.{HeldTokens, HeldMoney, Free}

-- The database settles what it is given to settle: the call returns, and the cost and the events of the
-- reservation are booked, as what the calls after it leave.
pub record IsReliable (L : Ledger) : Type 1 where
  pub IsBooked : String → Money → List UsageEvent → L.State → Type 0
  pub settles :
      (h : BudgetReservation) (cost : Money) (events : List UsageEvent) (s : L.State)
      → is_ok (L.reconcile_with_usage h cost events s).0 ≡ true
  pub books :
      (h : BudgetReservation) (cost : Money) (events : List UsageEvent) (s : L.State)
      → IsBooked h.reservation_id cost events (L.reconcile_with_usage h cost events s).1
  pub marks : (r : String) (s : L.State) → is_ok (L.mark_reconciliation_processed r s).0 ≡ true
  pub marks_keep :
      (r : String) (cost : Money) (events : List UsageEvent) (q : String) (s : L.State)
      → IsBooked r cost events s
      → IsBooked r cost events (L.mark_reconciliation_processed q s).1
  pub decisions_keep :
      (r : String) (cost : Money) (events : List UsageEvent) (x : RouteDecisionRecord) (s : L.State)
      → IsBooked r cost events s
      → IsBooked r cost events (L.record_decision x s).1

module _ (P : Services) where
  ledger-Ends :
      {A : Type 0} (Q : Desk P → Type 0) (m : Exec P.ledger.State A) (d : Desk P)
      → is_ok (m d.ledger).0 ≡ true
      → Q (on_ledger P m d).1
      → Ends (λ _. Q) (λ _ _. ⊥) (on_ledger P m d)
  ledger-Ends {A} Q m d returns h = go (m d.ledger).0 (m d.ledger).1 returns h
    where
      go :
          (r : Result MixApiError A) (s : P.ledger.State)
          → is_ok r ≡ true
          → Q (on_ledger P (λ _. (r, s)) d).1
          → Ends (λ _. Q) (λ _ _. ⊥) (on_ledger P (λ _. (r, s)) d)
      go (ok a) s e h' = h'
      go (err e) s f h' = cc f

  module _ (reliable : IsReliable P.ledger) (q : Call) (limit : ℤ)
      (limited : P.limits.token_limit ≡ some limit) (l : Account) (n : ℤ) where
    -- The account is charged with the tokens, the database with the cost and the events, and neither
    -- reservation is open.
    abbrev pub Charged : Admitted → Money → List UsageEvent → ℕ → Desk P → Type 0
    Charged admitted cost events used d =
        IsCharged P q limit limited l n (pos used) d
        × reliable.IsBooked admitted.reservation.reservation_id cost events d.ledger

    abbrev pub Held : String → Admitted → Desk P → Type 0
    Held = AreHeld P q limit limited l n

    abbrev pub Unheld : Desk P → Type 0
    Unheld = Free P q limit limited l n

    finish_reconciliation-Ends :
        (T : Conn P.quota.State → Type 0) (F : P.ledger.State → Type 0) (amount : Decimal)
        (hold : BudgetReservation)
        → ((s : P.ledger.State)
            → F s
            → F (P.ledger.mark_reconciliation_processed hold.reservation_id s).1)
        → (d : Desk P)
        → (T d.quota × IsHeld P.budget q.principal.api_key_id q.budget_uuid n amount hold d.budget)
          × F d.ledger
        → Ends
            (λ _ d'.
              (T d'.quota × IsOver P.budget q.principal.api_key_id q.budget_uuid n d'.budget)
              × F d'.ledger)
            (λ _ _. ⊥)
            (finish_reconciliation P hold d)
    unfolding finish_reconciliation
    finish_reconciliation-Ends T F amount hold keeps d ((tokens, held), booked) =
        let Over = IsOver P.budget q.principal.api_key_id q.budget_uuid n in
        let finish =
          finish_redis_reconciliation P.budget hold
            (P.ledger.actual_spend d.ledger hold.api_key_id) in
        let Over_too = λ (_ : Unit {0}) (d' : Desk P). T d'.quota × Over d'.budget in
        let Never = λ (_ : MixApiError) (d' : Desk P). T d'.quota × ⊥ in
        let Done = λ (d' : Desk P). (T d'.quota × Over d'.budget) × F d'.ledger in
        >>=-Ends (λ _. Done) (λ _. Done) (λ _ _. ⊥) (on_budget P finish)
          (λ _. on_ledger P (P.ledger.mark_reconciliation_processed hold.reservation_id)) d
          (Ends-map (λ _. Done) (λ _. Done) (λ _ d'. (T d'.quota × ⊥) × F d'.ledger) (λ _ _. ⊥)
            (λ _ _ x. x) (λ _ _ x. x.0.1) (on_budget P finish d)
            (Ends-with (λ d'. F d'.ledger) Over_too Never (on_budget P finish d) booked
              (on_budget-Ends P (λ _. Over) (λ _ _. ⊥) T finish d
                (finish-Ends P.budget q.principal.api_key_id q.budget_uuid n amount hold
                  (P.ledger.actual_spend d.ledger hold.api_key_id) d.budget held)
                tokens)))
          (λ _ d' (done, booked').
            ledger-Ends Done (P.ledger.mark_reconciliation_processed hold.reservation_id) d'
              (reliable.marks hold.reservation_id d'.ledger) (done, keeps d'.ledger booked'))

    pub settle-Ends :
        (endpoint : String) (admitted : Admitted) (cost : Money) (events : List UsageEvent)
        (used : ℕ) (d : Desk P)
        → Held endpoint admitted d
        → Ends
            (λ _. Charged admitted cost events used)
            (λ _ _. ⊥)
            (settle P admitted cost events used d)
    unfolding settle settle_accounting reconcile_with_usage
    settle-Ends endpoint admitted cost events used d (amount, reserved, held) =
        let a =
          pos (estimate_request_tokens (P.request_size endpoint q.body) admitted.candidates) in
        let T = HeldTokens P q limit limited l n a admitted.token_reservation in
        let B = HeldMoney P q limit limited l n amount admitted.reservation in
        let F = reliable.IsBooked admitted.reservation.reservation_id cost events in
        let Over = IsOver P.budget q.principal.api_key_id q.budget_uuid n in
        let untracked = record admitted.reservation { tracked = false } in
        let write = P.ledger.reconcile_with_usage untracked cost events in
        let spend = reconcile_tokens P.quota P.limits admitted.token_reservation (pos used) in
        let Spent = λ (c : Conn P.quota.State).
          Kept P.quota q.principal.api_key_id (record l { actual = l.actual +ℤ pos used }) c in
        let Done = Charged admitted cost events used in
        >>=-Ends (λ _ d'. (T d'.quota × Over d'.budget) × F d'.ledger) (λ _. Done) (λ _ _. ⊥)
          (settle_accounting P admitted.reservation cost events) (λ _. on_quota P spend) d
          (>>=-Ends (λ _ d'. (T d'.quota × B d'.budget) × F d'.ledger)
            (λ _ d'. (T d'.quota × Over d'.budget) × F d'.ledger) (λ _ _. ⊥) (on_ledger P write)
            (λ _. finish_reconciliation P admitted.reservation) d
            (ledger-Ends (λ d'. (T d'.quota × B d'.budget) × F d'.ledger) write d
              (reliable.settles untracked cost events d.ledger)
              ((reserved, held), reliable.books untracked cost events d.ledger))
            (λ _ d'.
              finish_reconciliation-Ends T F amount admitted.reservation
                (reliable.marks_keep admitted.reservation.reservation_id cost events
                  admitted.reservation.reservation_id)
                d'))
          (λ _ d1 ((reserved1, over), booked).
            Ends-map (λ _. Done) (λ _. Done) (λ _ d'. (⊥ × Over d'.budget) × F d'.ledger) (λ _ _. ⊥)
              (λ _ _ x. x) (λ _ _ x. x.0.0) (on_quota P spend d1)
              (Ends-with (λ d'. F d'.ledger) (λ _ d'. Spent d'.quota × Over d'.budget)
                (λ _ d'. ⊥ × Over d'.budget) (on_quota P spend d1) booked
                (on_quota-Ends P (λ _. Spent) (λ _ _. ⊥) Over spend d1
                  (reconcile_tokens-Ends P.quota P.limits q.principal.api_key_id q.token_uuid a
                    limit limited l admitted.token_reservation (pos used) d1.quota reserved1)
                  over)))
