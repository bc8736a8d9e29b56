-- ===== src/App/Handlers/Accounts/Closed.antt =====
-- What a handler of mixapi/app.py leaves of its reservations, by how the dispatch has ended.
use mixapi.Shared.{
  ℕ, ◌+◌, ◌≡◌, refl, true, some, List, [], ◌∷◌, map, String, Result, ok, err, is_ok, Option-cases,
  inl, inr, Bool-cases, ◌==◌,
}
use mixapi.Shared.Int.{ℤ, pos}
use mixapi.Exec.{Exec, pure, raise, ◌>>=◌, ◌>>◌}
use mixapi.Exec.Ends.{Ends, Ends-state, Ends-map, Ends-safe, >>=-Ends}
use mixapi.Json.{Fields}
use mixapi.Money.{Money, estimate_cost}
use mixapi.Models.{ProviderModel}
use mixapi.Redis.{Conn}
use mixapi.Runtime.Holds.{Account}
use mixapi.Runtime.Idempotency.{store}
use mixapi.App.Dispatch.{
  FailedAttempt, BillableDispatch, ResponseDispatchOutcome, DispatchError, all_candidates_failed,
  service_error,
}
use mixapi.App.Dispatch.Billing.{
  sum_of, UsageEvent, billable_dispatch_totals, public_error_for_failed_attempts,
  billable_response_usage_events,
}
use mixapi.App.Estimates.{estimate_request_tokens}
use mixapi.App.Handlers.{
  RouteDecisionRecord, Services, Call, Desk, Payload, tried, on_records, on_ledger,
}
use mixapi.App.Handlers.Opening.{Admitted, refund, return_tokens, failed_decision, session_of}
use mixapi.App.Handlers.Closing.{
  settle, settle_billable, give_back, reject, reply, stick, close_response, succeeded_decision,
  response_payload, billed_of,
}
use mixapi.App.Handlers.Accounts.Opened.{give_up-Ends}
use mixapi.App.Handlers.Accounts.Settled.{IsReliable, Charged, Held, Unheld, settle-Ends}

module _ (P : Services) where
  -- A call of no interest to the accounts.
  module _ (Q : Desk P → Type 0) where
    reject-Ends :
        (endpoint : String) (q : Call) (admitted : Admitted) (failed : List FailedAttempt)
        (d : Desk P)
        → Q d
        → ((d' : Desk P) (x : RouteDecisionRecord)
            → Q d'
            → Q (record d' { ledger = (P.ledger.record_decision x d'.ledger).1 }))
        → Ends (λ _ _. ⊥) (λ _. Q) (reject P endpoint q admitted failed d)
    unfolding reject
    reject-Ends endpoint q admitted failed d h kept =
        let note = on_ledger P (
          P.ledger.record_decision
            (failed_decision endpoint q (map tried failed) admitted.rejected)) in
        >>=-Ends (λ _. Q) (λ _ _. ⊥) (λ _. Q) note
          (λ _. raise (public_error_for_failed_attempts failed)) d
          (Ends-state Q (note d) (kept d _ h)) (λ _ d' h'. h')

    pub reply-Ends :
        (endpoint : String) (q : Call) (admitted : Admitted) (payload : Payload) (d : Desk P)
        → Q d
        → ((d' : Desk P) (x : RouteDecisionRecord)
            → Q d'
            → Q (record d' { ledger = (P.ledger.record_decision x d'.ledger).1 }))
        → ((d' : Desk P) (c : Conn P.idempotency.State) → Q d' → Q (record d' { records = c }))
        → Ends (λ _. Q) (λ _. Q) (reply P endpoint q admitted payload d)
    unfolding reply
    reply-Ends endpoint q admitted payload d h kept kept' =
        let note = on_ledger P (
          P.ledger.record_decision (
            succeeded_decision endpoint q payload.failed_attempts payload.selected
              admitted.rejected)) in
        let v = P.write_payload endpoint payload in
        let put = on_records P (
          store P.idempotency P.request_hash q.principal.tenant_id endpoint q.idempotency_key q.body
            v) in
        >>=-Ends (λ _. Q) (λ _. Q) (λ _. Q) note (λ _. put >>= λ _. pure v) d
          (Ends-state Q (note d) (kept d _ h))
          (λ _ d1 h1.
            >>=-Ends (λ _. Q) (λ _. Q) (λ _. Q) put (λ _. pure v) d1
              (Ends-state Q (put d1) (kept' d1 (put d1).1.records h1)) (λ _ d2 h2. h2))

    stick-Ends :
        (q : Call) (c : ProviderModel) (d : Desk P)
        → Q d
        → ((s : P.sessions.State) → Q (record d { sessions = s }))
        → Ends (λ _. Q) (λ _ _. ⊥) (stick P q c d)
    unfolding stick
    stick-Ends q c d h kept = elim (Option-cases (session_of q)) [
      | inl unset ↦ rw (stick, unset) h
      | inr (s, set) ↦ elim (Option-cases c.provider_connection_id) [
        | inl missing ↦ rw (stick, set, missing) h
        | inr (connection, there) ↦ elim (Bool-cases (connection == "")) [
          | inl empty ↦ rw (stick, set, there, empty) h
          | inr full ↦ rw (stick, set, there, full) (kept _)
        ]
      ]
    ]

  module _ (reliable : IsReliable P.ledger) (q : Call) (limit : ℤ)
      (limited : P.limits.token_limit ≡ some limit) (l : Account) (n : ℤ) where
    abbrev Holds : String → Admitted → Desk P → Type 0
    Holds = Held P reliable q limit limited l n

    abbrev Unholds : Desk P → Type 0
    Unholds = Unheld P reliable q limit limited l n

    -- The cost, the usage events and the tokens of the dispatches are charged.
    abbrev pub ChargedFor : Admitted → List BillableDispatch → Desk P → Type 0
    ChargedFor admitted ds =
        Charged P reliable q limit limited l n admitted
          (sum_of
            (λ b.
              estimate_cost b.response.input_tokens b.response.output_tokens b.candidate.pricing)
            ds)
          (billable_response_usage_events (billed_of q) ds)
          (sum_of (λ b. b.response.input_tokens) ds + sum_of (λ b. b.response.output_tokens) ds)

    pub Charged-recorded :
        (admitted : Admitted) (cost : Money) (events : List UsageEvent) (used : ℕ) (d : Desk P)
        (x : RouteDecisionRecord)
        → Charged P reliable q limit limited l n admitted cost events used d
        → Charged P reliable q limit limited l n admitted cost events used
            (record d { ledger = (P.ledger.record_decision x d.ledger).1 })
    Charged-recorded admitted cost events used d x (charged, booked) = (
      charged,
      reliable.decisions_keep admitted.reservation.reservation_id cost events x d.ledger booked,
    )

    pub give_back-Ends :
        (endpoint : String) (admitted : Admitted) (d : Desk P)
        → Holds endpoint admitted d
        → Ends (λ _. Unholds) (λ _. Unholds) (give_back P q admitted d)
    unfolding give_back
    give_back-Ends endpoint admitted d (amount, reserved, held) =
        let a =
          pos (estimate_request_tokens (P.request_size endpoint q.body) admitted.candidates) in
        let fail = on_ledger P (P.ledger.fail_intent q.request_id) in
        >>=-Ends (λ _. Unholds) (λ _. Unholds) (λ _. Unholds)
          (refund P admitted.reservation >> return_tokens P admitted.token_reservation) (λ _. fail)
          d
          (give_up-Ends P q limit limited l n amount admitted.reservation a
            admitted.token_reservation d (reserved, held))
          (λ _ d' free. Ends-state Unholds (fail d') free)

    settled-Ends :
        (admitted : Admitted) (ds : List BillableDispatch) (d : Desk P)
        → Holds "responses" admitted d
        → Ends
            (λ _. ChargedFor admitted ds)
            (λ _. ChargedFor admitted ds)
            (settle_billable P q admitted ds d)
    unfolding settle_billable billable_dispatch_totals
    settled-Ends admitted ds d held =
        let t = billable_dispatch_totals ds in
        let events = billable_response_usage_events (billed_of q) ds in
        let used = t.input_tokens + t.output_tokens in
        Ends-safe (λ _. ChargedFor admitted ds) (λ _. ChargedFor admitted ds)
          (settle P admitted t.cost events used d)
          (settle-Ends P reliable q limit limited l n "responses" admitted t.cost events used d
            held)

    pub then_reject-Ends :
        (Q : Desk P → Type 0) (endpoint : String) (admitted : Admitted)
        (failed : List FailedAttempt) (m : Exec (Desk P) (Unit {0})) (d : Desk P)
        → Ends (λ _. Q) (λ _. Q) (m d)
        → ((d' : Desk P) (x : RouteDecisionRecord)
            → Q d'
            → Q (record d' { ledger = (P.ledger.record_decision x d'.ledger).1 }))
        → (Good : Fields → Desk P → Type 0)
        → Ends Good (λ _. Q) ((m >>= λ _. reject P endpoint q admitted failed) d)
    then_reject-Ends Q endpoint admitted failed m d ended kept Good =
        >>=-Ends (λ _. Q) Good (λ _. Q) m (λ _. reject P endpoint q admitted failed) d ended
          (λ _ d' h.
            Ends-map (λ _ _. ⊥) Good (λ _. Q) (λ _. Q) (λ _ _ x. absurd x) (λ _ _ x. x)
              (reject P endpoint q admitted failed d')
              (reject-Ends Q endpoint q admitted failed d' h kept))

    -- The accounts after a response request whose dispatch has ended in this way.
    abbrev pub AfterResponse :
        Admitted → Result DispatchError ResponseDispatchOutcome → Desk P → Type 0
    AfterResponse admitted (ok o) = ChargedFor admitted o.billable_dispatches
    AfterResponse admitted (err (all_candidates_failed failed [] failures)) = Unholds
    AfterResponse admitted (err (all_candidates_failed failed (b ∷ bs) failures)) =
        ChargedFor admitted (b ∷ bs)
    AfterResponse admitted (err (service_error e)) = Holds "responses" admitted

    pub close_response-Ends :
        (admitted : Admitted) (r : Result DispatchError ResponseDispatchOutcome) (d : Desk P)
        → Holds "responses" admitted d
        → Ends
            (λ _ d'. (is_ok r ≡ true) × AfterResponse admitted r d')
            (λ _. AfterResponse admitted r)
            (close_response P q admitted r d)
    unfolding close_response settle_billable
    close_response-Ends admitted (ok o) d held =
        let Done = ChargedFor admitted o.billable_dispatches in
        let r : Result DispatchError ResponseDispatchOutcome = ok o in
        let Good = λ (v : Fields) (d' : Desk P). (is_ok r ≡ true) × Done d' in
        let payload = response_payload q admitted o in
        >>=-Ends (λ _. Holds "responses" admitted) Good (λ _. Done) (stick P q o.selected_candidate)
          (λ _.
            settle_billable P q admitted o.billable_dispatches
            >> reply P "responses" q admitted payload)
          d
          (Ends-safe (λ _. Holds "responses" admitted) (λ _. Done)
            (stick P q o.selected_candidate d)
            (stick-Ends (Holds "responses" admitted) q o.selected_candidate d held (λ _. held)))
          (λ _ d1 held1.
            >>=-Ends (λ _. Done) Good (λ _. Done)
              (settle_billable P q admitted o.billable_dispatches)
              (λ _. reply P "responses" q admitted payload) d1
              (settled-Ends admitted o.billable_dispatches d1 held1)
              (λ _ d2 done.
                Ends-map (λ _. Done) Good (λ _. Done) (λ _. Done) (λ _ _ x. (refl, x)) (λ _ _ x. x)
                  (reply P "responses" q admitted payload d2)
                  (reply-Ends Done "responses" q admitted payload d2 done
                    (Charged-recorded admitted _ _ _) (λ _ _ x. x))))
    close_response-Ends admitted (err (all_candidates_failed failed [] failures)) d held =
        then_reject-Ends Unholds "responses" admitted failed (give_back P q admitted) d
          (give_back-Ends "responses" admitted d held) (λ _ _ x. x) _
    close_response-Ends admitted (err (all_candidates_failed failed (b ∷ bs) failures)) d held =
        then_reject-Ends (ChargedFor admitted (b ∷ bs)) "responses" admitted failed
          (settle_billable P q admitted (b ∷ bs)) d (settled-Ends admitted (b ∷ bs) d held)
          (Charged-recorded admitted _ _ _) _
    close_response-Ends admitted (err (service_error e)) d held = held
