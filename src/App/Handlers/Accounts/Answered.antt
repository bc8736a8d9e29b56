-- ===== src/App/Handlers/Accounts/Answered.antt =====
-- What the answers of mixapi/app.py leave of their reservations, after the dispatch that they make.
use mixapi.Shared.{none, ◌≡◌, refl, true, some, List, [], ◌∷◌, String, Result, ok, err, is_ok}
use mixapi.Shared.Int.{ℤ}
use mixapi.Exec.Ends.{Ends, Ends-map, Ends-safe, >>=-Ends}
use mixapi.Json.{Fields}
use mixapi.Money.{Money, estimate_cost}
use mixapi.App.Dispatch.Billing.{UsageEvent}
use mixapi.Models.{ProviderModel}
use mixapi.Redis.{Conn}
use mixapi.Runtime.Holds.{Account}
use mixapi.Runtime.Quota.Apart.{
  Kept, reserve_concurrency-Kept, reserve_connection_requests-Kept, release_concurrency-Kept,
}
use mixapi.App.Dispatch.{
  AdapterResponse, FailedAttempt, ResponseDispatchOutcome, DispatchError, all_candidates_failed,
  service_error,
}
use mixapi.App.Dispatch.Loops.{dispatch_response_with_fallback, dispatch_embedding_with_fallback}
use mixapi.App.Dispatch.Frame.{dispatch_embedding-Keeps}
use mixapi.App.Handlers.{Services, Call, Desk, on_world}
use mixapi.App.Handlers.Opening.{Admitted}
use mixapi.App.Handlers.Closing.{
  settle, give_back, reply, close_embedding, embedding_payload, embedding_cost, embedding_event,
}
use mixapi.App.Handlers.Endpoints.{answer_embedding}
use mixapi.App.Handlers.Accounts.Settled.{IsReliable, Charged, Held, Unheld, settle-Ends}
use mixapi.App.Handlers.Accounts.Closed.{
  Charged-recorded, give_back-Ends, then_reject-Ends, reply-Ends,
}

module _ (P : Services) (reliable : IsReliable P.ledger) (q : Call) (limit : ℤ)
    (limited : P.limits.token_limit ≡ some limit) (l : Account) (n : ℤ) where
  abbrev Has : String → Admitted → Desk P → Type 0
  Has = Held P reliable q limit limited l n

  -- The event of an embedding: whose it is, and what it has used.
  abbrev IsEventOf : AdapterResponse → Money → UsageEvent → Type 0
  IsEventOf x cost event =
      (event.request_id ≡ q.request_id)
      × (event.api_key_id ≡ q.principal.api_key_id)
      × (event.input_tokens ≡ x.input_tokens)
      × (event.output_tokens ≡ 0)
      × (event.cost_usd ≡ cost)

  -- The accounts after an embedding request whose dispatch has ended in this way.
  abbrev pub AfterEmbedding :
      Admitted
      → Result DispatchError (AdapterResponse × ProviderModel × List FailedAttempt)
      → Desk P
      → Type 0
  AfterEmbedding admitted (ok (x, c, failed)) d =
      let cost = estimate_cost x.input_tokens 0 (record c.pricing { output_per_million = none }) in
      (event : UsageEvent) × IsEventOf x cost event
      × Charged P reliable q limit limited l n admitted cost (event ∷ []) x.input_tokens d
  AfterEmbedding admitted (err (all_candidates_failed failed billable failures)) d =
      Unheld P reliable q limit limited l n d
  AfterEmbedding admitted (err (service_error e)) d = Has "embeddings" admitted d

  close_embedding-Ends :
      (admitted : Admitted)
      (r : Result DispatchError (AdapterResponse × ProviderModel × List FailedAttempt)) (d : Desk P)
      → Has "embeddings" admitted d
      → Ends
          (λ _ d'. (is_ok r ≡ true) × AfterEmbedding admitted r d')
          (λ _. AfterEmbedding admitted r)
          (close_embedding P q admitted r d)
  unfolding close_embedding
  close_embedding-Ends admitted (ok (x, c, failed)) d held =
      let Done =
        Charged P reliable q limit limited l n admitted (embedding_cost x c)
          (embedding_event q x c ∷ []) x.input_tokens in
      let r : Result DispatchError (AdapterResponse × ProviderModel × List FailedAttempt) =
        ok (x, c, failed) in
      let After = AfterEmbedding admitted r in
      let settled : (d' : Desk P) → Done d' → After d' =
        λ d' y. (embedding_event q x c, (refl, refl, refl, refl, refl), y) in
      let Good = λ (v : Fields) (d' : Desk P). (is_ok r ≡ true) × After d' in
      let payload = embedding_payload q admitted x c failed in
      let events = embedding_event q x c ∷ [] in
      let pay = settle P admitted (embedding_cost x c) events x.input_tokens in
      >>=-Ends (λ _. Done) Good (λ _. After) pay (λ _. reply P "embeddings" q admitted payload) d
        (Ends-safe (λ _. Done) (λ _. After) (pay d)
          (settle-Ends P reliable q limit limited l n "embeddings" admitted (embedding_cost x c)
            events x.input_tokens d held))
        (λ _ d1 done.
          Ends-map (λ _. Done) Good (λ _. Done) (λ _. After) (λ _ d' y. (refl, settled d' y))
            (λ _ d' y. settled d' y) (reply P "embeddings" q admitted payload d1)
            (reply-Ends P Done "embeddings" q admitted payload d1 done
              (Charged-recorded P reliable q limit limited l n admitted (embedding_cost x c) events
                x.input_tokens)
              (λ _ _ y. y)))
  close_embedding-Ends admitted (err (all_candidates_failed failed billable failures)) d held =
      then_reject-Ends P reliable q limit limited l n (Unheld P reliable q limit limited l n)
        "embeddings" admitted failed (give_back P q admitted) d
        (give_back-Ends P reliable q limit limited l n "embeddings" admitted d held) (λ _ _ x. x) _
  close_embedding-Ends admitted (err (service_error e)) d held = held

  -- What the dispatch of this request comes to.
  abbrev pub response_dispatched : Admitted → Desk P → Result DispatchError ResponseDispatchOutcome
  response_dispatched admitted d =
      (on_world P (dispatch_response_with_fallback P.quota P.gateway q.body admitted.candidates)
        d).0

  abbrev pub embedding_dispatched :
      Admitted
      → Desk P
      → Result DispatchError (AdapterResponse × ProviderModel × List FailedAttempt)
  embedding_dispatched admitted d =
      (on_world P (dispatch_embedding_with_fallback P.quota P.gateway q.body admitted.candidates)
        d).0

  module _ (m : Account) where
    abbrev K : Conn P.quota.State → Type 0
    K = Kept P.quota q.principal.api_key_id m

    embedding_kept :
        (cs : List ProviderModel) (d : Desk P)
        → K d.quota
        → K (on_world P (dispatch_embedding_with_fallback P.quota P.gateway q.body cs) d).1.quota
    embedding_kept cs d =
        dispatch_embedding-Keeps P.quota P.gateway K
          (reserve_concurrency-Kept P.quota q.principal.api_key_id m)
          (reserve_connection_requests-Kept P.quota q.principal.api_key_id m)
          (release_concurrency-Kept P.quota q.principal.api_key_id m) q.body cs
          (record { quota = d.quota; env = d.env })

  -- For an API key with a token limit and a database that never fails to settle and keeps what it
  -- has booked, from a state in which the tokens and the money of the embedding request are reserved: if a candidate answers, the
  -- account is charged with the input tokens of the answer, the database has booked their cost and the usage
  -- event for the budget reservation, and neither reservation is open; if all
  -- fail, both are given back and the account is as before; and if a service fails in the dispatch, both
  -- stay reserved. The request is answered only if a candidate has answered.
  pub answer_embedding-Ends :
      (admitted : Admitted) (d : Desk P)
      → Has "embeddings" admitted d
      → let r = embedding_dispatched admitted d in
        Ends
          (λ _ d'. (is_ok r ≡ true) × AfterEmbedding admitted r d')
          (λ _. AfterEmbedding admitted r)
          (answer_embedding P q admitted d)
  unfolding answer_embedding
  answer_embedding-Ends admitted d (amount, (same, kept), held) =
      let (r, d') =
        on_world P (dispatch_embedding_with_fallback P.quota P.gateway q.body admitted.candidates)
          d in
      close_embedding-Ends admitted r d'
        (amount, (same, embedding_kept _ admitted.candidates d kept), held)
