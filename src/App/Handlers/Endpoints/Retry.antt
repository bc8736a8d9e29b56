-- ===== src/App/Handlers/Endpoints/Retry.antt =====
-- A request that is sent again with its idempotency key (mixapi/app.py).
use mixapi.Shared.{
  ◌≡◌, refl, ap, sym, ok_injective, ◌∙◌, true, false, Option, none, some, [], ◌∷◌, List, String,
  Result, ok, err, if◌then◌else◌,
}
use mixapi.Errors.{MixApiError}
use mixapi.Exec.{Exec, ◌>>=◌, ◌>>◌}
use mixapi.Auth.{require_scope}
use mixapi.Json.{Value, Fields, get, null, bool, int, float, str, arr, obj}
use mixapi.Validation.{validate_response_request, stream_of, is_key}
use mixapi.Validation.Accepted.{Passed, validate-Passed}
use mixapi.Runtime.Idempotency.{is_unset}
use mixapi.App.Dispatch.{
  AdapterResponse, FailedAttempt, ResponseDispatchOutcome, DispatchError, all_candidates_failed,
  service_error,
}
use mixapi.App.Dispatch.Loops.{dispatch_response_with_fallback, dispatch_embedding_with_fallback}
use mixapi.Models.{ProviderModel}
use mixapi.App.Handlers.{Services, Call, Desk, on_world}
use mixapi.App.Handlers.Opening.{Admitted, open_request}
use mixapi.App.Handlers.Closing.{
  settle, settle_billable, give_back, reply, stick, close_response, close_embedding, embedding_cost,
  embedding_event, response_payload, embedding_payload,
}
use mixapi.App.Handlers.Endpoints.{
  is_streamed, check_response, check_embedding, answer_response, answer_embedding, create_response,
  create_embedding,
}
use mixapi.App.Handlers.Endpoints.Untouched.{
  open_request-Keeps, settle-Keeps, settle_billable-Keeps, stick-Keeps,
}
use mixapi.App.Handlers.Endpoints.Recorded.{
  IsReady, Records, then_records, reject-Records, reply-Records, handle_records, handle_again,
}

module _ (P : Services) (q : Call) (set : is_unset q.idempotency_key ≡ false) where
  close_response-Records :
      (admitted : Admitted) (r : Result DispatchError ResponseDispatchOutcome) (d : Desk P)
      → IsReady P "responses" q d.records
      → Records P "responses" q (close_response P q admitted r d)
  unfolding close_response
  close_response-Records admitted (ok o) d ready =
      let payload = response_payload q admitted o in
      then_records P "responses" q (stick P q o.selected_candidate)
        (λ _.
          settle_billable P q admitted o.billable_dispatches
          >> reply P "responses" q admitted payload)
        d (stick-Keeps P q o.selected_candidate) ready
        (λ _ d1 ready1.
          then_records P "responses" q (settle_billable P q admitted o.billable_dispatches)
            (λ _. reply P "responses" q admitted payload) d1
            (settle_billable-Keeps P q admitted o.billable_dispatches) ready1
            (λ _. reply-Records P "responses" q set admitted payload))
  close_response-Records admitted (err (all_candidates_failed failed [] failures)) d ready =
      reject-Records P "responses" q (give_back P q admitted) admitted failed d
  close_response-Records admitted (err (all_candidates_failed failed (b ∷ bs) failures)) d ready =
      reject-Records P "responses" q (settle_billable P q admitted (b ∷ bs)) admitted failed d
  close_response-Records admitted (err (service_error e)) d ready = tt

  close_embedding-Records :
      (admitted : Admitted)
      (r : Result DispatchError (AdapterResponse × ProviderModel × List FailedAttempt)) (d : Desk P)
      → IsReady P "embeddings" q d.records
      → Records P "embeddings" q (close_embedding P q admitted r d)
  unfolding close_embedding
  close_embedding-Records admitted (ok (r, c, failed)) d ready =
      let events = embedding_event q r c ∷ [] in
      let payload = embedding_payload q admitted r c failed in
      then_records P "embeddings" q (settle P admitted (embedding_cost r c) events r.input_tokens)
        (λ _. reply P "embeddings" q admitted payload) d
        (settle-Keeps P admitted (embedding_cost r c) events r.input_tokens) ready
        (λ _. reply-Records P "embeddings" q set admitted payload)
  close_embedding-Records admitted (err (all_candidates_failed failed bs failures)) d ready =
      reject-Records P "embeddings" q (give_back P q admitted) admitted failed d
  close_embedding-Records admitted (err (service_error e)) d ready = tt

  key_is_there : is_key P.strip P.decimal_of P.schema_is_valid q.idempotency_key ≡ true
  key_is_there = there q.idempotency_key set
    where
      there :
          (key : Option String)
          → is_unset key ≡ false
          → is_key P.strip P.decimal_of P.schema_is_valid key ≡ true
      there none h = cc h
      there (some k) h = rw h refl

  check_response_accepts :
      check_response P q.principal q.idempotency_key q.body ≡ ok tt
      → validate_response_request P.strip P.decimal_of P.schema_is_valid q.body q.idempotency_key
        ≡ ok tt
  unfolding check_response
  check_response_accepts = go (require_scope q.principal "responses:create")
    where
      go :
          (scope : Result MixApiError (Unit {0}))
          → elim scope [
            | err e ↦ err e
            | ok u ↦
                validate_response_request P.strip P.decimal_of P.schema_is_valid q.body
                  q.idempotency_key
          ]
            ≡ ok tt
          → validate_response_request P.strip P.decimal_of P.schema_is_valid q.body
              q.idempotency_key
            ≡ ok tt
      go (ok u) h = h
      go (err e) h = absurd (cc h)

  -- A request with an idempotency key that is accepted is not streamed.
  not_streamed :
      validate_response_request P.strip P.decimal_of P.schema_is_valid q.body q.idempotency_key
        ≡ ok tt
      → is_streamed q.body ≡ false
  unfolding stream_of
  not_streamed accepted = go (get "stream" q.body) refl
    where
      passed : Passed P.strip P.decimal_of P.schema_is_valid q.body q.idempotency_key
      passed =
          validate-Passed P.strip P.decimal_of P.schema_is_valid q.body q.idempotency_key accepted

      go : (o : Option Value) → get "stream" q.body ≡ o → is_streamed q.body ≡ false
      go none e = rw (is_streamed, e) refl
      go (some (bool false)) e = rw (is_streamed, e) refl
      go (some (bool true)) e =
          let on : passed.stream ≡ true =
            ok_injective (sym passed.streamed ∙ rw (stream_of, e) refl) in
          absurd (cc (key_is_there, rw on at (passed.keyless)))
      go (some null) e = rw (is_streamed, e) refl
      go (some (int n)) e = absurd (cc (rw (stream_of, e) at (passed.streamed)))
      go (some (float x)) e = absurd (cc (rw (stream_of, e) at (passed.streamed)))
      go (some (str x)) e = absurd (cc (rw (stream_of, e) at (passed.streamed)))
      go (some (arr x)) e = absurd (cc (rw (stream_of, e) at (passed.streamed)))
      go (some (obj x)) e = absurd (cc (rw (stream_of, e) at (passed.streamed)))

  new_response_records :
      (stream_response : Call → Admitted → Exec (Desk P) Fields) (d : Desk P)
      → check_response P q.principal q.idempotency_key q.body ≡ ok tt
      → IsReady P "responses" q d.records
      → Records P "responses" q (
          (open_request P "responses" q >>= λ admitted.
          if is_streamed q.body then stream_response q admitted else answer_response P q admitted)
            d)
  unfolding answer_response
  new_response_records stream_response d passed ready =
      rw (not_streamed (check_response_accepts passed)) (
        then_records P "responses" q (open_request P "responses" q) (answer_response P q) d
          (open_request-Keeps P "responses" q) ready
          (λ admitted d' ready'.
            let (r, d2) =
              on_world P
                (dispatch_response_with_fallback P.quota P.gateway q.body admitted.candidates) d' in
            close_response-Records admitted r d2 ready'))

  new_embedding_records :
      (d : Desk P)
      → IsReady P "embeddings" q d.records
      → Records P "embeddings" q
          ((open_request P "embeddings" q >>= λ admitted. answer_embedding P q admitted) d)
  unfolding answer_embedding
  new_embedding_records d ready =
      then_records P "embeddings" q (open_request P "embeddings" q) (answer_embedding P q) d
        (open_request-Keeps P "embeddings" q) ready
        (λ admitted d' ready'.
          let (r, d2) =
            on_world P
              (dispatch_embedding_with_fallback P.quota P.gateway q.body admitted.candidates) d' in
          close_embedding-Records admitted r d2 ready')

  module _ (r : Call) (principal : r.principal ≡ q.principal)
      (key : r.idempotency_key ≡ q.idempotency_key) (body : r.body ≡ q.body) (d d' later : Desk P)
      (up : d.records.reachable ≡ true) (v : Fields) (same : later.records ≡ d'.records) where
    -- On a server of records that answers: a response request with an idempotency key that was
    -- answered, sent again by the same principal with the same key and body while the records are as
    -- the first one left them, is given the first answer, and nothing changes.
    pub create_response_again :
        (stream_response : Call → Admitted → Exec (Desk P) Fields)
        → create_response P stream_response q d ≡ (ok v, d')
        → create_response P stream_response r later ≡ (ok v, later)
    unfolding create_response
    create_response_again stream_response gives =
        handle_again P "responses" q set (check_response P q.principal q.idempotency_key q.body)
          (check_response P r.principal r.idempotency_key r.body) r.principal.tenant_id
          r.idempotency_key r.body _ _ v d d' later
          (handle_records P "responses" q set _ _ d up
            (λ passed d1. new_response_records stream_response d1 passed))
          gives same
          (ap (λ p. check_response P p r.idempotency_key r.body) principal
            ∙ ap (λ k. check_response P q.principal k r.body) key
            ∙ ap (λ b. check_response P q.principal q.idempotency_key b) body)
          (ap (λ p. p.tenant_id) principal) key body

    -- On a server of records that answers: an embedding request with an idempotency key that was
    -- answered, sent again by the same principal with the same key and body while the records are as
    -- the first one left them, is given the first answer, and nothing changes.
    pub create_embedding_again :
        create_embedding P q d ≡ (ok v, d') → create_embedding P r later ≡ (ok v, later)
    unfolding create_embedding
    create_embedding_again gives =
        handle_again P "embeddings" q set (check_embedding P q.principal q.body)
          (check_embedding P r.principal r.body) r.principal.tenant_id r.idempotency_key r.body _ _
          v d d' later
          (handle_records P "embeddings" q set _ _ d up (λ passed d1. new_embedding_records d1))
          gives same
          (ap (λ p. check_embedding P p r.body) principal
            ∙ ap (λ b. check_embedding P q.principal b) body)
          (ap (λ p. p.tenant_id) principal) key body
