-- ===== src/App/Handlers/Endpoints.antt =====
-- `create_response` and `create_embedding` of mixapi/app.py.
pub mod Untouched
pub mod Recorded
pub mod Retry
use mixapi.Shared.{
  Bool, true, false, Option, none, some, List, String, Result, ok, err, if◌then◌else◌,
}
use mixapi.Errors.{MixApiError}
use mixapi.Exec.{Exec, pure, ◌>>=◌, ◌>>◌}
use mixapi.Auth.{Principal, require_scope}
use mixapi.Json.{Fields, get}
use mixapi.Validation.{validate_response_request, validate_embedding_request, is_truthy}
use mixapi.Runtime.Idempotency.{replay}
use mixapi.App.Dispatch.Loops.{dispatch_response_with_fallback, dispatch_embedding_with_fallback}
use mixapi.App.Handlers.{Services, Call, Desk, on_records, on_world, checked}
use mixapi.App.Handlers.Opening.{Admitted, open_request}
use mixapi.App.Handlers.Closing.{close_response, close_embedding}

-- `request_body.get("stream", False)`, as a test.
abbrev pub is_streamed : Fields → Bool
is_streamed body = elim (get "stream" body) [ none ↦ false | some v ↦ is_truthy v ]

module _ (P : Services) where
  -- The answer that is stored under the key of the request, if there is one, or a new one.
  unfoldable pub replay_or :
      String → String → Option String → Fields → Exec (Desk P) Fields → Exec (Desk P) Fields
  unfolding replay
  replay_or endpoint tenant key body m = do
    stored ← on_records P (replay P.idempotency P.request_hash tenant endpoint key body)
    elim stored [ some response ↦ pure response | none ↦ m ]

  -- The scope of the caller, and the validation of the body.
  unfoldable pub check_response : Principal → Option String → Fields → Result MixApiError (Unit {0})
  unfolding require_scope validate_response_request
  check_response principal key body = elim (require_scope principal "responses:create") [
    | err e ↦ err e
    | ok u ↦ validate_response_request P.strip P.decimal_of P.schema_is_valid body key
  ]

  unfoldable pub check_embedding : Principal → Fields → Result MixApiError (Unit {0})
  unfolding require_scope validate_embedding_request
  check_embedding principal body = elim (require_scope principal "embeddings:create") [
    | err e ↦ err e
    | ok u ↦ validate_embedding_request P.strip P.decimal_of P.schema_is_valid body
  ]

  -- What a request that is not streamed comes to, after its reservations.
  unfoldable pub answer_response : Call → Admitted → Exec (Desk P) Fields
  unfolding dispatch_response_with_fallback close_response
  answer_response q admitted d =
      let (r, d') =
        on_world P (dispatch_response_with_fallback P.quota P.gateway q.body admitted.candidates)
          d in
      close_response P q admitted r d'

  unfoldable pub answer_embedding : Call → Admitted → Exec (Desk P) Fields
  unfolding dispatch_embedding_with_fallback close_embedding
  answer_embedding q admitted d =
      let (r, d') =
        on_world P (dispatch_embedding_with_fallback P.quota P.gateway q.body admitted.candidates)
          d in
      close_embedding P q admitted r d'

  -- The streamed answer of a request that asks for one is a parameter.
  unfoldable pub create_response :
      (Call → Admitted → Exec (Desk P) Fields) → Call → Exec (Desk P) Fields
  unfolding check_response replay_or open_request answer_response
  create_response stream_response q = do
    checked P (check_response q.principal q.idempotency_key q.body)
    replay_or "responses" q.principal.tenant_id q.idempotency_key q.body (do
      admitted ← open_request P "responses" q
      if is_streamed q.body then stream_response q admitted else answer_response q admitted)

  unfoldable pub create_embedding : Call → Exec (Desk P) Fields
  unfolding check_embedding replay_or open_request answer_embedding
  create_embedding q = do
    checked P (check_embedding q.principal q.body)
    replay_or "embeddings" q.principal.tenant_id q.idempotency_key q.body
        (do admitted ← open_request P "embeddings" q; answer_embedding q admitted)
