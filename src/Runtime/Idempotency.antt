-- ===== src/Runtime/Idempotency.antt =====
-- mixapi/idempotency.py and mixapi/runtime/idempotency.py: the first response that is stored under
-- an idempotency key is the one that later requests are given. How long a record is kept is left out.
use mixapi.Shared.{
  ◌≡◌, ◌≢◌, refl, ap, ◌∙◌, Bool, true, false, Option, none, some, List, [], ◌∷◌, String, ◌==◌,
  Result, ok, err, if◌then◌else◌, is_some, Bool-cases, inl, inr,
}
use mixapi.Errors.{MixApiError, validation_error, control_plane_unavailable}
use mixapi.Exec.{Exec}
use mixapi.Json.{Fields}
use mixapi.Redis.{Redis, Conn, call, call_up}

-- `_key`, without the digest: the tenant, the endpoint and the key of the request.
abbrev pub IdempotencyKey : Type 0
IdempotencyKey = String × String × String

-- The text at a key: one that `store` wrote, or another, which `replay` cannot read.
pub data Stored : Type 0 where
  record_of : String → Fields → Stored
  unreadable : Stored

-- `not key`
abbrev pub is_unset : Option String → Bool
is_unset none = true
is_unset (some k) = k == ""

abbrev pub key_of : Option String → String
key_of none = ""
key_of (some k) = k

-- The arguments of a call of `store`.
pub record Write : Type 0 where
  pub tenant : String
  pub endpoint : String
  pub key : Option String
  pub body : Fields
  pub response : Fields

-- A call whose value is not used.
abbrev discard : {S A : Type 0} → Result MixApiError A × S → Result MixApiError (Unit {0}) × S
discard (ok _, s) = (ok tt, s)
discard (err e, s) = (err e, s)

module _ (R : Redis IdempotencyKey Stored) (request_hash : Fields → String) where
  -- What follows the read of the key.
  unfoldable pub check_record : Fields → Option Stored → Result MixApiError (Option Fields)
  check_record body none = ok none
  check_record body (some unreadable) = err control_plane_unavailable
  check_record body (some (record_of stored_hash response)) =
      if stored_hash == request_hash body
      then ok (some response)
      else err (validation_error "idempotency_key_reused")

  -- `GET`, and what follows it.
  abbrev pub replay_of :
      Fields
      → Result MixApiError (Option Stored) × Conn R.State
      → Result MixApiError (Option Fields) × Conn R.State
  replay_of body (err e, c) = (err e, c)
  replay_of body (ok raw, c) = (check_record body raw, c)

  unfoldable pub replay :
      String → String → Option String → Fields → Exec (Conn R.State) (Option Fields)
  unfolding call check_record
  replay tenant endpoint key body c =
      if is_unset key
      then (ok none, c)
      else replay_of body (call (λ s. (R.get s (tenant, endpoint, key_of key), s)) c)

  -- `_STORE`: a record that is there stays.
  unfoldable pub store_script : IdempotencyKey → Stored → R.State → Bool × R.State
  store_script k v s = if is_some (R.get s k) then (false, s) else (true, R.set s k v)

  unfoldable pub store :
      String → String → Option String → Fields → Fields → Exec (Conn R.State) (Unit {0})
  unfolding call store_script
  store tenant endpoint key body response c =
      if is_unset key
      then (ok tt, c)
      else discard (
          call
            (store_script (tenant, endpoint, key_of key) (record_of (request_hash body) response))
            c)

  unfoldable pub store_all : List Write → Conn R.State → Conn R.State
  unfolding store
  store_all [] c = c
  store_all (x ∷ xs) c = store_all xs (store x.tenant x.endpoint x.key x.body x.response c).1

  pub store_state :
      (tenant endpoint : String) (key : Option String) (body response : Fields) (c : Conn R.State)
      → is_unset key ≡ false
      → c.reachable ≡ true
      → (store tenant endpoint key body response c).1 ≡ record c {
        store =
            (store_script
              (tenant, endpoint, key_of key)
              (record_of (request_hash body) response)
              c.store).1;
      }
  unfolding store
  store_state tenant endpoint key body response c set up = rw set (
      ap (λ x. (discard x).1)
        (call_up
          (store_script (tenant, endpoint, key_of key) (record_of (request_hash body) response)) c
          up))

  pub replay_answer :
      (tenant endpoint : String) (key : Option String) (body : Fields) (c : Conn R.State)
      → is_unset key ≡ false
      → c.reachable ≡ true
      → replay tenant endpoint key body c
        ≡ (check_record body (R.get c.store (tenant, endpoint, key_of key)), c)
  unfolding replay
  replay_answer tenant endpoint key body c set up =
      let k : IdempotencyKey = (tenant, endpoint, key_of key) in
      rw set (
        ap (λ (x : Result MixApiError (Option Stored) × Conn R.State). replay_of body x)
          (call_up (λ s. (R.get s k, s)) c up))

  -- A record that is there stays, whatever is stored later.
  module _ (k : IdempotencyKey) (v : Stored) where
    abbrev Has : Conn R.State → Type 0
    Has c = (c.reachable ≡ true) × (R.get c.store k ≡ some v)

    store_script-keeps :
        (j : IdempotencyKey) (u : Stored) (s : R.State)
        → R.get s k ≡ some v
        → R.get (store_script j u s).1 k ≡ some v
    unfolding store_script
    store_script-keeps j u s held = elim (Bool-cases (is_some (R.get s j))) [
      | inl there ↦ rw there held
      | inr free ↦
          let other : j ≢ k = λ same. cc (rw (same, held) at free) in
          rw free (R.get-set_ne s j k u other ∙ held)
    ]

    store-Has :
        (x : Write) (c : Conn R.State)
        → Has c
        → Has (store x.tenant x.endpoint x.key x.body x.response c).1
    unfolding store
    store-Has x c h = elim (Bool-cases (is_unset x.key)) [
      | inl unset ↦ rw unset h
      | inr set ↦ rw (store_state x.tenant x.endpoint x.key x.body x.response c set h.0) (
        h.0,
        store_script-keeps (x.tenant, x.endpoint, key_of x.key)
            (record_of (request_hash x.body) x.response) c.store h.1,
      )
    ]

    store_all-Has : (xs : List Write) (c : Conn R.State) → Has c → Has (store_all xs c)
    unfolding store_all
    store_all-Has [] c h = h
    store_all-Has (x ∷ xs) c h = store_all-Has xs _ (store-Has x c h)

  -- On a server that answers: what a request is given, after its key was free and a first response was stored under it: the
  -- first response if the body is the same, up to the hash, and a refusal if it is not, whatever was
  -- stored in between.
  pub replay_first :
      (tenant endpoint key : String) (body later response : Fields) (xs : List Write)
      (c : Conn R.State)
      → c.reachable ≡ true
      → (key == "") ≡ false
      → R.get c.store (tenant, endpoint, key) ≡ none
      → let c' = store_all xs (store tenant endpoint (some key) body response c).1 in
        (replay tenant endpoint (some key) later c').0 ≡ (
          if request_hash body == request_hash later
          then ok (some response)
          else err (validation_error "idempotency_key_reused"))
  unfolding replay store_script
  replay_first tenant endpoint key body later response xs c up set free =
      let k : IdempotencyKey = (tenant, endpoint, key) in
      let v : Stored = record_of (request_hash body) response in
      let first : Has k v (store tenant endpoint (some key) body response c).1 =
        rw (store_state tenant endpoint (some key) body response c set up)
          (up, rw (store_script, free) (R.get-set_self c.store k v)) in
      let (up', held) = store_all-Has k v xs _ first in rw (set, up', held) refl
