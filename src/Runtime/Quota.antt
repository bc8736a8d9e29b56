-- ===== src/Runtime/Quota.antt =====
-- mixapi/quota.py and mixapi/runtime/quota.py: token, request, concurrency and connection quotas.
-- Each Lua script is a function on the store, called through the connection.
pub mod Tokens
pub mod Runs
pub mod Counters
pub mod Apart
use mixapi.Shared.{
  Bool, true, false, not, Option, none, some, String, ok, err, or_else, is_some, ◌&&◌, ◌||◌,
  if◌then◌else◌,
}
use mixapi.Shared.Int.{ℤ, pos, ◌+ℤ◌, ltb_ℤ, leb_ℤ}
use mixapi.Errors.{quota_exceeded}
use mixapi.Exec.{Exec, pure, raise_if, ◌>>=◌, ◌>>◌}
use mixapi.Redis.{Redis, Conn, number, incr_by, decr_by, call}

-- `_request_key`, `_token_keys`, `_concurrency_key`, `_connection_request_key`.
pub data QuotaKey : Type 0 where
  request actual reserved concurrency connection_requests : String → QuotaKey
  reservation : String → String → QuotaKey

pub record TokenReservation : Type 0 where
  pub api_key_id : String
  pub amount_tokens : ℤ
  pub reservation_id : String

pub record Limits : Type 0 where
  pub request_limit : Option ℤ
  pub token_limit : Option ℤ

module _ (R : Redis QuotaKey ℤ) where
  -- `_RESERVE_REQUEST`
  unfoldable pub reserve_request_script : QuotaKey → ℤ → R.State → Bool × R.State
  reserve_request_script k limit s =
      if leb_ℤ limit (number R s k) then (false, s) else (true, incr_by R s k (pos 1))

  -- `_RESERVE_TOKENS`
  unfoldable pub reserve_tokens_script :
      QuotaKey → QuotaKey → QuotaKey → ℤ → ℤ → R.State → Bool × R.State
  reserve_tokens_script k_actual k_reserved k_hold amount limit s =
      if ltb_ℤ limit (number R s k_actual +ℤ number R s k_reserved +ℤ amount)
      then (false, s)
      else (true, incr_by R (R.set s k_hold amount) k_reserved amount)

  -- `_RECONCILE_TOKENS`
  unfoldable pub reconcile_tokens_script :
      QuotaKey → QuotaKey → QuotaKey → ℤ → R.State → Bool × R.State
  reconcile_tokens_script k_actual k_reserved k_hold used s = elim (R.get s k_hold) [
    | none ↦ (false, s)
    | some amount ↦
        (true, incr_by R (decr_by R (R.delete s k_hold) k_reserved amount) k_actual used)
  ]

  -- `_RELEASE_TOKENS`
  unfoldable pub release_tokens_script : QuotaKey → QuotaKey → R.State → Bool × R.State
  release_tokens_script k_reserved k_hold s = elim (R.get s k_hold) [
    | none ↦ (false, s)
    | some amount ↦ (true, decr_by R (R.delete s k_hold) k_reserved amount)
  ]

  -- `_RESERVE_CONCURRENCY` and `_RESERVE_CONNECTION_REQUESTS`, which differ in how long the key is
  -- kept after its last use.
  unfoldable pub reserve_slot_script : QuotaKey → ℤ → R.State → Bool × R.State
  reserve_slot_script k limit s =
      if ltb_ℤ (pos 0) limit && leb_ℤ limit (number R s k)
      then (false, s)
      else (true, incr_by R s k (pos 1))

  -- `_RELEASE_CONCURRENCY`
  unfoldable pub release_concurrency_script : QuotaKey → R.State → Bool × R.State
  release_concurrency_script k s =
      (true, if ltb_ℤ (pos 0) (number R s k) then decr_by R s k (pos 1) else s)

  module _ (limits : Limits) where
    unfoldable pub reserve_request : String → Exec (Conn R.State) (Unit {0})
    unfolding call
    reserve_request api_key_id = elim limits.request_limit [
      | none ↦ pure tt
      | some limit ↦ do
        accepted ← call (reserve_request_script (request api_key_id) limit)
        raise_if (not accepted) (quota_exceeded "request_quota_exceeded")
    ]

    -- `uuid` is the `uuid4().hex` that the call draws.
    unfoldable pub reserve_tokens : String → ℤ → String → Exec (Conn R.State) TokenReservation
    unfolding call
    reserve_tokens api_key_id estimated uuid =
        let hold : TokenReservation = record {
          api_key_id = api_key_id;
          amount_tokens = estimated;
          reservation_id = uuid;
        } in
        elim limits.token_limit [
          | none ↦ pure hold
          | some limit ↦ do
            accepted ← call (
                reserve_tokens_script (actual api_key_id) (reserved api_key_id)
                  (reservation api_key_id uuid) estimated limit)
            raise_if (not accepted) (quota_exceeded "token_quota_exceeded")
            pure hold
        ]

    unfoldable pub reconcile_tokens : TokenReservation → ℤ → Exec (Conn R.State) (Unit {0})
    unfolding call
    reconcile_tokens h used =
        if is_some limits.token_limit
        then (do
          call (
              reconcile_tokens_script (actual h.api_key_id) (reserved h.api_key_id)
                (reservation h.api_key_id h.reservation_id) used)
          pure tt)
        else pure tt

    unfoldable pub release_tokens : TokenReservation → Exec (Conn R.State) (Unit {0})
    unfolding call
    release_tokens h =
        if is_some limits.token_limit
        then (do
          call (
              release_tokens_script (reserved h.api_key_id)
                (reservation h.api_key_id h.reservation_id))
          pure tt)
        else pure tt

  -- A connection without a limit, or with one below 1, is not counted.
  unfoldable pub reserve_concurrency : String → Option ℤ → Exec (Conn R.State) Bool
  unfolding call
  reserve_concurrency connection limit c =
      let bound = or_else limit (pos 0) in
      if leb_ℤ bound (pos 0)
      then (ok true, c)
      else call (reserve_slot_script (concurrency connection) bound) c

  unfoldable pub release_concurrency : String → Exec (Conn R.State) (Unit {0})
  unfolding call
  release_concurrency connection = do
    call (release_concurrency_script (concurrency connection))
    pure tt

  unfoldable pub reserve_connection_requests : String → Option ℤ → Exec (Conn R.State) Bool
  unfolding call
  reserve_connection_requests connection limit c =
      let bound = or_else limit (pos 0) in
      if leb_ℤ bound (pos 0)
      then (ok true, c)
      else call (reserve_slot_script (connection_requests connection) bound) c
