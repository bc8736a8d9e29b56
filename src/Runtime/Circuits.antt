-- ===== src/Runtime/Circuits.antt =====
-- mixapi/circuits.py and mixapi/runtime/circuits.py: a circuit opens for a provider model after
-- repeated transient failures, and closes again after a timeout or a success.
pub mod Opening
use mixapi.Shared.{
  ℕ, suc, ◌+◌, ◌*◌, Bool, true, false, ◌||◌, ◌&&◌, Option, none, some, String, ◌==◌, starts_with,
  or_else, if◌then◌else◌, ltb, leb, Result, ok,
}
use mixapi.Shared.Int.{ℤ, pos, leb_ℤ}
use mixapi.Exec.{Exec, pure, ◌>>=◌, ◌>>◌}
use mixapi.Redis.{Redis, Conn, call}

-- `int(reason.removeprefix("upstream_http_"))`, where `none` is a `ValueError`, is a parameter.
module _ (status_of : String → Option ℤ) where
  unfoldable pub is_transient_failure : String → Bool
  is_transient_failure reason =
      reason == "configured_provider_failure"
      || reason == "upstream_timeout"
      || reason == "upstream_network_error"
      || reason == "upstream_http_429"
      || (starts_with reason "upstream_http_"
          && (elim (status_of reason) [ none ↦ false | some status ↦ leb_ℤ (pos 500) status ]))

-- `_key`, without the digest.
abbrev pub CircuitKey : Type 0
CircuitKey = String × String

-- The hash at a key, with the time at which Redis drops it.
pub record Circuit : Type 0 where
  pub failures : ℕ
  pub opened_ms : Option ℕ
  pub expires_ms : ℕ

-- `failure_threshold` and `recovery_timeout_ms`.
pub record Settings : Type 0 where
  pub failure_threshold : ℕ
  pub recovery_timeout_ms : ℕ

-- `max(self.recovery_timeout_ms * 2, 60_000)`
abbrev pub time_to_live : Settings → ℕ
time_to_live g = if ltb 60000 (g.recovery_timeout_ms * 2) then g.recovery_timeout_ms * 2 else 60000

-- The hash after one more failure: `HINCRBY`, `HSET` once the threshold is reached, and `PEXPIRE`.
unfoldable pub count_failure : ℕ → ℕ → ℕ → Option Circuit → Circuit
count_failure now threshold ttl none = record {
  failures = 1;
  opened_ms = if leb threshold 1 then some now else none;
  expires_ms = now + ttl;
}
count_failure now threshold ttl (some c) = record {
  failures = suc c.failures;
  opened_ms = if leb threshold (suc c.failures) then some now else c.opened_ms;
  expires_ms = now + ttl;
}

module _ (R : Redis CircuitKey Circuit) where
  -- The hash at a key that is not past its time.
  abbrev pub live : ℕ → CircuitKey → R.State → Option Circuit
  live now k s = elim (R.get s k) [
    | none ↦ none
    | some c ↦ if ltb now c.expires_ms then some c else none
  ]

  -- `_IS_OPEN`, at the server's time `now`.
  unfoldable pub is_open_script : ℕ → ℕ → CircuitKey → R.State → Bool × R.State
  is_open_script now timeout k s = elim (live now k s) [
    | none ↦ (false, s)
    | some c ↦ elim c.opened_ms [
      | none ↦ (false, s)
      | some opened ↦ if leb (opened + timeout) now then (false, R.delete s k) else (true, s)
    ]
  ]

  -- `_FAILURE`
  unfoldable pub failure_script : ℕ → ℕ → ℕ → CircuitKey → R.State → ℕ × R.State
  unfolding count_failure
  failure_script now threshold ttl k s =
      let c = count_failure now threshold ttl (live now k s) in (c.failures, R.set s k c)

  module _ (g : Settings) where
    unfoldable pub is_open : ℕ → CircuitKey → Exec (Conn R.State) Bool
    unfolding call
    is_open now k = call (is_open_script now g.recovery_timeout_ms k)

    unfoldable pub record_failure :
        (String → Option ℤ) → ℕ → CircuitKey → String → Exec (Conn R.State) (Unit {0})
    unfolding call is_transient_failure
    record_failure status_of now k reason =
        if is_transient_failure status_of reason
        then (do call (failure_script now g.failure_threshold (time_to_live g) k); pure tt)
        else pure tt

  unfoldable pub record_success : CircuitKey → Exec (Conn R.State) (Unit {0})
  unfolding call
  record_success k = call (λ s. (tt, R.delete s k))
