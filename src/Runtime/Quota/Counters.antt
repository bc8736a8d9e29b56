-- ===== src/Runtime/Quota/Counters.antt =====
-- The request and slot counters of mixapi/runtime/quota.py.
use Prim.Native.Nat.{min}
use mixapi.Shared.{
  ap, ℕ, zero, suc, ◌+◌, ◌-◌, ◌≤◌, ◌<◌, ◌≡◌, refl, true, false, some, List, [], ◌∷◌, String, arith,
  ok, err, Result, ltb, if◌then◌else◌,
}
use mixapi.Shared.Int.{ℤ, pos, ◌+ℤ◌, ◌-ℤ◌, leb_ℤ}
use mixapi.Errors.{MixApiError, quota_exceeded}
use mixapi.Redis.{Redis, Conn, number}
use mixapi.Runtime.Quota.{
  QuotaKey, request, concurrency, Limits, reserve_request, reserve_request_script,
  reserve_concurrency, release_concurrency, reserve_slot_script, release_concurrency_script,
}

-- Whether a call was granted.
abbrev pub granted : Result MixApiError (Unit {0}) → ℕ
granted (ok _) = 1
granted (err _) = 0

-- What happens to the slots of one connection.
pub data SlotEvent : Type 0 where
  acquire free : SlotEvent

-- The slots that are taken: never below 0, never above the limit.
unfoldable pub slot_spec : ℕ → List SlotEvent → ℕ → ℕ
slot_spec limit [] n = n
slot_spec limit (acquire ∷ es) n = slot_spec limit es (if ltb n limit then n + 1 else n)
slot_spec limit (free ∷ es) n = slot_spec limit es (n - 1)

slot_spec_bound :
    (limit : ℕ) (es : List SlotEvent) (n : ℕ) → n ≤ limit → slot_spec limit es n ≤ limit
unfolding slot_spec
slot_spec_bound limit [] n h = h
slot_spec_bound limit (acquire ∷ es) n h = slot_spec_bound limit es _ (ground arith)
slot_spec_bound limit (free ∷ es) n h = slot_spec_bound limit es _ (omega arith)

module _ (R : Redis QuotaKey ℤ) where
  -- The calls behind the events, by one connection whose limit is `limit`.
  unfoldable pub slot_run : String → ℕ → List SlotEvent → Conn R.State → Conn R.State
  slot_run connection limit [] c = c
  slot_run connection limit (acquire ∷ es) c =
      slot_run connection limit es (reserve_concurrency R connection (some (pos limit)) c).1
  slot_run connection limit (free ∷ es) c =
      slot_run connection limit es (release_concurrency R connection c).1

  acquire_script :
      (k : QuotaKey) (limit n : ℕ) (s : R.State)
      → 0 < limit
      → number R s k ≡ pos n
      → ((reserve_slot_script R k (pos limit) s).0 ≡ ltb n limit)
        × (number R (reserve_slot_script R k (pos limit) s).1 k
            ≡ pos (if ltb n limit then n + 1 else n))
  unfolding reserve_slot_script ◌+ℤ◌
  acquire_script k limit n s positive e = ground (arith, R.get-set_self s k (number R s k +ℤ pos 1))

  free_script :
      (k : QuotaKey) (n : ℕ) (s : R.State)
      → number R s k ≡ pos n
      → number R (release_concurrency_script R k s).1 k ≡ pos (n - 1)
  unfolding release_concurrency_script ◌-ℤ◌
  free_script k n s e = ground (arith, R.get-set_self s k (number R s k -ℤ pos 1))

  module _ (connection : String) (limit : ℕ) (positive : 0 < limit) where
    pub acquire_lem :
        (c : Conn R.State) (n : ℕ)
        → c.reachable ≡ true
        → number R c.store (concurrency connection) ≡ pos n
        → let (r, c') = reserve_concurrency R connection (some (pos limit)) c in
          (r ≡ ok (ltb n limit))
          × (c'.reachable ≡ true)
          × (number R c'.store (concurrency connection) ≡ pos (if ltb n limit then n + 1 else n))
    unfolding reserve_concurrency
    acquire_lem c n up e =
        let counted : leb_ℤ (pos limit) (pos 0) ≡ false = ground arith in
        let (granted, after) = acquire_script (concurrency connection) limit n c.store positive e in
        rw (counted, up) (ap ok granted, refl, after)

    pub free_lem :
        (c : Conn R.State) (n : ℕ)
        → c.reachable ≡ true
        → number R c.store (concurrency connection) ≡ pos n
        → let (r, c') = release_concurrency R connection c in
          (c'.reachable ≡ true) × (number R c'.store (concurrency connection) ≡ pos (n - 1))
    unfolding release_concurrency
    free_lem c n up e =
        rw (release_concurrency, up) (refl, free_script (concurrency connection) n c.store e)

    -- On a server that answers, for a positive limit and a counter that starts within it: whatever
    -- the order of the calls, the counter of a connection is the number of slots that are
    -- taken, which is at most the limit.
    pub slot_run_bounded :
        (es : List SlotEvent) (c : Conn R.State) (n : ℕ)
        → c.reachable ≡ true
        → number R c.store (concurrency connection) ≡ pos n
        → n ≤ limit
        → (number R (slot_run connection limit es c).store (concurrency connection)
            ≡ pos (slot_spec limit es n))
          × (slot_spec limit es n ≤ limit)
    unfolding slot_run slot_spec
    slot_run_bounded [] c n up e h = (e, h)
    slot_run_bounded (acquire ∷ es) c n up e h =
        let (_, up', e') = acquire_lem c n up e in slot_run_bounded es _ _ up' e' (ground arith)
    slot_run_bounded (free ∷ es) c n up e h =
        let (up', e') = free_lem c n up e in slot_run_bounded es _ _ up' e' (omega arith)

  -- `times` calls of `reserve_request` for one API key: how many of them were granted.
  unfoldable pub request_run : Limits → String → ℕ → Conn R.State → ℕ
  request_run limits k zero c = 0
  request_run limits k (suc times) c =
      let (r, c') = reserve_request R limits k c in granted r + request_run limits k times c'

  reserve_request_lem :
      (limits : Limits) (k : String) (limit n : ℕ) (c : Conn R.State)
      → limits.request_limit ≡ some (pos limit)
      → c.reachable ≡ true
      → number R c.store (request k) ≡ pos n
      → let (r, c') = reserve_request R limits k c in
        (r ≡ (if ltb n limit then ok tt else err (quota_exceeded "request_quota_exceeded")))
        × (c'.reachable ≡ true)
        × (number R c'.store (request k) ≡ pos (if ltb n limit then n + 1 else n))
  unfolding reserve_request reserve_request_script ◌+ℤ◌
  reserve_request_lem limits k limit n c limited up e =
      rw (limited, reserve_request, up, e)
        (ground (arith, R.get-set_self c.store (request k) (number R c.store (request k) +ℤ pos 1)))

  -- On a server that answers, under a limit: however often an API key asks, it is granted as many requests as its limit has left, and every
  -- further call is refused.
  pub request_run_exact :
      (limits : Limits) (k : String) (limit n times : ℕ) (c : Conn R.State)
      → limits.request_limit ≡ some (pos limit)
      → c.reachable ≡ true
      → number R c.store (request k) ≡ pos n
      → request_run limits k times c ≡ min times (limit - n)
  unfolding request_run
  request_run_exact limits k limit n zero c limited up e = omega arith
  request_run_exact limits k limit n (suc times) c limited up e =
      let (answer, up', e') = reserve_request_lem limits k limit n c limited up e in
      let rest =
        request_run_exact limits k limit (if ltb n limit then n + 1 else n) times
          (reserve_request R limits k c).1 limited up' e' in
      rw (answer, rest) (ground arith)
