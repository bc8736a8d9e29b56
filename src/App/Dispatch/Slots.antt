-- ===== src/App/Dispatch/Slots.antt =====
-- The concurrency slots that a dispatch takes and gives back.
use mixapi.Shared.{
  ℕ, suc, ◌+◌, ◌-◌, ◌≡◌, ◌≢◌, refl, true, some, String, ◌==◌, eq_refl, test_ne, arith, ok,
  if◌then◌else◌, Bool-cases, inl, inr, ltb,
}
use mixapi.Shared.Int.{ℤ, pos}
use mixapi.Redis.{Redis, Conn, number, call}
use mixapi.Redis.Memory.{String-discrete}
use mixapi.Runtime.Quota.{
  QuotaKey, concurrency, reserve_concurrency, release_concurrency, reserve_connection_requests,
  reserve_slot_script, release_concurrency_script,
}
use mixapi.Runtime.Quota.Counters.{acquire_lem, free_lem}

-- One slot more, or one less, for one connection.
abbrev pub bump : String → (String → ℕ) → String → ℕ
bump connection f x = if connection == x then f x + 1 else f x

abbrev pub lower : String → (String → ℕ) → String → ℕ
lower connection f x = if connection == x then f x - 1 else f x

module _ (R : Redis QuotaKey ℤ) where
  -- The server answers, and its counters say how many slots of each connection are taken.
  pub record Taken (f : String → ℕ) (c : Conn R.State) : Type 0 where
    pub up : c.reachable ≡ true
    pub count_is : (x : String) → number R c.store (concurrency x) ≡ pos (f x)

  reserve_other :
      (connection x : String) (limit : ℤ) (c : Conn R.State)
      → connection ≢ x
      → number R (reserve_concurrency R connection (some limit) c).1.store (concurrency x)
        ≡ number R c.store (concurrency x)
  unfolding reserve_concurrency reserve_slot_script call
  reserve_other connection x limit c ne = grind (arith, R.get-set_ne)

  release_other :
      (connection x : String) (c : Conn R.State)
      → connection ≢ x
      → number R (release_concurrency R connection c).1.store (concurrency x)
        ≡ number R c.store (concurrency x)
  unfolding release_concurrency release_concurrency_script call
  release_other connection x c ne = elim (Bool-cases c.reachable) [
    | inl up ↦ rw (release_concurrency, up) (grind (arith, R.get-set_ne))
    | inr down ↦ rw (release_concurrency, down) refl
  ]

  requests_other :
      (connection x : String) (limit : ℤ) (c : Conn R.State)
      → number R (reserve_connection_requests R connection (some limit) c).1.store (concurrency x)
        ≡ number R c.store (concurrency x)
  unfolding reserve_connection_requests reserve_slot_script call
  requests_other connection x limit c = grind (arith, R.get-set_ne)

  requests_up :
      (connection : String) (limit : ℤ) (c : Conn R.State)
      → c.reachable ≡ true
      → (reserve_connection_requests R connection (some limit) c).1.reachable ≡ true
  unfolding reserve_connection_requests call
  requests_up connection limit c up = ground arith

  -- A call for the request quota of a connection takes no slot.
  pub requests-Taken :
      (connection : String) (limit : ℤ) (f : String → ℕ) (c : Conn R.State)
      → Taken f c
      → Taken f (reserve_connection_requests R connection (some limit) c).1
  requests-Taken connection limit f c t = record {
    up = requests_up connection limit c t.up;
    count_is = λ x. rw (requests_other connection x limit c) (t.count_is x);
  }

  -- A granted slot is counted, a refused one is not.
  pub reserve-Taken :
      (connection : String) (n : ℕ) (f : String → ℕ) (c : Conn R.State)
      → Taken f c
      → let granted = ltb (f connection) (suc n) in
        let (r, c') = reserve_concurrency R connection (some (pos (suc n))) c in
        (r ≡ ok granted) × Taken (if granted then bump connection f else f) c'
  reserve-Taken connection n f c t =
      let (answer, up', count') =
        acquire_lem R connection (suc n) (omega arith) c (f connection) t.up
          (t.count_is connection) in
      (
        answer,
        record {
          up = up';
          count_is = λ x. elim (String-discrete connection x) [
            | yes same ↦ rw (← same) (rw count' (ground (arith, eq_refl connection)))
            | no other ↦
                rw (reserve_other connection x (pos (suc n)) c other, t.count_is x)
                  (ground (arith, test_ne connection x other))
          ];
        },
      )

  pub release_answer :
      (connection : String) (c : Conn R.State)
      → c.reachable ≡ true
      → (release_concurrency R connection c).0 ≡ ok tt
  unfolding release_concurrency call
  release_answer connection c up = rw (release_concurrency, up) refl

  pub release-Taken :
      (connection : String) (f : String → ℕ) (c : Conn R.State)
      → Taken f c
      → Taken (lower connection f) (release_concurrency R connection c).1
  release-Taken connection f c t =
      let (up', count') =
        free_lem R connection 1 (omega arith) c (f connection) t.up (t.count_is connection) in
      record {
        up = up';
        count_is = λ x. elim (String-discrete connection x) [
          | yes same ↦ rw (← same) (rw count' (ground (arith, eq_refl connection)))
          | no other ↦
              rw (release_other connection x c other, t.count_is x)
                (ground (arith, test_ne connection x other))
        ];
      }
