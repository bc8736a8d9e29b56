-- ===== src/Runtime/Quota/Apart.antt =====
-- The calls of mixapi/runtime/quota.py about connections leave the account of an API key alone.
use mixapi.Shared.{◌≡◌, refl, true, Option, String, arith, Bool-cases, inl, inr, or_else, ◌&&◌}
use mixapi.Shared.Int.{ℤ, pos, leb_ℤ, ltb_ℤ}
use mixapi.Redis.{Redis, Conn, number}
use mixapi.Runtime.Holds.{Account}
use mixapi.Runtime.Quota.{
  QuotaKey, concurrency, connection_requests, reserve_slot_script, release_concurrency_script,
  reserve_concurrency, release_concurrency, reserve_connection_requests,
}
use mixapi.Runtime.Quota.Tokens.{Represents}

module _ (R : Redis QuotaKey ℤ) (k : String) (l : Account) where
  slot-Represents :
      (connection : String) (v : ℤ) (s : R.State)
      → Represents R k s l
      → Represents R k (R.set s (concurrency connection) v) l
  slot-Represents connection v s rep = record {
    actual_is = grind (arith, R.get-set_ne, rep.actual_is);
    reserved_is = grind (arith, R.get-set_ne, rep.reserved_is);
    hold_is = λ r. grind (arith, R.get-set_ne, rep.hold_is r);
    distinct = rep.distinct;
  }

  requests-Represents :
      (connection : String) (v : ℤ) (s : R.State)
      → Represents R k s l
      → Represents R k (R.set s (connection_requests connection) v) l
  requests-Represents connection v s rep = record {
    actual_is = grind (arith, R.get-set_ne, rep.actual_is);
    reserved_is = grind (arith, R.get-set_ne, rep.reserved_is);
    hold_is = λ r. grind (arith, R.get-set_ne, rep.hold_is r);
    distinct = rep.distinct;
  }

  -- The server answers, and the keys of the API key hold the account.
  abbrev pub Kept : Conn R.State → Type 0
  Kept c = (c.reachable ≡ true) × Represents R k c.store l

  pub reserve_concurrency-Kept :
      (connection : String) (limit : Option ℤ) (c : Conn R.State)
      → Kept c
      → Kept (reserve_concurrency R connection limit c).1
  unfolding reserve_concurrency reserve_slot_script
  reserve_concurrency-Kept connection limit c (up, rep) =
      let bound = or_else limit (pos 0) in
      elim (Bool-cases (leb_ℤ bound (pos 0))) [
        | inl free ↦ rw (free, reserve_concurrency) (up, rep)
        | inr counted ↦
            elim (Bool-cases
              (ltb_ℤ (pos 0) bound && leb_ℤ bound (number R c.store (concurrency connection)))) [
                | inl full ↦ rw (counted, reserve_concurrency, up, full) (refl, rep)
                | inr room ↦
                    rw (counted, reserve_concurrency, up, room)
                      (refl, slot-Represents connection _ c.store rep)
              ]
      ]

  pub reserve_connection_requests-Kept :
      (connection : String) (limit : Option ℤ) (c : Conn R.State)
      → Kept c
      → Kept (reserve_connection_requests R connection limit c).1
  unfolding reserve_connection_requests reserve_slot_script
  reserve_connection_requests-Kept connection limit c (up, rep) =
      let bound = or_else limit (pos 0) in
      elim (Bool-cases (leb_ℤ bound (pos 0))) [
        | inl free ↦ rw (free, reserve_connection_requests) (up, rep)
        | inr counted ↦
            elim (Bool-cases (
              ltb_ℤ (pos 0) bound
              && leb_ℤ bound (number R c.store (connection_requests connection)))) [
                | inl full ↦ rw (counted, reserve_connection_requests, up, full) (refl, rep)
                | inr room ↦
                    rw (counted, reserve_connection_requests, up, room)
                      (refl, requests-Represents connection _ c.store rep)
              ]
      ]

  pub release_concurrency-Kept :
      (connection : String) (c : Conn R.State)
      → Kept c
      → Kept (release_concurrency R connection c).1
  unfolding release_concurrency release_concurrency_script
  release_concurrency-Kept connection c (up, rep) =
      elim (Bool-cases (ltb_ℤ (pos 0) (number R c.store (concurrency connection)))) [
        | inl taken ↦ rw (up, taken) (refl, slot-Represents connection _ c.store rep)
        | inr none_taken ↦ rw (up, none_taken) (refl, rep)
      ]
