-- ===== src/Runtime/Budget/Holding.antt =====
-- How the calls of the budget service end, for one reservation of one API key.
use mixapi.Shared.{
  ◌||◌, refl, ◌≡◌, ap, ◌∙◌, Bool, true, false, Option, none, some, String, arith, or_else, is_some,
  if◌then◌else◌, Bool-cases, Option-cases, inl, inr,
}
use mixapi.Shared.Int.{ℤ, pos, ◌+ℤ◌, ltb_ℤ, int_laws, +ℤ_zero}
use mixapi.Money.{Decimal}
use mixapi.Exec.Ends.{Ends}
use mixapi.Redis.{Redis, Conn, number, incr_by, decr_by, call}
use mixapi.Runtime.Budget.{
  BudgetKey, BudgetReservation, actual, reserved, reservation, reconciled, set_if_missing,
  effective_budget_limit, reserve_script, drop_hold, reconcile_script, release_script, reserve,
  finish_redis_reconciliation, release,
}

module _ (R : Redis BudgetKey ℤ) (k uuid : String) (n : ℤ) where
  -- The state of the reservation: what it holds, beside the `n` that other reservations hold.
  pub record Holding (o : Option ℤ) (c : Conn R.State) : Type 0 where
    pub up : c.reachable ≡ true
    pub reserved_is : number R c.store (reserved k) ≡ n +ℤ or_else o (pos 0)
    pub hold_is : R.get c.store (reservation k uuid) ≡ o
    pub open_is : R.get c.store (reconciled k uuid) ≡ none

  -- The reservation is over, and nothing of it is reserved.
  pub record IsOver (c : Conn R.State) : Type 0 where
    pub up : c.reachable ≡ true
    pub reserved_is : number R c.store (reserved k) ≡ n
    pub hold_is : R.get c.store (reservation k uuid) ≡ none

  missing-Holding :
      (spent : ℤ) (o : Option ℤ) (c : Conn R.State)
      → Holding o c
      → Holding o (record c { store = set_if_missing R c.store (actual k) spent })
  missing-Holding spent o c h = elim (Bool-cases (is_some (R.get c.store (actual k)))) [
    | inl there ↦ rw there h
    | inr missing ↦ rw missing (record {
      up = h.up;
      reserved_is = grind (arith, R.get-set_ne, h.reserved_is);
      hold_is = grind (arith, R.get-set_ne, h.hold_is);
      open_is = grind (arith, R.get-set_ne, h.open_is);
    })
  ]

  held-Holding :
      (amount : ℤ) (c : Conn R.State)
      → Holding none c
      → Holding (some amount) (record c {
        store = incr_by R (R.set c.store (reservation k uuid) amount) (reserved k) amount;
      })
  held-Holding amount c h = record {
    up = h.up;
    reserved_is = grind (int_laws, R.get-set_ne, R.get-set_self, h.reserved_is);
    hold_is = grind (arith, R.get-set_ne, R.get-set_self);
    open_is = grind (arith, R.get-set_ne, h.open_is);
  }

  dropped-Holding :
      (amount : ℤ) (c : Conn R.State)
      → Holding (some amount) c
      → Holding none (record c {
        store = R.delete (decr_by R c.store (reserved k) amount) (reservation k uuid);
      })
  dropped-Holding amount c h = record {
    up = h.up;
    reserved_is = grind (int_laws, R.get-delete_ne, R.get-set_self, h.reserved_is);
    hold_is = R.get-delete_self (decr_by R c.store (reserved k) amount) (reservation k uuid);
    open_is = grind (arith, R.get-delete_ne, R.get-set_ne, h.open_is);
  }

  drop_hold-Holding :
      (o : Option ℤ) (c : Conn R.State)
      → Holding o c
      → Holding none (record c { store = drop_hold R (reserved k) (reservation k uuid) o c.store })
  unfolding drop_hold
  drop_hold-Holding none c h = h
  drop_hold-Holding (some amount) c h = dropped-Holding amount c h

  settled-IsOver :
      (spent : ℤ) (c : Conn R.State)
      → Holding none c
      → IsOver
          (record c { store = R.set (R.set c.store (actual k) spent) (reconciled k uuid) (pos 1) })
  settled-IsOver spent c h = record {
    up = h.up;
    reserved_is = grind (int_laws, R.get-set_ne, h.reserved_is);
    hold_is = grind (arith, R.get-set_ne, h.hold_is);
  }

  Holding-IsOver : (c : Conn R.State) → Holding none c → IsOver c
  Holding-IsOver c h = record {
    up = h.up;
    reserved_is = h.reserved_is ∙ +ℤ_zero n;
    hold_is = h.hold_is;
  }

  module _ (amount : Decimal) where
    -- The reservation of the call, and its state by whether it is tracked.
    abbrev pub hold_of : Bool → BudgetReservation
    hold_of tracked = record {
      api_key_id = k;
      amount_usd = amount;
      tracked = tracked;
      reservation_id = uuid;
    }

    abbrev pub IsHeld : BudgetReservation → Conn R.State → Type 0
    IsHeld h c =
        (tracked : Bool) × (h ≡ hold_of tracked) × Holding (if tracked then some amount else none) c

    -- The same, for a reservation of which it is known whether it is tracked.
    abbrev pub IsHeldAs : Bool → BudgetReservation → Conn R.State → Type 0
    IsHeldAs tracked h c = (h ≡ hold_of tracked) × IsHeld h c

    limit-tracked :
        (limit_usd key_limit : Option Decimal)
        → is_some (effective_budget_limit limit_usd key_limit)
          ≡ is_some limit_usd || is_some key_limit
    unfolding effective_budget_limit
    limit-tracked none none = refl
    limit-tracked none (some b) = refl
    limit-tracked (some a) none = refl
    limit-tracked (some a) (some b) = refl

    -- A reservation that is made is held, and tracked if the service or the key has a limit; one that is
    -- refused leaves nothing.
    pub reserve-Ends :
        (limit_usd key_limit : Option Decimal) (spent : ℤ) (c : Conn R.State)
        → Holding none c
        → Ends
            (IsHeldAs (is_some limit_usd || is_some key_limit))
            (λ _. Holding none)
            (reserve R limit_usd k amount key_limit spent uuid c)
    unfolding reserve reserve_script call
    reserve-Ends limit_usd key_limit spent c h =
        elim (Option-cases (effective_budget_limit limit_usd key_limit)) [
          | inl unlimited ↦
              let same = ap (λ o. hold_of (is_some o)) unlimited in
              rw (← limit-tracked limit_usd key_limit)
                (rw (unlimited, Ends, reserve) (refl, (false, same, h)))
          | inr (bound, limited) ↦
              let s1 = set_if_missing R c.store (actual k) spent in
              let c1 = missing-Holding spent none c h in
              elim (Bool-cases
                (ltb_ℤ bound (number R s1 (actual k) +ℤ number R s1 (reserved k) +ℤ amount))) [
                  | inl over ↦ rw (limited, Ends, reserve, h.up, over) (rw h.up at c1)
                  | inr fits ↦
                      let same = ap (λ o. hold_of (is_some o)) limited in
                      rw (← limit-tracked limit_usd key_limit) (
                        rw (limited, Ends, reserve, h.up, fits)
                          (
                            refl,
                            (
                              true,
                              same,
                              rw h.up at (held-Holding amount (record c { store = s1 }) c1),
                            ),
                          ))
                ]
        ]

    pub release-Ends :
        (r : BudgetReservation) (c : Conn R.State)
        → IsHeld r c
        → Ends (λ _. Holding none) (λ _ _. ⊥) (release R r c)
    unfolding release release_script call
    release-Ends r c (true, same, h) =
        rw (same, h.up, h.hold_is) (rw h.up at (dropped-Holding amount c h))
    release-Ends r c (false, same, h) = rw same h

    pub finish-Ends :
        (r : BudgetReservation) (spent : ℤ) (c : Conn R.State)
        → IsHeld r c
        → Ends (λ _. IsOver) (λ _ _. ⊥) (finish_redis_reconciliation R r spent c)
    unfolding finish_redis_reconciliation reconcile_script call
    finish-Ends r spent c (true, same, h) =
        let dropped = decr_by R c.store (reserved k) amount in
        rw (same, h.up, h.open_is, h.hold_is)
          (rw h.up at (
            settled-IsOver spent (record c { store = R.delete dropped (reservation k uuid) })
              (dropped-Holding amount c h)))
    finish-Ends r spent c (false, same, h) = rw same (Holding-IsOver c h)
