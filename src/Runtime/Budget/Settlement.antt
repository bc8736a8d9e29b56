-- ===== src/Runtime/Budget/Settlement.antt =====
-- A reservation is settled once, and leaves nothing behind.
use mixapi.Shared.{
  ◌≡◌, refl, ap, ◌∙◌, or_else, Bool, true, false, Option, none, some, String, arith, is_some,
  Bool-cases, inl, inr,
}
use mixapi.Shared.Int.{ℤ, pos, ◌+ℤ◌, ltb_ℤ, int_laws}
use mixapi.Redis.{Redis, number, incr_by, decr_by}
use mixapi.Runtime.Budget.{
  BudgetKey, actual, reserved, reservation, reconciled, set_if_missing, reserve_script, drop_hold,
  reconcile_script, release_script,
}

module _ (R : Redis BudgetKey ℤ) (k r : String) where
  abbrev reserve_at : ℤ → ℤ → ℤ → R.State → Bool × R.State
  reserve_at = reserve_script R (actual k) (reserved k) (reservation k r)

  abbrev reconcile_at : ℤ → R.State → Bool × R.State
  reconcile_at = reconcile_script R (actual k) (reserved k) (reservation k r) (reconciled k r)

  abbrev release_at : R.State → Bool × R.State
  release_at = release_script R (reserved k) (reservation k r)

  hold_dropped :
      (o : Option ℤ) (s : R.State)
      → R.get s (reservation k r) ≡ o
      → R.get (drop_hold R (reserved k) (reservation k r) o s) (reservation k r) ≡ none
  unfolding drop_hold
  hold_dropped none s held = held
  hold_dropped (some a) s held = R.get-delete_self _ (reservation k r)

  settled_refuses :
      (later v : ℤ) (s : R.State)
      → R.get s (reconciled k r) ≡ some v
      → reconcile_at later s ≡ (false, s)
  unfolding reconcile_script
  settled_refuses later v s done = rw (reconcile_script, done) refl

  gone_refuses : (s : R.State) → R.get s (reservation k r) ≡ none → release_at s ≡ (false, s)
  unfolding release_script drop_hold
  gone_refuses s gone = rw (release_script, gone) refl

  settled_state :
      (spent : ℤ) (s : R.State)
      → R.get s (reconciled k r) ≡ none
      → let s' = (reconcile_at spent s).1 in
        (R.get s' (reconciled k r) ≡ some (pos 1)) × (R.get s' (reservation k r) ≡ none)
  unfolding reconcile_script
  settled_state spent s free =
      let s1 = drop_hold R (reserved k) (reservation k r) (R.get s (reservation k r)) s in
      let dropped : R.get s1 (reservation k r) ≡ none =
        hold_dropped (R.get s (reservation k r)) s refl in
      rw (reconcile_script, free)
        (
          R.get-set_self (R.set s1 (actual k) spent) (reconciled k r) (pos 1),
          grind (arith, R.get-set_ne, dropped),
        )

  -- The state that a granted reservation leaves.
  abbrev held_state : ℤ → ℤ → R.State → R.State
  held_state spent amount s =
      incr_by R (R.set (set_if_missing R s (actual k) spent) (reservation k r) amount) (reserved k)
        amount

  granted_state :
      (spent amount limit : ℤ) (s : R.State)
      → (reserve_at spent amount limit s).0 ≡ true
      → (reserve_at spent amount limit s).1 ≡ held_state spent amount s
  unfolding reserve_script
  granted_state spent amount limit s granted =
      let s1 = set_if_missing R s (actual k) spent in
      elim (Bool-cases
        (ltb_ℤ limit (number R s1 (actual k) +ℤ number R s1 (reserved k) +ℤ amount))) [
          | inl over ↦ absurd (cc (rw (reserve_script, over) at granted))
          | inr fits ↦ rw (reserve_script, fits) refl
        ]

  held_and_dropped :
      (amount : ℤ) (s : R.State)
      → number R
          (R.delete
            (decr_by R
              (incr_by R (R.set s (reservation k r) amount) (reserved k) amount)
              (reserved k)
              amount)
            (reservation k r))
          (reserved k)
        ≡ number R s (reserved k)
  held_and_dropped amount s = grind (int_laws, R.get-delete_ne, R.get-set_self, R.get-set_ne)

  missing_other :
      (spent : ℤ) (s : R.State)
      → R.get (set_if_missing R s (actual k) spent) (reserved k) ≡ R.get s (reserved k)
  missing_other spent s = elim (Bool-cases (is_some (R.get s (actual k)))) [
    | inl there ↦ rw there refl
    | inr missing ↦ rw missing (grind (arith, R.get-set_ne))
  ]

  released_state :
      (a : ℤ) (s : R.State)
      → R.get s (reservation k r) ≡ some a
      → (release_at s).1 ≡ R.delete (decr_by R s (reserved k) a) (reservation k r)
  unfolding release_script drop_hold
  released_state a s held = rw (release_script, held) refl

  -- A reservation that was not settled before is settled by the first reconciliation: a second one,
  -- with whatever spend, and a release after it are refused and change nothing.
  pub reconcile_once :
      (spent later : ℤ) (s : R.State)
      → R.get s (reconciled k r) ≡ none
      → let s' =
          (reconcile_script R
            (actual k)
            (reserved k)
            (reservation k r)
            (reconciled k r)
            spent
            s).1 in
        (reconcile_script R (actual k) (reserved k) (reservation k r) (reconciled k r) later s'
          ≡ (false, s'))
        × (release_script R (reserved k) (reservation k r) s' ≡ (false, s'))
  reconcile_once spent later s free =
      let (done, gone) = settled_state spent s free in
      (
        settled_refuses later (pos 1) (reconcile_at spent s).1 done,
        gone_refuses (reconcile_at spent s).1 gone,
      )

  -- A reservation that is granted and then released leaves what is reserved for the key as it was.
  pub release-reserve :
      (spent amount limit : ℤ) (s : R.State)
      → (reserve_script R (actual k) (reserved k) (reservation k r) spent amount limit s).0 ≡ true
      → let s' =
          (release_script R
            (reserved k)
            (reservation k r)
            (reserve_script R
              (actual k)
              (reserved k)
              (reservation k r)
              spent
              amount
              limit
              s).1).1 in
        (number R s' (reserved k) ≡ number R s (reserved k)) × (R.get s' (reservation k r) ≡ none)
  release-reserve spent amount limit s granted =
      let s1 = set_if_missing R s (actual k) spent in
      let s2 = held_state spent amount s in
      let held : R.get s2 (reservation k r) ≡ some amount =
        grind (arith, R.get-set_ne, R.get-set_self) in
      rw (granted_state spent amount limit s granted, released_state amount s2 held)
        (
          held_and_dropped amount s1 ∙ ap (λ o. or_else o (pos 0)) (missing_other spent s),
          R.get-delete_self (decr_by R s2 (reserved k) amount) (reservation k r),
        )
