-- ===== src/Runtime/Quota/Tokens.antt =====
-- The token scripts of mixapi/runtime/quota.py against the abstract account: the stored `reserved`
-- counter is the sum of the open reservations, whatever the calls and their order.
use mixapi.Shared.{
  ◌≡◌, ◌≢◌, refl, none, some, ◌∷◌, String, arith, eq_iff, Option-cases, Bool-cases, inl, inr,
}
use mixapi.Shared.Int.{ℤ, pos, ◌+ℤ◌, ltb_ℤ, int_laws, +ℤ_zero}
use mixapi.Redis.{Redis, number, incr_by, decr_by}
use mixapi.Redis.Memory.{String-discrete}
use mixapi.Runtime.Holds.{
  Account, find, drop, total, open_hold, close_hold, IsDistinct, find-drop_ne, find-drop_self,
  drop-IsDistinct, total-drop,
}
use mixapi.Runtime.Quota.{
  QuotaKey, actual, reserved, reservation, reserve_tokens_script, reconcile_tokens_script,
  release_tokens_script,
}

module _ (R : Redis QuotaKey ℤ) where
  -- The keys of one API key hold this account.
  pub record Represents (k : String) (s : R.State) (l : Account) : Type 0 where
    pub actual_is : number R s (actual k) ≡ l.actual
    pub reserved_is : number R s (reserved k) ≡ total l.holds
    pub hold_is : (r : String) → R.get s (reservation k r) ≡ find r l.holds
    pub distinct : IsDistinct l.holds

  accept-Represents :
      (k r : String) (amount : ℤ) (s : R.State) (l : Account)
      → Represents k s l
      → find r l.holds ≡ none
      → Represents k
          (incr_by R (R.set s (reservation k r) amount) (reserved k) amount)
          (record l { holds = (r, amount) ∷ l.holds })
  unfolding find total
  accept-Represents k r amount s l rep fresh = record {
    actual_is = grind (int_laws, R.get-set_ne, rep.actual_is);
    reserved_is = grind (int_laws, R.get-set_ne, R.get-set_self, rep.reserved_is);
    hold_is = λ q. grind (arith, R.get-set_ne, R.get-set_self, rep.hold_is q, eq_iff r q);
    distinct = (fresh, rep.distinct);
  }

  drop-Represents :
      (k r : String) (amount : ℤ) (s : R.State) (l : Account)
      → Represents k s l
      → find r l.holds ≡ some amount
      → Represents k
          (decr_by R (R.delete s (reservation k r)) (reserved k) amount)
          (record l { holds = drop r l.holds })
  drop-Represents k r amount s l rep held = record {
    actual_is = grind (int_laws, R.get-set_ne, R.get-delete_ne, rep.actual_is);
    reserved_is =
        grind
          (int_laws, R.get-set_self, R.get-delete_ne, rep.reserved_is, total-drop r l.holds held);
    hold_is = λ q. elim (String-discrete r q) [
      | yes same ↦
          rw (← same)
            (grind (arith, R.get-set_ne, R.get-delete_self, find-drop_self r l.holds rep.distinct))
      | no other ↦
          grind
            (arith, R.get-set_ne, R.get-delete_ne, rep.hold_is q, find-drop_ne r q l.holds other)
    ];
    distinct = drop-IsDistinct r l.holds rep.distinct;
  }

  settle-Represents :
      (k : String) (used : ℤ) (s : R.State) (l : Account)
      → Represents k s l
      → Represents k (incr_by R s (actual k) used) (record l { actual = l.actual +ℤ used })
  settle-Represents k used s l rep = record {
    actual_is = grind (int_laws, R.get-set_self, rep.actual_is);
    reserved_is = grind (int_laws, R.get-set_ne, rep.reserved_is);
    hold_is = λ q. grind (arith, R.get-set_ne, rep.hold_is q);
    distinct = rep.distinct;
  }

  -- Each script answers as the abstract operation does, and keeps the representation.
  pub reserve-Represents :
      (k r : String) (amount limit : ℤ) (s : R.State) (l : Account)
      → Represents k s l
      → find r l.holds ≡ none
      → let (done, s') =
          reserve_tokens_script R (actual k) (reserved k) (reservation k r) amount limit s in
        let (opened, l') = open_hold r amount limit l in (done ≡ opened) × Represents k s' l'
  unfolding reserve_tokens_script open_hold
  reserve-Represents k r amount limit s l rep fresh =
      elim (Bool-cases (ltb_ℤ limit (l.actual +ℤ total l.holds +ℤ amount))) [
        | inl over ↦ rw (rep.actual_is, rep.reserved_is, over) (refl, rep)
        | inr fits ↦
            rw (rep.actual_is, rep.reserved_is, fits)
              (refl, accept-Represents k r amount s l rep fresh)
      ]

  pub reconcile-Represents :
      (k r : String) (used : ℤ) (s : R.State) (l : Account)
      → Represents k s l
      → let (done, s') =
          reconcile_tokens_script R (actual k) (reserved k) (reservation k r) used s in
        let (closed, l') = close_hold r used l in (done ≡ closed) × Represents k s' l'
  unfolding reconcile_tokens_script close_hold
  reconcile-Represents k r used s l rep = elim (Option-cases (find r l.holds)) [
    | inl gone ↦ rw (rep.hold_is r, reconcile_tokens_script, gone, close_hold) (refl, rep)
    | inr (a, held) ↦
        rw (rep.hold_is r, reconcile_tokens_script, held, close_hold)
          (refl, settle-Represents k used _ _ (drop-Represents k r a s l rep held))
  ]

  pub release-Represents :
      (k r : String) (s : R.State) (l : Account)
      → Represents k s l
      → let (done, s') = release_tokens_script R (reserved k) (reservation k r) s in
        let (closed, l') = close_hold r (pos 0) l in (done ≡ closed) × Represents k s' l'
  unfolding release_tokens_script close_hold
  release-Represents k r s l rep = elim (Option-cases (find r l.holds)) [
    | inl gone ↦ rw (rep.hold_is r, release_tokens_script, gone, close_hold) (refl, rep)
    | inr (a, held) ↦
        rw (rep.hold_is r, release_tokens_script, held, close_hold, +ℤ_zero)
          (refl, drop-Represents k r a s l rep held)
  ]

  -- The scripts of one API key leave the account of another alone.
  module _ {j k : String} (other : j ≢ k) where
    Represents-other :
        (s s' : R.State) (l : Account)
        → R.get s' (actual k) ≡ R.get s (actual k)
        → R.get s' (reserved k) ≡ R.get s (reserved k)
        → ((r : String) → R.get s' (reservation k r) ≡ R.get s (reservation k r))
        → Represents k s l
        → Represents k s' l
    Represents-other s s' l a b c rep = record {
      actual_is = rw a rep.actual_is;
      reserved_is = rw b rep.reserved_is;
      hold_is = λ r. rw (c r) (rep.hold_is r);
      distinct = rep.distinct;
    }

    pub reserve-Represents_other :
        (r : String) (amount limit : ℤ) (s : R.State) (l : Account)
        → Represents k s l
        → Represents k
            (reserve_tokens_script R (actual j) (reserved j) (reservation j r) amount limit s).1
            l
    unfolding reserve_tokens_script
    reserve-Represents_other r amount limit s l =
        Represents-other s _ l (grind (arith, R.get-set_ne)) (grind (arith, R.get-set_ne))
          (λ q. grind (arith, R.get-set_ne))

    pub reconcile-Represents_other :
        (r : String) (used : ℤ) (s : R.State) (l : Account)
        → Represents k s l
        → Represents k
            (reconcile_tokens_script R (actual j) (reserved j) (reservation j r) used s).1
            l
    unfolding reconcile_tokens_script
    reconcile-Represents_other r used s l =
        Represents-other s _ l (grind (arith, R.get-set_ne, R.get-delete_ne))
          (grind (arith, R.get-set_ne, R.get-delete_ne))
          (λ q. grind (arith, R.get-set_ne, R.get-delete_ne))

    pub release-Represents_other :
        (r : String) (s : R.State) (l : Account)
        → Represents k s l
        → Represents k (release_tokens_script R (reserved j) (reservation j r) s).1 l
    unfolding release_tokens_script
    release-Represents_other r s l =
        Represents-other s _ l (grind (arith, R.get-set_ne, R.get-delete_ne))
          (grind (arith, R.get-set_ne, R.get-delete_ne))
          (λ q. grind (arith, R.get-set_ne, R.get-delete_ne))
