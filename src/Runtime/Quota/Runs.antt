-- ===== src/Runtime/Quota/Runs.antt =====
-- Runs of the token methods of mixapi/runtime/quota.py, for many API keys, over one store.
use mixapi.Shared.{
  ◌≡◌, refl, true, none, some, List, [], ◌∷◌, String, arith, ◌==◌, Bool-cases, ok, err, eq_refl,
  test_ne, if◌then◌else◌, inl, inr,
}
use mixapi.Shared.Int.{ℤ, pos, ◌+ℤ◌, ◌≤ℤ◌, leb_ℤ}
use mixapi.Errors.{quota_exceeded}
use mixapi.Redis.{Redis, Conn, number}
use mixapi.Redis.Memory.{String-discrete}
use mixapi.Runtime.Holds.{
  Account, find, total, open_hold, close_hold, IsWithin, open_hold-IsWithin, close_hold-IsWithin,
  close_hold-IsWithin_unused,
}
use mixapi.Runtime.Quota.{
  QuotaKey, actual, reserved, reservation, reserve_tokens_script, reconcile_tokens_script,
  release_tokens_script, TokenReservation, Limits, reserve_tokens, reconcile_tokens, release_tokens,
}
use mixapi.Runtime.Quota.Tokens.{
  Represents, reserve-Represents, reconcile-Represents, release-Represents,
  reserve-Represents_other, reconcile-Represents_other, release-Represents_other,
}

-- A call of one of the three methods.
pub data Call : Type 0 where
  reserve : String → ℤ → String → Call
  reconcile : TokenReservation → ℤ → Call
  release : TokenReservation → Call

-- What a call does to the account of the API key `k`: nothing, if it is for another key.
unfoldable pub spec_step : ℤ → String → Call → Account → Account
spec_step limit k (reserve j amount uuid) l =
    if j == k then (open_hold uuid amount limit l).1 else l
spec_step limit k (reconcile h used) l =
    if h.api_key_id == k then (close_hold h.reservation_id used l).1 else l
spec_step limit k (release h) l =
    if h.api_key_id == k then (close_hold h.reservation_id (pos 0) l).1 else l

unfoldable pub spec_run : ℤ → String → List Call → Account → Account
spec_run limit k [] l = l
spec_run limit k (c ∷ cs) l = spec_run limit k cs (spec_step limit k c l)

-- The identifier that a reservation draws is not open already.
abbrev pub IsFresh : String → Call → Account → Type 0
IsFresh k (reserve j amount uuid) l = j ≡ k → find uuid l.holds ≡ none
IsFresh k (reconcile h used) l = Unit
IsFresh k (release h) l = Unit

abbrev pub AllFresh : ℤ → String → List Call → Account → Type 0
AllFresh limit k [] l = Unit
AllFresh limit k (c ∷ cs) l = IsFresh k c l × AllFresh limit k cs (spec_step limit k c l)

-- No call reserves a negative amount, and none settles more than its reservation holds.
abbrev pub IsHonest : String → Call → Account → Type 0
IsHonest k (reserve j amount uuid) l = pos 0 ≤ℤ amount
IsHonest k (reconcile h used) l = (a : ℤ) → find h.reservation_id l.holds ≡ some a → used ≤ℤ a
IsHonest k (release h) l = Unit

abbrev pub AllHonest : ℤ → String → List Call → Account → Type 0
AllHonest limit k [] l = Unit
AllHonest limit k (c ∷ cs) l = IsHonest k c l × AllHonest limit k cs (spec_step limit k c l)

spec_step-IsWithin :
    (limit : ℤ) (k : String) (x : Call) (l : Account)
    → IsHonest k x l
    → IsWithin limit l
    → IsWithin limit (spec_step limit k x l)
unfolding spec_step
spec_step-IsWithin limit k (reserve j amount uuid) l honest w = elim (Bool-cases (j == k)) [
  | inl same ↦ rw same (open_hold-IsWithin uuid amount limit l honest w)
  | inr other ↦ rw other w
]
spec_step-IsWithin limit k (reconcile h used) l honest w = elim (Bool-cases (h.api_key_id == k)) [
  | inl same ↦ rw same (close_hold-IsWithin h.reservation_id used limit l honest w)
  | inr other ↦ rw other w
]
spec_step-IsWithin limit k (release h) l honest w = elim (Bool-cases (h.api_key_id == k)) [
  | inl same ↦ rw same (close_hold-IsWithin_unused h.reservation_id limit l w)
  | inr other ↦ rw other w
]

spec_run-IsWithin :
    (limit : ℤ) (k : String) (xs : List Call) (l : Account)
    → AllHonest limit k xs l
    → IsWithin limit l
    → IsWithin limit (spec_run limit k xs l)
unfolding spec_run
spec_run-IsWithin limit k [] l honest w = w
spec_run-IsWithin limit k (x ∷ xs) l honest w =
    spec_run-IsWithin limit k xs _ honest.1 (spec_step-IsWithin limit k x l honest.0 w)

module _ (R : Redis QuotaKey ℤ) (limits : Limits) where
  -- The state after a call, which may have raised.
  unfoldable pub perform : Call → Conn R.State → Conn R.State
  perform (reserve k amount uuid) c = (reserve_tokens R limits k amount uuid c).1
  perform (reconcile h used) c = (reconcile_tokens R limits h used c).1
  perform (release h) c = (release_tokens R limits h c).1

  unfoldable pub run : List Call → Conn R.State → Conn R.State
  run [] c = c
  run (x ∷ xs) c = run xs (perform x c)

  module _ {limit : ℤ} (limited : limits.token_limit ≡ some limit) where
    -- The state that each method leaves, on a server that answers.
    pub reserve_tokens_state :
        (k uuid : String) (amount : ℤ) (c : Conn R.State)
        → c.reachable ≡ true
        → (reserve_tokens R limits k amount uuid c).1 ≡ record c {
          store =
              (reserve_tokens_script R
                (actual k)
                (reserved k)
                (reservation k uuid)
                amount
                limit
                c.store).1;
        }
    unfolding reserve_tokens
    reserve_tokens_state k uuid amount c up =
        rw (limited, up)
          (elim (Bool-cases
            (reserve_tokens_script R (actual k) (reserved k) (reservation k uuid) amount limit
              c.store).0) [ inl done ↦ rw done refl | inr refused ↦ rw refused refl ])

    pub reconcile_tokens_state :
        (h : TokenReservation) (used : ℤ) (c : Conn R.State)
        → c.reachable ≡ true
        → (reconcile_tokens R limits h used c).1 ≡ record c {
          store =
              (reconcile_tokens_script R
                (actual h.api_key_id)
                (reserved h.api_key_id)
                (reservation h.api_key_id h.reservation_id)
                used
                c.store).1;
        }
    unfolding reconcile_tokens
    reconcile_tokens_state h used c up = rw (limited, up) refl

    pub release_tokens_state :
        (h : TokenReservation) (c : Conn R.State)
        → c.reachable ≡ true
        → (release_tokens R limits h c).1 ≡ record c {
          store =
              (release_tokens_script R
                (reserved h.api_key_id)
                (reservation h.api_key_id h.reservation_id)
                c.store).1;
        }
    unfolding release_tokens
    release_tokens_state h c up = rw (limited, up) refl

    step-Represents :
        (k : String) (x : Call) (c : Conn R.State) (l : Account)
        → c.reachable ≡ true
        → IsFresh k x l
        → Represents R k c.store l
        → ((perform x c).reachable ≡ true)
          × Represents R k (perform x c).store (spec_step limit k x l)
    unfolding perform spec_step
    step-Represents k (reserve j amount uuid) c l up fresh rep =
        rw (reserve_tokens_state j uuid amount c up) (
          up,
          elim (String-discrete j k) [
            | yes same ↦
                rw (same, eq_refl)
                  (reserve-Represents R k uuid amount limit c.store l rep (fresh same)).1
            | no other ↦
                rw (test_ne j k other)
                  (reserve-Represents_other R other uuid amount limit c.store l rep)
          ],
        )
    step-Represents k (reconcile h used) c l up fresh rep =
        rw (reconcile_tokens_state h used c up) (
          up,
          elim (String-discrete h.api_key_id k) [
            | yes same ↦
                rw (same, eq_refl) (reconcile-Represents R k h.reservation_id used c.store l rep).1
            | no other ↦
                rw (test_ne h.api_key_id k other)
                  (reconcile-Represents_other R other h.reservation_id used c.store l rep)
          ],
        )
    step-Represents k (release h) c l up fresh rep = rw (release_tokens_state h c up) (
      up,
      elim (String-discrete h.api_key_id k) [
        | yes same ↦ rw (same, eq_refl) (release-Represents R k h.reservation_id c.store l rep).1
        | no other ↦
            rw (test_ne h.api_key_id k other)
              (release-Represents_other R other h.reservation_id c.store l rep)
      ],
    )

    -- On a server that answers, and with identifiers that are not open already, any run of the three
    -- methods by many API keys leaves in the store of one key the account that the abstract
    -- operations give: what is settled, the sum of the open reservations, and each of them.
    pub run-Represents :
        (k : String) (xs : List Call) (c : Conn R.State) (l : Account)
        → c.reachable ≡ true
        → AllFresh limit k xs l
        → Represents R k c.store l
        → Represents R k (run xs c).store (spec_run limit k xs l)
    unfolding run spec_run
    run-Represents k [] c l up fresh rep = rep
    run-Represents k (x ∷ xs) c l up fresh rep =
        let kept = step-Represents k x c l up fresh.0 rep in
        run-Represents k xs (perform x c) (spec_step limit k x l) kept.0 fresh.1 kept.1

    -- On a server that answers, for an account that the store represents and that starts within the
    -- limit, with identifiers that are not open already: after any run in which no call reserves a
    -- negative amount, and no call settles more than it reserved, what is used and what is
    -- reserved for an API key are within the limit together, as the store's own counters say.
    pub run_within_limit :
        (k : String) (xs : List Call) (c : Conn R.State) (l : Account)
        → c.reachable ≡ true
        → Represents R k c.store l
        → IsWithin limit l
        → AllFresh limit k xs l
        → AllHonest limit k xs l
        → number R (run xs c).store (actual k) +ℤ number R (run xs c).store (reserved k) ≤ℤ limit
    run_within_limit k xs c l up rep w fresh honest =
        let after = run-Represents k xs c l up fresh rep in
        rw (after.actual_is, after.reserved_is) (spec_run-IsWithin limit k xs l honest w).within

    -- On a server that answers, for an account that the store represents: a call of `reserve_tokens`
    -- is granted exactly when the account has room, and is refused with
    -- `token_quota_exceeded` otherwise.
    pub reserve_tokens_answer :
        (k uuid : String) (amount : ℤ) (c : Conn R.State) (l : Account)
        → c.reachable ≡ true
        → Represents R k c.store l
        → (reserve_tokens R limits k amount uuid c).0 ≡ (
            if leb_ℤ (l.actual +ℤ total l.holds +ℤ amount) limit
            then ok (record { api_key_id = k; amount_tokens = amount; reservation_id = uuid })
            else err (quota_exceeded "token_quota_exceeded"))
    unfolding reserve_tokens reserve_tokens_script
    reserve_tokens_answer k uuid amount c l up rep =
        rw (limited, up, rep.actual_is, rep.reserved_is) (ground arith)
