-- ===== src/Runtime/Circuits/Opening.antt =====
-- When a circuit is open.
use mixapi.Shared.{
  ℕ, suc, ◌+◌, ◌≤◌, ◌<◌, ◌≡◌, refl, ap, ◌∙◌, true, false, Option, none, some, List, [], ◌∷◌, String,
  arith, ok, if◌then◌else◌, ltb, leb, length, Bool-cases, inl, inr,
}
use mixapi.Shared.Int.{ℤ}
use mixapi.Redis.{Redis, Conn}
use mixapi.Runtime.Circuits.{
  CircuitKey, Circuit, Settings, time_to_live, is_transient_failure, live, count_failure,
  is_open_script, failure_script, is_open, record_failure, record_success,
}

add_zero : (n : ℕ) → n + 0 ≡ n
add_zero n = omega arith

one_add : (n : ℕ) → 1 + n ≡ suc n
one_add n = omega arith

add_suc : (n m : ℕ) → n + suc m ≡ suc n + m
add_suc n m = omega arith

-- The times of failures that follow one another before the count is dropped.
abbrev pub Follow : ℕ → ℕ → List ℕ → Type 0
Follow ttl last [] = Unit
Follow ttl last (t ∷ ts) = (last ≤ t) × (t < last + ttl) × Follow ttl t ts

abbrev pub last_of : ℕ → List ℕ → ℕ
last_of t [] = t
last_of t (u ∷ us) = last_of u us

module _ (R : Redis CircuitKey Circuit) (g : Settings) (status_of : String → Option ℤ)
    (k : CircuitKey) where
  -- Failures for one reason, at the given times.
  unfoldable pub fail_all : String → List ℕ → Conn R.State → Conn R.State
  fail_all reason [] c = c
  fail_all reason (t ∷ ts) c = fail_all reason ts (record_failure R g status_of t k reason c).1

  -- The circuit after `n` failures, of which the last was at `t`.
  abbrev pub counted : ℕ → ℕ → Circuit
  counted n t = record {
    failures = n;
    opened_ms = if leb g.failure_threshold n then some t else none;
    expires_ms = t + time_to_live g;
  }

  record_failure_lem :
      (reason : String) (t : ℕ) (c : Conn R.State)
      → is_transient_failure status_of reason ≡ true
      → c.reachable ≡ true
      → (record_failure R g status_of t k reason c).1
        ≡ record c { store = (failure_script R t g.failure_threshold (time_to_live g) k c.store).1 }
  unfolding record_failure
  record_failure_lem reason t c transient up = rw (transient, up) refl

  count_next :
      (n last t : ℕ)
      → count_failure t g.failure_threshold (time_to_live g) (some (counted n last))
        ≡ counted (suc n) t
  unfolding count_failure
  count_next n last t = elim (Bool-cases (leb g.failure_threshold (suc n))) [
    | inl reached ↦ rw reached refl
    | inr below ↦
        let earlier : leb g.failure_threshold n ≡ false = ground arith in rw (below, earlier) refl
  ]

  first_failure :
      (t : ℕ) (s : R.State)
      → R.get s k ≡ none
      → R.get (failure_script R t g.failure_threshold (time_to_live g) k s).1 k ≡ some (counted 1 t)
  unfolding failure_script count_failure
  first_failure t s fresh =
      let unseen : live R t k s ≡ none = rw (live, fresh) refl in
      R.get-set_self s k _
      ∙ ap (λ o. some (count_failure t g.failure_threshold (time_to_live g) o)) unseen

  next_failure :
      (n last t : ℕ) (s : R.State)
      → last ≤ t
      → t < last + time_to_live g
      → R.get s k ≡ some (counted n last)
      → R.get (failure_script R t g.failure_threshold (time_to_live g) k s).1 k
        ≡ some (counted (suc n) t)
  unfolding failure_script
  next_failure n last t s after before held =
      let alive : ltb t (last + time_to_live g) ≡ true = ground arith in
      let seen : live R t k s ≡ some (counted n last) = rw (live, held, alive) refl in
      R.get-set_self s k _
      ∙ ap (λ o. some (count_failure t g.failure_threshold (time_to_live g) o)) seen
      ∙ ap some (count_next n last t)

  fail_all-counted :
      (reason : String) (n last : ℕ) (ts : List ℕ) (c : Conn R.State)
      → is_transient_failure status_of reason ≡ true
      → c.reachable ≡ true
      → Follow (time_to_live g) last ts
      → R.get c.store k ≡ some (counted n last)
      → ((fail_all reason ts c).reachable ≡ true)
        × (R.get (fail_all reason ts c).store k ≡ some (counted (n + length ts) (last_of last ts)))
  unfolding fail_all
  fail_all-counted reason n last [] c transient up follow held = (up, rw (add_zero n) held)
  fail_all-counted reason n last (t ∷ ts) c transient up follow held =
      let failed = record_failure_lem reason t c transient up in
      let more = next_failure n last t c.store follow.0 follow.1 held in
      rw (fail_all, failed, add_suc n (length ts))
        (fail_all-counted reason (suc n) t ts
          (record c {
            store = (failure_script R t g.failure_threshold (time_to_live g) k c.store).1;
          })
          transient up follow.2 more)

  is_open_counted :
      (n last now : ℕ) (c : Conn R.State)
      → c.reachable ≡ true
      → last ≤ now
      → now < last + g.recovery_timeout_ms
      → R.get c.store k ≡ some (counted n last)
      → (is_open R g now k c).0 ≡ ok (leb g.failure_threshold n)
  unfolding is_open is_open_script
  is_open_counted n last now c up after before held =
      let alive : ltb now (last + time_to_live g) ≡ true = ground arith in
      let recent : leb (last + g.recovery_timeout_ms) now ≡ false = ground arith in
      rw (up, is_open_script, held, alive)
        (elim (Bool-cases (leb g.failure_threshold n)) [
          | inl reached ↦ rw (reached, recent) refl
          | inr below ↦ rw below refl
        ])

  -- On a server that answers: after transient failures for one reason, none of which came later than
  -- the key of the one before is kept, a circuit that nothing was counted for is open just when as many failures have followed one
  -- another as the threshold says, as long as the recovery timeout since the last is not over.
  pub is_open_exact :
      (reason : String) (t : ℕ) (ts : List ℕ) (now : ℕ) (c : Conn R.State)
      → is_transient_failure status_of reason ≡ true
      → c.reachable ≡ true
      → R.get c.store k ≡ none
      → Follow (time_to_live g) t ts
      → last_of t ts ≤ now
      → now < last_of t ts + g.recovery_timeout_ms
      → (is_open R g now k (fail_all reason (t ∷ ts) c)).0
        ≡ ok (leb g.failure_threshold (suc (length ts)))
  unfolding fail_all
  is_open_exact reason t ts now c transient up fresh follow after before =
      let failed = record_failure_lem reason t c transient up in
      let c' : Conn R.State = record c {
        store = (failure_script R t g.failure_threshold (time_to_live g) k c.store).1;
      } in
      let (up', held) =
        fail_all-counted reason 1 t ts c' transient up follow (first_failure t c.store fresh) in
      rw (fail_all, failed)
        (is_open_counted (suc (length ts)) (last_of t ts) now (fail_all reason ts c') up' after
          before (rw (one_add (length ts)) at held))

  -- On a server that answers: once the recovery timeout since the failure that opened it is over, the
  -- circuit is closed, and it is forgotten.
  pub is_open_recovers :
      (n last now : ℕ) (c : Conn R.State)
      → c.reachable ≡ true
      → g.failure_threshold ≤ n
      → R.get c.store k ≡ some (counted n last)
      → last + g.recovery_timeout_ms ≤ now
      → let (answer, c') = is_open R g now k c in
        (answer ≡ ok false) × (live R now k c'.store ≡ none)
  unfolding is_open is_open_script
  is_open_recovers n last now c up reached held over =
      let opened : leb g.failure_threshold n ≡ true = ground arith in
      let old : leb (last + g.recovery_timeout_ms) now ≡ true = ground arith in
      rw (up, is_open_script, held)
        (elim (Bool-cases (ltb now (last + time_to_live g))) [
          | inl alive ↦ rw (alive, opened, old) (refl, rw (live, R.get-delete_self c.store k) refl)
          | inr dropped ↦ rw dropped (refl, rw (live, held, dropped) refl)
        ])

  -- A success closes the circuit at once.
  pub record_success_closes :
      (now : ℕ) (c : Conn R.State)
      → c.reachable ≡ true
      → (is_open R g now k (record_success R k c).1).0 ≡ ok false
  unfolding record_success is_open is_open_script
  record_success_closes now c up = rw up (rw (is_open_script, R.get-delete_self c.store k) refl)
