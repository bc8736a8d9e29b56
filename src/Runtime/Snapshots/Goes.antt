-- ===== src/Runtime/Snapshots/Goes.antt =====
-- The rules by which a call of the store of snapshots (mixapi/runtime/snapshots.py) is a run of its
-- history.
use mixapi.Shared.{ok, err, Result, Bool-cases, inl, inr}
use mixapi.Redis.{Redis, Conn}
use mixapi.Runtime.Snapshots.{Site, SnapshotKey, Value, Codec, ◌>>=◌, Attempt, ask, SnapshotError}
use mixapi.Runtime.Snapshots.History.{Reach, here, next}

module _ (R : Redis SnapshotKey Value) (C : Codec) where
  pub Reach-trans : {w0 w1 w2 : Site R C} → Reach R C w0 w1 → Reach R C w1 w2 → Reach R C w0 w2
  Reach-trans r here = r
  Reach-trans r (next r' st) = next (Reach-trans r r') st

  -- What holds of an answer and the store with it.
  abbrev pub Holds :
      {A : Type 0} → (A → R.State → Type 0) → Result SnapshotError A × Conn (Site R C) → Type 0
  Holds P (ok a, c) = P a c.store.store
  Holds P (err e, c) = Unit {0}

  -- The store has been reached from `w`, and the answer is as `P` says.
  abbrev pub Goes :
      {A : Type 0}
      → Site R C
      → (A → R.State → Type 0)
      → Result SnapshotError A × Conn (Site R C)
      → Type 0
  Goes w P r = Reach R C w r.1.store × Holds P r

  abbrev pub Runs : {A : Type 0} → (A → R.State → Type 0) → Attempt (Site R C) A → Type 0
  Runs P m = (c : Conn (Site R C)) → Goes c.store P (m c)

  abbrev pub IsAny : {A : Type 0} → A → R.State → Type 0
  IsAny a s = Unit {0}

  pub Goes-follow :
      {A B : Type 0} (P : A → R.State → Type 0) (Q : B → R.State → Type 0)
      (f : A → Attempt (Site R C) B) (w : Site R C) (r : Result SnapshotError A × Conn (Site R C))
      → Goes w P r
      → ((a : A) (c : Conn (Site R C)) → P a c.store.store → Goes c.store Q (f a c))
      → Goes w Q (let (r0, c) = r in elim r0 [ ok a ↦ f a c | err e ↦ (err e, c) ])
  Goes-follow P Q f w (ok a, c) (reach, p) k =
      let (reach', q) = k a c p in (Reach-trans reach reach', q)
  Goes-follow P Q f w (err e, c) (reach, p) k = (reach, tt)

  pub >>=-Runs :
      {A B : Type 0} (P : A → R.State → Type 0) (Q : B → R.State → Type 0)
      (m : Attempt (Site R C) A) (f : A → Attempt (Site R C) B)
      → Runs P m
      → ((a : A) (c : Conn (Site R C)) → P a c.store.store → Goes c.store Q (f a c))
      → Runs Q (m >>= f)
  >>=-Runs P Q m f run k c = Goes-follow P Q f c.store (m c) (run c) k

  -- A script whose effect is a run of the history.
  pub ask-Runs :
      {A : Type 0} (P : A → R.State → Type 0) (script : R.State → A × R.State)
      → ((w : Site R C)
          → Reach R C w (record w { store = (script w.store).1 })
            × P (script w.store).0 (script w.store).1)
      → Runs P (ask R C script)
  ask-Runs P script effect c = elim (Bool-cases c.reachable) [
    | inl up ↦ rw up (effect c.store)
    | inr down ↦ rw down (here, tt)
  ]

  -- A command that only reads.
  pub read-Runs : {A : Type 0} (read : R.State → A) → Runs IsAny (ask R C (λ s. (read s, s)))
  read-Runs read = ask-Runs IsAny (λ s. (read s, s)) (λ w. (here, tt))
