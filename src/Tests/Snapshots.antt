-- ===== src/Tests/Snapshots.antt =====
-- A configuration of one version.
use native.Mathlib.Decide.{ℕ_discrete}
use mixapi.Shared.{
  any, nat_eq, ℕ, ◌≡◌, ◌⊎◌, refl, false, none, some, [], ◌∷◌, ok, ◌==◌, if◌then◌else◌, arith,
}
use mixapi.Redis.{Redis}
use mixapi.Redis.Memory.{memory}
use mixapi.Runtime.Snapshots.{
  Site, SnapshotKey, active, payload, manifest, Value, number, text, Codec, set_nx,
  mark_ready_script, activate_script, active_version, load, carry_out, retention,
}
use mixapi.Runtime.Snapshots.History.{IsIn, Reach, here, next, write, mark, switch}
use mixapi.Runtime.Snapshots.Active.{IsFaithful, IsEmpty, up, active_is_loaded}
use mixapi.Runtime.Snapshots.Upward.{IsAtLeast, active_never_back}
use mixapi.Runtime.Snapshots.Retention.{retention-Reach}
use mixapi.Publication.{publish_snapshot}
use mixapi.Publication.Serves.{publish_snapshot_serves}
use mixapi.Publication.Run.{publish_snapshot-Reach}

SnapshotKey-discrete : Discrete SnapshotKey
SnapshotKey-discrete = hlevel ℕ_discrete

abbrev store : Redis SnapshotKey Value
store = memory Value SnapshotKey-discrete

abbrev codec : Codec
codec = record {
  Snapshot = Unit {0};
  version = λ x. 1;
  checksum = λ x. "checksum";
  to_json = λ x. "json";
  from_json = λ t. if t == "json" then some tt else none;
}

codec-IsFaithful : IsFaithful store codec
codec-IsFaithful = record { reads = λ x. refl; positive = λ x. omega arith }

abbrev nothing : store.State
nothing = λ k. none

abbrev empty : Site store codec
empty = record { store = nothing; aging = [] }

empty-IsEmpty : IsEmpty store codec empty
empty-IsEmpty = record { nothing = λ k. refl; none_aging = refl }

abbrev published : store.State
published =
    (activate_script store codec 1 "checksum"
      (mark_ready_script store codec 1 "json" "checksum"
        (set_nx store codec (payload 1) "json" nothing).1).1).1

abbrev running : Site store codec
running = record { store = published; aging = [] }

history : Reach store codec empty running
history = next (next (next here (write tt)) (mark tt)) (switch 1 "checksum")

active_is_loaded_example :
    (active_version store codec (up store codec running) ≡ (ok none, up store codec running))
    ⊎ ((a : ℕ) × (x : Unit {0}) × (active_version store codec (up store codec running)
          ≡ (ok (some a), up store codec running))
        × (load store codec a false (up store codec running) ≡ (ok x, up store codec running))
        × (codec.version x ≡ a)
        × (store.get published (manifest a) ≡ some (text (codec.checksum x))))
active_is_loaded_example =
    active_is_loaded store codec codec-IsFaithful {w0 = empty} {w = running} empty-IsEmpty history
      false

abbrev at_one : store.State
at_one active = some (number 1)
at_one _ = none

abbrev one : Site store codec
one = record { store = at_one; aging = [] }

abbrev one_written : Site store codec
one_written = record { store = (set_nx store codec (payload 1) "json" at_one).1; aging = [] }

active_never_back_example : IsAtLeast store codec 1 one_written.store
active_never_back_example =
    active_never_back store codec 1 {w = one} {w' = one_written} (next here (write tt)) refl

retention-Reach_example :
    let w' = carry_out store codec (retention 1 1 (0 ∷ 1 ∷ [])) one in
    Reach store codec one w'
    × ((any (λ v. nat_eq v 1) (0 ∷ 1 ∷ []) ≡ false) ⊎ (¬ IsIn store codec 1 w'.aging))
retention-Reach_example = retention-Reach store codec 1 1 (0 ∷ 1 ∷ []) 1 one (omega arith) refl

publish_snapshot_serves_example :
    (s' : Site store codec) × (publish_snapshot store codec [] 1 60 tt (up store codec empty)
      ≡ (ok tt, up store codec s'))
    × (active_version store codec (up store codec s') ≡ (ok (some 1), up store codec s'))
    × (load store codec 1 false (up store codec s') ≡ (ok tt, up store codec s'))
publish_snapshot_serves_example =
    publish_snapshot_serves store codec codec-IsFaithful tt [] 1 60 false empty (omega arith)
      (omega arith) refl refl (λ o e. absurd (cc e))

publish_snapshot-Reach_example :
    Reach store codec empty (publish_snapshot store codec [] 1 60 tt (up store codec empty)).1.store
publish_snapshot-Reach_example =
    publish_snapshot-Reach store codec [] 1 60 tt (up store codec empty)
