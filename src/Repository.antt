-- ===== src/Repository.antt =====
-- Loading a state from its events, with a cache of folds:
-- packages/core/src/event-sourcing/repository.ts, in-memory-snapshotting-event-store.ts and snapshot.ts.
-- The identifiers are texts, which `snapshotIdentifier` leaves as they are.
pub mod Fitness
pub mod Cached
pub mod Sound
pub mod Sourced
pub mod Refinement
pub mod Sessions
mod Tests
use kronos_ts.Common.{
  ℕ, zero, suc, ◌+◌, Bool, true, false, not, ◌&&◌, Option, none, some, List, [], ◌∷◌, ◌++◌, ltb,
  leb, length, if◌then◌else◌,
}
use kronos_ts.Common.Int.{ℤ, pos, negsuc}
use kronos_ts.Common.Text.{Text, text_eq}
use kronos_ts.Common.Map.{Map, get, set}
use kronos_ts.Outcome.{Outcome, ok, throws, Failure, snapshots_unsupported, ◌>>=◌}
use kronos_ts.Messages.{EventMessage, QualifiedName, qualified_name_to_string}
use kronos_ts.Query.{EventQuery}
use kronos_ts.EventStore.{
  EventLog, ConsistencyMarker, SourcingCondition, SourcingResult, sourcing_condition,
  without_snapshot_key, source,
}
use kronos_ts.EventStore.Flush.{SourcingInfo}
use kronos_ts.Repository.Fitness.{Value, matches_initial_structure}

-- One cached fold, and the position it is folded up to.
pub record Snapshot : Type 0 where
  pub state : Value
  pub position : ℤ

pub record SnapshotConfig : Type 0 where
  pub key : Text
  -- The policy, on the number of events applied and the time taken.
  pub due : ℕ → ℕ → Bool

-- `State`; an evolver may throw.
pub record State (P : Type 0) : Type 0 where
  pub query : Text → EventQuery
  pub initial : Text → Value
  pub evolvers : List (QualifiedName × (Value → EventMessage P → Outcome Value))
  pub snapshot : Option SnapshotConfig

-- The map of an in-memory snapshotting store; `none` is a log without the capability.
abbrev pub Cache : Type 0
Cache = Option (Map Snapshot)

unfoldable pub after_events : ℕ → ℕ → ℕ → Bool
after_events threshold events_applied sourcing_time_ms = ltb threshold events_applied

unfoldable pub when_sourcing_time_exceeds : ℕ → ℕ → ℕ → Bool
when_sourcing_time_exceeds threshold_ms events_applied sourcing_time_ms =
    leb threshold_ms sourcing_time_ms

-- `snapshot.position + 1n`, where a position is -1 or one of the log.
abbrev pub resume_from : ℤ → ℕ
resume_from (pos n) = suc n
resume_from (negsuc n) = 0

abbrev pub later_start : Option ℕ → ℕ → ℕ
later_start none resume = resume
later_start (some start) resume = if ltb resume start then start else resume

-- `keyFor`; 58 is the colon.
abbrev pub key_for : Text → Text → Text
key_for key id = key ++ 58 ∷ id

abbrev pub strategy_for : Option SnapshotConfig → Text → Option Text
strategy_for none id = none
strategy_for (some config) id = some (key_for config.key id)

unfoldable pub store_snapshot : Text → Snapshot → Map Snapshot → Map Snapshot
store_snapshot key snapshot cache = set key snapshot cache

-- The write of a load, which comes about or fails unnoticed.
abbrev pub save : Option SnapshotConfig → Text → ℕ → ℕ → Bool → Snapshot → Cache → Cache
unfolding store_snapshot
save none id events_applied sourcing_time_ms written snapshot cache = cache
save (some config) id events_applied sourcing_time_ms written snapshot none = none
save (some config) id events_applied sourcing_time_ms written snapshot (some cache) =
    if (ltb 0 events_applied && config.due events_applied sourcing_time_ms) && written
    then some (store_snapshot (key_for config.key id) snapshot cache)
    else some cache

-- `capableOrThrow`, where the state has a policy.
abbrev pub capable_or_throw : Option SnapshotConfig → Cache → Outcome (Unit {0})
capable_or_throw none cache = ok tt
capable_or_throw (some config) none = throws snapshots_unsupported
capable_or_throw (some config) (some cache) = ok tt

abbrev pub Sourced : Type 0 → Type 0
Sourced P = Outcome (SourcingResult P × Option Snapshot)

module _ {P : Type 0} where
  abbrev pub without_snapshot : Outcome (SourcingResult P) → Sourced P
  without_snapshot (ok result) = ok (result, none)
  without_snapshot (throws error) = throws error

  abbrev pub with_snapshot : Snapshot → Outcome (SourcingResult P) → Sourced P
  with_snapshot snapshot (ok result) = ok (result, some snapshot)
  with_snapshot snapshot (throws error) = throws error

  abbrev pub source_found : EventLog P → SourcingCondition → Option Snapshot → Sourced P
  source_found log plain none = without_snapshot (source log plain)
  source_found log plain (some snapshot) = with_snapshot snapshot (
      source log
        (record plain { start = some (later_start plain.start (resume_from snapshot.position)) }))

  abbrev pub source_key : EventLog P → Map Snapshot → SourcingCondition → Option Text → Sourced P
  source_key log cache condition none = without_snapshot (source log condition)
  source_key log cache condition (some key) =
      source_found log (without_snapshot_key condition) (get key cache)

  -- `source` of the snapshotting store, and of a bare log, which ignores the key.
  unfoldable pub source_snapshotting : EventLog P → Cache → SourcingCondition → Sourced P
  source_snapshotting log none condition = without_snapshot (source log condition)
  source_snapshotting log (some cache) condition = source_key log cache condition condition.snapshot

  -- `applyEvent`: the first evolver of the event's type.
  unfoldable pub apply_event :
      List (QualifiedName × (Value → EventMessage P → Outcome Value))
      → Value
      → EventMessage P
      → Outcome Value
  apply_event [] state event = ok state
  apply_event ((name, evolve) ∷ evolvers) state event =
      let rest = apply_event evolvers state event in
      if text_eq (qualified_name_to_string name) (qualified_name_to_string event.name)
      then evolve state event
      else rest

  -- The loop over the events.
  unfoldable pub fold_events :
      List (QualifiedName × (Value → EventMessage P → Outcome Value))
      → Value
      → List (EventMessage P)
      → Outcome Value
  fold_events evolvers state [] = ok state
  fold_events evolvers state (event ∷ events) = do
    state' ← apply_event evolvers state event
    fold_events evolvers state' events

  -- The check of `doLoad`: what to fold, and on which state.
  abbrev pub judged :
      State P
      → EventLog P
      → Text
      → SourcingResult P × Option Snapshot
      → Outcome (SourcingResult P × Value)
  judged m log id (result, none) = ok (result, m.initial id)
  judged m log id (result, some snapshot) =
      if matches_initial_structure (m.initial id) snapshot.state
      then ok (result, snapshot.state)
      else (do
        replayed ← source log (sourcing_condition (m.query id) none none)
        ok (replayed, m.initial id))

  -- `doLoad`; `sourcing_time_ms` is what the clock gives, and `written` whether its write of a
  -- snapshot comes about.
  unfoldable pub do_load :
      State P → ℕ → Bool → Text → EventLog P → Cache → Outcome ((Value × SourcingInfo) × Cache)
  do_load m sourcing_time_ms written id log cache = do
    sourced ←
        source_snapshotting log cache
          (sourcing_condition (m.query id) none (strategy_for m.snapshot id))
    start ← judged m log id sourced
    state ← fold_events m.evolvers start.1 start.0.events
    let marker = start.0.marker.position
    ok (
      (state, record { query = m.query id; marker_position = marker }),
      save m.snapshot id (length start.0.events) sourcing_time_ms written
          (record { state = state; position = marker }) cache,
    )

  -- A repository's `load`: the construction, then the load.
  unfoldable pub load :
      State P → ℕ → Bool → Text → EventLog P → Cache → Outcome ((Value × SourcingInfo) × Cache)
  unfolding do_load
  load m sourcing_time_ms written id log cache = do
    _ ← capable_or_throw m.snapshot cache
    do_load m sourcing_time_ms written id log cache
