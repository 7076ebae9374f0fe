-- ===== src/EventStore.antt =====
-- The in-memory log: packages/core/src/event-sourcing/in-memory.ts, with the conditions of
-- append-condition.ts, sourcing-condition.ts and consistency-marker.ts beside it. The callbacks
-- that wake open streams (`streamListeners`) only call code of the readers and are left out.
pub mod Reading
pub mod Log
pub mod Dcb
pub mod Flush
pub mod Staging
pub mod Stream
mod Tests
use kronos_ts.Common.{
  ℕ, zero, suc, ◌+◌, ◌-◌, Bool, true, false, not, ◌&&◌, ◌||◌, Option, none, some, List, [], ◌∷◌,
  ◌++◌, map, any, filter, leb, ltb, if◌then◌else◌,
}
use kronos_ts.Common.Int.{ℤ, pos, negsuc, ltbℤ}
use kronos_ts.Common.Text.{Text}
use kronos_ts.Outcome.{Outcome, ok, throws, append_condition_error, ◌>>=◌, traverse}
use kronos_ts.Messages.{EventMessage}
use kronos_ts.Query.{EventQuery, EventCriteria, compile_query, matches_criteria}
use kronos_ts.Token.{TrackingToken, global_sequence, first_token}

pub record ConsistencyMarker : Type 0 where
  pub position : ℤ

abbrev pub origin : ConsistencyMarker
origin = record { position = negsuc 0 }

abbrev pub no_marker : ConsistencyMarker
no_marker = origin

abbrev pub marker_at : ℤ → ConsistencyMarker
marker_at position = record { position = position }

unfoldable pub marker_lower_bound : ConsistencyMarker → ConsistencyMarker → ConsistencyMarker
marker_lower_bound a b = if ltbℤ a.position b.position then a else b

unfoldable pub marker_upper_bound : ConsistencyMarker → ConsistencyMarker → ConsistencyMarker
marker_upper_bound a b = if ltbℤ b.position a.position then a else b

pub record AppendConditionRead : Type 0 where
  pub query : EventQuery
  pub marker : ConsistencyMarker

pub record AppendCondition : Type 0 where
  pub query : EventQuery
  pub marker : ConsistencyMarker
  pub reads : Option (List AppendConditionRead)

pub record SourcingCondition : Type 0 where
  pub query : EventQuery
  pub start : Option ℕ
  pub snapshot : Option Text

-- The function `sourcingCondition`; a missing member and an undefined one are the same here.
unfoldable pub sourcing_condition : EventQuery → Option ℕ → Option Text → SourcingCondition
sourcing_condition query start snapshot = record {
  query = query;
  start = start;
  snapshot = snapshot;
}

unfoldable pub without_snapshot_key : SourcingCondition → SourcingCondition
without_snapshot_key condition = record condition { snapshot = none }

-- `position - 1n` of a log position.
abbrev pub before : ℕ → ℤ
before zero = negsuc 0
before (suc n) = pos n

-- A read with its query compiled.
pub record Check : Type 0 where
  pub criteria : EventCriteria
  pub after : ℤ

unfoldable pub compile_read : AppendConditionRead → Outcome Check
compile_read read = do
  c ← compile_query read.query
  ok (record { criteria = c; after = read.marker.position })

-- `condition.reads ?? [condition]`
abbrev pub reads_of : AppendCondition → List AppendConditionRead
reads_of condition = elim condition.reads [
  | none ↦ record { query = condition.query; marker = condition.marker } ∷ []
  | some reads ↦ reads
]

-- `condition.start ?? 0n`
abbrev pub start_of : SourcingCondition → ℕ
start_of condition = elim condition.start [ none ↦ 0 | some n ↦ n ]

pub record Entry (P : Type 0) : Type 0 where
  pub position : ℕ
  pub event : EventMessage P

pub record EventLog (P : Type 0) : Type 0 where
  pub events : List (Entry P)
  pub next_position : ℕ

pub record SourcingResult (P : Type 0) : Type 0 where
  pub events : List (EventMessage P)
  pub marker : ConsistencyMarker

-- What `appendEvents` returns; `committed` is the variable its members share.
pub record AppendTransaction : Type 0 where
  pub start_position : ℕ
  pub end_position : ℤ
  pub committed : Bool

-- The transaction's members. The events are in the log already when it commits.
unfoldable pub commit : AppendTransaction → AppendTransaction
commit tx = record tx { committed = true }

unfoldable pub after_commit : AppendTransaction → ConsistencyMarker
after_commit tx = record { position = tx.end_position }

abbrev pub empty_log : {P : Type 0} → EventLog P
empty_log = record { events = []; next_position = 0 }

module _ {P : Type 0} where
  -- `entry.position > check.after && matchesCriteria(entry.event, check.criteria)`
  abbrev pub conflicts_with : Entry P → Check → Bool
  conflicts_with entry check =
      ltbℤ check.after (pos entry.position) && matches_criteria entry.event check.criteria

  unfoldable pub conflicting : List (Entry P) → List Check → List (Entry P)
  conflicting events checks = filter (λ entry. any (conflicts_with entry) checks) events

  abbrev pub refuse_if_any : List (Entry P) → Outcome (Unit {0})
  refuse_if_any [] = ok tt
  refuse_if_any (x ∷ xs) = throws append_condition_error

  unfoldable pub refuse_conflicts : EventLog P → AppendCondition → Outcome (Unit {0})
  refuse_conflicts log condition = do
    checks ← traverse compile_read (reads_of condition)
    refuse_if_any (conflicting log.events checks)

  -- `if (condition) refuseConflicts(condition)`
  abbrev pub refuse_if_given : EventLog P → Option AppendCondition → Outcome (Unit {0})
  refuse_if_given log none = ok tt
  refuse_if_given log (some condition) = refuse_conflicts log condition

  abbrev pub push_event : EventLog P → EventMessage P → EventLog P
  push_event log event = record {
    events = log.events ++ record { position = log.next_position; event = event } ∷ [];
    next_position = log.next_position + 1;
  }

  -- The loop that gives each new event the next position.
  unfoldable pub push_all : EventLog P → List (EventMessage P) → EventLog P
  push_all log [] = log
  push_all log (event ∷ rest) = push_all (push_event log event) rest

  abbrev pub last_position : List (Entry P) → ℤ
  last_position [] = negsuc 0
  last_position (e ∷ []) = pos e.position
  last_position (e ∷ f ∷ es) = last_position (f ∷ es)

  unfoldable pub matching : List (Entry P) → ℕ → EventCriteria → List (Entry P)
  matching events start criteria =
      filter (λ e. matches_criteria e.event criteria) (filter (λ e. leb start e.position) events)

  unfoldable pub source : EventLog P → SourcingCondition → Outcome (SourcingResult P)
  unfolding matching
  source log condition = do
    criteria ← compile_query condition.query
    ok (record {
      events = map (λ e. e.event) (matching log.events (start_of condition) criteria);
      marker = record { position = last_position log.events };
    })

  -- The state after the call, and the marker that it returns.
  unfoldable pub append :
      EventLog P
      → List (EventMessage P)
      → Option AppendCondition
      → Outcome (EventLog P × ConsistencyMarker)
  append log new_events condition = do
    _ ← refuse_if_given log condition
    let log' = push_all log new_events
    ok (log', record { position = before log'.next_position })

  unfoldable pub append_events :
      EventLog P
      → List (EventMessage P)
      → Option AppendCondition
      → Outcome (EventLog P × AppendTransaction)
  append_events log new_events condition = do
    _ ← refuse_if_given log condition
    let log' = push_all log new_events
    ok (
      log',
      record {
        start_position = log.next_position;
        end_position = before log'.next_position;
        committed = false;
      },
    )

  abbrev pub keep_before : ℕ → Entry P → List (Entry P) → List (Entry P)
  keep_before start e [] = if leb start e.position then [] else e ∷ []
  keep_before start e (f ∷ fs) = e ∷ f ∷ fs

  -- `while (the last position >= start) pop`: the list without its longest tail of such entries.
  unfoldable pub drop_staged : ℕ → List (Entry P) → List (Entry P)
  drop_staged start [] = []
  drop_staged start (e ∷ es) = keep_before start e (drop_staged start es)

  unfoldable pub rollback : EventLog P → AppendTransaction → EventLog P
  unfolding drop_staged
  rollback log tx = if tx.committed then log else record {
    events = drop_staged tx.start_position log.events;
    next_position = tx.start_position;
  }

  unfoldable pub get_head_position : EventLog P → ℕ
  get_head_position log = log.next_position

  unfoldable pub latest_token : EventLog P → TrackingToken
  latest_token log = global_sequence log.next_position
