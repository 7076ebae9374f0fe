-- ===== src/EventStore/Reading.antt =====
-- The streams that `open` of packages/core/src/event-sourcing/in-memory.ts gives. `peek` is `find_next`,
-- and the callbacks that wake a reader are left out.
use kronos_ts.Common.{
  ℕ, ◌+◌, Bool, true, false, not, ◌&&◌, Option, none, some, List, [], ◌∷◌, ltb, if◌then◌else◌,
}
use kronos_ts.Outcome.{Outcome, ok, ◌>>=◌}
use kronos_ts.Messages.{EventMessage}
use kronos_ts.Query.{EventQuery, EventCriteria, compile_query, matches_criteria}
use kronos_ts.Token.{TrackingToken, global_sequence}
use kronos_ts.EventStore.{Entry, EventLog}

-- An open stream; `closed` and `cursor` are the variables that its members share.
pub record MessageStream : Type 0 where
  pub cursor : ℕ
  pub criteria : Option EventCriteria
  pub closed : Bool

-- `condition.query ? compileQuery(condition.query) : undefined`
abbrev compile_optional : Option EventQuery → Outcome (Option EventCriteria)
compile_optional none = ok none
compile_optional (some q) = do c ← compile_query q; ok (some c)

unfoldable pub open_stream : ℕ → Option EventQuery → Outcome MessageStream
open_stream position query = do
  c ← compile_optional query
  ok (record { cursor = position; criteria = c; closed = false })

module _ {P : Type 0} where
  abbrev pub wanted : Option EventCriteria → EventMessage P → Bool
  wanted none event = true
  wanted (some c) event = matches_criteria event c

  -- The loop of `findNext`.
  unfoldable pub find_from : ℕ → Option EventCriteria → List (Entry P) → Option (Entry P)
  find_from cursor criteria [] = none
  find_from cursor criteria (e ∷ es) =
      let rest = find_from cursor criteria es in
      if ltb e.position cursor
      then rest
      else (if not (wanted criteria e.event) then rest else some e)

  unfoldable pub find_next : EventLog P → MessageStream → Option (Entry P)
  unfolding find_from
  find_next log stream =
      if stream.closed then none else find_from stream.cursor stream.criteria log.events

  unfoldable pub next : EventLog P → MessageStream → MessageStream × Option (Entry P)
  next log stream = elim (find_next log stream) [
    | none ↦ (stream, none)
    | some item ↦ (record stream { cursor = item.position + 1 }, some item)
  ]

  unfoldable pub has_next_available : EventLog P → MessageStream → Bool
  has_next_available log stream = elim (find_next log stream) [ none ↦ false | some item ↦ true ]

  -- Only a filtered stream has a `progressToken`.
  unfoldable pub progress_token : EventLog P → MessageStream → Option TrackingToken
  progress_token log stream = elim stream.criteria [
    | none ↦ none
    | some c ↦
        if not (has_next_available log stream) && not stream.closed
        then some (global_sequence log.next_position)
        else none
  ]

unfoldable pub close : MessageStream → MessageStream
close stream = record stream { closed = true }
