-- ===== src/EventStore/Flush.antt =====
-- The flush of a unit of work: packages/core/src/unit-of-work/event-flush.ts, with the buffer that
-- unit-of-work.ts keeps and the in-memory log as its store.
use kronos_ts.Common.{
  ◌≡◌, refl, ap, sym, ◌∙◌, Bool, true, false, Option, none, some, List, [], ◌∷◌, ◌++◌, map,
  if◌then◌else◌, All, ◌⊎◌, inl, inr,
}
use kronos_ts.Common.Int.{ℤ, ltbℤ}
use kronos_ts.Outcome.{Outcome, ok, throws, append_condition_error, ◌>>=◌, ok-throws}
use kronos_ts.Messages.{EventMessage}
use kronos_ts.Query.{EventQuery, QueryItem, several, query_items}
use kronos_ts.EventStore.{
  EventLog, AppendCondition, AppendConditionRead, ConsistencyMarker, append, push_all,
}
use kronos_ts.EventStore.Dcb.{
  Seen, criteria_of, seen-compiled, query_items_of_compiled, refuse_conflicts_cases, StillHolds,
  to_read, refuse_conflicts_iff,
}

pub record SourcingInfo : Type 0 where
  pub query : EventQuery
  pub marker_position : ℤ

pub record EventBuffer (P : Type 0) : Type 0 where
  pub buffered : List (EventMessage P)
  pub sourcing_infos : List SourcingInfo
  pub flush_registered : Bool

-- `registerEventFlush`: the buffer afterwards, and whether the flush was put into PREPARE_COMMIT.
unfoldable pub register_event_flush : {P : Type 0} → EventBuffer P → EventBuffer P × Bool
register_event_flush buffer =
    if buffer.flush_registered
    then (buffer, false)
    else (record buffer { flush_registered = true }, true)

-- `sourcingInfos.flatMap((s) => queryItems(s.query))`
abbrev pub combined : List SourcingInfo → Outcome (List QueryItem)
combined [] = ok []
combined (s ∷ ss) = do items ← query_items s.query; rest ← combined ss; ok (items ++ rest)

-- The `reduce` to the earliest marker.
abbrev pub earliest : ℤ → List SourcingInfo → ℤ
earliest least [] = least
earliest least (s ∷ ss) =
    earliest (if ltbℤ s.marker_position least then s.marker_position else least) ss

abbrev pub read_of : SourcingInfo → AppendConditionRead
read_of s = record { query = s.query; marker = record { position = s.marker_position } }

-- The condition that the flush builds; the first argument is `options.appendCondition`, which gets
-- the combined items.
unfoldable pub flush_condition :
    Option (EventQuery → EventQuery) → List SourcingInfo → Outcome (Option AppendCondition)
flush_condition override [] = ok none
flush_condition override (s ∷ ss) = do
  items ← combined (s ∷ ss)
  let marker : ConsistencyMarker = record { position = earliest s.marker_position (s ∷ ss) }
  ok (
      some (elim override [
        | some f ↦ record { query = f (several items); marker = marker; reads = none }
        | none ↦ record {
          query = several items;
          marker = marker;
          reads = some (map read_of (s ∷ ss));
        }
      ]))

module _ {P : Type 0} where
  -- The action that `registerEventFlush` puts into PREPARE_COMMIT. Nothing is written for an
  -- empty buffer.
  unfoldable pub flush :
      EventLog P → EventBuffer P → Option (EventQuery → EventQuery) → Outcome (EventLog P)
  flush log buffer override = elim buffer.buffered [
    | [] ↦ ok log
    | event ∷ rest ↦ do
      condition ← flush_condition override buffer.sourcing_infos
      (log', marker) ← append log (event ∷ rest) condition
      ok log'
  ]

module _ {P : Type 0} {log : EventLog P} where
  -- What `ctx.load` and `ctx.source` record of a read.
  abbrev pub info_of : Seen log → SourcingInfo
  info_of s = record { query = s.query; marker_position = s.result.marker.position }

  map-read_of : (ss : List (Seen log)) → map read_of (map info_of ss) ≡ map to_read ss
  map-read_of [] = refl
  map-read_of (s ∷ ss) = rw (map-read_of ss) refl

  items_of_seen : (s : Seen log) → (items : List QueryItem) × (query_items s.query ≡ ok items)
  items_of_seen s = query_items_of_compiled s.query (criteria_of s) (seen-compiled s)

  combined-seen :
      (ss : List (Seen log)) → (items : List QueryItem) × (combined (map info_of ss) ≡ ok items)
  combined-seen [] = ([], refl)
  combined-seen (s ∷ ss) =
      let (xs, ex) = items_of_seen s in
      let (ys, ey) = combined-seen ss in (xs ++ ys, rw (ex, ey) refl)

  -- Written, with every read still holding, or refused, with one that does not.
  abbrev Flushed : List (Seen log) → List (EventMessage P) → Outcome (EventLog P) → Type 0
  Flushed ss events r =
      ((r ≡ ok (push_all log events)) × All StillHolds ss)
      ⊎ ((r ≡ throws append_condition_error) × ¬ All StillHolds ss)

  append-Flushed :
      (ss : List (Seen log)) (events : List (EventMessage P)) (condition : AppendCondition)
      → condition.reads ≡ some (map to_read ss)
      → Flushed ss events (do (log', marker) ← append log events (some condition); ok log')
  unfolding append
  append-Flushed ss events condition e =
      let (to, from) = refuse_conflicts_iff condition ss e in
      elim (refuse_conflicts_cases condition ss e) [
        | inl met ↦ rw met (inl (refl, to met))
        | inr refused ↦
            rw refused (inr (refl, λ all. absurd (ok-throws (sym (from all) ∙ refused))))
      ]

  flush-cases :
      (ss : List (Seen log)) (event : EventMessage P) (rest : List (EventMessage P))
      (registered : Bool)
      → Flushed ss (event ∷ rest) (
          flush log
            (record {
              buffered = event ∷ rest;
              sourcing_infos = map info_of ss;
              flush_registered = registered;
            })
            none)
  unfolding flush flush_condition
  flush-cases [] event rest registered = unfold append in inl (refl, tt)
  flush-cases (s ∷ ss) event rest registered =
      let (items, e) = combined-seen (s ∷ ss) in
      rw e (append-Flushed (s ∷ ss) (event ∷ rest) _ (ap some (map-read_of (s ∷ ss))))

-- Where every recorded read was one of the whole log as it was at some earlier time, and no handler
-- overrides the condition, a task's flush of a non-empty buffer either appends all of its events at the end of the log, and
-- then every read of the task, run again on the log as it is at the flush, gives the events that it
-- gave, or is refused with `AppendConditionError`, and then some read does not.
pub flush_exact :
    {P : Type 0} (log : EventLog P) (ss : List (Seen log)) (event : EventMessage P)
    (rest : List (EventMessage P)) (registered : Bool)
    → let result =
        flush log
          (record {
            buffered = event ∷ rest;
            sourcing_infos = map info_of ss;
            flush_registered = registered;
          })
          none in
      ((result ≡ ok (push_all log (event ∷ rest))) × All StillHolds ss)
      ⊎ ((result ≡ throws append_condition_error) × ¬ All StillHolds ss)
flush_exact log ss event rest registered = flush-cases ss event rest registered
