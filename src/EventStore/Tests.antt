-- ===== src/EventStore/Tests.antt =====
-- The event store's theorems at a small log of two events of two carts.
use kronos_ts.Common.{
  ℕ, ◌≡◌, ◌↔◌, refl, true, false, none, some, [], ◌∷◌, map, filter, leb, ◌&&◌, All, ◌⊎◌, arith,
}
use kronos_ts.Common.Int.{pos}
use kronos_ts.Common.Text.{Text, str}
use kronos_ts.Outcome.{ok, throws, append_condition_error, ◌>>=◌}
use kronos_ts.Messages.{tags_from_record, EventMessage}
use kronos_ts.Query.{
  EventQuery, one, compile_query, compile_item, matches_criteria, EventCriteria, tags,
}
use kronos_ts.EventStore.{
  EventLog, push_all, source, append_events, append, AppendCondition, AppendTransaction,
  SourcingResult, refuse_conflicts, rollback, commit, after_commit,
}
use kronos_ts.EventStore.Reading.{wanted}
use kronos_ts.EventStore.Log.{Extends, push_all-Extends}
use kronos_ts.EventStore.Dcb.{Seen, reading, StillHolds, to_read, refuse_conflicts_iff}
use kronos_ts.EventStore.Flush.{flush, flush_exact, info_of}
use kronos_ts.EventStore.Staging.{rollback-append_events, append-append_events}
use kronos_ts.EventStore.Stream.{drain, drain-eq-ahead}

abbrev event_of : Text → EventMessage ℕ
event_of cart = record {
  identifier = str "e";
  name = record { namespace = str "shop"; name = str "Added" };
  payload = 5;
  metadata = [];
  version = str "1";
  timestamp = 0;
  tags = record { key = str "cart"; value = cart } ∷ [];
}

abbrev one_event : EventLog ℕ
one_event = record {
  events = record { position = 0; event = event_of (str "a") } ∷ [];
  next_position = 1;
}

abbrev two_events : EventLog ℕ
two_events = record {
  events =
      record { position = 0; event = event_of (str "a") }
      ∷ record { position = 1; event = event_of (str "b") }
      ∷ [];
  next_position = 2;
}

abbrev cart_query : EventQuery
cart_query = one (record { tags = some ((str "cart", str "a") ∷ []); types = none })

abbrev found : SourcingResult ℕ
found = record { events = event_of (str "a") ∷ []; marker = record { position = pos 0 } }

source_cart : source one_event (reading cart_query) ≡ ok found
unfolding source compile_query compile_item tags_from_record matches_criteria
source_cart = refl

-- The cart's read, made when the log had one event.
abbrev seen : Seen two_events
seen = record {
  query = cart_query;
  log = one_event;
  valid = (refl, refl);
  extends = push_one;
  result = found;
  sourced = source_cart;
}
  where
    push_one : Extends one_event two_events
    push_one = record {
      more = record { position = 1; event = event_of (str "b") } ∷ [];
      events = refl;
      numbered = (refl, refl);
    }

-- The other cart's event does not stand in the way of a flush.
flush_exact_example :
    ((flush two_events
          (record {
            buffered = event_of (str "a") ∷ [];
            sourcing_infos = map info_of (seen ∷ []);
            flush_registered = true;
          })
          none
        ≡ ok (push_all two_events (event_of (str "a") ∷ [])))
      × All StillHolds (seen ∷ []))
    ⊎ ((flush two_events
            (record {
              buffered = event_of (str "a") ∷ [];
              sourcing_infos = map info_of (seen ∷ []);
              flush_registered = true;
            })
            none
          ≡ throws append_condition_error)
        × ¬ All StillHolds (seen ∷ []))
flush_exact_example = flush_exact two_events (seen ∷ []) (event_of (str "a")) [] true

abbrev condition : AppendCondition
condition = record {
  query = cart_query;
  marker = record { position = pos 0 };
  reads = some (map to_read (seen ∷ []));
}

refuse_conflicts_iff_example :
    (refuse_conflicts two_events condition ≡ ok tt) ↔ All StillHolds (seen ∷ [])
refuse_conflicts_iff_example = refuse_conflicts_iff condition (seen ∷ []) refl

abbrev staged : AppendTransaction
staged = record { start_position = 1; end_position = pos 1; committed = false }

staging : append_events one_event (event_of (str "b") ∷ []) none ≡ ok (two_events, staged)
unfolding append_events push_all
staging = refl

rollback-append_events_example :
    rollback (push_all two_events (event_of (str "a") ∷ [])) staged ≡ one_event
rollback-append_events_example =
    rollback-append_events one_event two_events (push_all two_events (event_of (str "a") ∷ []))
      (event_of (str "b") ∷ []) none staged (refl, refl) staging
      (push_all-Extends two_events (event_of (str "a") ∷ []))

append-append_events_example : append two_events (event_of (str "a") ∷ []) (some condition) ≡ (do
  (log, tx) ← append_events two_events (event_of (str "a") ∷ []) (some condition)
  ok (log, after_commit (commit tx)))
append-append_events_example =
    append-append_events two_events (event_of (str "a") ∷ []) (some condition)

abbrev cart_b : EventCriteria
cart_b = tags (record { key = str "cart"; value = str "b" } ∷ [])

drain-eq-ahead_example :
    drain 2 two_events (record { cursor = 0; criteria = some cart_b; closed = false })
    ≡ filter (λ e. leb 0 e.position && wanted (some cart_b) e.event) two_events.events
drain-eq-ahead_example =
    drain-eq-ahead 2 two_events 0 (some cart_b) (refl, (refl, refl)) (omega arith)
