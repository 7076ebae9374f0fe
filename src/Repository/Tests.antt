-- ===== src/Repository/Tests.antt =====
-- The repository's theorems at a state that counts a cart's events.
use kronos_ts.Common.{ℕ, suc, ◌≡◌, refl, true, false, none, some, [], ◌∷◌}
use kronos_ts.Common.Int.{pos}
use kronos_ts.Common.Text.{Text, str}
use kronos_ts.Common.Map.{get, set}
use kronos_ts.Outcome.{Outcome, ok}
use kronos_ts.Messages.{EventMessage, tags_from_record, qualified_name_to_string}
use kronos_ts.Query.{one, compile_query, compile_item, matches_criteria}
use kronos_ts.EventStore.{
  EventLog, source, sourcing_condition, without_snapshot_key, append, push_all, matching,
}
use kronos_ts.EventStore.Flush.{SourcingInfo}
use kronos_ts.Repository.Fitness.{
  Value, array, number, no_values, null, object, no_fields, one_field, text, boolean, undefined,
  one_value, matches_initial_structure,
}
use kronos_ts.Repository.{
  State, Cache, load, do_load, source_snapshotting, fold_events, apply_event, store_snapshot,
  after_events, when_sourcing_time_exceeds,
}
use kronos_ts.Repository.Sound.{replay_all}
use kronos_ts.Repository.Sessions.{wrapped, appended, loaded, load_transparent, loaded_of}

abbrev event_of : Text → EventMessage ℕ
event_of cart = record {
  identifier = str "e";
  name = record { namespace = str "shop"; name = str "Added" };
  payload = 5;
  metadata = [];
  version = str "1";
  timestamp = 0;
  tags = record { key = str "cart"; value = cart } ∷ [];
}

abbrev incremented : Value → Outcome Value
incremented (number (pos n)) = ok (number (pos (suc n)))
incremented v = ok v

abbrev cart_state : State ℕ
cart_state = record {
  query = λ id. one (record { tags = some ((str "cart", id) ∷ []); types = none });
  initial = λ id. number (pos 0);
  evolvers =
      (record { namespace = str "shop"; name = str "Added" }, λ state event. incremented state)
      ∷ [];
  snapshot = some (record { key = str "c"; due = after_events 0 });
}

abbrev first_log : EventLog ℕ
first_log = record {
  events = record { position = 0; event = event_of (str "a") } ∷ [];
  next_position = 1;
}

abbrev later_log : EventLog ℕ
later_log = record {
  events =
      record { position = 0; event = event_of (str "a") }
      ∷ record { position = 1; event = event_of (str "b") }
      ∷ record { position = 2; event = event_of (str "a") }
      ∷ [];
  next_position = 3;
}

abbrev result_at : ℕ → ℕ → Value × SourcingInfo
result_at count last =
    (number (pos count), record { query = cart_state.query (str "a"); marker_position = pos last })

abbrev cached : ℕ → ℕ → Cache
cached count last =
    some ((str "c:a", record { state = number (pos count); position = pos last }) ∷ [])

first_load : load cart_state 3 true (str "a") first_log (some []) ≡ ok (result_at 1 0, cached 1 0)
unfolding load do_load source_snapshotting sourcing_condition without_snapshot_key source
    compile_query compile_item tags_from_record matches_criteria matching fold_events apply_event
    store_snapshot after_events get set qualified_name_to_string
first_load = refl

two_appended :
    append first_log (event_of (str "b") ∷ event_of (str "a") ∷ []) none
    ≡ ok (later_log, record { position = pos 2 })
unfolding append push_all
two_appended = refl

-- The second load folds one event on the cached state.
second_load :
    load cart_state 3 true (str "a") later_log (cached 1 0) ≡ ok (result_at 2 2, cached 2 2)
unfolding load do_load source_snapshotting sourcing_condition without_snapshot_key source
    compile_query compile_item tags_from_record matches_criteria matching fold_events apply_event
    store_snapshot after_events get set qualified_name_to_string matches_initial_structure
second_load = refl

-- A cached state of another shape is left, and its entry written anew.
unfit_load :
    load cart_state 3 true
      (str "a")
      later_log
      (some ((str "c:a", record { state = null; position = pos 0 }) ∷ []))
    ≡ ok (result_at 2 2, cached 2 2)
unfolding load do_load source_snapshotting sourcing_condition without_snapshot_key source
    compile_query compile_item tags_from_record matches_criteria matching fold_events apply_event
    store_snapshot after_events get set qualified_name_to_string matches_initial_structure
unfit_load = refl

-- An array's first element is the type of all, also of its own later elements.
mixed_array :
    matches_initial_structure
      (array (one_value (text []) (one_value (boolean true) no_values)))
      (array (one_value (text []) (one_value (boolean true) no_values)))
    ≡ false
unfolding matches_initial_structure
mixed_array = refl

-- A field that is undefined may be missing, another may not.
missing_field :
    matches_initial_structure
      (object (one_field (str "a") undefined (one_field (str "b") null no_fields)))
      (object no_fields)
    ≡ false
unfolding matches_initial_structure
missing_field = refl

slow_enough : when_sourcing_time_exceeds 50 0 50 ≡ true
unfolding when_sourcing_time_exceeds
slow_enough = refl

load_transparent_example :
    loaded_of cart_state (load cart_state 3 false (str "a") later_log (cached 1 0))
    ≡ replay_all cart_state (str "a") later_log
load_transparent_example = load_transparent cart_state later_log (cached 1 0) 3 false (str "a") (
    appended first_log later_log (cached 1 0) (event_of (str "b") ∷ event_of (str "a") ∷ []) none
      (record { position = pos 2 })
      (loaded first_log (some []) (cached 1 0) 3 true (str "a") (result_at 1 0)
        (wrapped (refl, refl)) first_load)
      two_appended)
