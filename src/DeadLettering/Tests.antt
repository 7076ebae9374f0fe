-- ===== src/DeadLettering/Tests.antt =====
-- Dead lettering's theorems at a lane with one letter.
use kronos_ts.Common.{ℕ, suc, if◌then◌else◌, ◌≡◌, refl, false, none, List, [], ◌∷◌}
use kronos_ts.Common.Text.{Text, str, text_eq}
use kronos_ts.Common.Map.{get, set}
use kronos_ts.Outcome.{ok, throws, handler_error}
use kronos_ts.DeadLetterQueue.{lanes, enqueue_if_present}
use kronos_ts.Processor.{SequencedEvent}
use kronos_ts.DeadLettering.{
  Letter, LetterQueue, Target, Delivery, failed_letter, blocked_letter, deliver, deliver_handled,
  deliver_all, run_targets,
}
use kronos_ts.DeadLettering.Parking.{LaneIs, IsParkedBehind, is_of_lane, of_lane, parked_in_order}
use kronos_ts.DeadLettering.Blocked.{IsOverflow, delivery_overflows, parked_unhandled}

abbrev lettered : Text → ℕ → SequencedEvent ℕ
lettered lane n = record {
  event = record {
    identifier = lane;
    name = record { namespace = str "n"; name = str "e" };
    payload = n;
    metadata = [];
    version = [];
    timestamp = 0;
    tags = [];
  };
  sequence = n;
  token = none;
}

-- The lane of an event is its identifier.
abbrev by_identifier : Delivery ℕ
by_identifier = record { processing_group = str "g"; sequence = λ e. e.identifier; now = 5 }

abbrev parked_letter : Letter ℕ
parked_letter =
    failed_letter by_identifier 0 (lettered (str "a") 1)
      (record { namespace = str "n"; name = str "e" }) handler_error

abbrev one_parked : LetterQueue ℕ
one_parked = record {
  max_sequences = 4;
  max_sequence_size = 4;
  groups = (str "g", (str "a", parked_letter ∷ []) ∷ []) ∷ [];
  processing = [];
  next_identity = 1;
}

abbrev counting : Target ℕ ℕ
counting = record {
  name = record { namespace = str "n"; name = str "e" };
  handler = λ e d. (suc d, ok tt);
}

abbrev events : List (SequencedEvent ℕ)
events = lettered (str "b") 2 ∷ lettered (str "a") 3 ∷ []

abbrev after_events : LetterQueue ℕ
after_events = record {
  max_sequences = 4;
  max_sequence_size = 4;
  groups =
      (
        str "g",
        (str "a", parked_letter ∷ blocked_letter by_identifier 2 (lettered (str "a") 3) ∷ []) ∷ [],
      )
      ∷ [];
  processing = [];
  next_identity = 3;
}

lane_there : LaneIs by_identifier (str "a") (parked_letter ∷ []) one_parked
unfolding lanes get
lane_there = refl

-- The event of the other lane is handled, the one of the parked lane is not.
delivered :
    deliver_all by_identifier (λ e. counting ∷ []) events 0 one_parked ≡ ok (1, after_events)
unfolding deliver_all deliver_handled deliver enqueue_if_present run_targets lanes get set
delivered = refl

parked_in_order_example :
    IsParkedBehind by_identifier
      (str "a")
      (parked_letter ∷ [])
      (of_lane by_identifier (str "a") (λ e. counting ∷ []) events)
      after_events
parked_in_order_example =
    parked_in_order by_identifier (str "a") (λ e. counting ∷ []) events 0 1 one_parked after_events
      (parked_letter ∷ []) lane_there delivered

delivery_overflows_example :
    IsOverflow (deliver_all by_identifier (λ e. counting ∷ []) events 0 one_parked)
delivery_overflows_example =
    delivery_overflows by_identifier (λ e. counting ∷ []) events 0 one_parked

-- A handler that always fails, for the parked lane's events.
abbrev failing_there : SequencedEvent ℕ → List (Target ℕ ℕ)
failing_there e =
    (if text_eq e.event.identifier (str "a")
      then record counting { handler = λ e d. (d, throws handler_error) }
      else counting)
    ∷ []

agree :
    (e : SequencedEvent ℕ)
    → is_of_lane by_identifier (str "a") e ≡ false
    → counting ∷ [] ≡ failing_there e
agree e h = rw h refl

parked_unhandled_example :
    deliver_all by_identifier (λ e. counting ∷ []) events 0 one_parked
    ≡ deliver_all by_identifier failing_there events 0 one_parked
parked_unhandled_example =
    parked_unhandled by_identifier (str "a") (λ e. counting ∷ []) failing_there events 0 one_parked
      (parked_letter ∷ []) agree (λ e. refl) lane_there
