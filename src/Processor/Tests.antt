-- ===== src/Processor/Tests.antt =====
-- The processor's theorems at a log of three events and a handler that notes what it is given.
use kronos_ts.Common.{
  ℕ, suc, ◌≡◌, ◌≤◌, refl, Bool, true, false, none, some, List, [], ◌∷◌, ◌++◌, map, length,
  Bool-cases, inl, inr, arith,
}
use kronos_ts.Common.Text.{Text, str, text_eq, to_decimal}
use kronos_ts.Common.Map.{get, has}
use kronos_ts.Outcome.{Outcome, ok, throws, handler_error}
use kronos_ts.Messages.{EventMessage, qualified_name_to_string}
use kronos_ts.Segment.{whole, in_segment}
use kronos_ts.Token.{global_sequence, position, max_safe_integer, is_replaying}
use kronos_ts.TokenStore.{Entries, key, owned_by}
use kronos_ts.Processor.{
  SequencedEvent, HandlerEntry, deliver_event, deliver_batch, run_handlers, hash_of, marks_at,
  mark_batch, is_past_merge, accepts, handled_event,
}
use kronos_ts.Processor.Worker.{Settings, Log, State, Turn, token_or_zero, take_batch, target_size}
use kronos_ts.Processor.Poll.{accepted, ready, start_worker, poll, run_batch}
use kronos_ts.Processor.Advance.{IsProgress, plain_progress}
use kronos_ts.Processor.Batch.{IsPlaced}
use kronos_ts.Processor.Between.{ahead, between}
use kronos_ts.Processor.Effect.{IsLog, apply_all}
use kronos_ts.Processor.ExactlyOnce.{Act, grows, polls, renews, run, exactly_once}
use kronos_ts.Processor.Healthy.{IsHealthy, IsHeld, healthy-IsFaithful}
use kronos_ts.Processor.CatchUp.{catches_up}
use kronos_ts.Processor.Pace.{WaitsAtMost, waits_bounded}
use kronos_ts.Processor.Reset.{Resetter, reset_token}
use kronos_ts.Processor.Replays.{IsReplayOf, replays_exactly}
use kronos_ts.Token.Merge.{handled}
use kronos_ts.Token.{TrackingToken, merged, handled_by_merged_half, covers, reached_by}
use kronos_ts.Processor.{is_within_replay}

abbrev event : Text → EventMessage ℕ
event name = record {
  identifier = [];
  name = record { namespace = str "n"; name = name };
  payload = 0;
  metadata = [];
  version = [];
  timestamp = 0;
  tags = [];
}

abbrev at_sequence : ℕ → Text → SequencedEvent ℕ
at_sequence n name = record { event = event name; sequence = n; token = none }

-- The handler of events called "e" notes the sequence.
abbrev noting : HandlerEntry ℕ (Unit {0}) (List ℕ)
noting = record {
  name = record { namespace = str "n"; name = str "e" };
  handler = λ outside replaying e d. ok (d ++ e.sequence ∷ []);
}

abbrev settings : Settings ℕ (Unit {0}) (List ℕ)
settings = record {
  name = str "p";
  owner = str "o";
  segment = whole;
  handlers = (str "n.e", noting ∷ []) ∷ [];
  sequence_of = none;
  batch_size = some 2;
  polling_interval_ms = 500;
  commit = λ outside d. ok d;
}

abbrev log : Log ℕ
log = record {
  events = at_sequence 0 (str "e") ∷ at_sequence 1 (str "f") ∷ at_sequence 2 (str "e") ∷ [];
  head = 3;
}

abbrev entries : Entries
entries = (key (str "p") 0, record { token = none; owner_id = some (str "o"); claimed_at = 0 }) ∷ []

abbrev result_or : List ℕ → Outcome (List ℕ) → List ℕ
result_or d (ok d') = d'
result_or d (throws error) = d

-- What a delivery does.
abbrev noted : Bool → SequencedEvent ℕ → List ℕ → List ℕ
noted replaying e d = result_or d (deliver_event settings.handlers tt replaying e d)

notes :
    (r : Bool) (e : SequencedEvent ℕ) (d : List ℕ)
    → deliver_event settings.handlers tt r e d ≡ ok (noted r e d)
unfolding deliver_event run_handlers get
notes r e d = elim (Bool-cases (text_eq (str "n.e") (qualified_name_to_string e.event.name))) [
  | inl y ↦ rw y refl
  | inr y ↦ rw y refl
]

healthy : IsHealthy settings noted
healthy = record { delivers = λ outside r e d. notes r e d; commits = λ outside d. refl }

abbrev turn : Turn (Unit {0})
turn = record { now = 5; outside = tt; backlog_end = none; broken = false; looked = none }

abbrev start : State (List ℕ) × Log ℕ
start = (record { worker = start_worker settings none; database = []; entries = entries }, log)

-- Two polls, with an event appended between them, and a renewal.
abbrev acts : List (Act ℕ (Unit {0}))
acts = polls turn ∷ grows (at_sequence 4 (str "e") ∷ []) 5 ∷ polls turn ∷ renews 9 ∷ []

starts_well : IsProgress (token_or_zero none)
starts_well = plain_progress (tt, omega arith)

placed : (n : ℕ) → suc n ≤ max_safe_integer → IsPlaced (at_sequence n (str "e"))
unfolding position
placed n le = ((tt, le), refl)

ascends : IsLog log
ascends = (
  (
    omega arith,
    placed 0 (omega arith),
    (omega arith, placed 1 (omega arith), (omega arith, placed 2 (omega arith), tt)),
  ),
  omega arith,
)

exactly_once_example :
    (position (global_sequence 0) ≤ position (run settings acts start).0.worker.token)
    × ((run settings acts start).0.database
        ≡ apply_all noted
            (map (marks_at (hash_of none) (global_sequence 0)) (
              between
                (accepted settings)
                (position (global_sequence 0))
                (position (run settings acts start).0.worker.token)
                (run settings acts start).1.events))
            [])
exactly_once_example =
    exactly_once settings noted none [] entries log acts (healthy-IsFaithful settings noted healthy)
      (omega arith) starts_well ascends
      (tt, (((omega arith, placed 4 (omega arith), tt), omega arith), (tt, (tt, tt))))

holds_claim : IsHeld settings entries
unfolding get owned_by key to_decimal
holds_claim = refl

few_ahead : length (ahead (accepted settings) (position (global_sequence 0)) log.events) ≤ 2
unfolding position accepts handled_event in_segment get has qualified_name_to_string
few_ahead = omega arith

-- Two of the three events are accepted: two polls deliver them.
catches_up_example :
    (run settings (map polls (turn ∷ turn ∷ [])) start).0.database
    ≡ apply_all noted
        (map
          (marks_at (hash_of none) (global_sequence 0))
          (ahead (accepted settings) (position (global_sequence 0)) log.events))
        []
catches_up_example =
    catches_up settings noted none [] entries log (turn ∷ turn ∷ []) healthy (omega arith)
      starts_well ascends holds_claim ((refl, tt), ((refl, tt), tt)) few_ahead

-- A handler that fails.
abbrev failing : Settings ℕ (Unit {0}) (List ℕ)
failing = record settings {
  handlers =
      (str "n.e", record noting { handler = λ outside replaying e d. throws handler_error } ∷ [])
      ∷ [];
}

abbrev first_state : State (List ℕ)
first_state = record { worker = start_worker failing none; database = []; entries = entries }

first_batch :
    take_batch (target_size failing.batch_size none first_state.worker) (ready failing log 0)
    ≡ at_sequence 0 (str "e") ∷ at_sequence 2 (str "e") ∷ []
unfolding target_size accepts handled_event in_segment get has start_worker position is_replaying
    qualified_name_to_string
first_batch = refl

first_batch_fails :
    run_batch failing turn first_state.worker.token
      (at_sequence 0 (str "e") ∷ at_sequence 2 (str "e") ∷ [])
      []
      entries
    ≡ throws handler_error
unfolding run_batch deliver_batch deliver_event run_handlers get mark_batch is_past_merge
    start_worker qualified_name_to_string
first_batch_fails = refl

waits_bounded_example :
    (1000 ≤ (run failing acts (first_state, log)).0.worker.retry_delay_ms)
    × ((run failing acts (first_state, log)).0.worker.retry_delay_ms ≤ 60000)
    × WaitsAtMost 60000
        (poll failing turn
          (run failing acts (first_state, log)).1
          (run failing acts (first_state, log)).0).1
waits_bounded_example = waits_bounded failing none [] entries log acts turn

-- Segment 0 is free and segment 1 another node's.
abbrev two_segments : Entries
two_segments =
    (key (str "p") 0, record { token = some (global_sequence 7); owner_id = none; claimed_at = 0 })
    ∷ (
      key (str "p") 1,
      record { token = some (global_sequence 4); owner_id = some (str "n"); claimed_at = 5 },
    )
    ∷ []

abbrev resetter : Resetter
resetter = record { name = str "p"; owner = str "o"; timeout_ms = 10; now = 6 }

-- A segment that had got to 7, reset to 2.
replays_exactly_example :
    IsReplayOf ℕ 2 (global_sequence 7) (reset_token (global_sequence 2) (some (global_sequence 7)))
replays_exactly_example =
    replays_exactly ℕ 2 (global_sequence 7) (omega arith) (plain_progress (tt, omega arith))

-- The halves of a merged segment at 5 and 9, reset to 3.
abbrev halves : TrackingToken
halves = merged 1 0 (global_sequence 5) 1 (global_sequence 9)

-- The event at 7 of the half at 5, which that half had not handled, is a replay.
unhandled : handled halves 0 (global_sequence 8) ≡ false
unfolding handled_by_merged_half covers
unhandled = refl

flagged :
    marks_at
      (λ (e : EventMessage ℕ). 0)
      (reset_token (global_sequence 3) (some halves))
      (at_sequence 7 (str "e"))
    ≡ record { item = at_sequence 7 (str "e"); replaying = true; fresh = true }
unfolding reset_token reached_by covers is_within_replay is_past_merge
flagged = refl
