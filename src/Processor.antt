-- ===== src/Processor.antt =====
-- A running processor: packages/core/src/event-processing/running-processor.ts. `P` is the payloads'
-- type, and `D` the database that handlers change inside the unit of work's transaction.
pub mod Batch
pub mod Worker
pub mod Poll
pub mod Advance
pub mod Between
pub mod Effect
pub mod Progress
pub mod Committed
pub mod Steps
pub mod ExactlyOnce
pub mod Opened
pub mod Pace
pub mod Healthy
pub mod CatchUp
pub mod Reset
pub mod AllOrNothing
pub mod Replays
mod Tests
use kronos_ts.Common.{
  ℕ, suc, ◌+◌, Bool, true, false, not, ◌&&◌, Option, none, some, List, [], ◌∷◌, ◌++◌, map,
  if◌then◌else◌,
}
use kronos_ts.Common.Text.{Text}
use kronos_ts.Common.Map.{Map, get, set, has}
use kronos_ts.Outcome.{Outcome, ok, throws, Failure, ◌>>=◌}
use kronos_ts.Messages.{EventMessage, QualifiedName, qualified_name_to_string}
use kronos_ts.Segment.{Segment, in_segment, sequence_hash}
use kronos_ts.Token.{
  TrackingToken, global_sequence, replay, merged, covers, handled_by_merged_half, advance_token_to,
}

-- An event as a stream hands it out.
pub record SequencedEvent (P : Type 0) : Type 0 where
  pub event : EventMessage P
  pub sequence : ℕ
  pub token : Option TrackingToken

-- `definition.handler`, given whether the delivery is part of a replay. What it reads outside the
-- transaction is a `W`.
pub record HandlerEntry (P W D : Type 0) : Type 0 where
  pub name : QualifiedName
  pub handler : W → Bool → SequencedEvent P → D → Outcome D

-- An event of a batch with its entries in the arrays `replaying` and `fresh`.
pub record Marked (P : Type 0) : Type 0 where
  pub item : SequencedEvent P
  pub replaying : Bool
  pub fresh : Bool

-- `isReplayToken(token) && token.tokenAtReset.covers(past)`
unfoldable pub is_within_replay : TrackingToken → TrackingToken → Bool
is_within_replay (replay reset current) past = covers reset past
is_within_replay _ past = false

-- `isMergedToken(token) && handledByMergedHalf(token, hash, past)`
unfoldable pub is_past_merge : TrackingToken → ℕ → TrackingToken → Bool
is_past_merge (merged mask s₀ t₀ s₁ t₁) hash past =
    handled_by_merged_half mask s₀ t₀ s₁ t₁ hash past
is_past_merge _ hash past = false

abbrev token_or_next : ℕ → Option TrackingToken → TrackingToken
token_or_next sequence none = global_sequence (suc sequence)
token_or_next sequence (some token) = token

module _ {P : Type 0} where
  -- `sequencedEvent.token ?? globalSequenceToken(sequencedEvent.sequence + 1n)`
  abbrev pub past_of : SequencedEvent P → TrackingToken
  past_of e = token_or_next e.sequence e.token

  -- The two flags of an event of the batch, where the batch's token has got to `token`.
  abbrev pub marks_at : (EventMessage P → ℕ) → TrackingToken → SequencedEvent P → Marked P
  marks_at hash token e = record {
    item = e;
    replaying = is_within_replay token (past_of e);
    fresh = not (is_past_merge token (hash e.event) (past_of e));
  }

  -- The first loop of `processBatch`: the flags of each event, and `batchEndToken`.
  unfoldable pub mark_batch :
      (EventMessage P → ℕ)
      → TrackingToken
      → List (SequencedEvent P)
      → List (Marked P) × TrackingToken
  mark_batch hash token [] = ([], token)
  mark_batch hash token (e ∷ batch) =
      let rest = mark_batch hash (advance_token_to token (past_of e)) batch in
      (marks_at hash token e ∷ rest.0, rest.1)

  -- `hashOf`
  unfoldable pub hash_of : Option (EventMessage P → Text) → EventMessage P → ℕ
  hash_of none event = 0
  hash_of (some sequence_of) event = sequence_hash (sequence_of event)

module _ {P W D : Type 0} where
  abbrev bucket_of : Option (List (HandlerEntry P W D)) → List (HandlerEntry P W D)
  bucket_of none = []
  bucket_of (some bucket) = bucket

  abbrev add_entry :
      Map (List (HandlerEntry P W D)) → HandlerEntry P W D → Map (List (HandlerEntry P W D))
  add_entry m entry =
      let name = qualified_name_to_string entry.name in
      set name (bucket_of (get name m) ++ entry ∷ []) m

  -- The loop that fills `handlerMap`.
  unfoldable pub add_handlers :
      Map (List (HandlerEntry P W D)) → List (HandlerEntry P W D) → Map (List (HandlerEntry P W D))
  add_handlers m [] = m
  add_handlers m (entry ∷ entries) = add_handlers (add_entry m entry) entries

  unfoldable pub handler_map : List (HandlerEntry P W D) → Map (List (HandlerEntry P W D))
  unfolding add_handlers
  handler_map handlers = add_handlers [] handlers

  unfoldable pub handled_event : Map (List (HandlerEntry P W D)) → EventMessage P → Bool
  handled_event handlers event = has (qualified_name_to_string event.name) handlers

  -- `accepts` of a worker, where no `sequenceOf` gives each event the hash 0.
  unfoldable pub accepts :
      Map (List (HandlerEntry P W D)) → (EventMessage P → ℕ) → Segment → SequencedEvent P → Bool
  accepts handlers hash segment e =
      handled_event handlers e.event && in_segment segment (hash e.event)

  -- `await` of one handler after the other: the first error ends the loop.
  unfoldable pub run_handlers :
      List (HandlerEntry P W D) → W → Bool → SequencedEvent P → D → Outcome D
  run_handlers [] outside replaying e d = ok d
  run_handlers (entry ∷ entries) outside replaying e d = do
    d' ← entry.handler outside replaying e d
    run_handlers entries outside replaying e d'

  -- `deliverEvent` of a processor without a dead letter queue.
  unfoldable pub deliver_event :
      Map (List (HandlerEntry P W D)) → W → Bool → SequencedEvent P → D → Outcome D
  deliver_event handlers outside replaying e d =
      run_handlers (bucket_of (get (qualified_name_to_string e.event.name) handlers)) outside
        replaying e d

module _ {P D : Type 0} where
  -- The loop over the batch inside the unit of work: an event that is not fresh is passed over.
  unfoldable pub deliver_batch :
      (Bool → SequencedEvent P → D → Outcome D) → List (Marked P) → D → Outcome D
  deliver_batch deliver [] d = ok d
  deliver_batch deliver (m ∷ batch) d = do
    d' ← (if m.fresh then deliver m.replaying m.item d else ok d)
    deliver_batch deliver batch d'
