-- ===== src/Processor/Worker.antt =====
-- The variables and constants of a worker, `startWorker` of running-processor.ts, and how a failed poll
-- changes them.
use kronos_ts.Common.{
  ℕ, zero, suc, ◌*◌, min, max, Bool, true, false, not, ◌||◌, Option, none, some, List, [], ◌∷◌, ltb,
  if◌then◌else◌,
}
use kronos_ts.Common.Text.{Text}
use kronos_ts.Common.Map.{Map}
use kronos_ts.Outcome.{Outcome, Failure, unable_to_claim_token}
use kronos_ts.Messages.{EventMessage}
use kronos_ts.Segment.{Segment}
use kronos_ts.Token.{TrackingToken, global_sequence, position, is_replaying}
use kronos_ts.TokenStore.{Entries}
use kronos_ts.Processor.{SequencedEvent, HandlerEntry}

-- `MAX_RETRY_DELAY_MS` and `DEFAULT_REPLAY_BATCH_SIZE`
abbrev pub max_retry_delay_ms : ℕ
max_retry_delay_ms = 60000

abbrev pub default_replay_batch_size : ℕ
default_replay_batch_size = 1000

-- What a worker is started with. `commit` is what the unit of work does after the token's write.
pub record Settings (P W D : Type 0) : Type 0 where
  pub name : Text
  pub owner : Text
  pub segment : Segment
  pub handlers : Map (List (HandlerEntry P W D))
  pub sequence_of : Option (EventMessage P → Text)
  pub batch_size : Option ℕ
  pub polling_interval_ms : ℕ
  pub commit : W → D → Outcome D

-- The log that the stream reads, with the position of the next event.
pub record Log (P : Type 0) : Type 0 where
  pub events : List (SequencedEvent P)
  pub head : ℕ

-- The variables of a worker; `cursor` is where its stream is, if one is open.
pub record Worker : Type 0 where
  pub token : TrackingToken
  pub cautious_until : ℕ
  pub attempt_end : ℕ
  pub active : Bool
  pub cursor : Option ℕ
  pub caught_up : Bool
  pub last_error : Option Failure
  pub retry_delay_ms : ℕ
  pub unwritten : Bool

pub record State (D : Type 0) : Type 0 where
  pub worker : Worker
  pub database : D
  pub entries : Entries

-- What a poll finds: the clock, the world outside, where this run's backlog ends, whether the stream
-- has failed, and what its `progressToken` gives once it has nothing ready.
pub record Turn (W : Type 0) : Type 0 where
  pub now : ℕ
  pub outside : W
  pub backlog_end : Option ℕ
  pub broken : Bool
  pub looked : Option TrackingToken

-- When the worker polls again: at once, after this many milliseconds, or when the stream wakes it.
pub data Next : Type 0 where
  immediately : Next
  after_ms : ℕ → Next
  when_woken : Next
  stopped : Next

abbrev pub or_size : Option ℕ → ℕ → ℕ
or_size none n = n
or_size (some m) n = m

abbrev pub position_or : Option ℕ → ℕ → ℕ
position_or none n = n
position_or (some m) n = m

abbrev is_below : ℕ → Option ℕ → Bool
is_below n none = false
is_below n (some m) = ltb n m

-- `stored ?? globalSequenceToken(0n)`
abbrev pub token_or_zero : Option TrackingToken → TrackingToken
token_or_zero none = global_sequence 0
token_or_zero (some token) = token

-- `lose`
abbrev pub lose : Worker → Worker
lose w = record w { active = false; cursor = none }

-- The size of the next batch.
unfoldable pub target_size : Option ℕ → Option ℕ → Worker → ℕ
target_size batch_size backlog_end w =
    let behind = is_replaying w.token || is_below (position w.token) backlog_end in
    if ltb (position w.token) w.cautious_until
    then 1
    else (if behind || not w.caught_up
        then or_size batch_size default_replay_batch_size
        else or_size batch_size 1)

-- The wait after the next failure.
abbrev pub doubled : ℕ → ℕ → ℕ
doubled first delay = min (delay * 2) (max max_retry_delay_ms first)

-- The `catch` of `pollOnce`, for an error that is not a lost claim.
unfoldable pub fail_poll : ℕ → Failure → Worker → Worker × Next
fail_poll first error w = (
  record w {
    last_error = some error;
    cautious_until = w.attempt_end;
    cursor = none;
    retry_delay_ms = doubled first w.retry_delay_ms;
  },
  after_ms w.retry_delay_ms,
)

abbrev pub is_lost : Failure → Bool
is_lost unable_to_claim_token = true
is_lost _ = false

module _ {P : Type 0} where
  -- The loop that fills the batch from what the stream has ready.
  abbrev pub take_batch : ℕ → List (SequencedEvent P) → List (SequencedEvent P)
  take_batch zero ready = []
  take_batch (suc n) [] = []
  take_batch (suc n) (e ∷ ready) = e ∷ take_batch n ready

  -- `batch[batch.length - 1]!.sequence + 1n`
  abbrev pub batch_end : ℕ → List (SequencedEvent P) → ℕ
  batch_end n [] = n
  batch_end n (e ∷ es) = batch_end (suc e.sequence) es

  abbrev pub is_empty : List (SequencedEvent P) → Bool
  is_empty [] = true
  is_empty (e ∷ es) = false
