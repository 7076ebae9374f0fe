-- ===== src/Processor/Poll.antt =====
-- A worker of a segment: `startWorker` of running-processor.ts, its polls, its renewals and its stop,
-- each with nothing else running meanwhile.
use kronos_ts.Common.{
  ℕ, ◌*◌, Bool, true, false, not, ◌&&◌, Option, none, some, List, [], ◌∷◌, filter, leb, ltb, ◌==◌,
  if◌then◌else◌,
}
use kronos_ts.Outcome.{Outcome, ok, throws, ◌>>=◌}
use kronos_ts.Token.{TrackingToken, position, advance_token_to, is_replaying}
use kronos_ts.TokenStore.{Entries, store, release_claim}
use kronos_ts.Processor.{SequencedEvent, hash_of, accepts, deliver_event, deliver_batch, mark_batch}
use kronos_ts.Processor.Worker.{
  Settings, Log, Worker, State, Turn, Next, immediately, after_ms, when_woken, stopped, position_or,
  token_or_zero, lose, target_size, fail_poll, is_lost, take_batch, batch_end, is_empty,
}

module _ {P W D : Type 0} (s : Settings P W D) where
  abbrev pub first_retry_delay_ms : ℕ
  first_retry_delay_ms = s.polling_interval_ms * 2

  unfoldable pub start_worker : Option TrackingToken → Worker
  start_worker stored = record {
    token = token_or_zero stored;
    cautious_until = 0;
    attempt_end = 0;
    active = true;
    cursor = none;
    caught_up = false;
    last_error = none;
    retry_delay_ms = first_retry_delay_ms;
    unwritten = false;
  }

  abbrev pub accepted : SequencedEvent P → Bool
  accepted = accepts s.handlers (hash_of s.sequence_of) s.segment

  -- What the stream still has to hand out from the cursor on. A worker reads through
  -- shared-stream.ts, which is no part of the model: that it loses, doubles and reorders no event of
  -- the log is assumed here.
  abbrev pub ready : Log P → ℕ → List (SequencedEvent P)
  ready log cursor = filter (λ e. leb cursor e.sequence && accepted e) log.events

  -- `write`
  abbrev pub write : ℕ → TrackingToken → Entries → Outcome Entries
  write now token entries = store now s.name s.segment.id token (some s.owner) entries

  -- The unit of work of a batch; where it throws, the transaction leaves nothing.
  unfoldable pub run_batch :
      Turn W
      → TrackingToken
      → List (SequencedEvent P)
      → D
      → Entries
      → Outcome (TrackingToken × D × Entries)
  run_batch turn token batch database entries = do
    let marked = mark_batch (hash_of s.sequence_of) token batch
    d ← deliver_batch (deliver_event s.handlers turn.outside) marked.0 database
    written ← write turn.now marked.1 entries
    committed ← s.commit turn.outside d
    ok (marked.1, committed, written)

  abbrev pub quiet_written : State D → Outcome Entries → State D × Outcome (Unit {0})
  quiet_written st (ok entries) = (record st { entries = entries }, ok tt)
  quiet_written st (throws error) = (st, throws error)

  abbrev pub moved_to : TrackingToken → Bool → State D → State D
  moved_to token unwritten st = record st {
    worker = record st.worker { token = token; unwritten = unwritten };
  }

  -- The step of `moveThroughQuietStretch`; its write is put off where there are other segments.
  abbrev pub quiet_step : ℕ → TrackingToken → State D → State D × Outcome (Unit {0})
  quiet_step now token st =
      if not (s.segment.mask == 0)
      then (moved_to token true st, ok tt)
      else quiet_written (moved_to token st.worker.unwritten st) (write now token st.entries)

  -- `moveThroughQuietStretch`, given how far the stream says that it has looked.
  unfoldable pub move_through : ℕ → Option TrackingToken → State D → State D × Outcome (Unit {0})
  move_through now none st = (st, ok tt)
  move_through now (some looked) st =
      if ltb (position st.worker.token) (position looked)
      then quiet_step now (advance_token_to st.worker.token looked) st
      else (st, ok tt)

  abbrev pub then_next : Next → State D × Outcome (Unit {0}) → State D × Outcome Next
  then_next next (st, ok _) = (st, ok next)
  then_next next (st, throws error) = (st, throws error)

  abbrev pub caught : State D → State D
  caught st = record st { worker = record st.worker { caught_up = true } }

  -- `if (isReplayToken(token)) schedule(pollingIntervalMs)`, at the token after the quiet stretch.
  abbrev pub wake_replay : State D × Outcome (Unit {0}) → State D × Outcome Next
  wake_replay r =
      then_next
        (if is_replaying r.0.worker.token then after_ms s.polling_interval_ms else when_woken) r

  -- The worker and the store after a batch: `set(batchEndToken)` and what `pollOnce` resets.
  abbrev pub batch_done : ℕ → State D → TrackingToken → D → Entries → State D
  batch_done end st token database entries = record {
    worker = record st.worker {
      token = token;
      cursor = some end;
      unwritten = false;
      last_error = none;
      retry_delay_ms = first_retry_delay_ms;
    };
    database = database;
    entries = entries;
  }

  -- What follows `processBatch`, where the stream is past the batch.
  unfoldable pub after_batch :
      Turn W → Log P → ℕ → State D → Outcome (TrackingToken × D × Entries) → State D × Outcome Next
  after_batch turn log end st (throws error) = (st, throws error)
  after_batch turn log end st (ok (token, database, entries)) =
      if not (is_empty (ready log end))
      then (batch_done end st token database entries, ok immediately)
      else wake_replay
          (move_through turn.now turn.looked (caught (batch_done end st token database entries)))

  -- The worker once its stream has handed out the batch.
  abbrev pub begun : ℕ → State D → State D
  begun end st = record st {
    worker = record st.worker { cursor = some end; caught_up = false; attempt_end = end };
  }

  -- `pollOnce` from the batch on, with the stream open at the cursor.
  unfoldable pub poll_batch :
      Turn W → Log P → ℕ → List (SequencedEvent P) → State D → State D × Outcome Next
  poll_batch turn log cursor [] st =
      then_next (after_ms s.polling_interval_ms) (move_through turn.now turn.looked (caught st))
  poll_batch turn log cursor (e ∷ batch) st =
      let end = batch_end cursor (e ∷ batch) in
      after_batch turn log end (begun end st)
        (run_batch turn st.worker.token (e ∷ batch) st.database st.entries)

  -- The body of the `try` of `pollOnce`.
  unfoldable pub try_poll : Turn W → Log P → State D → State D × Outcome Next
  try_poll turn log st =
      let cursor = position_or st.worker.cursor (position st.worker.token) in
      if turn.broken
      then (
        record st { worker = record st.worker { cursor = some (position st.worker.token) } },
        ok when_woken,
      )
      else poll_batch turn log cursor
          (take_batch (target_size s.batch_size turn.backlog_end st.worker) (ready log cursor))
          (record st { worker = record st.worker { cursor = some cursor; attempt_end = 0 } })

  -- The `catch` of `pollOnce`.
  unfoldable pub catch_poll : State D × Outcome Next → State D × Next
  catch_poll (st, ok next) = (st, next)
  catch_poll (st, throws error) =
      if is_lost error then (record st { worker = lose st.worker }, stopped) else (
        record st { worker = (fail_poll first_retry_delay_ms error st.worker).0 },
        (fail_poll first_retry_delay_ms error st.worker).1,
      )

  unfoldable pub poll : Turn W → Log P → State D → State D × Next
  poll turn log st = if st.worker.active then catch_poll (try_poll turn log st) else (st, stopped)

  abbrev pub renew_written : Outcome Entries → State D → State D × Outcome (Unit {0})
  renew_written (ok entries) st =
      (record st { worker = record st.worker { unwritten = false }; entries = entries }, ok tt)
  renew_written (throws error) st =
      if is_lost error then (record st { worker = lose st.worker }, ok tt) else (st, throws error)

  -- `renew` of a worker that has no batch in flight.
  unfoldable pub renew : ℕ → State D → State D × Outcome (Unit {0})
  renew now st =
      if st.worker.active
      then renew_written (write now st.worker.token st.entries) st
      else (st, ok tt)

  abbrev stop_written : Bool → Entries → Outcome Entries → Entries × Outcome (Unit {0})
  stop_written release old (ok entries) =
      (if release then release_claim s.name s.segment.id s.owner entries else entries, ok tt)
  stop_written release old (throws error) = (old, if is_lost error then ok tt else throws error)

  -- `stop` of a worker that has no batch in flight.
  unfoldable pub stop : ℕ → Bool → State D → State D × Outcome (Unit {0})
  stop now release st =
      if st.worker.active
      then (let r =
            stop_written release st.entries (
              if st.worker.unwritten
              then write now st.worker.token st.entries
              else ok st.entries) in
          (record st { worker = lose st.worker; entries = r.0 }, r.1))
      else (st, ok tt)
