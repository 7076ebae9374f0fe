-- ===== src/Processor/Opened.antt =====
-- A poll of an active worker on a sound stream, once its batch is known.
use kronos_ts.Common.{ℕ, ◌≡◌, ap, ◌∙◌, if-true, if-false, true, false, some, List}
use kronos_ts.Token.{position}
use kronos_ts.Processor.{SequencedEvent}
use kronos_ts.Processor.Worker.{Settings, Log, State, Turn, position_or, take_batch, target_size}
use kronos_ts.Processor.Poll.{ready, poll, try_poll, poll_batch, catch_poll}

module _ {P W D : Type 0} (s : Settings P W D) where
  -- A worker whose stream has been opened for the poll.
  abbrev pub at_stream : ℕ → State D → State D
  at_stream c st = record st { worker = record st.worker { cursor = some c; attempt_end = 0 } }

  -- A poll of an active worker whose stream is sound, once its batch is known.
  pub poll-batch :
      (turn : Turn W) (log : Log P) (st : State D) (batch : List (SequencedEvent P))
      → st.worker.active ≡ true
      → turn.broken ≡ false
      → (let cursor = position_or st.worker.cursor (position st.worker.token) in
          take_batch (target_size s.batch_size turn.backlog_end st.worker) (ready s log cursor)
          ≡ batch)
      → (let cursor = position_or st.worker.cursor (position st.worker.token) in
          poll s turn log st
          ≡ catch_poll s (poll_batch s turn log cursor batch (at_stream cursor st)))
  unfolding poll try_poll
  poll-batch turn log st batch active sound taken =
      let c = position_or st.worker.cursor (position st.worker.token) in
      if-true st.worker.active _ _ active
      ∙ ap (catch_poll s) (
          if-false turn.broken _ _ sound
          ∙ ap (λ batch. poll_batch s turn log c batch (at_stream c st)) taken)
