-- ===== src/Processor/Pace.antt =====
-- How long a worker waits between polls, whatever happens to it.
use kronos_ts.Common.{
  ℕ, ◌*◌, ◌≤◌, max, not, Option, none, some, List, [], ◌∷◌, arith, if-holds, ltb, ◌==◌,
}
use kronos_ts.Outcome.{Outcome, ok, throws}
use kronos_ts.Token.{TrackingToken, position, advance_token_to, is_replaying}
use kronos_ts.TokenStore.{Entries}
use kronos_ts.Processor.{SequencedEvent}
use kronos_ts.Processor.Worker.{
  Settings, Log, State, Turn, Next, after_ms, fail_poll, is_lost, is_empty, max_retry_delay_ms,
}
use kronos_ts.Processor.Poll.{
  first_retry_delay_ms, ready, poll, try_poll, poll_batch, after_batch, catch_poll, start_worker,
  move_through, quiet_written, moved_to, then_next, caught, batch_done, renew, renew_written, write,
}
use kronos_ts.Processor.ExactlyOnce.{Act, grows, polls, renews, act, run}

abbrev pub WaitsAtMost : ℕ → Next → Type 0
WaitsAtMost n (after_ms m) = m ≤ n
WaitsAtMost n next = Unit

module _ {P W D : Type 0} (s : Settings P W D) where
  abbrev pub longest_wait_ms : ℕ
  longest_wait_ms = max max_retry_delay_ms (first_retry_delay_ms s)

  -- The delay is between the first one and the longest.
  abbrev pub IsPaced : State D → Type 0
  IsPaced st =
      (first_retry_delay_ms s ≤ st.worker.retry_delay_ms)
      × (st.worker.retry_delay_ms ≤ longest_wait_ms)

  abbrev WaitsShort : Outcome Next → Type 0
  WaitsShort (ok next) = WaitsAtMost longest_wait_ms next
  WaitsShort (throws error) = Unit

  abbrev IsShort : State D × Outcome Next → Type 0
  IsShort r = IsPaced r.0 × WaitsShort r.1

  written-IsPaced :
      (st : State D) (r : Outcome Entries) → IsPaced st → IsPaced (quiet_written s st r).0
  written-IsPaced st (ok entries) h = h
  written-IsPaced st (throws error) h = h

  move_through-IsPaced :
      (now : ℕ) (looked : Option TrackingToken) (st : State D)
      → IsPaced st
      → IsPaced (move_through s now looked st).0
  unfolding move_through
  move_through-IsPaced now none st h = h
  move_through-IsPaced now (some looked) st h =
      if-holds {A = State D × Outcome (Unit {0})} (λ r. IsPaced r.0)
        (ltb (position st.worker.token) (position looked))
        (λ y.
          if-holds {A = State D × Outcome (Unit {0})} (λ r. IsPaced r.0) (not (s.segment.mask == 0))
            (λ z. h)
            (λ z.
              written-IsPaced
                (moved_to s (advance_token_to st.worker.token looked) st.worker.unwritten st)
                (write s now (advance_token_to st.worker.token looked) st.entries) h))
        (λ y. h)

  then_next-IsShort :
      (next : Next) (r : State D × Outcome (Unit {0}))
      → IsPaced r.0
      → WaitsAtMost longest_wait_ms next
      → IsShort (then_next s next r)
  then_next-IsShort next (st, ok u) h w = (h, w)
  then_next-IsShort next (st, throws error) h w = (h, tt)

  after_batch-IsShort :
      (turn : Turn W) (log : Log P) (end : ℕ) (st : State D)
      (r : Outcome (TrackingToken × D × Entries))
      → IsPaced st
      → IsShort (after_batch s turn log end st r)
  unfolding after_batch
  after_batch-IsShort turn log end st (throws error) h = (h, tt)
  after_batch-IsShort turn log end st (ok (t, d, entries)) h =
      let done = batch_done s end st t d entries in
      let moved = move_through s turn.now turn.looked (caught s done) in
      if-holds {A = State D × Outcome Next} IsShort (not (is_empty (ready s log end)))
        (λ y. ((omega arith, omega arith), tt))
        (λ y.
          then_next-IsShort _ moved
            (move_through-IsPaced turn.now turn.looked (caught s done) (omega arith, omega arith))
            (if-holds (WaitsAtMost longest_wait_ms) (is_replaying moved.0.worker.token)
              (λ z. omega arith) (λ z. tt)))

  poll_batch-IsShort :
      (turn : Turn W) (log : Log P) (k : ℕ) (batch : List (SequencedEvent P)) (st : State D)
      → IsPaced st
      → IsShort (poll_batch s turn log k batch st)
  unfolding poll_batch
  poll_batch-IsShort turn log k [] st h =
      then_next-IsShort _ (move_through s turn.now turn.looked (caught s st))
        (move_through-IsPaced turn.now turn.looked (caught s st) h) (omega arith)
  poll_batch-IsShort turn log k (e ∷ rest) st h = after_batch-IsShort turn log _ _ _ h

  try_poll-IsShort :
      (turn : Turn W) (log : Log P) (st : State D) → IsPaced st → IsShort (try_poll s turn log st)
  unfolding try_poll
  try_poll-IsShort turn log st h =
      if-holds {A = State D × Outcome Next} IsShort turn.broken (λ y. (h, tt))
        (λ y. poll_batch-IsShort turn log _ _ _ h)

  catch_poll-IsPaced :
      (r : State D × Outcome Next)
      → IsShort r
      → IsPaced (catch_poll s r).0 × WaitsAtMost longest_wait_ms (catch_poll s r).1
  unfolding catch_poll fail_poll
  catch_poll-IsPaced (st, ok next) h = h
  catch_poll-IsPaced (st, throws error) (h, w) =
      if-holds {A = State D × Next} (λ r. IsPaced r.0 × WaitsAtMost longest_wait_ms r.1)
        (is_lost error) (λ y. (h, tt)) (λ y. ((omega (arith, h.0, h.1), omega arith), h.1))

  poll-IsPaced :
      (turn : Turn W) (log : Log P) (st : State D)
      → IsPaced st
      → IsPaced (poll s turn log st).0 × WaitsAtMost longest_wait_ms (poll s turn log st).1
  unfolding poll
  poll-IsPaced turn log st h =
      if-holds {A = State D × Next} (λ r. IsPaced r.0 × WaitsAtMost longest_wait_ms r.1)
        st.worker.active
        (λ y. catch_poll-IsPaced (try_poll s turn log st) (try_poll-IsShort turn log st h))
        (λ y. (h, tt))

  renew_written-IsPaced :
      (r : Outcome Entries) (st : State D) → IsPaced st → IsPaced (renew_written s r st).0
  renew_written-IsPaced (ok entries) st h = h
  renew_written-IsPaced (throws error) st h =
      if-holds {A = State D × Outcome (Unit {0})} (λ r. IsPaced r.0) (is_lost error) (λ y. h)
        (λ y. h)

  act-IsPaced : (a : Act P W) (r : State D × Log P) → IsPaced r.0 → IsPaced (act s a r).0
  unfolding renew
  act-IsPaced (grows more head) r h = h
  act-IsPaced (polls turn) (st, log) h = (poll-IsPaced turn log st h).0
  act-IsPaced (renews now) (st, log) h =
      if-holds {A = State D × Outcome (Unit {0})} (λ r. IsPaced r.0) st.worker.active
        (λ y. renew_written-IsPaced (write s now st.worker.token st.entries) st h) (λ y. h)

  run-IsPaced :
      (acts : List (Act P W)) (r : State D × Log P) → IsPaced r.0 → IsPaced (run s acts r).0
  run-IsPaced [] r h = h
  run-IsPaced (a ∷ acts) r h = run-IsPaced acts (act s a r) (act-IsPaced a r h)

  -- Whatever happens to a worker, its retry delay stays between the first one, twice the polling
  -- interval, and the longer of that and a minute, and no poll waits longer than the latter.
  pub waits_bounded :
      (stored : Option TrackingToken) (d : D) (entries : Entries) (log : Log P)
      (acts : List (Act P W)) (turn : Turn W)
      → (let r =
            run s acts
              (record { worker = start_worker s stored; database = d; entries = entries }, log) in
          (s.polling_interval_ms * 2 ≤ r.0.worker.retry_delay_ms)
          × (r.0.worker.retry_delay_ms ≤ max 60000 (s.polling_interval_ms * 2))
          × WaitsAtMost (max 60000 (s.polling_interval_ms * 2)) (poll s turn r.1 r.0).1)
  unfolding start_worker
  waits_bounded stored d entries log acts turn =
      let paced =
        run-IsPaced acts
          (record { worker = start_worker s stored; database = d; entries = entries }, log)
          (omega arith, omega arith) in
      (paced.0, paced.1, (poll-IsPaced turn _ _ paced).1)
