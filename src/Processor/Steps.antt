-- ===== src/Processor/Steps.antt =====
-- A poll and a renewal keep where a worker stands.
use kronos_ts.Common.{
  ℕ, zero, suc, ◌≤◌, ◌≡◌, refl, Bool, false, not, Option, none, some, List, [], ◌∷◌, arith,
  Bool-cases, if-holds, inl, inr, ltb, ◌==◌, ltb→lt,
}
use kronos_ts.Outcome.{Outcome, ok, throws, Failure}
use kronos_ts.Token.{TrackingToken, position, advance_token_to}
use kronos_ts.TokenStore.{Entries}
use kronos_ts.Processor.{SequencedEvent}
use kronos_ts.Processor.Worker.{
  Settings, Log, State, Worker, Turn, Next, position_or, take_batch, batch_end, is_empty, or_size,
  default_replay_batch_size, target_size, is_lost, fail_poll,
}
use kronos_ts.Processor.Poll.{
  first_retry_delay_ms, accepted, moved_to, run_batch, write, ready, quiet_step, quiet_written,
  move_through, then_next, caught, batch_done, after_batch, begun, poll_batch, try_poll, catch_poll,
  poll, renew, renew_written,
}
use kronos_ts.Processor.Advance.{IsCursor}
use kronos_ts.Processor.Between.{ahead}
use kronos_ts.Processor.Effect.{IsFaithful, IsLog}
use kronos_ts.Processor.Committed.{advanced_by_batch}
use kronos_ts.Processor.Progress.{IsAt, closed, reopened, opened, moved_through}

-- A size that the `batched` wrapper lets pass.
abbrev pub IsPositive : Option ℕ → Type 0
IsPositive none = Unit
IsPositive (some n) = 1 ≤ n

-- How far a stream says that it has looked: never past the head.
abbrev pub HasLooked : Option TrackingToken → ℕ → Type 0
HasLooked none head = Unit
HasLooked (some t) head = IsCursor t × (position t ≤ head)

or_size-IsPositive : (o : Option ℕ) (n : ℕ) → IsPositive o → 1 ≤ n → 1 ≤ or_size o n
or_size-IsPositive none n h le = le
or_size-IsPositive (some m) n h le = h

pub target_size-IsPositive : (o b : Option ℕ) (w : Worker) → IsPositive o → 1 ≤ target_size o b w
unfolding target_size
target_size-IsPositive o b w h = ground (
  arith,
  or_size-IsPositive o default_replay_batch_size h (omega arith),
  or_size-IsPositive o 1 h (omega arith),
)

pub take-none :
    {P : Type 0} (n : ℕ) (xs : List (SequencedEvent P)) → 1 ≤ n → take_batch n xs ≡ [] → xs ≡ []
take-none zero xs le h = absurd (omega arith)
take-none (suc n) [] le h = refl
take-none (suc n) (e ∷ xs) le h = cc

is_empty-nil : {P : Type 0} (xs : List (SequencedEvent P)) → not (is_empty xs) ≡ false → xs ≡ []
is_empty-nil [] h = refl
is_empty-nil (e ∷ xs) h = cc

module _ {P W D : Type 0} (s : Settings P W D) (effect : Bool → SequencedEvent P → D → D)
    (t₀ : TrackingToken) (d₀ : D) where
  abbrev pub IsStateAt : State D → Log P → Type 0
  IsStateAt st log = IsAt s effect t₀ d₀ st.worker.token st.worker.cursor st.database log

  -- The stream stands at k.
  abbrev IsOpenAt : ℕ → State D → Log P → Type 0
  IsOpenAt k st log =
      IsAt s effect t₀ d₀ st.worker.token (some k) st.database log × (st.worker.cursor ≡ some k)

  open-IsStateAt : (k : ℕ) (st : State D) (log : Log P) → IsOpenAt k st log → IsStateAt st log
  open-IsStateAt k st log (h, e) = rw e h

  written-IsStateAt :
      (st : State D) (log : Log P) (r : Outcome Entries)
      → IsStateAt st log
      → IsStateAt (quiet_written s st r).0 log
  written-IsStateAt st log (ok entries) h = h
  written-IsStateAt st log (throws error) h = h

  step-IsStateAt :
      (now k : ℕ) (looked : TrackingToken) (st : State D) (log : Log P)
      → IsAt s effect t₀ d₀ (advance_token_to st.worker.token looked) (some k) st.database log
      → st.worker.cursor ≡ some k
      → IsStateAt (quiet_step s now (advance_token_to st.worker.token looked) st).0 log
  step-IsStateAt now k looked st log h e =
      if-holds {A = State D × Outcome (Unit {0})} (λ r. IsStateAt r.0 log)
        (not (s.segment.mask == 0)) (λ y. rw e h)
        (λ y.
          written-IsStateAt
            (moved_to s (advance_token_to st.worker.token looked) st.worker.unwritten st) log
            (write s now (advance_token_to st.worker.token looked) st.entries) (rw e h))

  move_through-IsStateAt :
      (now k : ℕ) (looked : Option TrackingToken) (st : State D) (log : Log P)
      → IsLog log
      → IsOpenAt k st log
      → ahead (accepted s) k log.events ≡ []
      → HasLooked looked log.head
      → IsStateAt (move_through s now looked st).0 log
  unfolding move_through
  move_through-IsStateAt now k none st log isLog h nothing l = open-IsStateAt k st log h
  move_through-IsStateAt now k (some looked) st log isLog h nothing l =
      elim (Bool-cases (ltb (position st.worker.token) (position looked))) [
        | inl y ↦ rw y (
            step-IsStateAt now k looked st log
              (moved_through s effect t₀ d₀ log looked isLog h.0 nothing l.0 l.1 (ltb→lt _ _ y))
              h.1)
        | inr y ↦ rw y (open-IsStateAt k st log h)
      ]

  -- A poll that has returned; one that throws has its stream closed yet to come.
  abbrev pub IsPolled : Log P → State D × Outcome Next → Type 0
  IsPolled log (st, ok next) = IsStateAt st log
  IsPolled log (st, throws error) = IsAt s effect t₀ d₀ st.worker.token none st.database log

  then_next-IsPolled :
      (next : Next) (r : State D × Outcome (Unit {0})) (log : Log P)
      → IsStateAt r.0 log
      → IsPolled log (then_next s next r)
  then_next-IsPolled next (st, ok u) log h = h
  then_next-IsPolled next (st, throws error) log h = closed s effect t₀ d₀ h

  closed-failed :
      (st : State D) (error : Failure) (log : Log P)
      → IsAt s effect t₀ d₀ st.worker.token none st.database log
      → IsStateAt
          (record st { worker = (fail_poll (first_retry_delay_ms s) error st.worker).0 })
          log
  unfolding fail_poll
  closed-failed st error log h = closed s effect t₀ d₀ h

  catch_poll-IsStateAt :
      (r : State D × Outcome Next) (log : Log P) → IsPolled log r → IsStateAt (catch_poll s r).0 log
  unfolding catch_poll
  catch_poll-IsStateAt (st, ok next) log h = h
  catch_poll-IsStateAt (st, throws error) log h = elim (Bool-cases (is_lost error)) [
    | inl y ↦ rw y (closed s effect t₀ d₀ h)
    | inr y ↦ rw y (closed-failed st error log h)
  ]

  module _ (faithful : IsFaithful s effect) (positive : IsPositive s.batch_size) (log : Log P)
      (isLog : IsLog log) where
    after_batch-IsPolled :
        (turn : Turn W) (k n : ℕ) (e : SequencedEvent P) (rest : List (SequencedEvent P))
        (st : State D) (r : Outcome (TrackingToken × D × Entries))
        → HasLooked turn.looked log.head
        → IsOpenAt k st log
        → take_batch n (ahead (accepted s) k log.events) ≡ e ∷ rest
        → run_batch s turn st.worker.token (e ∷ rest) st.database st.entries ≡ r
        → IsPolled log (
            after_batch s turn log (batch_end k (e ∷ rest)) (begun s (batch_end k (e ∷ rest)) st) r)
    unfolding after_batch
    after_batch-IsPolled turn k n e rest st (throws error) l h taken ran = closed s effect t₀ d₀ h.0
    after_batch-IsPolled turn k n e rest st (ok (t', d', entries')) l h taken ran =
        let end = batch_end k (e ∷ rest) in
        let done = batch_done s end (begun s end st) t' d' entries' in
        let moved =
          advanced_by_batch s effect t₀ d₀ faithful log n turn e rest st.entries t' d' entries'
            isLog h.0 taken ran in
        if-holds {A = State D × Outcome Next} (IsPolled log) (not (is_empty (ready s log end)))
          (λ y. moved)
          (λ y. then_next-IsPolled _ (move_through s turn.now turn.looked (caught s done)) log (
            move_through-IsStateAt turn.now end turn.looked (caught s done) log isLog (moved, refl)
              (is_empty-nil (ready s log end) y) l))

    poll_batch-IsPolled :
        (turn : Turn W) (k n : ℕ) (batch : List (SequencedEvent P)) (st : State D)
        → HasLooked turn.looked log.head
        → IsOpenAt k st log
        → 1 ≤ n
        → take_batch n (ahead (accepted s) k log.events) ≡ batch
        → IsPolled log (poll_batch s turn log k batch st)
    unfolding poll_batch
    poll_batch-IsPolled turn k n [] st l h le taken =
        then_next-IsPolled _ (move_through s turn.now turn.looked (caught s st)) log (
          move_through-IsStateAt turn.now k turn.looked (caught s st) log isLog h
            (take-none n (ahead (accepted s) k log.events) le taken) l)
    poll_batch-IsPolled turn k n (e ∷ rest) st l h le taken =
        after_batch-IsPolled turn k n e rest st _ l h taken refl

    try_poll-IsPolled :
        (turn : Turn W) (st : State D)
        → HasLooked turn.looked log.head
        → IsStateAt st log
        → IsPolled log (try_poll s turn log st)
    unfolding try_poll
    try_poll-IsPolled turn st l h =
        if-holds {A = State D × Outcome Next} (IsPolled log) turn.broken
          (λ y. reopened s effect t₀ d₀ h)
          (λ y.
            poll_batch-IsPolled turn (position_or st.worker.cursor (position st.worker.token)) _ _
              (record st {
                worker = record st.worker {
                  cursor = some (position_or st.worker.cursor (position st.worker.token));
                  attempt_end = 0;
                };
              })
              l (opened s effect t₀ d₀ st.worker.cursor h, refl)
              (target_size-IsPositive s.batch_size turn.backlog_end st.worker positive) refl)

    pub poll-IsStateAt :
        (turn : Turn W) (st : State D)
        → HasLooked turn.looked log.head
        → IsStateAt st log
        → IsStateAt (poll s turn log st).0 log
    unfolding poll
    poll-IsStateAt turn st l h =
        if-holds {A = State D × Next} (λ r. IsStateAt r.0 log) st.worker.active
          (λ y. catch_poll-IsStateAt (try_poll s turn log st) log (try_poll-IsPolled turn st l h))
          (λ y. h)

  renew_written-IsStateAt :
      (r : Outcome Entries) (st : State D) (log : Log P)
      → IsStateAt st log
      → IsStateAt (renew_written s r st).0 log
  renew_written-IsStateAt (ok entries) st log h = h
  renew_written-IsStateAt (throws error) st log h = elim (Bool-cases (is_lost error)) [
    | inl y ↦ rw y (closed s effect t₀ d₀ h)
    | inr y ↦ rw y h
  ]

  pub renew-IsStateAt :
      (now : ℕ) (st : State D) (log : Log P) → IsStateAt st log → IsStateAt (renew s now st).0 log
  unfolding renew
  renew-IsStateAt now st log h =
      if-holds {A = State D × Outcome (Unit {0})} (λ r. IsStateAt r.0 log) st.worker.active
        (λ y. renew_written-IsStateAt (write s now st.worker.token st.entries) st log h) (λ y. h)
