-- ===== src/Processor/ExactlyOnce.antt =====
-- Polls, failures and renewals one after another: what of the log the database has the effects of.
use kronos_ts.Common.{ℕ, ◌≤◌, ◌≡◌, refl, ap, sym, Bool, Option, List, [], ◌∷◌, ◌++◌, map, arith}
use kronos_ts.Token.{TrackingToken, position}
use kronos_ts.TokenStore.{Entries}
use kronos_ts.Processor.{SequencedEvent, hash_of, marks_at}
use kronos_ts.Processor.Worker.{Settings, Log, State, Turn, batch_end, token_or_zero}
use kronos_ts.Processor.Poll.{accepted, start_worker, poll, renew}
use kronos_ts.Processor.Advance.{IsProgress}
use kronos_ts.Processor.Batch.{Ascending, batch_end-ge}
use kronos_ts.Processor.Between.{
  between, between-none, Ascending-append, batch_end-append, batch_end_mono,
}
use kronos_ts.Processor.Effect.{IsFaithful, IsLog, apply_all}
use kronos_ts.Processor.Progress.{grown}
use kronos_ts.Processor.Steps.{IsPositive, HasLooked, IsStateAt, poll-IsStateAt, renew-IsStateAt}

-- What happens to a worker: events are appended to the log, which gets a new head; it polls, whether
-- the batch commits or fails; it renews its claim.
pub data Act (P W : Type 0) : Type 0 where
  grows : List (SequencedEvent P) → ℕ → Act P W
  polls : Turn W → Act P W
  renews : ℕ → Act P W

module _ {P W D : Type 0} (s : Settings P W D) where
  abbrev pub act : Act P W → State D × Log P → State D × Log P
  act (grows more head) (st, log) = (st, record { events = log.events ++ more; head = head })
  act (polls turn) (st, log) = ((poll s turn log st).0, log)
  act (renews now) (st, log) = ((renew s now st).0, log)

  abbrev pub run : List (Act P W) → State D × Log P → State D × Log P
  run [] r = r
  run (a ∷ acts) r = run acts (act a r)

  -- Events come behind the head of the log, and no stream looks past the head.
  abbrev pub IsAllowed : Act P W → Log P → Type 0
  IsAllowed (grows more head) log = Ascending log.head more × (batch_end log.head more ≤ head)
  IsAllowed (polls turn) log = HasLooked turn.looked log.head
  IsAllowed (renews now) log = Unit

  abbrev pub AllAllowed : List (Act P W) → State D × Log P → Type 0
  AllAllowed [] r = Unit
  AllAllowed (a ∷ acts) r = IsAllowed a r.1 × AllAllowed acts (act a r)

module _ {P W D : Type 0} (s : Settings P W D) (effect : Bool → SequencedEvent P → D → D)
    (t₀ : TrackingToken) (d₀ : D) (faithful : IsFaithful s effect)
    (positive : IsPositive s.batch_size) where
  act-IsStateAt :
      (a : Act P W) (r : State D × Log P)
      → IsLog r.1
      → IsStateAt s effect t₀ d₀ r.0 r.1
      → IsAllowed s a r.1
      → IsLog (act s a r).1 × IsStateAt s effect t₀ d₀ (act s a r).0 (act s a r).1
  act-IsStateAt (grows more head) (st, log) isLog h (asc, le) = (
    (
      Ascending-append 0 log.head log.events more isLog.0 isLog.1 asc,
      omega (
        arith,
        batch_end-append 0 log.events more,
        batch_end_mono (batch_end 0 log.events) log.head more isLog.1,
      ),
    ),
    grown s effect t₀ d₀ st.worker.cursor log more head h asc
        (omega (arith, batch_end-ge log.head more asc)),
  )
  act-IsStateAt (polls turn) (st, log) isLog h l =
      (isLog, poll-IsStateAt s effect t₀ d₀ faithful positive log isLog turn st l h)
  act-IsStateAt (renews now) (st, log) isLog h l =
      (isLog, renew-IsStateAt s effect t₀ d₀ now st log h)

  run-IsStateAt :
      (acts : List (Act P W)) (r : State D × Log P)
      → IsLog r.1
      → IsStateAt s effect t₀ d₀ r.0 r.1
      → AllAllowed s acts r
      → IsStateAt s effect t₀ d₀ (run s acts r).0 (run s acts r).1
  run-IsStateAt [] r isLog h l = h
  run-IsStateAt (a ∷ acts) r isLog h (l, later) =
      let (isLog', h') = act-IsStateAt a r isLog h l in
      run-IsStateAt acts (act s a r) isLog' h' later

module _ {P W D : Type 0} (s : Settings P W D) (effect : Bool → SequencedEvent P → D → D)
    (stored : Option TrackingToken) (d₀ : D) (entries : Entries) (log : Log P) where
  pub started-IsStateAt :
      IsProgress (token_or_zero stored)
      → IsStateAt s effect
          (token_or_zero stored)
          d₀
          (record { worker = start_worker s stored; database = d₀; entries = entries })
          log
  unfolding start_worker
  started-IsStateAt p = record {
    progress = p;
    ahead_of = omega arith;
    within = omega arith;
    alike = λ past b lt. record { replays = refl; merges = λ hash. refl };
    synced = tt;
    database =
        ap
          (λ xs.
            apply_all effect (map (marks_at (hash_of s.sequence_of) (token_or_zero stored)) xs) d₀)
          (sym (
            between-none (accepted s) (position (token_or_zero stored))
              (position (token_or_zero stored)) log.events (omega arith)));
  }

  -- Through any series of appends, polls and renewals of a worker's segment, with batches that fail
  -- at any event or at the commit, and where the log ascends, each event's token is a plain one
  -- just past the event, what the deliveries that return and the commits do is fixed, and the
  -- worker starts from a token that a processor stores, the token never goes back, and the database
  -- has the effects of exactly the accepted events of the log from the first token up to the
  -- current one, once each and in their order, without those that a merged half of the first token
  -- had handled, and flagged as replays exactly as far as the first token's reset calls for.
  pub exactly_once :
      (acts : List (Act P W))
      → IsFaithful s effect
      → IsPositive s.batch_size
      → IsProgress (token_or_zero stored)
      → IsLog log
      → AllAllowed s acts
          (record { worker = start_worker s stored; database = d₀; entries = entries }, log)
      → (let t₀ = token_or_zero stored in
          let r =
            run s acts
              (record { worker = start_worker s stored; database = d₀; entries = entries }, log) in
          (position t₀ ≤ position r.0.worker.token)
          × (r.0.database
              ≡ apply_all effect
                  (map
                    (marks_at (hash_of s.sequence_of) t₀)
                    (between (accepted s) (position t₀) (position r.0.worker.token) r.1.events))
                  d₀))
  exactly_once acts faithful positive p isLog allowed =
      let h =
        run-IsStateAt s effect (token_or_zero stored) d₀ faithful positive acts _ isLog
          (started-IsStateAt p) allowed in
      (h.ahead_of, h.database)
