-- ===== src/Processor/CatchUp.antt =====
-- A worker whose handlers succeed, and whose claim nobody takes, comes to the end of its log.
use kronos_ts.Common.{
  All, ℕ, suc, ◌≤◌, ◌≡◌, refl, ap, sym, ◌∙◌, subst, Bool, true, false, not, Option, some, List, [],
  ◌∷◌, map, length, arith, List-cases, if-holds, inl, inr,
}
use kronos_ts.Outcome.{Outcome}
use kronos_ts.Token.{TrackingToken, position}
use kronos_ts.TokenStore.{Entries}
use kronos_ts.Processor.{SequencedEvent, hash_of, marks_at, mark_batch}
use kronos_ts.Processor.Worker.{
  Settings, Log, State, Turn, Next, position_or, take_batch, batch_end, is_empty, token_or_zero,
  target_size,
}
use kronos_ts.Processor.Poll.{
  accepted, run_batch, ready, start_worker, move_through, caught, batch_done, after_batch, begun,
  poll_batch, poll,
}
use kronos_ts.Processor.Advance.{IsProgress}
use kronos_ts.Processor.Batch.{Ascending, batch_end-ge}
use kronos_ts.Processor.Between.{ahead, ahead-eq, Ascending-take, Ascending-ahead}
use kronos_ts.Processor.Effect.{IsLog, apply_all}
use kronos_ts.Processor.Committed.{advanced_by_batch}
use kronos_ts.Processor.Progress.{IsAt, opened}
use kronos_ts.Processor.Opened.{at_stream, poll-batch}
use kronos_ts.Processor.Steps.{
  IsPositive, HasLooked, IsStateAt, poll-IsStateAt, target_size-IsPositive, take-none,
}
use kronos_ts.Processor.ExactlyOnce.{polls, run, started-IsStateAt}
use kronos_ts.Processor.Healthy.{
  IsHealthy, healthy-IsFaithful, length-ahead_mono, length-ahead_less, between-all, length-none,
  nil-cons, same_head, take-head, IsHeld, IsWell, IsWellAfter, move_through-IsWell,
  then_next-IsWell, catch_poll-IsWell, run_batch-ok,
}

module _ {P W D : Type 0} (s : Settings P W D) (effect : Bool → SequencedEvent P → D → D)
    (healthy : IsHealthy s effect) where
  module _ (t₀ : TrackingToken) (d₀ : D) (positive : IsPositive s.batch_size) (log : Log P)
      (isLog : IsLog log) where
    after_batch-IsWell :
        (turn : Turn W) (k n : ℕ) (e : SequencedEvent P) (rest : List (SequencedEvent P))
        (st : State D)
        → HasLooked turn.looked log.head
        → IsAt s effect t₀ d₀ st.worker.token (some k) st.database log
        → st.worker.active ≡ true
        → IsHeld s st.entries
        → take_batch n (ahead (accepted s) k log.events) ≡ e ∷ rest
        → IsWellAfter s (batch_end k (e ∷ rest)) (
            after_batch s turn log
              (batch_end k (e ∷ rest))
              (begun s (batch_end k (e ∷ rest)) st)
              (run_batch s turn st.worker.token (e ∷ rest) st.database st.entries))
    unfolding after_batch
    after_batch-IsWell turn k n e rest st l h active held taken =
        let end = batch_end k (e ∷ rest) in
        let m = mark_batch (hash_of s.sequence_of) st.worker.token (e ∷ rest) in
        let (entries', ran, held') =
          run_batch-ok s effect healthy turn st.worker.token (e ∷ rest) st.database st.entries
            held in
        let there =
          advanced_by_batch s effect t₀ d₀ (healthy-IsFaithful s effect healthy) log n turn e rest
            st.entries _ _ entries' isLog h taken ran in
        let done =
          batch_done s end (begun s end st) m.1 (apply_all effect m.0 st.database) entries' in
        let well : IsWell s end done = record {
          active = active;
          held = held';
          reached = there.synced.1;
        } in
        subst (λ r. IsWellAfter s end (after_batch s turn log end (begun s end st) r)) (sym ran)
          (if-holds {A = State D × Outcome Next} (IsWellAfter s end)
            (not (is_empty (ready s log end))) (λ y. well)
            (λ y. then_next-IsWell s end _ (move_through s turn.now turn.looked (caught s done)) (
              move_through-IsWell s end turn.now log.head turn.looked (caught s done) there.progress
                (record { active = active; held = held'; reached = there.synced.1 }) l)))

    poll_batch-IsWell :
        (turn : Turn W) (k n : ℕ) (e : SequencedEvent P) (rest : List (SequencedEvent P))
        (st : State D)
        → HasLooked turn.looked log.head
        → IsAt s effect t₀ d₀ st.worker.token (some k) st.database log
        → st.worker.active ≡ true
        → IsHeld s st.entries
        → take_batch n (ahead (accepted s) k log.events) ≡ e ∷ rest
        → IsWellAfter s (batch_end k (e ∷ rest)) (poll_batch s turn log k (e ∷ rest) st)
    unfolding poll_batch
    poll_batch-IsWell turn k n e rest st l h active held taken =
        after_batch-IsWell turn k n e rest st l h active held taken

    -- A poll keeps the worker well, and gets it past the first event that is ahead of it.
    poll-IsWell :
        (turn : Turn W) (st : State D)
        → turn.broken ≡ false
        → HasLooked turn.looked log.head
        → IsStateAt s effect t₀ d₀ st log
        → IsWell s 0 st
        → IsWell s (position st.worker.token) (poll s turn log st).0
          × ((e : SequencedEvent P) (rest : List (SequencedEvent P))
              → ahead (accepted s) (position st.worker.token) log.events ≡ e ∷ rest
              → suc e.sequence ≤ position (poll s turn log st).0.worker.token)
    unfolding poll_batch
    poll-IsWell turn st sound l h well =
        let acc = accepted s in
        let p = position st.worker.token in
        let c = position_or st.worker.cursor p in
        let n = target_size s.batch_size turn.backlog_end st.worker in
        let at = opened s effect t₀ d₀ st.worker.cursor h in
        let same = ahead-eq acc c p log.events at.synced.1 at.synced.2 in
        let st' = at_stream s c st in
        elim (List-cases (take_batch n (ahead acc c log.events))) [
          | inl taken ↦
              let nothing =
                take-none n (ahead acc c log.events)
                  (target_size-IsPositive s.batch_size turn.backlog_end st.worker positive) taken in
              let done = catch_poll-IsWell s p (poll_batch s turn log c [] st') (
                then_next-IsWell s p _ (move_through s turn.now turn.looked (caught s st')) (
                  move_through-IsWell s p turn.now log.head turn.looked (caught s st') at.progress
                    (record { active = well.active; held = well.held; reached = omega arith })
                    l)) in
              subst
                (λ r.
                  IsWell s p r.0
                  × ((e : SequencedEvent P) (rest : List (SequencedEvent P))
                      → ahead acc p log.events ≡ e ∷ rest
                      → suc e.sequence ≤ position r.0.worker.token))
                (sym (poll-batch s turn log st [] well.active sound taken))
                (done, λ e rest some_ahead. absurd (nil-cons (sym nothing ∙ same ∙ some_ahead)))
          | inr (e, rest, taken) ↦
              let (tail, first) = take-head n (ahead acc c log.events) e rest taken in
              let asc = subst (Ascending c) taken (
                Ascending-take n c (ahead acc c log.events)
                  (Ascending-ahead acc c 0 log.events isLog.0)) in
              let low =
                subst (Ascending p) (sym same ∙ first)
                  (Ascending-ahead acc p 0 log.events isLog.0) in
              let past = batch_end-ge (suc e.sequence) rest asc.2 in
              let done =
                catch_poll-IsWell s (batch_end c (e ∷ rest))
                  (poll_batch s turn log c (e ∷ rest) st')
                  (poll_batch-IsWell turn c n e rest st' l at well.active well.held taken) in
              subst
                (λ r.
                  IsWell s p r.0
                  × ((e : SequencedEvent P) (rest : List (SequencedEvent P))
                      → ahead acc p log.events ≡ e ∷ rest
                      → suc e.sequence ≤ position r.0.worker.token))
                (sym (poll-batch s turn log st (e ∷ rest) well.active sound taken))
                (
                  record {
                    active = done.active;
                    held = done.held;
                    reached = omega (arith, done.reached, past, low.0);
                  },
                  λ e' rest' some_ahead. omega (
                    arith,
                    done.reached,
                    past,
                    ap (λ (z : SequencedEvent P). z.sequence)
                        (same_head (sym first ∙ same ∙ some_ahead)),
                  ),
                )
        ]

    run-IsWell :
        (turns : List (Turn W)) (st : State D)
        → All (λ turn. (turn.broken ≡ false) × HasLooked turn.looked log.head) turns
        → IsStateAt s effect t₀ d₀ st log
        → IsWell s 0 st
        → length (ahead (accepted s) (position st.worker.token) log.events) ≤ length turns
        → (let r = run s (map polls turns) (st, log) in
            IsStateAt s effect t₀ d₀ r.0 log
            × (ahead (accepted s) (position r.0.worker.token) log.events ≡ []))
    run-IsWell [] st l h well le = (h, length-none _ le)
    run-IsWell (turn ∷ turns) st ((sound, l), later) h well le =
        let acc = accepted s in
        let p = position st.worker.token in
        let (kept, past) = poll-IsWell turn st sound l h well in
        run-IsWell turns (poll s turn log st).0 later
          (poll-IsStateAt s effect t₀ d₀ (healthy-IsFaithful s effect healthy) positive log isLog
            turn st l h)
          (record { active = kept.active; held = kept.held; reached = omega arith })
          (elim (List-cases (ahead acc p log.events)) [
            | inl none_ahead ↦ omega (
              arith,
              le,
              ap length none_ahead,
              length-ahead_mono acc p (position (poll s turn log st).0.worker.token) log.events
                  kept.reached,
            )
            | inr (e, rest, some_ahead) ↦ omega (
              arith,
              le,
              length-ahead_less acc p (position (poll s turn log st).0.worker.token) log.events e
                  rest some_ahead kept.reached (past e rest some_ahead),
            )
          ])

-- On a log that ascends, with each event's token a plain one just past the event, with handlers and
-- commits that succeed, a claim that is held, sound streams, and a start from a token that a
-- processor stores, as many polls as there are accepted events past the first token, or more, give
-- the database the effects of all of them.
pub catches_up :
    {P W D : Type 0} (s : Settings P W D) (effect : Bool → SequencedEvent P → D → D)
    (stored : Option TrackingToken) (d₀ : D) (entries : Entries) (log : Log P)
    (turns : List (Turn W))
    → IsHealthy s effect
    → IsPositive s.batch_size
    → IsProgress (token_or_zero stored)
    → IsLog log
    → IsHeld s entries
    → All (λ turn. (turn.broken ≡ false) × HasLooked turn.looked log.head) turns
    → length (ahead (accepted s) (position (token_or_zero stored)) log.events) ≤ length turns
    → (run s (map polls turns) (
      record { worker = start_worker s stored; database = d₀; entries = entries },
      log,
    )).0.database
      ≡ apply_all effect
          (map
            (marks_at (hash_of s.sequence_of) (token_or_zero stored))
            (ahead (accepted s) (position (token_or_zero stored)) log.events))
          d₀
unfolding start_worker
catches_up s effect stored d₀ entries log turns healthy positive progress isLog held sound le =
    let t₀ = token_or_zero stored in
    let start = started-IsStateAt s effect stored d₀ entries log progress in
    let (h, nothing) =
      run-IsWell s effect healthy t₀ d₀ positive log isLog turns
        (record { worker = start_worker s stored; database = d₀; entries = entries }) sound start
        (record { active = refl; held = held; reached = omega arith }) le in
    h.database
    ∙ ap (λ xs. apply_all effect (map (marks_at (hash_of s.sequence_of) t₀) xs) d₀)
        (between-all (accepted s) (position t₀) _ log.events h.ahead_of nothing)
