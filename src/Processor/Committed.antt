-- ===== src/Processor/Committed.antt =====
-- Where a worker stands after a batch that commits.
use kronos_ts.Common.{
  ℕ, zero, suc, ◌≤◌, max, ◌≡◌, refl, ap, ap₂, sym, ◌∙◌, subst, Bool, Option, some, List, [], ◌∷◌,
  ◌++◌, map, map-append, filter, arith, Bool-cases, inl, inr,
}
use kronos_ts.Outcome.{ok}
use kronos_ts.Token.{TrackingToken, position}
use kronos_ts.TokenStore.{Entries}
use kronos_ts.Processor.{SequencedEvent, hash_of, marks_at, mark_batch, past_of}
use kronos_ts.Processor.Worker.{Settings, Log, Turn, take_batch, batch_end}
use kronos_ts.Processor.Poll.{accepted, run_batch}
use kronos_ts.Processor.Advance.{IsAlike-trans}
use kronos_ts.Processor.Batch.{Ascending, batch_end-ge, marks-alike, mark_batch-IsMarked}
use kronos_ts.Processor.Between.{
  between, ahead, between-between, between-none, ahead-eq, take-between, Ascending-take,
  Ascending-ahead,
}
use kronos_ts.Processor.Effect.{IsFaithful, IsLog, apply_all, apply_all-append, run_batch-effect}
use kronos_ts.Processor.Progress.{IsAt}

module _ {P : Type 0} where
  -- Events of which none is at the head or past it end there, whatever is picked from them.
  batch_end-take :
      (q : SequencedEvent P → Bool) (k m n : ℕ) (xs : List (SequencedEvent P))
      → Ascending n xs
      → batch_end m (take_batch k (filter q xs)) ≤ max m (batch_end n xs)
  batch_end-take q zero m n xs asc = omega arith
  batch_end-take q (suc k) m n [] asc = omega arith
  batch_end-take q (suc k) m n (e ∷ xs) (low, placed, asc) = elim (Bool-cases (q e)) [
    | inl y ↦ rw y (
        omega (
          arith,
          batch_end-take q k (suc e.sequence) (suc e.sequence) xs asc,
          batch_end-ge (suc e.sequence) xs asc,
        ))
    | inr y ↦ rw y (batch_end-take q (suc k) m (suc e.sequence) xs asc)
  ]

module _ {P W D : Type 0} (s : Settings P W D) (effect : Bool → SequencedEvent P → D → D)
    (t₀ : TrackingToken) (d₀ : D) where
  marks_from_first :
      {t : TrackingToken} {c : Option ℕ} {d : D} {log : Log P} (n : ℕ)
      (batch : List (SequencedEvent P))
      → IsAt s effect t₀ d₀ t c d log
      → position t ≤ n
      → Ascending n batch
      → map (marks_at (hash_of s.sequence_of) t) batch
        ≡ map (marks_at (hash_of s.sequence_of) t₀) batch
  marks_from_first n [] h le asc = refl
  marks_from_first {t} n (e ∷ batch) h le (low, placed, asc) =
      ap₂ ◌∷◌
        (marks-alike (hash_of s.sequence_of) t t₀ e
          (h.alike (past_of e) placed.0.1 (omega (arith, placed.1))))
        (marks_from_first (suc e.sequence) batch h (omega (arith, low)) asc)

  module _ (faithful : IsFaithful s effect) where
    -- The database after a batch that starts at the token.
    batch_database :
        {t : TrackingToken} {c : Option ℕ} {d : D} (log : Log P) (batch : List (SequencedEvent P))
        (end : ℕ)
        → IsLog log
        → IsAt s effect t₀ d₀ t c d log
        → Ascending (position t) batch
        → batch ≡ between (accepted s) (position t) end log.events
        → position t ≤ end
        → apply_all effect (map (marks_at (hash_of s.sequence_of) t) batch) d
          ≡ apply_all effect
              (map
                (marks_at (hash_of s.sequence_of) t₀)
                (between (accepted s) (position t₀) end log.events))
              d₀
    batch_database {t} {c} {d} log batch end isLog h asc cut le =
        let m₀ = marks_at (hash_of s.sequence_of) t₀ in
        let before = between (accepted s) (position t₀) (position t) log.events in
        ap₂ (apply_all effect) (marks_from_first (position t) batch h (omega arith) asc) h.database
        ∙ sym (apply_all-append effect (map m₀ before) (map m₀ batch) d₀)
        ∙ ap (λ xs. apply_all effect xs d₀)
            (sym (map-append m₀ before batch)
              ∙ ap (map m₀) (
                  ap (◌++◌ before) cut
                  ∙ between-between (accepted s) (position t₀) (position t) end 0 log.events isLog.0
                      h.ahead_of le))

    -- What the flags and the end of a batch make of the worker, where the batch is cut from the log
    -- at the token.
    after_marks :
        {t : TrackingToken} {c : Option ℕ} {d : D} (log : Log P) (batch : List (SequencedEvent P))
        → IsLog log
        → IsAt s effect t₀ d₀ t c d log
        → Ascending (position t) batch
        → batch ≡ between (accepted s) (position t) (batch_end (position t) batch) log.events
        → batch_end (position t) batch ≤ max (position t) log.head
        → IsAt s effect t₀ d₀
            (mark_batch (hash_of s.sequence_of) t batch).1
            (some (batch_end (position t) batch))
            (apply_all effect (mark_batch (hash_of s.sequence_of) t batch).0 d)
            log
    after_marks {t} {c} {d} log batch isLog h asc cut bound =
        let m = mark_batch-IsMarked (hash_of s.sequence_of) t batch h.progress asc in
        let le = batch_end-ge (position t) batch asc in
        record {
          progress = m.progress;
          ahead_of = omega (arith, m.end, le, h.ahead_of);
          within = omega (arith, m.end, bound, h.within);
          alike = λ past b lt.
              IsAlike-trans (m.alike past b lt) (h.alike past b (omega (arith, m.end, le, lt)));
          synced = (
            omega (arith, le, h.ahead_of),
            omega (arith, m.end),
            between-none (accepted s) (batch_end (position t) batch) _ log.events
                (omega (arith, m.end)),
          );
          database =
              ap (λ ms. apply_all effect ms d) m.marks
              ∙ batch_database log batch (batch_end (position t) batch) isLog h asc cut le
              ∙ ap
                  (λ (p : ℕ).
                    apply_all effect
                      (map (marks_at (hash_of s.sequence_of) t₀)
                        (between (accepted s) (position t₀) p log.events))
                      d₀)
                  (sym m.end);
        }

    -- A batch that commits, of the first events that the stream has ready.
    pub advanced_by_batch :
        {t : TrackingToken} {k : ℕ} {d : D} (log : Log P) (n : ℕ) (turn : Turn W)
        (e : SequencedEvent P) (rest : List (SequencedEvent P)) (entries : Entries)
        (t' : TrackingToken) (d' : D) (entries' : Entries)
        → IsLog log
        → IsAt s effect t₀ d₀ t (some k) d log
        → take_batch n (ahead (accepted s) k log.events) ≡ e ∷ rest
        → run_batch s turn t (e ∷ rest) d entries ≡ ok (t', d', entries')
        → IsAt s effect t₀ d₀ t' (some (batch_end k (e ∷ rest))) d' log
    advanced_by_batch {t} {k} {d} log n turn e rest entries t' d' entries' isLog h taken ran =
        let acc = accepted s in
        let p = position t in
        let same =
          ap (take_batch n) (sym (ahead-eq acc k p log.events h.synced.1 h.synced.2)) ∙ taken in
        let asc = subst (Ascending p) same (
          Ascending-take n p (ahead acc p log.events)
            (Ascending-ahead acc p 0 log.events isLog.0)) in
        let cut =
          sym same
          ∙ take-between acc n p p 0 log.events isLog.0 (omega arith)
          ∙ ap (λ b. between acc p (batch_end p b) log.events) same in
        let bound =
          subst (λ b. batch_end p b ≤ max p (batch_end 0 log.events)) same
            (batch_end-take _ n p 0 log.events isLog.0) in
        let (et, ed) =
          run_batch-effect s effect faithful turn t (e ∷ rest) d entries t' d' entries' ran in
        subst (λ t'. IsAt s effect t₀ d₀ t' (some (batch_end k (e ∷ rest))) d' log) (sym et)
          (subst
            (λ d'.
              IsAt s effect t₀ d₀ (mark_batch (hash_of s.sequence_of) t (e ∷ rest)).1
                (some (batch_end k (e ∷ rest))) d' log)
            (sym ed) (after_marks log (e ∷ rest) isLog h asc cut (omega (arith, bound, isLog.1))))
