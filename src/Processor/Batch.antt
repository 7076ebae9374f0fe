-- ===== src/Processor/Batch.antt =====
-- The flags of a batch: `processBatch` of running-processor.ts.
use kronos_ts.Common.{
  ℕ, suc, ◌≤◌, ◌<◌, ◌≡◌, refl, ap, ap₂, sym, ◌∙◌, subst, not, List, [], ◌∷◌, map, arith,
}
use kronos_ts.Messages.{EventMessage}
use kronos_ts.Token.{TrackingToken, position, advance_token_to}
use kronos_ts.Token.Order.{IsBounded}
use kronos_ts.Processor.{SequencedEvent, Marked, past_of, marks_at, mark_batch}
use kronos_ts.Processor.Worker.{batch_end}
use kronos_ts.Processor.Advance.{IsCursor, IsProgress, IsAlike, IsAlike-trans, IsAdvanced, advanced}

-- The events of a batch, each past the one before it, from a position on.
module _ {P : Type 0} where
  -- An engine's token of an event is a cursor just past it.
  abbrev pub IsPlaced : SequencedEvent P → Type 0
  IsPlaced e = IsCursor (past_of e) × (position (past_of e) ≡ suc e.sequence)

  abbrev pub Ascending : ℕ → List (SequencedEvent P) → Type 0
  Ascending n [] = Unit
  Ascending n (e ∷ es) = (n ≤ e.sequence) × IsPlaced e × Ascending (suc e.sequence) es

  pub marks-alike :
      (hash_of : EventMessage P → ℕ) (t u : TrackingToken) (e : SequencedEvent P)
      → IsAlike t u (past_of e)
      → marks_at hash_of t e ≡ marks_at hash_of u e
  marks-alike hash_of t u e a =
      ap₂ (λ r f. record { item = e; replaying = r; fresh = not f }) a.replays
        (a.merges (hash_of e.event))

  pub batch_end-ge : (n : ℕ) (es : List (SequencedEvent P)) → Ascending n es → n ≤ batch_end n es
  batch_end-ge n [] asc = omega arith
  batch_end-ge n (e ∷ es) (le, placed, asc) =
      omega (arith, le, batch_end-ge (suc e.sequence) es asc)

  position_step :
      (t : TrackingToken) (e : SequencedEvent P)
      → IsAdvanced t (past_of e)
      → position t ≤ e.sequence
      → position (past_of e) ≡ suc e.sequence
      → position (advance_token_to t (past_of e)) ≡ suc e.sequence
  position_step t e a le placed = omega (arith, a.moved)

  marks_later :
      (hash_of : EventMessage P → ℕ) (t next : TrackingToken) (n : ℕ) (es : List (SequencedEvent P))
      → IsAdvanced t next
      → position next < suc n
      → Ascending n es
      → map (marks_at hash_of (advance_token_to t next)) es ≡ map (marks_at hash_of t) es
  marks_later hash_of t next n [] a lt asc = refl
  marks_later hash_of t next n (e ∷ es) a lt (le, placed, asc) =
      ap₂ ◌∷◌
        (marks-alike hash_of (advance_token_to t next) t e
          (a.alike (past_of e) placed.0.1 (omega (arith, placed.1))))
        (marks_later hash_of t next (suc e.sequence) es a (omega arith) asc)

  -- What the first loop of a batch makes of it.
  pub record IsMarked (hash_of : EventMessage P → ℕ) (t : TrackingToken)
      (batch : List (SequencedEvent P)) (r : List (Marked P) × TrackingToken) : Type 0 where
    pub marks : r.0 ≡ map (marks_at hash_of t) batch
    pub progress : IsProgress r.1
    pub end : position r.1 ≡ batch_end (position t) batch
    pub alike :
        (past : TrackingToken) → IsBounded past → position r.1 < position past → IsAlike r.1 t past

  -- The flags of a batch are those that the token before the batch calls for, event by event,
  -- although the loop reads them off a token that it advances.
  pub mark_batch-IsMarked :
      (hash_of : EventMessage P → ℕ) (t : TrackingToken) (batch : List (SequencedEvent P))
      → IsProgress t
      → Ascending (position t) batch
      → IsMarked hash_of t batch (mark_batch hash_of t batch)
  unfolding mark_batch
  mark_batch-IsMarked hash_of t [] p asc = record {
    marks = refl;
    progress = p;
    end = refl;
    alike = λ past b lt. record { replays = refl; merges = λ hash. refl };
  }
  mark_batch-IsMarked hash_of t (e ∷ batch) p (le, placed, asc) =
      let a = advanced (past_of e) placed.0 t p (omega (arith, placed.1)) in
      let at_end = position_step t e a le placed.1 in
      let ih =
        mark_batch-IsMarked hash_of (advance_token_to t (past_of e)) batch a.progress
          (subst (λ n. Ascending n batch) (sym at_end) asc) in
      record {
        marks = ap (◌∷◌ (marks_at hash_of t e)) (
            ih.marks
            ∙ marks_later hash_of t (past_of e) (suc e.sequence) batch a (omega (arith, placed.1))
                asc);
        progress = ih.progress;
        end = ih.end ∙ ap (λ n. batch_end n batch) at_end;
        alike = λ past b lt. IsAlike-trans (ih.alike past b lt) (
            a.alike past b (
              omega (
                arith,
                lt,
                ih.end,
                at_end,
                placed.1,
                batch_end-ge (position (advance_token_to t (past_of e))) batch
                    (subst (λ n. Ascending n batch) (sym at_end) asc),
              )));
      }
