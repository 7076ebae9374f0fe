-- ===== src/DeadLettering/Blocked.antt =====
-- Events behind a parked one reach no handler, and a delivery fails only for want of room.
use kronos_ts.Common.{
  ◌≡◌, refl, ap, sym, ◌∙◌, Bool, true, false, ◌&&◌, Option, none, some, List, [], ◌∷◌, ◌++◌,
  Bool-cases, if-holds, inl, inr, arith, leb, length,
}
use kronos_ts.Common.Text.{Text, text_eq_iff}
use kronos_ts.Common.Map.{get}
use kronos_ts.Outcome.{Outcome, ok, throws, dead_letter_queue_overflow, ◌>>=◌, Outcome-cases}
use kronos_ts.DeadLetterQueue.{
  DeadLetter, Queue, lanes, enqueue, enqueue_found, enqueue_if_present, enqueue_present_found,
}
use kronos_ts.Processor.{SequencedEvent}
use kronos_ts.DeadLettering.{
  Letter, LetterQueue, Target, Delivery, blocked_letter, failed_letter, with_new, after_target,
  run_targets, unless_blocked, deliver, deliver_handled, deliver_all,
}
use kronos_ts.DeadLettering.Parking.{has_targets, is_of_lane, LaneIs, handled-other, handled-own}

-- The call fails for want of room, if it fails.
abbrev pub IsOverflow {ℓ} : {A : Type ℓ} → Outcome A → Type 0
IsOverflow (ok a) = Unit
IsOverflow (throws error) = error ≡ dead_letter_queue_overflow

IsOverflow->>= :
    {A B : Type 0} (m : Outcome A) (f : A → Outcome B)
    → IsOverflow m
    → ((a : A) → IsOverflow (f a))
    → IsOverflow (m >>= f)
IsOverflow->>= (ok a) f h k = k a
IsOverflow->>= (throws error) f h k = h

module _ {M C V : Type 0} where
  enqueue-IsOverflow :
      (group : Text) (l : DeadLetter M C V) (q : Queue M C V) → IsOverflow (enqueue group l q)
  unfolding enqueue
  enqueue-IsOverflow group l q = go (get l.sequence_identifier (lanes group q))
    where
      go : (o : Option (List (DeadLetter M C V))) → IsOverflow (enqueue_found group l o q)
      go none =
          if-holds {A = Outcome (Queue M C V)} IsOverflow
            (leb q.max_sequences (length (lanes group q))) (λ y. refl) (λ y. tt)
      go (some seq) =
          if-holds {A = Outcome (Queue M C V)} IsOverflow (leb q.max_sequence_size (length seq))
            (λ y. refl) (λ y. tt)

  supply-IsOverflow :
      (group id : Text) (l : DeadLetter M C V) (q : Queue M C V)
      → IsOverflow (enqueue_if_present group id l q)
  unfolding enqueue_if_present
  supply-IsOverflow group id l q = go (get id (lanes group q))
    where
      go :
          (o : Option (List (DeadLetter M C V))) → IsOverflow (enqueue_present_found group id l o q)
      go none = tt
      go (some seq) =
          if-holds {A = Outcome (Bool × Queue M C V)} IsOverflow
            (leb q.max_sequence_size (length seq)) (λ y. refl) (λ y. tt)

module _ {P D : Type 0} (o : Delivery P) where
  run_targets-IsOverflow :
      (targets : List (Target P D)) (e : SequencedEvent P) (d : D) (q : LetterQueue P)
      → IsOverflow (run_targets o targets e d q)
  unfolding run_targets
  run_targets-IsOverflow [] e d q = tt
  run_targets-IsOverflow (t ∷ targets) e d q =
      by_target (λ d₁. run_targets-IsOverflow targets e d₁ q) (t.handler e d)
    where
      by_target :
          ((d₁ : D) → IsOverflow (run_targets o targets e d₁ q))
          → (r : D × Outcome (Unit {0}))
          → IsOverflow (after_target o t.name e (run_targets o targets e) q r)
      by_target later (d₁, ok u) = later d₁
      by_target later (d₁, throws error) =
          IsOverflow->>=
            (enqueue o.processing_group (failed_letter o q.next_identity e t.name error)
              (with_new o q))
            _ (enqueue-IsOverflow o.processing_group _ (with_new o q)) (λ parked. tt)

  unless_blocked-IsOverflow :
      (targets : List (Target P D)) (e : SequencedEvent P) (d : D) (r : Bool × LetterQueue P)
      → IsOverflow (unless_blocked o targets e d r)
  unless_blocked-IsOverflow targets e d (true, q) = tt
  unless_blocked-IsOverflow targets e d (false, q) = run_targets-IsOverflow targets e d q

  deliver_handled-IsOverflow :
      (targets : List (Target P D)) (e : SequencedEvent P) (d : D) (q : LetterQueue P)
      → IsOverflow (deliver_handled o targets e d q)
  unfolding deliver_handled deliver
  deliver_handled-IsOverflow [] e d q = tt
  deliver_handled-IsOverflow (t ∷ targets) e d q =
      IsOverflow->>=
        (enqueue_if_present o.processing_group (o.sequence e.event)
          (blocked_letter o q.next_identity e) (with_new o q))
        _ (supply-IsOverflow o.processing_group (o.sequence e.event) _ (with_new o q))
        (unless_blocked-IsOverflow (t ∷ targets) e d)

  -- Whatever the handlers do, and however many of them fail, the delivery of a batch into a queue
  -- throws no error but the queue's overflow.
  pub delivery_overflows :
      (targets : SequencedEvent P → List (Target P D)) (es : List (SequencedEvent P)) (d : D)
      (q : LetterQueue P)
      → IsOverflow (deliver_all o targets es d q)
  unfolding deliver_all
  delivery_overflows targets [] d q = tt
  delivery_overflows targets (e ∷ es) d q =
      IsOverflow->>= (deliver_handled o (targets e) e d q) _
        (deliver_handled-IsOverflow (targets e) e d q) (λ r. delivery_overflows targets es r.0 r.1)

  module _ (id : Text) where
    deliver-blind :
        (t t' : Target P D) (ts ts' : List (Target P D)) (e : SequencedEvent P) (d : D)
        (q : LetterQueue P) (letters : List (Letter P))
        → o.sequence e.event ≡ id
        → LaneIs o id letters q
        → deliver_handled o (t ∷ ts) e d q ≡ deliver_handled o (t' ∷ ts') e d q
    unfolding deliver_handled deliver enqueue_if_present lanes
    deliver-blind t t' ts ts' e d q letters same h =
        elim (Bool-cases (leb q.max_sequence_size (length letters))) [
          | inl y ↦ rw (same, h, y) refl
          | inr y ↦ rw (same, h, y) refl
        ]

    handled-blind :
        (ts ts' : List (Target P D)) (e : SequencedEvent P) (d : D) (q : LetterQueue P)
        (letters : List (Letter P))
        → has_targets ts ≡ has_targets ts'
        → o.sequence e.event ≡ id
        → LaneIs o id letters q
        → deliver_handled o ts e d q ≡ deliver_handled o ts' e d q
    handled-blind [] [] e d q letters n same h = refl
    handled-blind [] (t' ∷ ts') e d q letters n same h = absurd (ground (arith, n))
    handled-blind (t ∷ ts) [] e d q letters n same h = absurd (ground (arith, n))
    handled-blind (t ∷ ts) (t' ∷ ts') e d q letters n same h =
        deliver-blind t t' ts ts' e d q letters same h

    -- A lane that has letters has some after a delivery.
    handled-keeps :
        (ts : List (Target P D)) (e : SequencedEvent P) (d d' : D) (q q' : LetterQueue P)
        (letters : List (Letter P))
        → LaneIs o id letters q
        → deliver_handled o ts e d q ≡ ok (d', q')
        → (letters' : List (Letter P)) × LaneIs o id letters' q'
    handled-keeps ts e d d' q q' letters h r =
        elim (Bool-cases (has_targets ts && is_of_lane o id e)) [
          | inl y ↦ (
            letters ++ blocked_letter o q.next_identity e ∷ [],
            handled-own o id ts e d d' q q' letters y h r,
          )
          | inr n ↦ (letters, handled-other o id ts e d d' q q' n r ∙ h)
        ]

    -- Once a lane has a letter, the handlers of the lane's events make no difference: with any
    -- other handlers for them, as long as the same events have some, the database, the queue and
    -- the result of the delivery are the same.
    pub parked_unhandled :
        (targets targets' : SequencedEvent P → List (Target P D)) (es : List (SequencedEvent P))
        (d : D) (q : LetterQueue P) (letters : List (Letter P))
        → ((e : SequencedEvent P) → is_of_lane o id e ≡ false → targets e ≡ targets' e)
        → ((e : SequencedEvent P) → has_targets (targets e) ≡ has_targets (targets' e))
        → LaneIs o id letters q
        → deliver_all o targets es d q ≡ deliver_all o targets' es d q
    unfolding deliver_all
    parked_unhandled targets targets' [] d q letters apart some_handler h = refl
    parked_unhandled targets targets' (e ∷ es) d q letters apart some_handler h =
        let next : D × LetterQueue P → Outcome (D × LetterQueue P) =
          λ r. deliver_all o targets es r.0 r.1 in
        let next' : D × LetterQueue P → Outcome (D × LetterQueue P) =
          λ r. deliver_all o targets' es r.0 r.1 in
        elim (Outcome-cases (deliver_handled o (targets e) e d q)) [
          | inl ((d₁, q₁), r) ↦
              let (letters', h') = handled-keeps (targets e) e d d₁ q q₁ letters h r in
              ap (λ m. m >>= next) r
              ∙ parked_unhandled targets targets' es d₁ q₁ letters' apart some_handler h'
              ∙ sym (ap (λ m. m >>= next') (sym step ∙ r))
          | inr (error, r) ↦ ap (λ m. m >>= next) r ∙ sym (ap (λ m. m >>= next') (sym step ∙ r))
        ]
      where
        step : deliver_handled o (targets e) e d q ≡ deliver_handled o (targets' e) e d q
        step = elim (Bool-cases (is_of_lane o id e)) [
          | inl y ↦
              handled-blind (targets e) (targets' e) e d q letters (some_handler e)
                ((text_eq_iff (o.sequence e.event) id).0 y) h
          | inr n ↦ ap (λ ts. deliver_handled o ts e d q) (apart e n)
        ]
