-- ===== src/DeadLettering.antt =====
-- Delivery into a dead letter queue: packages/core/src/event-processing/dead-lettering.ts. `D` is the
-- database of the batch's unit of work, whose transaction covers the queue too.
pub mod Parking
pub mod Blocked
mod Tests
use kronos_ts.Common.{ℕ, suc, Bool, true, false, Option, none, some, List, [], ◌∷◌}
use kronos_ts.Common.Text.{Text, str}
use kronos_ts.Common.Map.{Map}
use kronos_ts.Outcome.{Outcome, ok, throws, Failure, ◌>>=◌}
use kronos_ts.Messages.{EventMessage, QualifiedName, qualified_name_to_string}
use kronos_ts.DeadLetterQueue.{DeadLetter, Queue, dead_letter, enqueue, enqueue_if_present}
use kronos_ts.Processor.{SequencedEvent}

-- The values of diagnostics that this file writes: `blocked`, `position` and `handlerName`.
pub data Diagnostic : Type 0 where
  flag : Bool → Diagnostic
  number : ℕ → Diagnostic
  label : Text → Diagnostic

-- The error kept in a letter.
pub data Cause : Type 0 where
  blocked_by_previous : Cause
  failed_with : Failure → Cause

abbrev pub Letter : Type 0 → Type 0
Letter P = DeadLetter (EventMessage P) Cause Diagnostic

abbrev pub LetterQueue : Type 0 → Type 0
LetterQueue P = Queue (EventMessage P) Cause Diagnostic

-- What a handler leaves: how it ended, and the database, which keeps what a failing handler wrote.
pub record Target (P D : Type 0) : Type 0 where
  pub name : QualifiedName
  pub handler : SequencedEvent P → D → D × Outcome (Unit {0})

-- The options of `deadLetteringDelivery`, with the clock's reading.
pub record Delivery (P : Type 0) : Type 0 where
  pub processing_group : Text
  pub sequence : EventMessage P → Text
  pub now : ℕ

module _ {P : Type 0} (o : Delivery P) where
  -- The letter of an event that finds its lane parked; `identity` is the new object's.
  abbrev pub blocked_letter : ℕ → SequencedEvent P → Letter P
  blocked_letter identity e =
      dead_letter o.now identity e.event blocked_by_previous (o.sequence e.event)
        (some ((str "blocked", flag true) ∷ (str "position", number e.sequence) ∷ []))

  abbrev pub failed_letter : ℕ → SequencedEvent P → QualifiedName → Failure → Letter P
  failed_letter identity e name error =
      dead_letter o.now identity e.event (failed_with error) (o.sequence e.event) (
        some (
          (str "position", number e.sequence)
          ∷ (str "handlerName", label (qualified_name_to_string name))
          ∷ []))

  -- The queue after it has made an object for a letter.
  abbrev pub with_new : LetterQueue P → LetterQueue P
  with_new q = record q { next_identity = suc q.next_identity }

  module _ {D : Type 0} where
    -- The `catch` of the loop: the failure goes into the queue, and the loop ends.
    abbrev pub park :
        SequencedEvent P → QualifiedName → Failure → D → LetterQueue P → Outcome (D × LetterQueue P)
    park e name error d q = do
      parked ← enqueue o.processing_group (failed_letter q.next_identity e name error) (with_new q)
      ok (d, parked)

    -- How the loop over the targets goes on after one of them.
    abbrev pub after_target :
        QualifiedName
        → SequencedEvent P
        → (D → LetterQueue P → Outcome (D × LetterQueue P))
        → LetterQueue P
        → D × Outcome (Unit {0})
        → Outcome (D × LetterQueue P)
    after_target name e more q (d, ok _) = more d q
    after_target name e more q (d, throws error) = park e name error d q

    unfoldable pub run_targets :
        List (Target P D) → SequencedEvent P → D → LetterQueue P → Outcome (D × LetterQueue P)
    run_targets [] e d q = ok (d, q)
    run_targets (t ∷ targets) e d q =
        after_target t.name e (run_targets targets e) q (t.handler e d)

    abbrev pub unless_blocked :
        List (Target P D)
        → SequencedEvent P
        → D
        → Bool × LetterQueue P
        → Outcome (D × LetterQueue P)
    unless_blocked targets e d (true, q) = ok (d, q)
    unless_blocked targets e d (false, q) = run_targets targets e d q

    -- `deliver`
    unfoldable pub deliver :
        List (Target P D) → SequencedEvent P → D → LetterQueue P → Outcome (D × LetterQueue P)
    unfolding run_targets
    deliver targets e d q = do
      blocked ←
          enqueue_if_present o.processing_group (o.sequence e.event)
            (blocked_letter q.next_identity e) (with_new q)
      unless_blocked targets e d blocked

    -- `deliverEvent` of running-processor.ts with a queue: an event that nobody handles is passed over.
    unfoldable pub deliver_handled :
        List (Target P D) → SequencedEvent P → D → LetterQueue P → Outcome (D × LetterQueue P)
    deliver_handled [] e d q = ok (d, q)
    deliver_handled (t ∷ targets) e d q = deliver (t ∷ targets) e d q

    -- The events of a batch, one after the other, each with its targets.
    unfoldable pub deliver_all :
        (SequencedEvent P → List (Target P D))
        → List (SequencedEvent P)
        → D
        → LetterQueue P
        → Outcome (D × LetterQueue P)
    deliver_all targets [] d q = ok (d, q)
    deliver_all targets (e ∷ es) d q = do
      (d', q') ← deliver_handled (targets e) e d q
      deliver_all targets es d' q'
