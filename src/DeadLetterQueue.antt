-- ===== src/DeadLetterQueue.antt =====
-- The in-memory dead letter queue: packages/core/src/event-processing/dead-letter-queue.ts. A letter
-- carries the identity of its object, which `indexOf` compares. The unit of work of one replay is
-- represented by how its `execute` ends: `Attempt`.
pub mod Process
pub mod Lanes
pub mod Bounds
pub mod Limits
pub mod Replay
pub mod Oldest
mod Tests
use kronos_ts.Common.{
  ℕ, zero, suc, ◌+◌, Bool, true, false, not, ◌||◌, Option, none, some, List, [], ◌∷◌, ◌++◌,
  if◌then◌else◌, ltb, leb, ◌==◌, length, filter, any, map,
}
use kronos_ts.Common.Text.{Text, text_eq, starts_with}
use kronos_ts.Common.Map.{Map, spread, get, set, delete, has}
use kronos_ts.Outcome.{Outcome, ok, throws, Failure, dead_letter_queue_overflow}

-- `identity` is the reference; the messages, causes and diagnostic values are of any type.
pub record DeadLetter (M C V : Type 0) : Type 0 where
  pub identity : ℕ
  pub message : M
  pub cause : C
  pub enqueued_at : ℕ
  pub last_touched : ℕ
  pub diagnostics : Map V
  pub sequence_identifier : Text

-- How the unit of work of one replay ends: committed, so that the eviction after the commit runs;
-- rolled back on a decision to keep the letter, with what the decision updates; or failed.
pub data Attempt (C V : Type 0) : Type 0 where
  settles : Attempt C V
  keeps_parked : Option C → Option (Map V) → Attempt C V
  fails : Failure → Attempt C V

pub record Queue (M C V : Type 0) : Type 0 where
  pub max_sequences : ℕ
  pub max_sequence_size : ℕ
  pub groups : Map (Map (List (DeadLetter M C V)))
  pub processing : List Text
  -- The identity of the next object.
  pub next_identity : ℕ

abbrev pub or_else {ℓ} : {A : Type ℓ} → Option A → A → A
or_else none b = b
or_else (some a) b = a

abbrev pub updated_diagnostics {ℓ} : {V : Type ℓ} → Map V → Option (Map V) → Map V
updated_diagnostics old none = old
updated_diagnostics old (some update) = spread old update

module _ {M C V : Type 0} where
  -- The function `deadLetter`, with its clock and the identity of the object it makes.
  abbrev pub dead_letter : ℕ → ℕ → M → C → Text → Option (Map V) → DeadLetter M C V
  dead_letter now identity message cause sequence_identifier diagnostics = record {
    identity = identity;
    message = message;
    cause = cause;
    enqueued_at = now;
    last_touched = now;
    diagnostics = or_else diagnostics [];
    sequence_identifier = sequence_identifier;
  }

  -- `lanes(group)`; a group without lanes and a missing one behave alike.
  unfoldable pub lanes : Text → Queue M C V → Map (List (DeadLetter M C V))
  lanes group q = or_else (get group q.groups) []

  abbrev pub with_lanes : Text → Map (List (DeadLetter M C V)) → Queue M C V → Queue M C V
  with_lanes group m q = record q { groups = set group m q.groups }

  abbrev pub enqueue_found :
      Text
      → DeadLetter M C V
      → Option (List (DeadLetter M C V))
      → Queue M C V
      → Outcome (Queue M C V)
  enqueue_found group letter (some seq) q =
      if leb q.max_sequence_size (length seq)
      then throws dead_letter_queue_overflow
      else ok
          (with_lanes group (set letter.sequence_identifier (seq ++ letter ∷ []) (lanes group q)) q)
  enqueue_found group letter none q =
      if leb q.max_sequences (length (lanes group q))
      then throws dead_letter_queue_overflow
      else ok (with_lanes group (set letter.sequence_identifier (letter ∷ []) (lanes group q)) q)

  unfoldable pub enqueue : Text → DeadLetter M C V → Queue M C V → Outcome (Queue M C V)
  enqueue group letter q =
      enqueue_found group letter (get letter.sequence_identifier (lanes group q)) q

  -- `supplied` is what a call of `letterSupplier` gives.
  abbrev pub enqueue_present_found :
      Text
      → Text
      → DeadLetter M C V
      → Option (List (DeadLetter M C V))
      → Queue M C V
      → Outcome (Bool × Queue M C V)
  enqueue_present_found group id supplied none q = ok (false, q)
  enqueue_present_found group id supplied (some seq) q =
      if leb q.max_sequence_size (length seq)
      then throws dead_letter_queue_overflow
      else ok (true, with_lanes group (set id (seq ++ supplied ∷ []) (lanes group q)) q)

  unfoldable pub enqueue_if_present :
      Text → Text → DeadLetter M C V → Queue M C V → Outcome (Bool × Queue M C V)
  enqueue_if_present group id supplied q =
      enqueue_present_found group id supplied (get id (lanes group q)) q

  -- `seq.splice(seq.indexOf(letter), 1)` where the letter is there.
  abbrev pub remove : ℕ → List (DeadLetter M C V) → List (DeadLetter M C V)
  remove identity [] = []
  remove identity (l ∷ seq) = if l.identity == identity then seq else l ∷ remove identity seq

  -- The lane with what is left of it; an empty lane is deleted.
  abbrev pub put_back :
      Text → List (DeadLetter M C V) → Map (List (DeadLetter M C V)) → Map (List (DeadLetter M C V))
  put_back id [] m = delete id m
  put_back id (l ∷ seq) m = set id (l ∷ seq) m

  abbrev pub evict_found :
      Text → Text → DeadLetter M C V → Option (List (DeadLetter M C V)) → Queue M C V → Queue M C V
  evict_found group id letter none q = q
  evict_found group id letter (some seq) q =
      with_lanes group (put_back id (remove letter.identity seq) (lanes group q)) q

  unfoldable pub evict : Text → Text → DeadLetter M C V → Queue M C V → Queue M C V
  evict group id letter q = evict_found group id letter (get id (lanes group q)) q

  -- `updated` of `requeue`, a new object.
  abbrev pub touched : ℕ → ℕ → Option C → Option (Map V) → DeadLetter M C V → DeadLetter M C V
  touched now identity cause diagnostics letter = record letter {
    identity = identity;
    last_touched = now;
    cause = or_else cause letter.cause;
    diagnostics = updated_diagnostics letter.diagnostics diagnostics;
  }

  abbrev pub requeue_found :
      ℕ
      → Text
      → DeadLetter M C V
      → Option C
      → Option (Map V)
      → Option (List (DeadLetter M C V))
      → Queue M C V
      → Queue M C V
  requeue_found now group letter cause diagnostics none q = q
  requeue_found now group letter cause diagnostics (some seq) q =
      record (with_lanes group
        (set letter.sequence_identifier
          (touched now q.next_identity cause diagnostics letter ∷ remove letter.identity seq)
          (lanes group q))
        q) { next_identity = suc q.next_identity }

  unfoldable pub requeue :
      ℕ → Text → DeadLetter M C V → Option C → Option (Map V) → Queue M C V → Queue M C V
  requeue now group letter cause diagnostics q =
      requeue_found now group letter cause diagnostics
        (get letter.sequence_identifier (lanes group q)) q

  unfoldable pub contains : Text → Text → Queue M C V → Bool
  contains group id q = ltb 0 (length (or_else (get id (lanes group q)) []))

  unfoldable pub dead_letter_sequence : Text → Text → Queue M C V → List (DeadLetter M C V)
  dead_letter_sequence group id q = or_else (get id (lanes group q)) []

  abbrev pub full_found : Option (List (DeadLetter M C V)) → Text → Queue M C V → Bool
  full_found (some seq) group q = leb q.max_sequence_size (length seq)
  full_found none group q = leb q.max_sequences (length (lanes group q))

  unfoldable pub is_full : Text → Text → Queue M C V → Bool
  is_full group id q = full_found (get id (lanes group q)) group q
