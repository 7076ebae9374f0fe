-- ===== src/DeadLetterQueue/Process.antt =====
-- The drain of one lane: `process` of packages/core/src/event-processing/dead-letter-queue.ts, with
-- nothing else running meanwhile, and the counts and `clear` of the same file.
use kronos_ts.Common.{
  ℕ, ◌+◌, Bool, true, false, not, ◌&&◌, Option, none, some, List, [], ◌∷◌, ◌++◌, if◌then◌else◌, ltb,
  length, filter, any, map,
}
use kronos_ts.Common.Text.{Text, text_eq, starts_with}
use kronos_ts.Common.Map.{Map, get, delete}
use kronos_ts.Outcome.{Outcome, ok, throws}
use kronos_ts.DeadLetterQueue.{
  DeadLetter, Queue, Attempt, settles, keeps_parked, fails, lanes, evict, requeue,
}

-- `${group}:${id}`; 58 is the colon.
abbrev pub processing_key : Text → Text → Text
processing_key group id = group ++ 58 ∷ id

-- `Set.delete` on the set of lanes that are being processed.
abbrev pub release_lane : Text → List Text → List Text
release_lane k taken = filter (λ t. not (text_eq t k)) taken

-- `firstTouched < oldestTime`, where the time is Infinity as long as there is no lane.
abbrev pub is_older : ℕ → Option (Text × ℕ) → Bool
is_older time none = true
is_older time (some (id, oldest_time)) = ltb time oldest_time

-- `if (!oldestId)`, which also holds of the empty text.
abbrev pub truthy_id : Option (Text × ℕ) → Option Text
truthy_id none = none
truthy_id (some ([], time)) = none
truthy_id (some (c ∷ id, time)) = some (c ∷ id)

module _ {M C V : Type 0} where
  -- The conditions of the loop over the lanes: not taken, not empty, accepted.
  abbrev pub is_candidate :
      Text → List Text → (Text → DeadLetter M C V → Bool) → Text → List (DeadLetter M C V) → Bool
  is_candidate group taken accepts id [] = false
  is_candidate group taken accepts id (head ∷ rest) =
      not (any (text_eq (processing_key group id)) taken) && accepts id head

  -- `letters[0].lastTouched`
  abbrev pub first_touched : List (DeadLetter M C V) → ℕ
  first_touched [] = 0
  first_touched (head ∷ rest) = head.last_touched

  -- The loop over the lanes.
  unfoldable pub find_oldest :
      Text
      → List Text
      → (Text → DeadLetter M C V → Bool)
      → Option (Text × ℕ)
      → Map (List (DeadLetter M C V))
      → Option (Text × ℕ)
  find_oldest group taken accepts oldest [] = oldest
  find_oldest group taken accepts oldest ((id, letters) ∷ more) =
      find_oldest group taken accepts
        (if is_candidate group taken accepts id letters && is_older (first_touched letters) oldest
          then some (id, first_touched letters)
          else oldest)
        more

  -- How the loop goes on after a replay of this letter, where `rest` is the loop on the other letters
  -- once this one is evicted.
  abbrev pub after_attempt :
      ℕ
      → Text
      → DeadLetter M C V
      → Queue M C V
      → Outcome Bool × Queue M C V
      → Attempt C V
      → Outcome Bool × Queue M C V
  after_attempt now group letter q rest settles = rest
  after_attempt now group letter q rest (keeps_parked cause diagnostics) =
      (ok true, requeue now group letter cause diagnostics q)
  after_attempt now group letter q rest (fails e) = (throws e, q)

  -- The loop over the snapshot: what `process` returns or throws, and the queue.
  unfoldable pub replay :
      ℕ
      → Text
      → Text
      → (DeadLetter M C V → Attempt C V)
      → List (DeadLetter M C V)
      → Queue M C V
      → Outcome Bool × Queue M C V
  replay now group id attempt [] q = (ok true, q)
  replay now group id attempt (letter ∷ rest) q =
      after_attempt now group letter q (replay now group id attempt rest (evict group id letter q))
        (attempt letter)

  abbrev pub replay_found :
      ℕ
      → Text
      → Text
      → (DeadLetter M C V → Attempt C V)
      → Option (List (DeadLetter M C V))
      → Queue M C V
      → Outcome Bool × Queue M C V
  replay_found now group id attempt none q = (ok false, q)
  replay_found now group id attempt (some letters) q = replay now group id attempt letters q

  -- `processing.delete(…)` of the `finally`.
  abbrev pub finally_release : Text → Outcome Bool × Queue M C V → Outcome Bool × Queue M C V
  finally_release k (result, q) = (result, record q { processing = release_lane k q.processing })

  unfoldable pub process_lane :
      ℕ → Text → Text → (DeadLetter M C V → Attempt C V) → Queue M C V → Outcome Bool × Queue M C V
  process_lane now group id attempt q = finally_release (processing_key group id) (
      replay_found now group id attempt (get id (lanes group q))
        (record q { processing = q.processing ++ processing_key group id ∷ [] }))

  abbrev pub process_found :
      ℕ
      → Text
      → (DeadLetter M C V → Attempt C V)
      → Option Text
      → Queue M C V
      → Outcome Bool × Queue M C V
  process_found now group attempt none q = (ok false, q)
  process_found now group attempt (some id) q = process_lane now group id attempt q

  unfoldable pub process :
      ℕ
      → Text
      → (Text → DeadLetter M C V → Bool)
      → (DeadLetter M C V → Attempt C V)
      → Queue M C V
      → Outcome Bool × Queue M C V
  process now group accepts attempt q =
      process_found now group attempt
        (truthy_id (find_oldest group q.processing accepts none (lanes group q))) q

  -- `size`
  abbrev pub total_length : Map (List (DeadLetter M C V)) → ℕ
  total_length [] = 0
  total_length ((id, letters) ∷ more) = length letters + total_length more

  unfoldable pub size : Text → Queue M C V → ℕ
  size group q = total_length (lanes group q)

  unfoldable pub amount_of_sequences : Text → Queue M C V → ℕ
  amount_of_sequences group q = length (lanes group q)

  unfoldable pub sequence_identifiers : Text → Queue M C V → List Text
  sequence_identifiers group q = map (λ e. e.0) (lanes group q)

  -- `clear`
  unfoldable pub clear : Text → Queue M C V → Queue M C V
  clear group q = record q {
    groups = delete group q.groups;
    processing = filter (λ k. not (starts_with k (group ++ 58 ∷ []))) q.processing;
  }
