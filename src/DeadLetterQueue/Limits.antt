-- ===== src/DeadLetterQueue/Limits.antt =====
-- Enqueues, supplies, evictions and clears keep a dead letter queue to its limits. A requeue does not: it
-- puts a letter at the head of its lane without looking at the limits.
use kronos_ts.Common.{
  ℕ, ◌≤◌, ◌<◌, ◌≡◌, refl, ap, sym, subst, Bool, Option, none, some, List, arith, Bool-cases, inl,
  inr, leb, length,
}
use kronos_ts.Common.Text.{Text, text_eq}
use kronos_ts.Common.Map.{get, get-delete}
use kronos_ts.Outcome.{ok, ok-throws, ok-injective}
use kronos_ts.DeadLetterQueue.{
  DeadLetter, Queue, lanes, enqueue, enqueue_found, enqueue_if_present, enqueue_present_found,
  evict, evict_found, remove,
}
use kronos_ts.DeadLetterQueue.Process.{clear}
use kronos_ts.DeadLetterQueue.Bounds.{
  IsLaneWithin, IsBounded, with_lanes-IsBounded, added, started, length-remove,
  put_back-IsWithinLimits, All-get,
}

module _ {M C V : Type 0} where
  -- The operations by which letters come and go, where they do not throw.
  pub data Change : Queue M C V → Queue M C V → Type 0 where
    enqueues :
        {q q' : Queue M C V} (group : Text) (letter : DeadLetter M C V)
        → enqueue group letter q ≡ ok q'
        → Change q q'
    supplies :
        {q q' : Queue M C V} (group id : Text) (letter : DeadLetter M C V) (present : Bool)
        → enqueue_if_present group id letter q ≡ ok (present, q')
        → Change q q'
    evicts :
        {q : Queue M C V} (group id : Text) (letter : DeadLetter M C V)
        → Change q (evict group id letter q)
    clears : {q : Queue M C V} (group : Text) → Change q (clear group q)

  pub data Reaches (q : Queue M C V) : Queue M C V → Type 0 where
    stays : Reaches q q
    changes : {q' q'' : Queue M C V} → Reaches q q' → Change q' q'' → Reaches q q''

module _ {M C V : Type 0} (n m : ℕ) where
  enqueue_found-IsBounded :
      (group : Text) (letter : DeadLetter M C V) (found : Option (List (DeadLetter M C V)))
      (q q' : Queue M C V)
      → 0 < m
      → get letter.sequence_identifier (lanes group q) ≡ found
      → enqueue_found group letter found q ≡ ok q'
      → IsBounded n m q
      → IsBounded n m q'
  enqueue_found-IsBounded group letter none q q' pos h e b =
      elim (Bool-cases (leb q.max_sequences (length (lanes group q)))) [
        | inl c ↦ absurd (ok-throws (sym (rw c at e)))
        | inr c ↦
            subst (IsBounded n m) (ok-injective (rw c at e))
              (started n m group letter.sequence_identifier letter q pos h c b)
      ]
  enqueue_found-IsBounded group letter (some seq) q q' pos h e b =
      elim (Bool-cases (leb q.max_sequence_size (length seq))) [
        | inl c ↦ absurd (ok-throws (sym (rw c at e)))
        | inr c ↦
            subst (IsBounded n m) (ok-injective (rw c at e))
              (added n m group letter.sequence_identifier letter seq q h c b)
      ]

  supply_found-IsBounded :
      (group id : Text) (letter : DeadLetter M C V) (present : Bool)
      (found : Option (List (DeadLetter M C V))) (q q' : Queue M C V)
      → get id (lanes group q) ≡ found
      → enqueue_present_found group id letter found q ≡ ok (present, q')
      → IsBounded n m q
      → IsBounded n m q'
  supply_found-IsBounded group id letter present none q q' h e b =
      subst (IsBounded n m) (ap (λ r. r.1) (ok-injective e)) b
  supply_found-IsBounded group id letter present (some seq) q q' h e b =
      elim (Bool-cases (leb q.max_sequence_size (length seq))) [
        | inl c ↦ absurd (ok-throws (sym (rw c at e)))
        | inr c ↦
            subst (IsBounded n m) (ap (λ r. r.1) (ok-injective (rw c at e)))
              (added n m group id letter seq q h c b)
      ]

  evict_found-IsBounded :
      (group id : Text) (letter : DeadLetter M C V) (found : Option (List (DeadLetter M C V)))
      (q : Queue M C V)
      → get id (lanes group q) ≡ found
      → IsBounded n m q
      → IsBounded n m (evict_found group id letter found q)
  evict_found-IsBounded group id letter none q h b = b
  evict_found-IsBounded group id letter (some seq) q h (s, z, all) =
      with_lanes-IsBounded n m group _ q
        (put_back-IsWithinLimits n m id (remove letter.identity seq) seq (lanes group q) h short
          (all group))
        (s, z, all)
    where
      short : length (remove letter.identity seq) ≤ m
      short = omega (
        arith,
        length-remove n m letter.identity seq,
        (All-get (IsLaneWithin m) id seq (lanes group q) h (all group).short_lanes).1,
      )

  clear-IsBounded :
      (group : Text) (q : Queue M C V) → IsBounded n m q → IsBounded n m (clear group q)
  unfolding clear lanes
  clear-IsBounded group q (s, z, all) = (
    s,
    z,
    λ g. elim (Bool-cases (text_eq group g)) [
      | inl e ↦
          rw (get-delete group g q.groups, e) (record { few_lanes = omega arith; short_lanes = tt })
      | inr e ↦ rw (get-delete group g q.groups, e) (all g)
    ],
  )

  change-IsBounded : {q q' : Queue M C V} → 0 < m → Change q q' → IsBounded n m q → IsBounded n m q'
  unfolding enqueue enqueue_if_present evict
  change-IsBounded pos (enqueues group letter e) b =
      enqueue_found-IsBounded group letter _ _ _ pos refl e b
  change-IsBounded pos (supplies group id letter present e) b =
      supply_found-IsBounded group id letter present _ _ _ refl e b
  change-IsBounded pos (evicts group id letter) b = evict_found-IsBounded group id letter _ _ refl b
  change-IsBounded pos (clears group) b = clear-IsBounded group _ b

  -- Where a lane may hold at least one letter, a queue that is within both limits and has no empty
  -- lane stays so under every sequence of enqueues, supplies to a lane that is there, evictions and
  -- clears, with the limits themselves unchanged.
  pub limits_hold : {q q' : Queue M C V} → 0 < m → Reaches q q' → IsBounded n m q → IsBounded n m q'
  limits_hold pos stays b = b
  limits_hold pos (changes r c) b = change-IsBounded pos c (limits_hold pos r b)
