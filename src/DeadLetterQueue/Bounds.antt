-- ===== src/DeadLetterQueue/Bounds.antt =====
-- The limits of a dead letter queue, and when it refuses a letter.
use kronos_ts.Common.{
  ℕ, suc, ◌≤◌, ◌<◌, ◌≡◌, ◌↔◌, refl, ap, subst, true, false, Option, none, some, List, [], ◌∷◌, ◌++◌,
  All, arith, Bool-cases, inl, inr, ◌==◌, leb, some_inj, length, length-append,
}
use kronos_ts.Common.Text.{Text, text_eq}
use kronos_ts.Common.Map.{Map, get, set, delete}
use kronos_ts.Outcome.{throws, dead_letter_queue_overflow, ok-throws}
use kronos_ts.DeadLetterQueue.{
  DeadLetter, Queue, lanes, with_lanes, enqueue, enqueue_found, put_back, remove, is_full,
  full_found,
}
use kronos_ts.DeadLetterQueue.Lanes.{lanes-with_lanes}

-- What setting and deleting do to the entries of a map.
module _ {V : Type 0} (P : V → Type 0) where
  All-set : (k : Text) (v : V) (m : Map V) → P v → All (λ e. P e.1) m → All (λ e. P e.1) (set k v m)
  unfolding set
  All-set k v [] p h = (p, tt)
  All-set k v ((j, w) ∷ m) p h = elim (Bool-cases (text_eq j k)) [
    | inl b ↦ rw b (p, h.1)
    | inr b ↦ rw b (h.0, All-set k v m p h.1)
  ]

  All-delete : (k : Text) (m : Map V) → All (λ e. P e.1) m → All (λ e. P e.1) (delete k m)
  unfolding delete
  All-delete k [] h = tt
  All-delete k ((j, w) ∷ m) h = elim (Bool-cases (text_eq j k)) [
    | inl b ↦ rw b (All-delete k m h.1)
    | inr b ↦ rw b (h.0, All-delete k m h.1)
  ]

  pub All-get : (k : Text) (v : V) (m : Map V) → get k m ≡ some v → All (λ e. P e.1) m → P v
  unfolding get
  All-get k v [] e h = cc
  All-get k v ((j, w) ∷ m) e h = elim (Bool-cases (text_eq j k)) [
    | inl b ↦ subst P (some_inj (rw b at e)) h.0
    | inr b ↦ All-get k v m (rw b at e) h.1
  ]

some-none : {V : Type 0} {v : V} → some v ≡ none → ⊥
some-none {v} h = cc

module _ {V : Type 0} where
  length-set_new :
      (k : Text) (v : V) (m : Map V) → get k m ≡ none → length (set k v m) ≡ suc (length m)
  unfolding get set
  length-set_new k v [] e = refl
  length-set_new k v ((j, w) ∷ m) e = elim (Bool-cases (text_eq j k)) [
    | inl b ↦ absurd (some-none (rw b at e))
    | inr b ↦ rw b (ap suc (length-set_new k v m (rw b at e)))
  ]

  length-set_old :
      (k : Text) (v w : V) (m : Map V) → get k m ≡ some w → length (set k v m) ≡ length m
  unfolding get set
  length-set_old k v w [] e = cc
  length-set_old k v w ((j, x) ∷ m) e = elim (Bool-cases (text_eq j k)) [
    | inl b ↦ rw b refl
    | inr b ↦ rw b (ap suc (length-set_old k v w m (rw b at e)))
  ]

  length-delete : (k : Text) (m : Map V) → length (delete k m) ≤ length m
  unfolding delete
  length-delete k [] = omega arith
  length-delete k ((j, w) ∷ m) = elim (Bool-cases (text_eq j k)) [
    | inl b ↦ rw b (omega (arith, length-delete k m))
    | inr b ↦ rw b (omega (arith, length-delete k m))
  ]

module _ {M C V : Type 0} where
  -- A letter is refused exactly when isFull says that its lane is full.
  pub is_full_iff :
      (group : Text) (letter : DeadLetter M C V) (q : Queue M C V)
      → (is_full group letter.sequence_identifier q ≡ true)
        ↔ (enqueue group letter q ≡ throws dead_letter_queue_overflow)
  unfolding is_full enqueue
  is_full_iff group letter q = cases (get letter.sequence_identifier (lanes group q))
    where
      cases :
          (found : Option (List (DeadLetter M C V)))
          → (full_found found group q ≡ true)
            ↔ (enqueue_found group letter found q ≡ throws dead_letter_queue_overflow)
      cases none = (
        λ h. rw h refl,
        λ h. elim (Bool-cases (leb q.max_sequences (length (lanes group q)))) [
          | inl b ↦ b
          | inr b ↦ absurd (ok-throws (rw b at h))
        ],
      )
      cases (some seq) = (
        λ h. rw h refl,
        λ h. elim (Bool-cases (leb q.max_sequence_size (length seq))) [
          | inl b ↦ b
          | inr b ↦ absurd (ok-throws (rw b at h))
        ],
      )

module _ {M C V : Type 0} where
  -- A lane that has a letter, and no more of them than its limit.
  abbrev pub IsLaneWithin : ℕ → List (DeadLetter M C V) → Type 0
  IsLaneWithin n seq = (0 < length seq) × (length seq ≤ n)

  -- The group keeps to both limits, and has no empty lane.
  pub record IsWithinLimits (n m : ℕ) (lanes : Map (List (DeadLetter M C V))) : Type 0 where
    pub few_lanes : length lanes ≤ n
    pub short_lanes : All (λ e. IsLaneWithin m e.1) lanes

  abbrev pub IsBounded : ℕ → ℕ → Queue M C V → Type 0
  IsBounded n m q =
      (q.max_sequences ≡ n)
      × (q.max_sequence_size ≡ m)
      × ((g : Text) → IsWithinLimits n m (lanes g q))

module _ {M C V : Type 0} (n m : ℕ) where
  pub with_lanes-IsBounded :
      (group : Text) (new : Map (List (DeadLetter M C V))) (q : Queue M C V)
      → IsWithinLimits n m new
      → IsBounded n m q
      → IsBounded n m (with_lanes group new q)
  with_lanes-IsBounded group new q w (a, b, all) = (
    a,
    b,
    λ g. elim (Bool-cases (text_eq group g)) [
      | inl e ↦ rw (lanes-with_lanes g group new q, e) w
      | inr e ↦ rw (lanes-with_lanes g group new q, e) (all g)
    ],
  )

  pub added :
      (group id : Text) (letter : DeadLetter M C V) (seq : List (DeadLetter M C V))
      (q : Queue M C V)
      → get id (lanes group q) ≡ some seq
      → leb q.max_sequence_size (length seq) ≡ false
      → IsBounded n m q
      → IsBounded n m (with_lanes group (set id (seq ++ letter ∷ []) (lanes group q)) q)
  added group id letter seq q h b (s, z, all) =
      with_lanes-IsBounded group _ q
        (record {
          few_lanes = omega (
            arith,
            length-set_old id (seq ++ letter ∷ []) seq (lanes group q) h,
            (all group).few_lanes,
          );
          short_lanes =
              All-set (IsLaneWithin m) id (seq ++ letter ∷ []) (lanes group q)
                (omega (arith, length-append seq (letter ∷ [])), room) (all group).short_lanes;
        })
        (s, z, all)
    where
      room : length (seq ++ letter ∷ []) ≤ m
      room = grind (arith, length-append seq (letter ∷ []))

  pub started :
      (group id : Text) (letter : DeadLetter M C V) (q : Queue M C V)
      → 0 < m
      → get id (lanes group q) ≡ none
      → leb q.max_sequences (length (lanes group q)) ≡ false
      → IsBounded n m q
      → IsBounded n m (with_lanes group (set id (letter ∷ []) (lanes group q)) q)
  started group id letter q pos h b (s, z, all) =
      with_lanes-IsBounded group _ q
        (record {
          few_lanes = room;
          short_lanes =
              All-set (IsLaneWithin m) id (letter ∷ []) (lanes group q)
                (omega arith, omega (arith, pos)) (all group).short_lanes;
        })
        (s, z, all)
    where
      room : length (set id (letter ∷ []) (lanes group q)) ≤ n
      room = grind (arith, length-set_new id (letter ∷ []) (lanes group q) h)

  pub length-remove : (i : ℕ) (seq : List (DeadLetter M C V)) → length (remove i seq) ≤ length seq
  length-remove i [] = omega arith
  length-remove i (l ∷ seq) = elim (Bool-cases (l.identity == i)) [
    | inl b ↦ rw b (omega arith)
    | inr b ↦ rw b (omega (arith, length-remove i seq))
  ]

  pub put_back-IsWithinLimits :
      (id : Text) (seq old : List (DeadLetter M C V)) (new : Map (List (DeadLetter M C V)))
      → get id new ≡ some old
      → length seq ≤ m
      → IsWithinLimits n m new
      → IsWithinLimits n m (put_back id seq new)
  put_back-IsWithinLimits id [] old new h le w = record {
    few_lanes = omega (arith, length-delete id new, w.few_lanes);
    short_lanes = All-delete (IsLaneWithin m) id new w.short_lanes;
  }
  put_back-IsWithinLimits id (l ∷ seq) old new h le w = record {
    few_lanes = omega (arith, length-set_old id (l ∷ seq) old new h, w.few_lanes);
    short_lanes = All-set (IsLaneWithin m) id (l ∷ seq) new (omega arith, le) w.short_lanes;
  }
