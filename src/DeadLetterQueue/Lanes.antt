-- ===== src/DeadLetterQueue/Lanes.antt =====
-- What one eviction or requeue at the head of a lane does to the lanes of all groups.
use kronos_ts.Common.{
  ℕ, suc, ◌≡◌, refl, ap, ◌∙◌, false, ◌&&◌, Option, none, some, List, [], ◌∷◌, arith, Bool-cases,
  inl, inr, if◌then◌else◌,
}
use kronos_ts.Common.Text.{Text, text_eq, text_eq_iff, text_eq_refl}
use kronos_ts.Common.Map.{Map, get, set, get-set, get-set_self, get-delete}
use kronos_ts.DeadLetterQueue.{
  DeadLetter, Queue, lanes, with_lanes, evict, put_back, remove, requeue, touched,
}

-- The second lane is not the first one.
abbrev pub IsElsewhere : Text → Text → Text → Text → Type 0
IsElsewhere group id g i = (text_eq group g && text_eq id i) ≡ false

module _ {M C V : Type 0} where
  -- The lane's letters in the map of lanes; a lane of no letters is missing.
  abbrev pub lane_left : List (DeadLetter M C V) → Option (List (DeadLetter M C V))
  lane_left [] = none
  lane_left (l ∷ rest) = some (l ∷ rest)

  pub lanes-with_lanes :
      (g group : Text) (m : Map (List (DeadLetter M C V))) (q : Queue M C V)
      → lanes g (with_lanes group m q) ≡ (if text_eq group g then m else lanes g q)
  unfolding lanes
  lanes-with_lanes g group m q = rw (get-set group g m q.groups) (ground arith)

  pub get-put_back :
      (id i : Text) (seq : List (DeadLetter M C V)) (m : Map (List (DeadLetter M C V)))
      → get i (put_back id seq m) ≡ (if text_eq id i then lane_left seq else get i m)
  get-put_back id i [] m = get-delete id i m
  get-put_back id i (l ∷ seq) m = get-set id i (l ∷ seq) m

  remove-head :
      (l : DeadLetter M C V) (rest : List (DeadLetter M C V)) → remove l.identity (l ∷ rest) ≡ rest
  remove-head l rest = ground arith

  -- A change of the map of lanes at one lane does not show at another one.
  pub put-elsewhere :
      (group id g i : Text) (v : Option (List (DeadLetter M C V)))
      (m : Map (List (DeadLetter M C V))) (q : Queue M C V)
      → IsElsewhere group id g i
      → get i m ≡ (if text_eq id i then v else get i (lanes group q))
      → get i (lanes g (with_lanes group m q)) ≡ get i (lanes g q)
  put-elsewhere group id g i v m q h e = elim (Bool-cases (text_eq group g)) [
    | inr b ↦ rw (lanes-with_lanes g group m q, b) refl
    | inl b ↦
        rw (lanes-with_lanes g group m q, b)
          (e
            ∙ ap (λ t. if t then v else get i (lanes group q)) (rw b at h)
            ∙ ap (λ g. get i (lanes g q)) ((text_eq_iff group g).0 b))
  ]

  evict-head :
      (group id : Text) (l : DeadLetter M C V) (rest : List (DeadLetter M C V)) (q : Queue M C V)
      → get id (lanes group q) ≡ some (l ∷ rest)
      → evict group id l q ≡ with_lanes group (put_back id rest (lanes group q)) q
  unfolding evict
  evict-head group id l rest q h = rw (h, remove-head l rest) refl

  pub evict-left :
      (group id : Text) (l : DeadLetter M C V) (rest : List (DeadLetter M C V)) (q : Queue M C V)
      → get id (lanes group q) ≡ some (l ∷ rest)
      → get id (lanes group (evict group id l q)) ≡ lane_left rest
  evict-left group id l rest q h =
      rw
        (
          evict-head group id l rest q h,
          lanes-with_lanes group group (put_back id rest (lanes group q)) q,
          text_eq_refl group,
          get-put_back id id rest (lanes group q),
          text_eq_refl id,
        )
        refl

  requeue-head :
      (now : ℕ) (group id : Text) (l : DeadLetter M C V) (c : Option C) (d : Option (Map V))
      (rest : List (DeadLetter M C V)) (q : Queue M C V)
      → get id (lanes group q) ≡ some (l ∷ rest)
      → l.sequence_identifier ≡ id
      → requeue now group l c d q
        ≡ record (with_lanes group
            (set id (touched now q.next_identity c d l ∷ rest) (lanes group q))
            q) { next_identity = suc q.next_identity }
  unfolding requeue
  requeue-head now group id l c d rest q h e = rw (e, h, remove-head l rest) refl

  pub requeue-left :
      (now : ℕ) (group id : Text) (l : DeadLetter M C V) (c : Option C) (d : Option (Map V))
      (rest : List (DeadLetter M C V)) (q : Queue M C V)
      → get id (lanes group q) ≡ some (l ∷ rest)
      → l.sequence_identifier ≡ id
      → get id (lanes group (requeue now group l c d q))
        ≡ some (touched now q.next_identity c d l ∷ rest)
  unfolding lanes
  requeue-left now group id l c d rest q h e =
      ap (λ q. get id (lanes group q)) (requeue-head now group id l c d rest q h e) ∙ lemma
    where
      lemma :
          get id (
            lanes group (
              with_lanes group
                (set id (touched now q.next_identity c d l ∷ rest) (lanes group q))
                q))
          ≡ some (touched now q.next_identity c d l ∷ rest)
      lemma =
          rw
            (
              lanes-with_lanes group group
                  (set id (touched now q.next_identity c d l ∷ rest) (lanes group q)) q,
              text_eq_refl group,
              get-set_self id (touched now q.next_identity c d l ∷ rest) (lanes group q),
            )
            refl

  pub requeue-elsewhere :
      (now : ℕ) (group id : Text) (l : DeadLetter M C V) (c : Option C) (d : Option (Map V))
      (rest : List (DeadLetter M C V)) (q : Queue M C V)
      → get id (lanes group q) ≡ some (l ∷ rest)
      → l.sequence_identifier ≡ id
      → (g i : Text) → IsElsewhere group id g i
      → get i (lanes g (requeue now group l c d q)) ≡ get i (lanes g q)
  unfolding lanes
  requeue-elsewhere now group id l c d rest q h e g i apart =
      ap (λ q. get i (lanes g q)) (requeue-head now group id l c d rest q h e)
      ∙ put-elsewhere group id g i (some (touched now q.next_identity c d l ∷ rest))
          (set id (touched now q.next_identity c d l ∷ rest) (lanes group q)) q apart
          (get-set id i (touched now q.next_identity c d l ∷ rest) (lanes group q))

  pub evict-elsewhere :
      (group id : Text) (l : DeadLetter M C V) (rest : List (DeadLetter M C V)) (q : Queue M C V)
      → get id (lanes group q) ≡ some (l ∷ rest)
      → (g i : Text) → IsElsewhere group id g i
      → get i (lanes g (evict group id l q)) ≡ get i (lanes g q)
  evict-elsewhere group id l rest q h g i apart =
      ap (λ q. get i (lanes g q)) (evict-head group id l rest q h)
      ∙ put-elsewhere group id g i (lane_left rest) (put_back id rest (lanes group q)) q apart
          (get-put_back id i rest (lanes group q))

  pub evict-next_identity :
      (group id : Text) (l : DeadLetter M C V) (rest : List (DeadLetter M C V)) (q : Queue M C V)
      → get id (lanes group q) ≡ some (l ∷ rest)
      → (evict group id l q).next_identity ≡ q.next_identity
  evict-next_identity group id l rest q h =
      ap (λ q. q.next_identity) (evict-head group id l rest q h)
