-- ===== src/DeadLettering/Parking.antt =====
-- Once an event of a lane is parked, the events behind it are parked too, in their order.
use kronos_ts.Common.{
  ◌≡◌, refl, ap, sym, ◌∙◌, subst, Bool, true, false, ◌&&◌, Option, none, some, List, [], ◌∷◌, ◌++◌,
  map, map-append, append-nil, append_assoc, filter, Bool-cases, inl, inr, arith, leb, length,
}
use kronos_ts.Common.Text.{Text, text_eq, text_eq_iff, text_eq_refl}
use kronos_ts.Common.Map.{Map, get, set, get-set, get-set_self}
use kronos_ts.Outcome.{Outcome, ok, throws, Failure, >>=-eq-ok, ok-injective, ok-throws}
use kronos_ts.Messages.{QualifiedName}
use kronos_ts.DeadLetterQueue.{
  DeadLetter, Queue, lanes, with_lanes, enqueue, enqueue_found, enqueue_if_present,
  enqueue_present_found,
}
use kronos_ts.DeadLetterQueue.Lanes.{lanes-with_lanes}
use kronos_ts.Processor.{SequencedEvent}
use kronos_ts.DeadLettering.{
  Letter, LetterQueue, Target, Delivery, blocked_letter, failed_letter, with_new, park,
  after_target, run_targets, unless_blocked, deliver, deliver_handled, deliver_all,
}

module _ {M C V : Type 0} (group id : Text) where
  -- The letters of the lane, none if it is missing.
  abbrev pub Holds : List (DeadLetter M C V) → Queue M C V → Type 0
  Holds letters q = get id (lanes group q) ≡ some letters

  get-with_lanes :
      (m : Map (List (DeadLetter M C V))) (q : Queue M C V)
      → get id (lanes group (with_lanes group m q)) ≡ get id m
  get-with_lanes m q = rw (lanes-with_lanes group group m q, text_eq_refl group) refl

  -- A supply to a lane that is there.
  supply-Holds :
      (supplied : DeadLetter M C V) (letters : List (DeadLetter M C V)) (q q' : Queue M C V)
      (b : Bool)
      → Holds letters q
      → enqueue_if_present group id supplied q ≡ ok (b, q')
      → (b ≡ true) × Holds (letters ++ supplied ∷ []) q'
  unfolding enqueue_if_present
  supply-Holds supplied letters q q' b h e =
      elim (Bool-cases (leb q.max_sequence_size (length letters))) [
        | inl y ↦ absurd (ok-throws (sym (rw (h, y) at e)))
        | inr y ↦
            let done = ok-injective (rw (h, y) at e) in
            (
              ap (λ r. r.0) (sym done),
              ap (λ r. get id (lanes group r.1)) (sym done)
                  ∙ get-with_lanes (set id (letters ++ supplied ∷ []) (lanes group q)) q
                  ∙ get-set_self id (letters ++ supplied ∷ []) (lanes group q),
            )
      ]

  -- Another lane's enqueue or supply.
  other-set :
      (i : Text) (seq : List (DeadLetter M C V)) (q : Queue M C V)
      → text_eq i id ≡ false
      → get id (lanes group (with_lanes group (set i seq (lanes group q)) q))
        ≡ get id (lanes group q)
  other-set i seq q ne =
      get-with_lanes (set i seq (lanes group q)) q ∙ get-set i id seq (lanes group q) ∙ rw ne refl

  supply-other :
      (i : Text) (supplied : DeadLetter M C V) (q q' : Queue M C V) (b : Bool)
      → text_eq i id ≡ false
      → enqueue_if_present group i supplied q ≡ ok (b, q')
      → get id (lanes group q') ≡ get id (lanes group q)
  unfolding enqueue_if_present
  supply-other i supplied q q' b ne e = go (get i (lanes group q)) e
    where
      go :
          (found : Option (List (DeadLetter M C V)))
          → enqueue_present_found group i supplied found q ≡ ok (b, q')
          → get id (lanes group q') ≡ get id (lanes group q)
      go none h = ap (λ r. get id (lanes group r.1)) (sym (ok-injective h))
      go (some seq) h = elim (Bool-cases (leb q.max_sequence_size (length seq))) [
        | inl y ↦ absurd (ok-throws (sym (rw y at h)))
        | inr y ↦
            ap (λ r. get id (lanes group r.1)) (sym (ok-injective (rw y at h)))
            ∙ other-set i (seq ++ supplied ∷ []) q ne
      ]

  enqueue-other :
      (letter : DeadLetter M C V) (q q' : Queue M C V)
      → text_eq letter.sequence_identifier id ≡ false
      → enqueue group letter q ≡ ok q'
      → get id (lanes group q') ≡ get id (lanes group q)
  unfolding enqueue
  enqueue-other letter q q' ne e = go (get letter.sequence_identifier (lanes group q)) e
    where
      go :
          (found : Option (List (DeadLetter M C V)))
          → enqueue_found group letter found q ≡ ok q'
          → get id (lanes group q') ≡ get id (lanes group q)
      go none h = elim (Bool-cases (leb q.max_sequences (length (lanes group q)))) [
        | inl y ↦ absurd (ok-throws (sym (rw y at h)))
        | inr y ↦
            ap (λ r. get id (lanes group r)) (sym (ok-injective (rw y at h)))
            ∙ other-set letter.sequence_identifier (letter ∷ []) q ne
      ]
      go (some seq) h = elim (Bool-cases (leb q.max_sequence_size (length seq))) [
        | inl y ↦ absurd (ok-throws (sym (rw y at h)))
        | inr y ↦
            ap (λ r. get id (lanes group r)) (sym (ok-injective (rw y at h)))
            ∙ other-set letter.sequence_identifier (seq ++ letter ∷ []) q ne
      ]

abbrev pub has_targets : {P D : Type 0} → List (Target P D) → Bool
has_targets [] = false
has_targets (t ∷ targets) = true

module _ {P : Type 0} (o : Delivery P) (id : Text) where
  abbrev pub is_of_lane : SequencedEvent P → Bool
  is_of_lane e = text_eq (o.sequence e.event) id

  abbrev pub LaneIs : List (Letter P) → LetterQueue P → Type 0
  LaneIs letters q = get id (lanes o.processing_group q) ≡ some letters

  -- Letters for these events, in their order, behind the ones that were there.
  abbrev pub IsParkedBehind : List (Letter P) → List (SequencedEvent P) → LetterQueue P → Type 0
  IsParkedBehind letters es q =
      (letters' : List (Letter P)) × LaneIs letters' q
      × (map (λ l. l.message) letters' ≡ map (λ l. l.message) letters ++ map (λ e. e.event) es)

module _ {P D : Type 0} (o : Delivery P) (id : Text) where
  park-other :
      (e : SequencedEvent P) (name : QualifiedName) (error : Failure) (d d' : D)
      (q q' : LetterQueue P)
      → is_of_lane o id e ≡ false
      → park o e name error d q ≡ ok (d', q')
      → get id (lanes o.processing_group q') ≡ get id (lanes o.processing_group q)
  unfolding lanes
  park-other e name error d d' q q' ne h =
      let (parked, e₁, e₂) = >>=-eq-ok _ _ h in
      ap (λ r. get id (lanes o.processing_group r.1)) (sym (ok-injective e₂))
      ∙ enqueue-other o.processing_group id (failed_letter o q.next_identity e name error)
          (with_new o q) parked ne e₁

  run_targets-other :
      (targets : List (Target P D)) (e : SequencedEvent P) (d d' : D) (q q' : LetterQueue P)
      → is_of_lane o id e ≡ false
      → run_targets o targets e d q ≡ ok (d', q')
      → get id (lanes o.processing_group q') ≡ get id (lanes o.processing_group q)
  unfolding run_targets
  run_targets-other [] e d d' q q' ne h =
      ap (λ r. get id (lanes o.processing_group r.1)) (sym (ok-injective h))
  run_targets-other (t ∷ targets) e d d' q q' ne h =
      by_target (λ d₁ k. run_targets-other targets e d₁ d' q q' ne k) (t.handler e d) h
    where
      by_target :
          ((d₁ : D)
            → run_targets o targets e d₁ q ≡ ok (d', q')
            → get id (lanes o.processing_group q') ≡ get id (lanes o.processing_group q))
          → (r : D × Outcome (Unit {0}))
          → after_target o t.name e (run_targets o targets e) q r ≡ ok (d', q')
          → get id (lanes o.processing_group q') ≡ get id (lanes o.processing_group q)
      by_target later (d₁, ok u) k = later d₁ k
      by_target later (d₁, throws error) k = park-other e t.name error d₁ d' q q' ne k

  unless_blocked-other :
      (targets : List (Target P D)) (e : SequencedEvent P) (d d' : D) (b : Bool)
      (q q' : LetterQueue P)
      → is_of_lane o id e ≡ false
      → unless_blocked o targets e d (b, q) ≡ ok (d', q')
      → get id (lanes o.processing_group q') ≡ get id (lanes o.processing_group q)
  unless_blocked-other targets e d d' true q q' ne h =
      ap (λ r. get id (lanes o.processing_group r.1)) (sym (ok-injective h))
  unless_blocked-other targets e d d' false q q' ne h = run_targets-other targets e d d' q q' ne h

  deliver-other :
      (targets : List (Target P D)) (e : SequencedEvent P) (d d' : D) (q q' : LetterQueue P)
      → is_of_lane o id e ≡ false
      → deliver o targets e d q ≡ ok (d', q')
      → get id (lanes o.processing_group q') ≡ get id (lanes o.processing_group q)
  unfolding deliver lanes
  deliver-other targets e d d' q q' ne h =
      let ((b, q₁), e₁, e₂) = >>=-eq-ok _ (unless_blocked o targets e d) h in
      unless_blocked-other targets e d d' b q₁ q' ne e₂
      ∙ supply-other o.processing_group id (o.sequence e.event) (blocked_letter o q.next_identity e)
          (with_new o q) q₁ b ne e₁

  deliver-own :
      (targets : List (Target P D)) (e : SequencedEvent P) (d d' : D) (q q' : LetterQueue P)
      (letters : List (Letter P))
      → o.sequence e.event ≡ id
      → LaneIs o id letters q
      → deliver o targets e d q ≡ ok (d', q')
      → (d' ≡ d) × LaneIs o id (letters ++ blocked_letter o q.next_identity e ∷ []) q'
  unfolding deliver lanes
  deliver-own targets e d d' q q' letters same h r =
      let ((b, q₁), e₁, e₂) = >>=-eq-ok _ (unless_blocked o targets e d) r in
      let (blocked, there) =
        supply-Holds o.processing_group id (blocked_letter o q.next_identity e) letters
          (with_new o q) q₁ b h
          (ap
              (λ i.
                enqueue_if_present o.processing_group i (blocked_letter o q.next_identity e)
                  (with_new o q))
              (sym same)
            ∙ e₁) in
      let done = ok-injective (ap (λ b. unless_blocked o targets e d (b, q₁)) (sym blocked) ∙ e₂) in
      (
        sym (ap (λ r. r.0) done),
        subst (LaneIs o id (letters ++ blocked_letter o q.next_identity e ∷ []))
            (ap (λ r. r.1) done) there,
      )

  -- The events of the lane that somebody handles.
  abbrev pub of_lane :
      (SequencedEvent P → List (Target P D)) → List (SequencedEvent P) → List (SequencedEvent P)
  of_lane targets = filter (λ e. has_targets (targets e) && is_of_lane o id e)

  pub handled-other :
      (targets : List (Target P D)) (e : SequencedEvent P) (d d' : D) (q q' : LetterQueue P)
      → (has_targets targets && is_of_lane o id e) ≡ false
      → deliver_handled o targets e d q ≡ ok (d', q')
      → get id (lanes o.processing_group q') ≡ get id (lanes o.processing_group q)
  unfolding deliver_handled
  handled-other [] e d d' q q' ne h =
      ap (λ r. get id (lanes o.processing_group r.1)) (sym (ok-injective h))
  handled-other (t ∷ targets) e d d' q q' ne h = deliver-other (t ∷ targets) e d d' q q' ne h

  pub handled-own :
      (targets : List (Target P D)) (e : SequencedEvent P) (d d' : D) (q q' : LetterQueue P)
      (letters : List (Letter P))
      → (has_targets targets && is_of_lane o id e) ≡ true
      → LaneIs o id letters q
      → deliver_handled o targets e d q ≡ ok (d', q')
      → LaneIs o id (letters ++ blocked_letter o q.next_identity e ∷ []) q'
  unfolding deliver_handled
  handled-own [] e d d' q q' letters y h r = absurd (ground arith)
  handled-own (t ∷ targets) e d d' q q' letters y h r =
      (deliver-own (t ∷ targets) e d d' q q' letters ((text_eq_iff (o.sequence e.event) id).0 y) h
        r).1

  -- Once a lane has a letter, a delivery of events that goes through leaves in the lane letters with
  -- the messages that were there, and behind them one for each of the lane's handled events, in the
  -- order of the events.
  pub parked_in_order :
      (targets : SequencedEvent P → List (Target P D)) (es : List (SequencedEvent P)) (d d' : D)
      (q q' : LetterQueue P) (letters : List (Letter P))
      → LaneIs o id letters q
      → deliver_all o targets es d q ≡ ok (d', q')
      → IsParkedBehind o id letters (of_lane targets es) q'
  unfolding deliver_all
  parked_in_order targets [] d d' q q' letters h r = (
    letters,
    subst (LaneIs o id letters) (ap (λ x. x.1) (ok-injective r)) h,
    sym (append-nil (map (λ l. l.message) letters)),
  )
  parked_in_order targets (e ∷ es) d d' q q' letters h r =
      let ((d₁, q₁), e₁, e₂) = >>=-eq-ok (deliver_handled o (targets e) e d q) _ r in
      elim (Bool-cases (has_targets (targets e) && is_of_lane o id e)) [
        | inr n ↦ rw n (
            parked_in_order targets es d₁ d' q₁ q' letters
              (handled-other (targets e) e d d₁ q q₁ n e₁ ∙ h) e₂)
        | inl y ↦
            let letter = blocked_letter o q.next_identity e in
            let (letters', there, messages) =
              parked_in_order targets es d₁ d' q₁ q' (letters ++ letter ∷ [])
                (handled-own (targets e) e d d₁ q q₁ letters y h e₁) e₂ in
            rw y (
              letters',
              there,
              messages
                  ∙ ap (λ ms. ms ++ map (λ e. e.event) (of_lane targets es))
                      (map-append (λ l. l.message) letters (letter ∷ []))
                  ∙ append_assoc (map (λ l. l.message) letters) (e.event ∷ [])
                      (map (λ e. e.event) (of_lane targets es)),
            )
      ]
