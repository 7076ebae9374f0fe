-- ===== src/DeadLetterQueue/Replay.antt =====
-- What a drain of a lane leaves there, and elsewhere.
use kronos_ts.Common.{
  ℕ, ◌≡◌, refl, ap₂, sym, &&_iff, ◌∙◌, Bool, true, ◌&&◌, none, some, List, [], ◌∷◌, ◌++◌, All,
  Bool-cases, inl, inr, if◌then◌else◌,
}
use kronos_ts.Common.Text.{Text, text_eq, text_eq_iff}
use kronos_ts.Common.Map.{get}
use kronos_ts.Outcome.{Outcome, ok, throws}
use kronos_ts.DeadLetterQueue.{
  DeadLetter, Queue, Attempt, settles, keeps_parked, fails, lanes, evict, touched,
}
use kronos_ts.DeadLetterQueue.Process.{
  replay, process_lane, process, find_oldest, truthy_id, processing_key,
}
use kronos_ts.DeadLetterQueue.Lanes.{
  IsElsewhere, lane_left, evict-left, requeue-left, requeue-elsewhere, evict-elsewhere,
  evict-next_identity,
}

abbrev result_from : {C V : Type 0} → Outcome Bool → Attempt C V → Outcome Bool
result_from later settles = later
result_from later (keeps_parked cause diagnostics) = ok true
result_from later (fails e) = throws e

module _ {M C V : Type 0} where
  -- The error of the first letter that does not settle, if its unit of work failed.
  abbrev pub result_of : (DeadLetter M C V → Attempt C V) → List (DeadLetter M C V) → Outcome Bool
  result_of attempt [] = ok true
  result_of attempt (letter ∷ rest) = result_from (result_of attempt rest) (attempt letter)

  abbrev left_from :
      ℕ
      → ℕ
      → DeadLetter M C V
      → List (DeadLetter M C V)
      → List (DeadLetter M C V)
      → Attempt C V
      → List (DeadLetter M C V)
  left_from now identity letter rest later settles = later
  left_from now identity letter rest later (keeps_parked cause diagnostics) =
      touched now identity cause diagnostics letter ∷ rest
  left_from now identity letter rest later (fails e) = letter ∷ rest

  -- Up to the first letter that does not settle, the letters go, in their order; that letter stays
  -- at the head, touched if the decision was to keep it, and the ones behind it stay.
  abbrev pub left_after :
      ℕ → ℕ → (DeadLetter M C V → Attempt C V) → List (DeadLetter M C V) → List (DeadLetter M C V)
  left_after now identity attempt [] = []
  left_after now identity attempt (letter ∷ rest) =
      left_from now identity letter rest (left_after now identity attempt rest) (attempt letter)

  -- Every letter names this lane as its own.
  abbrev pub IsOwn : Text → DeadLetter M C V → Type 0
  IsOwn id l = l.sequence_identifier ≡ id

  -- A run on this lane has come to what the attempts on the letters call for.
  pub record IsReplayed (now : ℕ) (group id : Text) (attempt : DeadLetter M C V → Attempt C V)
      (letters : List (DeadLetter M C V)) (q : Queue M C V) (r : Outcome Bool × Queue M C V)
      : Type 0 where
    pub here : get id (lanes group r.1) ≡ lane_left (left_after now q.next_identity attempt letters)
    pub result : r.0 ≡ result_of attempt letters
    pub elsewhere :
        (g i : Text) → IsElsewhere group id g i → get i (lanes g r.1) ≡ get i (lanes g q)

  replay-IsReplayed :
      (now : ℕ) (group id : Text) (attempt : DeadLetter M C V → Attempt C V)
      (letters : List (DeadLetter M C V)) (q : Queue M C V)
      → get id (lanes group q) ≡ lane_left letters
      → All (IsOwn id) letters
      → IsReplayed now group id attempt letters q (replay now group id attempt letters q)
  unfolding replay
  replay-IsReplayed now group id attempt [] q h own = record {
    here = h;
    result = refl;
    elsewhere = λ g i apart. refl;
  }
  replay-IsReplayed now group id attempt (l ∷ rest) q h own =
      by_attempt
        (replay-IsReplayed now group id attempt rest (evict group id l q)
          (evict-left group id l rest q h) own.1)
        (attempt l) refl
    where
      by_attempt :
          IsReplayed now group id attempt rest
            (evict group id l q)
            (replay now group id attempt rest (evict group id l q))
          → (a : Attempt C V) → attempt l ≡ a
          → IsReplayed now group id attempt (l ∷ rest) q (replay now group id attempt (l ∷ rest) q)
      by_attempt ih settles e = record {
        here = rw (e, ih.here, evict-next_identity group id l rest q h) refl;
        result = rw (e, ih.result) refl;
        elsewhere = λ g i apart.
            rw e (ih.elsewhere g i apart ∙ evict-elsewhere group id l rest q h g i apart);
      }
      by_attempt ih (keeps_parked c d) e = record {
        here = rw e (requeue-left now group id l c d rest q h own.0);
        result = rw e refl;
        elsewhere =
            λ g i apart. rw e (requeue-elsewhere now group id l c d rest q h own.0 g i apart);
      }
      by_attempt ih (fails f) e = record {
        here = rw e h;
        result = rw e refl;
        elsewhere = λ g i apart. rw e refl;
      }

  finally-IsReplayed :
      (now : ℕ) (group id : Text) (attempt : DeadLetter M C V → Attempt C V) (l : DeadLetter M C V)
      (rest : List (DeadLetter M C V)) (q : Queue M C V)
      → get id (lanes group q) ≡ some (l ∷ rest)
      → All (IsOwn id) (l ∷ rest)
      → IsReplayed now group id attempt (l ∷ rest) q (process_lane now group id attempt q)
  unfolding process_lane lanes
  finally-IsReplayed now group id attempt l rest q h own =
      let r =
        replay-IsReplayed now group id attempt (l ∷ rest)
          (record q { processing = q.processing ++ processing_key group id ∷ [] }) h own in
      record {
        here = rw h r.here;
        result = rw h r.result;
        elsewhere = λ g i apart. rw h (r.elsewhere g i apart);
      }

  -- The lanes after the run, all at once.
  shown :
      (now : ℕ) (group id : Text) (attempt : DeadLetter M C V → Attempt C V) (l : DeadLetter M C V)
      (rest : List (DeadLetter M C V)) (q : Queue M C V) (r : Outcome Bool × Queue M C V)
      (g i : Text)
      → IsReplayed now group id attempt (l ∷ rest) q r
      → get i (lanes g r.1) ≡ (
          if text_eq group g && text_eq id i
          then lane_left (left_after now q.next_identity attempt (l ∷ rest))
          else get i (lanes g q))
  shown now group id attempt l rest q r g i done =
      elim (Bool-cases (text_eq group g && text_eq id i)) [
        | inr e ↦ rw e (done.elsewhere g i e)
        | inl e ↦
            let (a, b) = (&&_iff (text_eq group g) (text_eq id i)).0 e in
            rw e (
              ap₂ (λ i g. get i (lanes g r.1)) (sym ((text_eq_iff id i).0 b))
                (sym ((text_eq_iff group g).0 a))
              ∙ done.here)
      ]

  -- Where the lane that the search picks is id, whose letters name it as their own, process takes the
  -- letters that settle off its head, in their order, up to the first that does not, which stays at
  -- the head, with the update if the decision was to keep it; every other lane of every group stays
  -- as it is; and process throws the error of that letter if its unit of work failed, else it
  -- returns true.
  pub process_replays :
      (now : ℕ) (group id : Text) (accepts : Text → DeadLetter M C V → Bool)
      (attempt : DeadLetter M C V → Attempt C V) (l : DeadLetter M C V)
      (rest : List (DeadLetter M C V)) (q : Queue M C V) (g i : Text)
      → truthy_id (find_oldest group q.processing accepts none (lanes group q)) ≡ some id
      → get id (lanes group q) ≡ some (l ∷ rest)
      → All (IsOwn id) (l ∷ rest)
      → (get i (lanes g (process now group accepts attempt q).1) ≡ (
          if text_eq group g && text_eq id i
          then lane_left (left_after now q.next_identity attempt (l ∷ rest))
          else get i (lanes g q)))
        × ((process now group accepts attempt q).0 ≡ result_of attempt (l ∷ rest))
  unfolding process
  process_replays now group id accepts attempt l rest q g i chosen h own =
      let done = finally-IsReplayed now group id attempt l rest q h own in
      rw chosen (shown now group id attempt l rest q _ g i done, done.result)
