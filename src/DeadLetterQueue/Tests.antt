-- ===== src/DeadLetterQueue/Tests.antt =====
-- The dead letter queue's theorems at a lane of two letters.
use kronos_ts.Common.{
  ℕ, ◌≡◌, refl, Bool, true, ◌&&◌, none, some, List, [], ◌∷◌, if◌then◌else◌, arith, ltb,
}
use kronos_ts.Common.Text.{Text, str, text_eq}
use kronos_ts.Common.Map.{get, set}
use kronos_ts.Outcome.{ok}
use kronos_ts.DeadLetterQueue.{
  DeadLetter, Queue, Attempt, settles, keeps_parked, dead_letter, lanes, enqueue,
}
use kronos_ts.DeadLetterQueue.Process.{process, find_oldest, truthy_id}
use kronos_ts.DeadLetterQueue.Lanes.{lane_left}
use kronos_ts.DeadLetterQueue.Replay.{left_after, result_of, process_replays}
use kronos_ts.DeadLetterQueue.Oldest.{IsOldestOf, find_oldest_lem}
use kronos_ts.DeadLetterQueue.Bounds.{IsBounded}
use kronos_ts.DeadLetterQueue.Limits.{stays, changes, enqueues, limits_hold}

abbrev letter : ℕ → DeadLetter ℕ ℕ ℕ
letter n = dead_letter n n n 0 (str "x") none

abbrev two_letters : List (DeadLetter ℕ ℕ ℕ)
two_letters = letter 1 ∷ letter 2 ∷ []

abbrev parked : Queue ℕ ℕ ℕ
parked = record {
  max_sequences = 1;
  max_sequence_size = 2;
  groups = (str "g", (str "x", two_letters) ∷ []) ∷ [];
  processing = [];
  next_identity = 3;
}

-- The first letter's replay settles, the second one's decides to keep it.
abbrev attempt : DeadLetter ℕ ℕ ℕ → Attempt ℕ ℕ
attempt l = if ltb l.identity 2 then settles else keeps_parked (some 7) none

abbrev accept_all : Text → DeadLetter ℕ ℕ ℕ → Bool
accept_all id l = true

chosen :
    truthy_id (find_oldest (str "g") [] accept_all none (lanes (str "g") parked)) ≡ some (str "x")
unfolding find_oldest lanes get
chosen = refl

found : get (str "x") (lanes (str "g") parked) ≡ some two_letters
unfolding lanes get
found = refl

process_replays_example :
    (get (str "x") (lanes (str "g") (process 50 (str "g") accept_all attempt parked).1) ≡ (
      if text_eq (str "g") (str "g") && text_eq (str "x") (str "x")
      then lane_left (left_after 50 3 attempt two_letters)
      else get (str "x") (lanes (str "g") parked)))
    × ((process 50 (str "g") accept_all attempt parked).0 ≡ result_of attempt two_letters)
process_replays_example =
    process_replays 50 (str "g") (str "x") accept_all attempt (letter 1) (letter 2 ∷ []) parked
      (str "g") (str "x") chosen found (refl, (refl, tt))

find_oldest_lem_example :
    IsOldestOf
      (str "g")
      []
      accept_all
      (find_oldest (str "g") [] accept_all none ((str "x", two_letters) ∷ []))
      ((str "x", two_letters) ∷ [])
find_oldest_lem_example = find_oldest_lem (str "g") [] accept_all ((str "x", two_letters) ∷ [])

abbrev no_letters : Queue ℕ ℕ ℕ
no_letters = record {
  max_sequences = 1;
  max_sequence_size = 2;
  groups = [];
  processing = [];
  next_identity = 3;
}

abbrev one_letter : Queue ℕ ℕ ℕ
one_letter = record no_letters { groups = (str "g", (str "x", letter 1 ∷ []) ∷ []) ∷ [] }

enqueued : enqueue (str "g") (letter 1) no_letters ≡ ok one_letter
unfolding enqueue lanes get set
enqueued = refl

no_letters-IsBounded : IsBounded 1 2 no_letters
unfolding lanes get
no_letters-IsBounded = (refl, refl, λ g. record { few_lanes = omega arith; short_lanes = tt })

limits_hold_example : IsBounded 1 2 one_letter
limits_hold_example =
    limits_hold 1 2 (omega arith) (changes stays (enqueues (str "g") (letter 1) enqueued))
      no_letters-IsBounded
