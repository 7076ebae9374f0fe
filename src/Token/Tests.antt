-- ===== src/Token/Tests.antt =====
-- The token theorems at a processor that has merged two segments or replays.
use kronos_ts.Common.{◌≡◌, refl, max, false, ◌||◌, leb, ltb, arith}
use kronos_ts.Common.Text.{str}
use kronos_ts.Token.{
  TrackingToken, global_sequence, gap_aware, latest, replay, merged, position, covers, merged_token,
  handled_by_merged_half, advance_token_to, is_replaying, same_position_as,
}
use kronos_ts.Token.Order.{
  covers-position, advance_token_to-replay, position-advance_token_to-merged,
}
use kronos_ts.Token.Merge.{handled, handled-merged_token, handled-advance_token_to}
use kronos_ts.Token.Codec.{stored_merged, read, round_trip, deserialize-serialize, round_trip_keeps}

-- Segment 0 had got to 5 and segment 1 to 9 when they were merged; the hash 3 is of segment 1.
handled-advance_token_to_example :
    handled
      (advance_token_to (merged 1 0 (global_sequence 5) 1 (global_sequence 9)) (global_sequence 6))
      3
      (global_sequence 8)
    ≡ (handled (merged 1 0 (global_sequence 5) 1 (global_sequence 9)) 3 (global_sequence 8)
        || covers (global_sequence 6) (global_sequence 8))
handled-advance_token_to_example =
    handled-advance_token_to 1 0 1 3 (global_sequence 5) (global_sequence 9) (global_sequence 6)
      (global_sequence 8) refl (tt, omega arith) (tt, omega arith) (tt, omega arith) (omega arith)

handled-merged_token_example :
    handled (merged_token 1 0 (global_sequence 5) 1 (global_sequence 9)) 3 (global_sequence 8)
    ≡ handled_by_merged_half 1 0 (global_sequence 5) 1 (global_sequence 9) 3 (global_sequence 8)
handled-merged_token_example =
    handled-merged_token 1 0 1 3 refl (global_sequence 5) (global_sequence 9) (global_sequence 8)
      (omega arith) (omega arith) (omega arith) tt

not_replaying : is_replaying (global_sequence 3) ≡ false
unfolding is_replaying
not_replaying = refl

advance_token_to-replay_example :
    (is_replaying
        (advance_token_to (replay (global_sequence 9) (global_sequence 2)) (global_sequence 3))
      ≡ ltb (position (global_sequence 3)) (position (global_sequence 9)))
    × (position
          (advance_token_to (replay (global_sequence 9) (global_sequence 2)) (global_sequence 3))
        ≡ position (global_sequence 3))
advance_token_to-replay_example =
    advance_token_to-replay (global_sequence 9) (global_sequence 2) (global_sequence 3)
      (omega arith) (omega arith) not_replaying

position-advance_token_to-merged_example :
    position
      (advance_token_to (merged 1 0 (global_sequence 5) 1 (global_sequence 9)) (global_sequence 6))
    ≡ max
        (position (merged 1 0 (global_sequence 5) 1 (global_sequence 9)))
        (position (global_sequence 6))
position-advance_token_to-merged_example =
    position-advance_token_to-merged 1 0 1 (global_sequence 5) (global_sequence 9)
      (global_sequence 6) (omega arith) (omega arith) (omega arith)

covers-position_example :
    covers (merged 1 0 (global_sequence 5) 1 (global_sequence 9)) (gap_aware 5 (str "1:2"))
    ≡ leb
        (position (gap_aware 5 (str "1:2")))
        (position (merged 1 0 (global_sequence 5) 1 (global_sequence 9)))
covers-position_example =
    covers-position (merged 1 0 (global_sequence 5) 1 (global_sequence 9)) (gap_aware 5 (str "1:2"))
      (omega arith, omega arith) (omega arith)

apart : same_position_as (global_sequence 5) (gap_aware 9 (str "1:2")) ≡ false
unfolding same_position_as position
apart = refl

deserialize-serialize_example :
    round_trip (merged 1 0 (global_sequence 5) 1 (gap_aware 9 (str "1:2")))
    ≡ read (merged 1 0 (global_sequence 5) 1 (gap_aware 9 (str "1:2")))
deserialize-serialize_example = deserialize-serialize (stored_merged tt tt apart)

round_trip_keeps_example :
    (u : TrackingToken) × (round_trip (replay (gap_aware 9 (str "1:2")) latest) ≡ read u)
    × (position u ≡ position (replay (gap_aware 9 (str "1:2")) latest))
    × (is_replaying u ≡ is_replaying (replay (gap_aware 9 (str "1:2")) latest))
round_trip_keeps_example = round_trip_keeps (replay (gap_aware 9 (str "1:2")) latest)
