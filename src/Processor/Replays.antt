-- ===== src/Processor/Replays.antt =====
-- Which events a worker delivers as replays after `resetTokens` of running-processor.ts.
use kronos_ts.Common.{
  ℕ, ◌≤◌, ◌<◌, ◌≡◌, refl, sym, Bool, ◌||◌, true, false, some, leb, arith, Bool-cases, inl, inr,
}
use kronos_ts.Messages.{EventMessage}
use kronos_ts.Token.{
  TrackingToken, global_sequence, gap_aware, latest, replay, merged, position, covers, reached_by,
  max_safe_integer,
}
use kronos_ts.Token.Order.{IsBounded, covers-position}
use kronos_ts.Processor.{SequencedEvent, past_of, marks_at, is_within_replay, is_past_merge}
use kronos_ts.Processor.Advance.{
  IsCursor, IsProgress, plain_progress, replay_progress, merged_progress,
}
use kronos_ts.Processor.Reset.{reset_token}

plain-reached_by : (t : TrackingToken) → IsCursor t → IsCursor (reached_by t)
unfolding reached_by
plain-reached_by (global_sequence s) h = h
plain-reached_by (gap_aware s key) h = h
plain-reached_by latest h = absurd h.0
plain-reached_by (replay r c) h = absurd h.0
plain-reached_by (merged m s₀ t₀ s₁ t₁) h = absurd h.0

reached_by-IsCursor : (t : TrackingToken) → IsProgress t → IsCursor (reached_by t)
unfolding reached_by
reached_by-IsCursor t (plain_progress h) = plain-reached_by t h
reached_by-IsCursor t (replay_progress h k) = h
reached_by-IsCursor t (merged_progress {t₀ = t₀} {t₁ = t₁} h k apart) =
    elim (Bool-cases (leb (position t₁) (position t₀))) [ inl e ↦ rw e h | inr e ↦ rw e k ]

-- Whether a run had got past the event that ends at `past`: for a token in a replay the run before the
-- reset, and for a merged one the run of either half, whichever half the event's sequence is of.
abbrev pub got_past : TrackingToken → TrackingToken → Bool
got_past (replay reset current) past = covers reset past
got_past (merged mask s₀ t₀ s₁ t₁) past = covers t₀ past || covers t₁ past
got_past token past = covers token past

plain-got_past :
    (t past : TrackingToken) → IsCursor t → covers (reached_by t) past ≡ got_past t past
unfolding reached_by
plain-got_past (global_sequence s) past h = refl
plain-got_past (gap_aware s key) past h = refl
plain-got_past latest past h = refl
plain-got_past (replay r c) past h = absurd h.0
plain-got_past (merged m s₀ t₀ s₁ t₁) past h = absurd h.0

covers-reached_by :
    (t past : TrackingToken)
    → IsProgress t
    → IsBounded past
    → covers (reached_by t) past ≡ got_past t past
unfolding reached_by
covers-reached_by t past (plain_progress h) b = plain-got_past t past h
covers-reached_by t past (replay_progress h k) b = refl
covers-reached_by t past (merged_progress {t₀ = t₀} {t₁ = t₁} h k apart) b =
    elim (Bool-cases (leb (position t₁) (position t₀))) [
      | inl e ↦
          rw e (ground (arith, e, covers-position t₀ past h.1 b, covers-position t₁ past k.1 b))
      | inr e ↦
          rw e (ground (arith, e, covers-position t₀ past h.1 b, covers-position t₁ past k.1 b))
    ]

-- The token that a reset puts in place of t.
pub record IsReplayOf (P : Type 0) (n : ℕ) (t u : TrackingToken) : Type 0 where
  pub progress : IsProgress u
  pub place : position u ≡ n
  pub flags :
      (hash_of : EventMessage P → ℕ) (e : SequencedEvent P)
      → IsBounded (past_of e)
      → n < position (past_of e)
      → marks_at hash_of u e ≡ record { item = e; replaying = got_past t (past_of e); fresh = true }

-- For a token that a processor stores, a reset to a position within the bound of `LATEST_TOKEN`
-- puts in its place a token at that position that a processor stores too; for every event past the
-- position, it calls for a delivery, as a replay exactly if a run had got past the event: the run
-- before the reset, where the token was in a replay, and where it was a merged one the run of
-- either half, also for an event of the half that was behind and had not got past it.
pub replays_exactly :
    (P : Type 0) (n : ℕ) (t : TrackingToken)
    → n ≤ max_safe_integer
    → IsProgress t
    → IsReplayOf P n t (reset_token (global_sequence n) (some t))
unfolding reset_token position is_within_replay is_past_merge
replays_exactly P n t le h =
    let r = reached_by-IsCursor t h in
    elim (Bool-cases (covers (global_sequence n) (reached_by t))) [
      | inl y ↦
          rw (reset_token, y)
            record {
              progress = plain_progress (tt, le);
              place = refl;
              flags = λ hash_of e b lt.
                  rw (sym (covers-reached_by t (past_of e) h b), reached_before n t e le r.1 b y lt)
                    refl;
            }
      | inr y ↦
          rw (reset_token, y)
            record {
              progress = replay_progress r (tt, le);
              place = refl;
              flags = λ hash_of e b lt. rw (sym (covers-reached_by t (past_of e) h b)) refl;
            }
    ]
  where
    reached_before :
        (n : ℕ) (t : TrackingToken) (e : SequencedEvent P)
        → n ≤ max_safe_integer
        → IsBounded (reached_by t)
        → IsBounded (past_of e)
        → covers (global_sequence n) (reached_by t) ≡ true
        → n < position (past_of e)
        → covers (reached_by t) (past_of e) ≡ false
    reached_before n t e le r b y lt = ground (
      arith,
      covers-position (global_sequence n) (reached_by t) le r,
      covers-position (reached_by t) (past_of e) r b,
    )
