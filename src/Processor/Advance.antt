-- ===== src/Processor/Advance.antt =====
-- One event's step of the token: what it does to the flags of the events behind it.
use kronos_ts.Common.{
  ℕ, ◌≤◌, ◌<◌, max, ◌≡◌, refl, sym, ◌∙◌, false, ◌==◌, arith, Bool-cases, inl, inr,
}
use kronos_ts.Token.{
  TrackingToken, global_sequence, gap_aware, latest, replay, merged, position, covers,
  same_position_as, merged_token, handled_by_merged_half, advance_half, advance_token_to,
}
use kronos_ts.Token.Order.{
  IsBounded, covers-position, position_of_same, position-advance_token_to-merged,
}
use kronos_ts.Token.Merge.{IsPlain, advance_half-IsPlain, advance_half-IsBounded}
use kronos_ts.Processor.{is_within_replay, is_past_merge}

-- A token that an engine gives an event: plain, and no further than `LATEST_TOKEN`.
abbrev pub IsCursor : TrackingToken → Type 0
IsCursor t = IsPlain t × IsBounded t

-- A token that a processor can have: a cursor, a replay of cursors, or a merge of cursors that are
-- not at the same place.
pub data IsProgress : TrackingToken → Type 0 where
  plain_progress : {t : TrackingToken} → IsCursor t → IsProgress t
  replay_progress : {r c : TrackingToken} → IsCursor r → IsCursor c → IsProgress (replay r c)
  merged_progress :
      {m s₀ s₁ : ℕ} {t₀ t₁ : TrackingToken}
      → IsCursor t₀
      → IsCursor t₁
      → same_position_as t₀ t₁ ≡ false
      → IsProgress (merged m s₀ t₀ s₁ t₁)

-- Both tokens flag every event past a position alike.
pub record IsAlike (t u : TrackingToken) (past : TrackingToken) : Type 0 where
  pub replays : is_within_replay t past ≡ is_within_replay u past
  pub merges : (hash : ℕ) → is_past_merge t hash past ≡ is_past_merge u hash past

pub plain-within : (t past : TrackingToken) → IsPlain t → is_within_replay t past ≡ false
unfolding is_within_replay
plain-within (global_sequence s) past h = refl
plain-within (gap_aware s key) past h = refl
plain-within latest past h = absurd h
plain-within (replay r c) past h = absurd h
plain-within (merged m s₀ t₀ s₁ t₁) past h = absurd h

pub plain-past_merge :
    (t past : TrackingToken) (hash : ℕ) → IsPlain t → is_past_merge t hash past ≡ false
unfolding is_past_merge
plain-past_merge (global_sequence s) past hash h = refl
plain-past_merge (gap_aware s key) past hash h = refl
plain-past_merge latest past hash h = absurd h
plain-past_merge (replay r c) past hash h = absurd h
plain-past_merge (merged m s₀ t₀ s₁ t₁) past hash h = absurd h

plain-advance : (t next : TrackingToken) → IsPlain t → advance_token_to t next ≡ next
unfolding advance_token_to
plain-advance (global_sequence s) next h = refl
plain-advance (gap_aware s key) next h = refl
plain-advance latest next h = absurd h
plain-advance (replay r c) next h = absurd h
plain-advance (merged m s₀ t₀ s₁ t₁) next h = absurd h

both_plain-IsAlike : (t u past : TrackingToken) → IsPlain t → IsPlain u → IsAlike t u past
both_plain-IsAlike t u past h k = record {
  replays = plain-within t past h ∙ sym (plain-within u past k);
  merges = λ hash. plain-past_merge t past hash h ∙ sym (plain-past_merge u past hash k);
}

plain-same_position_as :
    (t u : TrackingToken) → IsPlain t → same_position_as t u ≡ (position t == position u)
unfolding same_position_as position
plain-same_position_as (global_sequence s) u h = refl
plain-same_position_as (gap_aware s key) u h = refl
plain-same_position_as latest u h = absurd h
plain-same_position_as (replay r c) u h = absurd h
plain-same_position_as (merged m s₀ t₀ s₁ t₁) u h = absurd h

apart_sym :
    (t u : TrackingToken)
    → IsCursor t
    → IsCursor u
    → same_position_as t u ≡ false
    → same_position_as u t ≡ false
apart_sym t u h k apart =
    ground (arith, plain-same_position_as t u h.0, plain-same_position_as u t k.0)

pub IsAlike-trans :
    {t u v past : TrackingToken} → IsAlike t u past → IsAlike u v past → IsAlike t v past
IsAlike-trans a b = record {
  replays = a.replays ∙ b.replays;
  merges = λ hash. a.merges hash ∙ b.merges hash;
}

-- What one step to `next` keeps and moves.
pub record IsAdvanced (t next : TrackingToken) : Type 0 where
  pub progress : IsProgress (advance_token_to t next)
  pub moved : position (advance_token_to t next) ≡ max (position t) (position next)
  pub alike :
      (past : TrackingToken)
      → IsBounded past
      → position next < position past
      → IsAlike (advance_token_to t next) t past

module _ (next : TrackingToken) (n : IsCursor next) where
  IsAdvanced-plain :
      (t : TrackingToken) → IsCursor t → position t ≤ position next → IsAdvanced t next
  IsAdvanced-plain t h le = record {
    progress = rw (plain-advance t next h.0) (plain_progress n);
    moved = rw (plain-advance t next h.0) (omega arith);
    alike = λ past p lt. rw (plain-advance t next h.0) (both_plain-IsAlike next t past n.0 h.0);
  }

  IsAdvanced-replay :
      (r c : TrackingToken)
      → IsCursor r
      → IsCursor c
      → position c ≤ position next
      → IsAdvanced (replay r c) next
  unfolding advance_token_to position is_within_replay is_past_merge
  IsAdvanced-replay r c hr hc le = elim (Bool-cases (covers next r)) [
    | inl e ↦ record {
      progress = rw e (plain_progress n);
      moved = rw e (omega arith);
      alike = λ past p lt. rw e (record {
        replays =
            plain-within next past n.0
            ∙ ground (arith, covers-position next r n.1 hr.1, covers-position r past hr.1 p);
        merges = λ hash. plain-past_merge next past hash n.0;
      });
    }
    | inr e ↦ record {
      progress = rw e (replay_progress hr n);
      moved = rw e (omega arith);
      alike = λ past p lt. rw e (record { replays = refl; merges = λ hash. refl });
    }
  ]

  half-IsCursor : (t : TrackingToken) → IsCursor t → IsCursor (advance_half t next)
  half-IsCursor t h = (advance_half-IsPlain t next h.0 n.0, advance_half-IsBounded t next h.1 n.1)

  module _ (past : TrackingToken) (p : IsBounded past) (lt : position next < position past) where
    covers-half :
        (t : TrackingToken) → IsCursor t → covers (advance_half t next) past ≡ covers t past
    covers-half t h = ground (
      arith,
      covers-position t next h.1 n.1,
      covers-position t past h.1 p,
      covers-position next past n.1 p,
    )

    -- Where two halves meet, neither had got to `past`.
    half_meets :
        (t u : TrackingToken)
        → IsCursor t
        → IsCursor u
        → same_position_as t u ≡ false
        → position (advance_half t next) ≡ position (advance_half u next)
        → covers t past ≡ false
    half_meets t u h k apart meet = ground (
      arith,
      plain-same_position_as t u h.0,
      covers-position t next h.1 n.1,
      covers-position u next k.1 n.1,
      covers-position t past h.1 p,
    )

    module _ (m s₀ s₁ : ℕ) (t u : TrackingToken) (h : IsCursor t) (k : IsCursor u)
        (apart : same_position_as t u ≡ false) where
      no_longer_past_merge :
          (hash : ℕ)
          → position (advance_half t next) ≡ position (advance_half u next)
          → handled_by_merged_half m s₀ t s₁ u hash past ≡ false
      unfolding handled_by_merged_half
      no_longer_past_merge hash meet = ground (
        arith,
        half_meets t u h k apart meet,
        half_meets u t k h (apart_sym t u h k apart) (sym meet),
      )

      merged_alike :
          (hash : ℕ)
          → handled_by_merged_half m s₀ (advance_half t next) s₁ (advance_half u next) hash past
            ≡ handled_by_merged_half m s₀ t s₁ u hash past
      unfolding handled_by_merged_half
      merged_alike hash = rw (covers-half t h, covers-half u k) refl

      IsAlike-merged :
          IsAlike (advance_token_to (merged m s₀ t s₁ u) next) (merged m s₀ t s₁ u) past
      unfolding advance_token_to merged_token is_within_replay is_past_merge
      IsAlike-merged =
          elim (Bool-cases (same_position_as (advance_half t next) (advance_half u next))) [
            | inl e ↦
                let meet = position_of_same (advance_half t next) (advance_half u next) e in
                let plain = (half-IsCursor t h).0 in
                rw e (record {
                  replays = plain-within (advance_half t next) past plain;
                  merges = λ hash.
                      plain-past_merge (advance_half t next) past hash plain
                      ∙ sym (no_longer_past_merge hash meet);
                })
            | inr e ↦ rw e (record { replays = refl; merges = merged_alike })
          ]

  IsAdvanced-merged :
      (m s₀ s₁ : ℕ) (t u : TrackingToken)
      → IsCursor t
      → IsCursor u
      → same_position_as t u ≡ false
      → IsAdvanced (merged m s₀ t s₁ u) next
  unfolding advance_token_to merged_token
  IsAdvanced-merged m s₀ s₁ t u h k apart = record {
    progress = merged-IsProgress;
    moved = position-advance_token_to-merged m s₀ s₁ t u next h.1 k.1 n.1;
    alike = λ past p lt. IsAlike-merged past p lt m s₀ s₁ t u h k apart;
  }
    where
      merged-IsProgress : IsProgress (advance_token_to (merged m s₀ t s₁ u) next)
      merged-IsProgress =
          elim (Bool-cases (same_position_as (advance_half t next) (advance_half u next))) [
            | inl e ↦ rw e (plain_progress (half-IsCursor t h))
            | inr e ↦ rw e (merged_progress (half-IsCursor t h) (half-IsCursor u k) e)
          ]

  -- A step to a cursor at the token's position or past it.
  pub advanced : (t : TrackingToken) → IsProgress t → position t ≤ position next → IsAdvanced t next
  unfolding position
  advanced t (plain_progress h) le = IsAdvanced-plain t h le
  advanced t (replay_progress {r = r} {c = c} hr hc) le = IsAdvanced-replay r c hr hc le
  advanced t (merged_progress {m} {s₀} {s₁} {t₀} {t₁} h k e) le =
      IsAdvanced-merged m s₀ s₁ t₀ t₁ h k e
