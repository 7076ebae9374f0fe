-- ===== src/Token/Merge.antt =====
-- Merged segments: what the token of two halves that had got to different places counts as handled.
use kronos_ts.Common.{
  ℕ, ◌≡◌, refl, ap, sym, ◌∙◌, Bool, true, ◌||◌, leb, arith, Bool-cases, inl, inr,
}
use kronos_ts.Token.{
  TrackingToken, global_sequence, gap_aware, latest, replay, merged, position, covers,
  same_position_as, merged_token, in_half, handled_by_merged_half, advance_half, advance_token_to,
}
use kronos_ts.Token.Order.{IsBounded, covers-position, position_of_same}

-- Whether the token says that the event ending at `past`, of a sequence with this hash, is handled.
abbrev pub handled : TrackingToken → ℕ → TrackingToken → Bool
handled (merged mask s₀ t₀ s₁ t₁) hash past = handled_by_merged_half mask s₀ t₀ s₁ t₁ hash past
handled token hash past = covers token past

module _ (t u past : TrackingToken) (b : IsBounded t) (c : IsBounded u) (p : IsBounded past) where
  covers_of_position : position t ≡ position u → covers t past ≡ covers u past
  covers_of_position e =
      covers-position t past b p
      ∙ ap (λ (n : ℕ). leb (position past) n) e
      ∙ sym (covers-position u past c p)

  covers-advance_half : covers (advance_half t u) past ≡ (covers t past || covers u past)
  covers-advance_half =
      ground
        (arith, covers-position t u b c, covers-position t past b p, covers-position u past c p)

pub advance_half-IsBounded :
    (t u : TrackingToken) → IsBounded t → IsBounded u → IsBounded (advance_half t u)
advance_half-IsBounded t u b c = elim (Bool-cases (covers t u)) [ inl e ↦ rw e b | inr e ↦ rw e c ]

-- The tokens that a store hands out: neither a replay nor a merged token, nor `LATEST_TOKEN`.
abbrev pub IsPlain : TrackingToken → Type 0
IsPlain (global_sequence s) = Unit {0}
IsPlain (gap_aware s key) = Unit {0}
IsPlain _ = ⊥

handled-plain :
    (t past : TrackingToken) (hash : ℕ) → IsPlain t → handled t hash past ≡ covers t past
handled-plain (global_sequence s) past hash h = refl
handled-plain (gap_aware s key) past hash h = refl
handled-plain latest past hash h = absurd h
handled-plain (replay r c) past hash h = absurd h
handled-plain (merged m s₀ t₀ s₁ t₁) past hash h = absurd h

pub advance_half-IsPlain :
    (t u : TrackingToken) → IsPlain t → IsPlain u → IsPlain (advance_half t u)
advance_half-IsPlain t u b c = elim (Bool-cases (covers t u)) [ inl e ↦ rw e b | inr e ↦ rw e c ]

module _ (mask s₀ s₁ hash : ℕ) (member : (in_half mask hash s₀ || in_half mask hash s₁) ≡ true)
    (t u past : TrackingToken) (b : IsBounded t) (c : IsBounded u) (p : IsBounded past)
    (plain : IsPlain t) where
  -- For a sequence of the segment, and tokens no further than `LATEST_TOKEN`, the first of them plain,
  -- merging two halves, at the same place or not, makes a token that counts as handled, for each
  -- sequence of the segment, exactly what the half of the sequence had handled.
  pub handled-merged_token :
      handled (merged_token mask s₀ t s₁ u) hash past
      ≡ handled_by_merged_half mask s₀ t s₁ u hash past
  unfolding merged_token handled_by_merged_half
  handled-merged_token = elim (Bool-cases (same_position_as t u)) [
    | inl e ↦ rw e (
        handled-plain t past hash plain
        ∙ ground (arith, covers_of_position t u past b c p (position_of_same t u e)))
    | inr e ↦ rw e refl
  ]

-- Where the halves and `next` are plain tokens no further than `LATEST_TOKEN`,
-- advancing a merged token to `next` adds exactly the events that `next` covers: an event of either
-- half counts as handled afterwards if and only if it did before or `next` covers it, also when the
-- halves meet and the token becomes a plain one.
pub handled-advance_token_to :
    (mask s₀ s₁ hash : ℕ) (t u next past : TrackingToken)
    → (in_half mask hash s₀ || in_half mask hash s₁) ≡ true
    → IsPlain t × IsBounded t
    → IsPlain u × IsBounded u
    → IsPlain next × IsBounded next
    → IsBounded past
    → handled (advance_token_to (merged mask s₀ t s₁ u) next) hash past
      ≡ (handled (merged mask s₀ t s₁ u) hash past || covers next past)
unfolding advance_token_to
handled-advance_token_to mask s₀ s₁ hash t u next past member (pt, bt) (pu, bu) (pn, bn) p =
    handled-merged_token mask s₀ s₁ hash member (advance_half t next) (advance_half u next) past
      (advance_half-IsBounded t next bt bn) (advance_half-IsBounded u next bu bn) p
      (advance_half-IsPlain t next pt pn)
    ∙ (unfold handled_by_merged_half in
        ground
          (arith, covers-advance_half t next past bt bn p, covers-advance_half u next past bu bn p))
