-- ===== src/Token/Order.antt =====
-- The order of tokens by position: `covers`, the two bounds, and how a token advances.
use kronos_ts.Common.{ℕ, ◌≤◌, min, max, ◌≡◌, refl, true, false, leb, ltb, arith, ◌∙◌}
use kronos_ts.Token.{
  TrackingToken, global_sequence, gap_aware, latest, replay, merged, position, covers, lower_bound,
  upper_bound, same_position_as, advance_token_to, advance_half, merged_token, is_replaying,
  max_safe_integer,
}

-- No position in the token is past the one of `LATEST_TOKEN`.
abbrev pub IsBounded : TrackingToken → Type 0
IsBounded (global_sequence s) = s ≤ max_safe_integer
IsBounded (gap_aware s key) = s ≤ max_safe_integer
IsBounded latest = Unit
IsBounded (replay reset current) = IsBounded reset × IsBounded current
IsBounded (merged mask s₀ t₀ s₁ t₁) = IsBounded t₀ × IsBounded t₁

position_bound : (t : TrackingToken) → IsBounded t → position t ≤ max_safe_integer
unfolding position
position_bound (global_sequence s) b = b
position_bound (gap_aware s key) b = b
position_bound latest b = omega arith
position_bound (replay reset current) b = position_bound current b.1
position_bound (merged mask s₀ t₀ s₁ t₁) b =
    ground (arith, position_bound t₀ b.0, position_bound t₁ b.1)

-- Of tokens no further than `LATEST_TOKEN`, one covers another exactly when it is at the same position or further on.
pub covers-position :
    (t u : TrackingToken) → IsBounded t → IsBounded u → covers t u ≡ leb (position u) (position t)
unfolding covers position
covers-position (global_sequence s) u b c = refl
covers-position (gap_aware s key) u b c = refl
covers-position latest u b c = ground (arith, position_bound u c)
covers-position (replay reset current) u b c = covers-position current u b.1 c
covers-position (merged mask s₀ t₀ s₁ t₁) u b c =
    ground (arith, covers-position t₀ u b.0 c, covers-position t₁ u b.1 c)

-- The lower bound of two tokens no further than `LATEST_TOKEN` is at the smaller of their positions.
pub position-lower_bound :
    (t u : TrackingToken)
    → IsBounded t
    → IsBounded u
    → position (lower_bound t u) ≡ min (position t) (position u)
unfolding position lower_bound
position-lower_bound (global_sequence s) u b c = ground arith
position-lower_bound (gap_aware s key) u b c = ground arith
position-lower_bound latest u b c = omega (arith, position_bound u c)
position-lower_bound (replay reset current) u b c =
    ground (arith, position-lower_bound current u b.1 c)
position-lower_bound (merged mask s₀ t₀ s₁ t₁) u b c =
    ground (arith, position-lower_bound t₀ u b.0 c, position-lower_bound t₁ u b.1 c)

-- The upper bound of two tokens no further than `LATEST_TOKEN` is at the greater of their positions.
pub position-upper_bound :
    (t u : TrackingToken)
    → IsBounded t
    → IsBounded u
    → position (upper_bound t u) ≡ max (position t) (position u)
unfolding position upper_bound
position-upper_bound (global_sequence s) u b c = ground arith
position-upper_bound (gap_aware s key) u b c = ground arith
position-upper_bound latest u b c = omega (arith, position_bound u c)
position-upper_bound (replay reset current) u b c =
    ground (arith, position-upper_bound current u b.1 c)
position-upper_bound (merged mask s₀ t₀ s₁ t₁) u b c =
    ground (arith, position-upper_bound t₀ u b.0 c, position-upper_bound t₁ u b.1 c)

-- Tokens that say they are at the same position are.
pub position_of_same : (t u : TrackingToken) → same_position_as t u ≡ true → position t ≡ position u
unfolding same_position_as position
position_of_same (global_sequence s) u e = ground arith
position_of_same (gap_aware s key) u e = ground arith
position_of_same latest latest e = refl
position_of_same latest (global_sequence s) e = ground arith
position_of_same latest _ e = ground arith
position_of_same (replay reset current) u e = position_of_same current u e
position_of_same (merged mask s₀ t₀ s₁ t₁) u e =
    ground (arith, position_of_same t₀ u, position_of_same t₁ u)

-- Advanced to a token that is not itself a replay, with it and the token at the reset no further than
-- `LATEST_TOKEN`, a replay is at the next position, and goes on exactly as long as that is below the
-- one at the reset.
pub advance_token_to-replay :
    (reset current next : TrackingToken)
    → IsBounded reset
    → IsBounded next
    → is_replaying next ≡ false
    → (is_replaying (advance_token_to (replay reset current) next)
        ≡ ltb (position next) (position reset))
      × (position (advance_token_to (replay reset current) next) ≡ position next)
unfolding advance_token_to is_replaying position
advance_token_to-replay reset current next b c plain =
    ground (arith, covers-position next reset c b)

pub position-merged_token :
    (mask s₀ s₁ : ℕ) (t u : TrackingToken)
    → position (merged_token mask s₀ t s₁ u) ≡ min (position t) (position u)
unfolding merged_token position
position-merged_token mask s₀ s₁ t u = ground (arith, position_of_same t u)

-- With tokens no further than `LATEST_TOKEN`, a merged token advances to the next position, or stays where its slower half is if that is
-- further on: it never moves back.
pub position-advance_token_to-merged :
    (mask s₀ s₁ : ℕ) (t u next : TrackingToken)
    → IsBounded t
    → IsBounded u
    → IsBounded next
    → position (advance_token_to (merged mask s₀ t s₁ u) next)
      ≡ max (position (merged mask s₀ t s₁ u)) (position next)
unfolding advance_token_to position
position-advance_token_to-merged mask s₀ s₁ t u next b c d =
    position-merged_token mask s₀ s₁ (advance_half t next) (advance_half u next)
    ∙ ground (arith, covers-position t next b d, covers-position u next c d)
