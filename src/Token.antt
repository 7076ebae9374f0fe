-- ===== src/Token.antt =====
-- Tracking tokens: packages/core/src/event-processing/tracking-token.ts.
-- Positions are natural numbers, as those of a log are. The token kinds are those of this file:
-- a store's own kinds are not modelled.
pub mod Order
pub mod Merge
pub mod Codec
mod Tests
use kronos_ts.Common.{
  ℕ, ◌^◌, ◌-◌, ◌%◌, bit_and, Bool, true, false, not, ◌||◌, ◌&&◌, Option, none, some, List, [], ◌∷◌,
  leb, ltb, ◌==◌, if◌then◌else◌,
}
use kronos_ts.Common.Int.{ℤ, pos, eqbℤ, int32, word}
use kronos_ts.Common.Text.{Text}

-- `merged mask s₀ t₀ s₁ t₁` has the halves with segment ids s₀ and s₁ and tokens t₀ and t₁;
-- `replay reset current` the arguments of `replayToken`.
pub data TrackingToken : Type 0 where
  global_sequence : ℕ → TrackingToken
  gap_aware : ℕ → Text → TrackingToken
  latest : TrackingToken
  replay : TrackingToken → TrackingToken → TrackingToken
  merged : ℕ → ℕ → TrackingToken → ℕ → TrackingToken → TrackingToken

-- `Number.MAX_SAFE_INTEGER`
abbrev pub max_safe_integer : ℕ
max_safe_integer = 2 ^ 53 - 1

abbrev pub first_token : TrackingToken
first_token = global_sequence 0

unfoldable pub position : TrackingToken → ℕ
position (global_sequence s) = s
position (gap_aware s key) = s
position latest = max_safe_integer
position (replay reset current) = position current
position (merged mask s₀ t₀ s₁ t₁) =
    if leb (position t₀) (position t₁) then position t₀ else position t₁

unfoldable pub covers : TrackingToken → TrackingToken → Bool
unfolding position
covers (global_sequence s) other = leb (position other) s
covers (gap_aware s key) other = leb (position other) s
covers latest other = true
covers (replay reset current) other = covers current other
covers (merged mask s₀ t₀ s₁ t₁) other =
    if leb (position t₀) (position t₁) then covers t₀ other else covers t₁ other

abbrev pub is_latest : TrackingToken → Bool
is_latest latest = true
is_latest _ = false

unfoldable pub same_position_as : TrackingToken → TrackingToken → Bool
unfolding position
same_position_as (global_sequence s) other = s == position other
same_position_as (gap_aware s key) other = s == position other
same_position_as latest other = is_latest other
same_position_as (replay reset current) other = same_position_as current other
same_position_as (merged mask s₀ t₀ s₁ t₁) other =
    if leb (position t₀) (position t₁) then same_position_as t₀ other else same_position_as t₁ other

unfoldable pub lower_bound : TrackingToken → TrackingToken → TrackingToken
unfolding position covers
lower_bound (global_sequence s) other =
    global_sequence (if ltb s (position other) then s else position other)
lower_bound (gap_aware s key) other =
    if leb s (position other) then gap_aware s key else global_sequence (position other)
lower_bound latest other = other
lower_bound (replay reset current) other =
    let inner = lower_bound current other in
    if not (covers inner reset) then replay reset inner else inner
lower_bound (merged mask s₀ t₀ s₁ t₁) other =
    if leb (position t₀) (position t₁) then lower_bound t₀ other else lower_bound t₁ other

unfoldable pub upper_bound : TrackingToken → TrackingToken → TrackingToken
unfolding position covers
upper_bound (global_sequence s) other =
    global_sequence (if ltb (position other) s then s else position other)
upper_bound (gap_aware s key) other =
    if leb (position other) s then gap_aware s key else global_sequence (position other)
upper_bound latest other = latest
upper_bound (replay reset current) other =
    let inner = upper_bound current other in
    if covers inner reset then inner else replay reset inner
upper_bound (merged mask s₀ t₀ s₁ t₁) other =
    if leb (position t₀) (position t₁) then upper_bound t₀ other else upper_bound t₁ other

-- The function `mergedToken`.
unfoldable pub merged_token : ℕ → ℕ → TrackingToken → ℕ → TrackingToken → TrackingToken
unfolding same_position_as
merged_token mask s₀ t₀ s₁ t₁ = if same_position_as t₀ t₁ then t₀ else merged mask s₀ t₀ s₁ t₁

-- `(hash & token.mask) === h.segment`
abbrev pub in_half : ℕ → ℕ → ℕ → Bool
in_half mask hash segment = eqbℤ (int32 (bit_and (hash % word) (mask % word))) (pos segment)

-- `handledByMergedHalf`, at the fields of a merged token: the first half that fits decides.
unfoldable pub handled_by_merged_half :
    ℕ → ℕ → TrackingToken → ℕ → TrackingToken → ℕ → TrackingToken → Bool
unfolding covers
handled_by_merged_half mask s₀ t₀ s₁ t₁ hash past =
    if in_half mask hash s₀
    then covers t₀ past
    else (if in_half mask hash s₁ then covers t₁ past else false)

unfoldable pub reached_by : TrackingToken → TrackingToken
unfolding position
reached_by (replay reset current) = reset
reached_by (merged mask s₀ t₀ s₁ t₁) = if leb (position t₁) (position t₀) then t₀ else t₁
reached_by token = token

-- `half.token.covers(next) ? half : { ...half, token: next }`
abbrev pub advance_half : TrackingToken → TrackingToken → TrackingToken
advance_half t next = if covers t next then t else next

unfoldable pub advance_token_to : TrackingToken → TrackingToken → TrackingToken
unfolding covers merged_token
advance_token_to (merged mask s₀ t₀ s₁ t₁) next =
    merged_token mask s₀ (advance_half t₀ next) s₁ (advance_half t₁ next)
advance_token_to (replay reset current) next = if covers next reset then next else replay reset next
advance_token_to token next = next

unfoldable pub advance_token : TrackingToken → ℕ → TrackingToken
unfolding advance_token_to
advance_token token position = advance_token_to token (global_sequence position)

unfoldable pub is_replaying : TrackingToken → Bool
is_replaying (replay reset current) = true
is_replaying _ = false

unfoldable pub unwrap_token : TrackingToken → TrackingToken
unwrap_token (replay reset current) = unwrap_token current
unwrap_token token = token

-- `wasProcessedBeforeReset`, at the reset token of a replay.
unfoldable pub was_processed_before_reset : TrackingToken → ℕ → Bool
unfolding covers
was_processed_before_reset reset event_position = covers reset (global_sequence event_position)
