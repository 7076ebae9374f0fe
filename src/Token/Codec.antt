-- ===== src/Token/Codec.antt =====
-- The persisted form of a token: `serializeToken` and `deserializeToken` of tracking-token.ts.
-- The body is the object that `JSON.stringify` and `JSON.parse` carry over as it is.
use kronos_ts.Common.{
  ℕ, min, ◌≡◌, refl, ap, ap₂, ◌∙◌, false, Option, none, some, arith, Bool-cases, inl, inr,
}
use kronos_ts.Common.Text.{Text, to_decimal, of_decimal, of_decimal-to_decimal, str}
use kronos_ts.Token.{
  TrackingToken, global_sequence, gap_aware, latest, replay, merged, position, same_position_as,
  merged_token, unwrap_token, is_replaying, max_safe_integer,
}
use kronos_ts.Token.Order.{position-merged_token}
use kronos_ts.Token.Merge.{IsPlain}

pub record TokenBody : Type 0 where
  pub position : Text
  pub gap_key : Option Text

pub record MergedBody : Type 0 where
  pub mask : ℕ
  pub segment₀ : ℕ
  pub body₀ : TokenBody
  pub segment₁ : ℕ
  pub body₁ : TokenBody

-- The parsed JSON object.
pub record TokenData : Type 0 where
  pub body : TokenBody
  pub token_at_reset : Option TokenBody
  pub merged_halves : Option MergedBody

pub record SerializedToken : Type 0 where
  pub type_label : Text
  pub content : TokenData

-- What `deserializeToken` gives: no stored token or a token. What comes of a position that is no plain
-- decimal is left open: `BigInt` throws on some of these texts, and reads others, as hexadecimal ones
-- and those with a sign or space around them, none of which is ever written.
pub data Read : Type 0 where
  no_token : Read
  read : TrackingToken → Read
  no_plain_decimal : Read

-- `isGapAwareToken(inner) ? inner.gapKey : undefined`
abbrev pub gap_key_of : TrackingToken → Option Text
gap_key_of (gap_aware s key) = some key
gap_key_of _ = none

unfoldable pub body_of : TrackingToken → TokenBody
unfolding unwrap_token position
body_of token =
    let inner = unwrap_token token in
    record { position = to_decimal (position inner); gap_key = gap_key_of inner }

abbrev token_at : Option Text → ℕ → TrackingToken
token_at none n = global_sequence n
token_at (some key) n = gap_aware n key

unfoldable pub token_of : TokenBody → Read
token_of body = elim (of_decimal body.position) [
  | none ↦ no_plain_decimal
  | some n ↦ read (token_at body.gap_key n)
]

abbrev plain_label : Option Text → Text
plain_label none = str "GlobalSequenceToken"
plain_label (some key) = str "GapAwareToken"

unfoldable pub serialize_token : TrackingToken → SerializedToken
serialize_token (merged mask s₀ t₀ s₁ t₁) = record {
  type_label = str "MergedToken";
  content = record {
    body = body_of (merged mask s₀ t₀ s₁ t₁);
    token_at_reset = none;
    merged_halves = some (record {
      mask = mask;
      segment₀ = s₀;
      body₀ = body_of t₀;
      segment₁ = s₁;
      body₁ = body_of t₁;
    });
  };
}
serialize_token (replay reset current) = record {
  type_label = str "ReplayToken";
  content = record {
    body = body_of (replay reset current);
    token_at_reset = some (body_of reset);
    merged_halves = none;
  };
}
serialize_token token = record {
  type_label = plain_label (body_of token).gap_key;
  content = record { body = body_of token; token_at_reset = none; merged_halves = none };
}

infixl 5 ◌>>=◌
abbrev pub ◌>>=◌ : Read → (TrackingToken → Read) → Read
no_token >>= f = no_token
read t >>= f = f t
no_plain_decimal >>= f = no_plain_decimal

deserialize_plain : TokenData → Read
deserialize_plain parsed = elim parsed.token_at_reset [
  | none ↦ token_of parsed.body
  | some reset_body ↦ do
    current ← token_of parsed.body
    reset ← token_of reset_body
    read (replay reset current)
]

-- The label is ignored; `none` is a missing or empty text.
unfoldable pub deserialize_token : Text → Option TokenData → Read
unfolding deserialize_plain
deserialize_token type_label none = no_token
deserialize_token type_label (some parsed) = elim parsed.merged_halves [
  | none ↦ deserialize_plain parsed
  | some m ↦ do
    t₀ ← token_of m.body₀
    t₁ ← token_of m.body₁
    read (merged_token m.mask m.segment₀ t₀ m.segment₁ t₁)
]

-- The plain token that comes back from a body.
abbrev restored : TrackingToken → TrackingToken
restored t = token_at (gap_key_of (unwrap_token t)) (position (unwrap_token t))

token_of-body_of : (t : TrackingToken) → token_of (body_of t) ≡ read (restored t)
unfolding token_of body_of
token_of-body_of t = rw (token_of, of_decimal-to_decimal (position (unwrap_token t))) refl

restored-plain : (t : TrackingToken) → IsPlain t → restored t ≡ t
unfolding position unwrap_token
restored-plain (global_sequence s) h = refl
restored-plain (gap_aware s key) h = refl
restored-plain latest h = absurd h
restored-plain (replay r c) h = absurd h
restored-plain (merged m s₀ t₀ s₁ t₁) h = absurd h

position-token_at : (k : Option Text) (n : ℕ) → position (token_at k n) ≡ n
unfolding position
position-token_at none n = refl
position-token_at (some key) n = refl

position-unwrap_token : (t : TrackingToken) → position (unwrap_token t) ≡ position t
unfolding position unwrap_token
position-unwrap_token (replay r c) = position-unwrap_token c
position-unwrap_token (global_sequence s) = refl
position-unwrap_token (gap_aware s key) = refl
position-unwrap_token latest = refl
position-unwrap_token (merged m s₀ t₀ s₁ t₁) = refl

-- Tokens that a processor stores: plain ones, replays of plain ones, and merged ones whose halves
-- are plain and not at the same place.
pub data IsStored : TrackingToken → Type 0 where
  stored_plain : {t : TrackingToken} → IsPlain t → IsStored t
  stored_replay : {r c : TrackingToken} → IsPlain r → IsPlain c → IsStored (replay r c)
  stored_merged :
      {m s₀ s₁ : ℕ} {t₀ t₁ : TrackingToken}
      → IsPlain t₀
      → IsPlain t₁
      → same_position_as t₀ t₁ ≡ false
      → IsStored (merged m s₀ t₀ s₁ t₁)

-- Storing a token and reading it back.
abbrev pub round_trip : TrackingToken → Read
round_trip t = let s = serialize_token t in deserialize_token s.type_label (some s.content)

round_trip-replay :
    (r c : TrackingToken) → round_trip (replay r c) ≡ read (replay (restored r) (restored c))
unfolding serialize_token deserialize_token unwrap_token
round_trip-replay r c = rw (token_of-body_of (replay r c), token_of-body_of r) refl

round_trip-merged :
    (m s₀ s₁ : ℕ) (t₀ t₁ : TrackingToken)
    → round_trip (merged m s₀ t₀ s₁ t₁) ≡ read (merged_token m s₀ (restored t₀) s₁ (restored t₁))
unfolding serialize_token deserialize_token
round_trip-merged m s₀ s₁ t₀ t₁ = rw (token_of-body_of t₀, token_of-body_of t₁) refl

round_trip-plain : (t : TrackingToken) → IsPlain t → round_trip t ≡ read t
unfolding serialize_token deserialize_token
round_trip-plain (global_sequence s) h =
    token_of-body_of (global_sequence s) ∙ ap read (restored-plain (global_sequence s) h)
round_trip-plain (gap_aware s key) h =
    token_of-body_of (gap_aware s key) ∙ ap read (restored-plain (gap_aware s key) h)
round_trip-plain latest h = absurd h
round_trip-plain (replay r c) h = absurd h
round_trip-plain (merged m s₀ t₀ s₁ t₁) h = absurd h

-- A token that a processor stores (a plain one, a replay of plain ones, or a merged one with plain
-- halves at different places) is read back as it was.
pub deserialize-serialize : {t : TrackingToken} → IsStored t → round_trip t ≡ read t
unfolding merged_token
deserialize-serialize (stored_plain {t = t} h) = round_trip-plain t h
deserialize-serialize (stored_replay {r = r} {c = c} hr hc) =
    round_trip-replay r c
    ∙ ap₂ (λ x y. read (replay x y)) (restored-plain r hr) (restored-plain c hc)
deserialize-serialize (stored_merged {m} {s₀} {s₁} {t₀} {t₁} h₀ h₁ e) =
    round_trip-merged m s₀ s₁ t₀ t₁
    ∙ ap₂ (λ x y. read (merged_token m s₀ x s₁ y)) (restored-plain t₀ h₀) (restored-plain t₁ h₁)
    ∙ rw e refl

position-restored : (t : TrackingToken) → position (restored t) ≡ position t
position-restored t =
    position-token_at (gap_key_of (unwrap_token t)) (position (unwrap_token t))
    ∙ position-unwrap_token t

is_replaying-token_at : (k : Option Text) (n : ℕ) → is_replaying (token_at k n) ≡ false
unfolding is_replaying
is_replaying-token_at none n = refl
is_replaying-token_at (some key) n = refl

is_replaying-merged_token :
    (m s₀ s₁ : ℕ) (t u : TrackingToken)
    → is_replaying t ≡ false
    → is_replaying (merged_token m s₀ t s₁ u) ≡ false
unfolding merged_token is_replaying
is_replaying-merged_token m s₀ s₁ t u h = elim (Bool-cases (same_position_as t u)) [
  | inl e ↦ rw e h
  | inr e ↦ rw e refl
]

position-merged_restored :
    (m s₀ s₁ : ℕ) (t u : TrackingToken)
    → position (merged_token m s₀ (restored t) s₁ (restored u)) ≡ position (merged m s₀ t s₁ u)
unfolding position
position-merged_restored m s₀ s₁ t u =
    position-merged_token m s₀ s₁ (restored t) (restored u)
    ∙ ap₂ min (position-restored t) (position-restored u)
    ∙ ground arith

-- Whatever the token, reading it back gives one at the same position, which is replaying exactly if
-- the stored one was.
pub round_trip_keeps :
    (t : TrackingToken)
    → (u : TrackingToken) × (round_trip t ≡ read u)
      × (position u ≡ position t)
      × (is_replaying u ≡ is_replaying t)
unfolding is_replaying position serialize_token deserialize_token unwrap_token
round_trip_keeps (replay r c) =
    (replay (restored r) (restored c), round_trip-replay r c, position-restored c, refl)
round_trip_keeps (merged m s₀ t₀ s₁ t₁) = (
  merged_token m s₀ (restored t₀) s₁ (restored t₁),
  round_trip-merged m s₀ s₁ t₀ t₁,
  position-merged_restored m s₀ s₁ t₀ t₁,
  is_replaying-merged_token m s₀ s₁ (restored t₀) (restored t₁) (is_replaying-token_at _ _),
)
round_trip_keeps (global_sequence s) =
    (global_sequence s, round_trip-plain (global_sequence s) tt, refl, refl)
round_trip_keeps (gap_aware s key) =
    (gap_aware s key, round_trip-plain (gap_aware s key) tt, refl, refl)
round_trip_keeps latest = (global_sequence max_safe_integer, token_of-body_of latest, refl, refl)
