-- ===== src/TokenStore/Takeover.antt =====
-- A claim that has run out: the next owner goes on from the stored token, and the previous one is
-- fenced off.
use kronos_ts.Common.{
  ℕ, ◌+◌, ◌<◌, ◌≡◌, ◌≢◌, refl, ap, sym, ◌∙◌, true, Option, none, some, [], arith, Bool-cases,
  Option-cases, inl, inr,
}
use kronos_ts.Common.Text.{Text, text_eq}
use kronos_ts.Common.Map.{get, set, get-set_self}
use kronos_ts.Outcome.{ok, throws, unable_to_claim_token, ok-injective, ok-throws}
use kronos_ts.Token.{TrackingToken}
use kronos_ts.TokenStore.{
  TokenEntry, Entries, key, owned_by, is_claim_expired, store, store_found, written, stored_token,
  claim_token, claim_found, extend_claim, release_claim,
}
use kronos_ts.TokenStore.Lease.{IsHeld, owned_by-other, extend-held, release-held, save-held}

is_claim_expired-late :
    (timeout now : ℕ) (entry : TokenEntry)
    → entry.claimed_at + timeout < now
    → is_claim_expired timeout now entry ≡ true
unfolding is_claim_expired
is_claim_expired-late timeout now entry h = elim (Option-cases entry.owner_id) [
  | inl e ↦ rw e refl
  | inr (o, e) ↦ elim (Bool-cases (text_eq o [])) [
    | inl b ↦ rw (e, b) refl
    | inr b ↦ rw (e, b) (ground arith)
  ]
]

-- What an owner that has lost its claim finds: its store is refused, and it changes nothing.
pub record IsFenced (name : Text) (segment : ℕ) (owner : Text) (entries : Entries) : Type 0 where
  pub no_store :
      (now : ℕ) (token : TrackingToken)
      → store now name segment token (some owner) entries ≡ throws unable_to_claim_token
  pub no_extend : (now : ℕ) → extend_claim now name segment owner entries ≡ entries
  pub no_release : release_claim name segment owner entries ≡ entries

held-IsFenced :
    (name : Text) (segment : ℕ) (owner other : Text) (entry : TokenEntry) (entries : Entries)
    → get (key name segment) entries ≡ some entry
    → IsHeld entry other
    → other ≢ owner
    → IsFenced name segment owner entries
unfolding store extend_claim release_claim
held-IsFenced name segment owner other entry entries h held ne =
    let b = owned_by-other entry other owner held ne in
    record {
      no_store = λ now token. rw h (save-held now (key name segment) owner entries entry b token);
      no_extend = λ now. rw h (extend-held now (key name segment) owner entries entry b);
      no_release = rw h (release-held 0 (key name segment) owner entries entry b);
    }

-- Once more than the timeout has passed since an owner's claim was made or renewed, another owner
-- can claim the segment and gets the token that is stored there; on the entries that this claim
-- leaves, at any time, the first owner's fenced stores throw, and its extensions and releases
-- change nothing.
pub take_over :
    (timeout now : ℕ) (name : Text) (segment : ℕ) (owner other : Text) (entry : TokenEntry)
    (entries : Entries)
    → IsHeld entry owner
    → owner ≢ other
    → other ≢ []
    → entry.claimed_at + timeout < now
    → get (key name segment) entries ≡ some entry
    → (entries' : Entries) × (claim_token timeout now name segment other entries
        ≡ ok (entry.token, entries'))
      × IsFenced name segment owner entries'
unfolding claim_token
take_over timeout now name segment owner other entry entries held ne named late h = (
  set (key name segment) next entries,
  rw (h, owned_by-other entry owner other held ne, is_claim_expired-late timeout now entry late)
      refl,
  held-IsFenced name segment owner other next _ (get-set_self (key name segment) next entries)
      (record { holder = refl; named = named }) (λ e. ne (sym e)),
)
  where
    next : TokenEntry
    next = record entry { owner_id = some other; claimed_at = now }

-- The entry that a write leaves.
written-entry :
    (now : ℕ) (k : Text) (token : TrackingToken) (found : Option TokenEntry) (entries : Entries)
    → (entry : TokenEntry) × (get k (written now k token found entries) ≡ some entry)
      × (entry.token ≡ some token)
      × (entry.claimed_at ≡ now)
written-entry now k token none entries = (_, get-set_self k _ entries, refl, refl)
written-entry now k token (some entry) entries = (_, get-set_self k _ entries, refl, refl)

store_found-written :
    (now : ℕ) (k : Text) (token : TrackingToken) (owner : Option Text) (found : Option TokenEntry)
    (entries entries' : Entries)
    → store_found now k token owner found entries ≡ ok entries'
    → written now k token found entries ≡ entries'
store_found-written now k token none found entries entries' h = ok-injective h
store_found-written now k token (some o) found entries entries' h =
    elim (Bool-cases (owned_by found o)) [
      | inl b ↦ ok-injective (rw b at h)
      | inr b ↦ absurd (ok-throws (sym (rw b at h)))
    ]

claim_found-late :
    (timeout now : ℕ) (k other : Text) (entry : TokenEntry) (entries : Entries)
    → is_claim_expired timeout now entry ≡ true
    → (entries' : Entries) × (claim_found timeout now k other (some entry) entries
        ≡ ok (entry.token, entries'))
claim_found-late timeout now k other entry entries h =
    elim (Bool-cases (owned_by (some entry) other)) [
      | inl b ↦ rw b (_, refl)
      | inr b ↦ rw (b, h) (_, refl)
    ]

-- Where a store succeeds, the token can be read back, and whoever claims the segment when more than
-- the timeout has passed gets that token to go on from.
pub store_resumes :
    (timeout now later : ℕ) (name : Text) (segment : ℕ) (token : TrackingToken)
    (owner : Option Text) (other : Text) (entries entries' : Entries)
    → store now name segment token owner entries ≡ ok entries'
    → now + timeout < later
    → (stored_token name segment entries' ≡ some token)
      × ((claimed : Entries) × (claim_token timeout later name segment other entries'
            ≡ ok (some token, claimed)))
unfolding store claim_token stored_token
store_resumes timeout now later name segment token owner other entries entries' h late =
    let w = store_found-written now (key name segment) token owner _ entries entries' h in
    let (entry, found, holds, at_time) =
      written-entry now (key name segment) token (get (key name segment) entries) entries in
    let found' = ap (get (key name segment)) (sym w) ∙ found in
    let (claimed, result) =
      claim_found-late timeout later (key name segment) other entry entries'
        (is_claim_expired-late timeout later entry (omega (arith, at_time))) in
    (rw found' holds, (claimed, rw found' (result ∙ ap (λ t. ok (t, claimed)) holds)))
