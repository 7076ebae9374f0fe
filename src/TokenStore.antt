-- ===== src/TokenStore.antt =====
-- The in-memory token store: packages/core/src/event-processing/token-store.ts, the function
-- `inMemoryTokenStore`. The clock's reading is an argument of the operations that read it, and the
-- map of entries the state that each operation hands on.
pub mod Key
pub mod Lease
pub mod Takeover
pub mod Tokens
pub mod Owner
mod Tests
use kronos_ts.Common.{
  ℕ, zero, suc, ◌+◌, Bool, true, false, ◌&&◌, Option, none, some, List, [], ◌∷◌, ◌++◌,
  if◌then◌else◌, ltb, not,
}
use kronos_ts.Common.Text.{Text, text_eq, to_decimal}
use kronos_ts.Common.Map.{Map, get, set, delete, has}
use kronos_ts.Outcome.{Outcome, ok, throws, unable_to_claim_token}
use kronos_ts.Token.{TrackingToken}

pub record TokenEntry : Type 0 where
  pub token : Option TrackingToken
  pub owner_id : Option Text
  pub claimed_at : ℕ

abbrev pub Entries : Type 0
Entries = Map TokenEntry

-- `${processorName}:${segment}`; 58 is the colon.
unfoldable pub key : Text → ℕ → Text
key processor_name segment = processor_name ++ 58 ∷ to_decimal segment

-- `ownerId === owner`, where null and undefined differ from every text.
unfoldable pub owned_by : Option TokenEntry → Text → Bool
owned_by none owner = false
owned_by (some entry) owner = elim entry.owner_id [ none ↦ false | some o ↦ text_eq o owner ]

-- The function `isClaimExpired`; `!entry.ownerId` holds of null and of the empty text.
unfoldable pub is_claim_expired : ℕ → ℕ → TokenEntry → Bool
is_claim_expired timeout now entry = elim entry.owner_id [
  | none ↦ true
  | some o ↦ (if text_eq o [] then true else ltb (entry.claimed_at + timeout) now)
]

-- What an operation gives: a token where it returns one, and the entries.
abbrev pub Claimed : Type 0
Claimed = Option TrackingToken × Entries

-- The write of `store` at a key where this entry was found: the token and the time.
abbrev pub written : ℕ → Text → TrackingToken → Option TokenEntry → Entries → Entries
written now k token none entries =
    set k (record { token = some token; owner_id = none; claimed_at = now }) entries
written now k token (some entry) entries =
    set k (record entry { token = some token; claimed_at = now }) entries

-- `store` on the entry found; an owner makes it fenced.
abbrev pub store_found :
    ℕ → Text → TrackingToken → Option Text → Option TokenEntry → Entries → Outcome Entries
store_found now k token none found entries = ok (written now k token found entries)
store_found now k token (some owner) found entries =
    if owned_by found owner
    then ok (written now k token found entries)
    else throws unable_to_claim_token

unfoldable pub store : ℕ → Text → ℕ → TrackingToken → Option Text → Entries → Outcome Entries
store now name segment token owner entries =
    store_found now (key name segment) token owner (get (key name segment) entries) entries

abbrev pub token_of_entry : Option TokenEntry → Option TrackingToken
token_of_entry none = none
token_of_entry (some entry) = entry.token

-- `get`: an entry without a token and a missing entry both give undefined.
unfoldable pub stored_token : Text → ℕ → Entries → Option TrackingToken
stored_token name segment entries = token_of_entry (get (key name segment) entries)

-- The loop of `initializeSegments`, from segment i on, with this many to go.
unfoldable pub initialize_from : ℕ → Text → ℕ → Entries → Entries
initialize_from i name zero entries = entries
initialize_from i name (suc more) entries = initialize_from (suc i) name more (
    if has (key name i) entries
    then entries
    else set (key name i) (record { token = none; owner_id = none; claimed_at = 0 }) entries)

unfoldable pub initialize_segments : Text → ℕ → Entries → Entries
unfolding initialize_from
initialize_segments name segment_count entries = initialize_from 0 name segment_count entries

-- `claimToken` on the entry found.
abbrev pub claim_found : ℕ → ℕ → Text → Text → Option TokenEntry → Entries → Outcome Claimed
claim_found timeout now k owner none entries =
    ok (none, set k (record { token = none; owner_id = some owner; claimed_at = now }) entries)
claim_found timeout now k owner (some entry) entries =
    if owned_by (some entry) owner
    then ok (entry.token, set k (record entry { claimed_at = now }) entries)
    else (if is_claim_expired timeout now entry
        then ok
            (entry.token, set k (record entry { owner_id = some owner; claimed_at = now }) entries)
        else throws unable_to_claim_token)

unfoldable pub claim_token : ℕ → ℕ → Text → ℕ → Text → Entries → Outcome Claimed
claim_token timeout now name segment owner entries =
    claim_found timeout now (key name segment) owner (get (key name segment) entries) entries

abbrev pub extend_found : ℕ → Text → Text → Option TokenEntry → Entries → Entries
extend_found now k owner none entries = entries
extend_found now k owner (some entry) entries =
    if owned_by (some entry) owner
    then set k (record entry { claimed_at = now }) entries
    else entries

unfoldable pub extend_claim : ℕ → Text → ℕ → Text → Entries → Entries
extend_claim now name segment owner entries =
    extend_found now (key name segment) owner (get (key name segment) entries) entries

abbrev pub release_found : Text → Text → Option TokenEntry → Entries → Entries
release_found k owner none entries = entries
release_found k owner (some entry) entries =
    if owned_by (some entry) owner
    then set k (record entry { owner_id = none; claimed_at = 0 }) entries
    else entries

unfoldable pub release_claim : Text → ℕ → Text → Entries → Entries
release_claim name segment owner entries =
    release_found (key name segment) owner (get (key name segment) entries) entries

unfoldable pub delete_token : Text → ℕ → Entries → Entries
delete_token name segment entries = delete (key name segment) entries
