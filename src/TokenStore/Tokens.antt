-- ===== src/TokenStore/Tokens.antt =====
-- What the operations of the token store do to the tokens in it, claims aside.
use kronos_ts.Common.{
  ℕ, ◌≡◌, refl, ap, sym, ◌∙◌, subst, Bool, true, false, Option, none, some, ◌==◌, if◌then◌else◌,
  Bool-cases, Bool_eq_of_iff, Option-cases, ==_iff, inl, inr, if-holds,
}
use kronos_ts.Common.Text.{Text, text_eq, text_eq_iff}
use kronos_ts.Common.Map.{get, set, get-set, get-delete}
use kronos_ts.Outcome.{ok, ok-injective, ok-throws}
use kronos_ts.Token.{TrackingToken}
use kronos_ts.TokenStore.{
  TokenEntry, Entries, Claimed, key, owned_by, is_claim_expired, store, store_found, written,
  stored_token, token_of_entry, claim_token, claim_found, release_claim, delete_token,
}
use kronos_ts.TokenStore.Key.{key_injective}

-- The keys of one processor's segments differ as the segments do.
text_eq-key : (name : Text) (i j : ℕ) → text_eq (key name i) (key name j) ≡ (i == j)
text_eq-key name i j =
    Bool_eq_of_iff (text_eq (key name i) (key name j)) (i == j)
      (λ h.
        (==_iff i j).1
          (key_injective name name i j ((text_eq_iff (key name i) (key name j)).0 h)).1)
      (λ h. (text_eq_iff (key name i) (key name j)).1 (ap (key name) ((==_iff i j).0 h)))

stored-set :
    (name : Text) (i j : ℕ) (entry : TokenEntry) (entries : Entries)
    → stored_token name j (set (key name i) entry entries)
      ≡ (if i == j then entry.token else stored_token name j entries)
unfolding stored_token
stored-set name i j entry entries =
    rw (get-set (key name i) (key name j) entry entries, text_eq-key name i j) (push (i == j))
  where
    push :
        (b : Bool)
        → token_of_entry (if b then some entry else get (key name j) entries)
          ≡ (if b then entry.token else token_of_entry (get (key name j) entries))
    push true = refl
    push false = refl

-- An entry put where the same token was.
stored-same :
    (name : Text) (i j : ℕ) (entry : TokenEntry) (entries : Entries)
    → entry.token ≡ token_of_entry (get (key name i) entries)
    → stored_token name j (set (key name i) entry entries) ≡ stored_token name j entries
unfolding stored_token
stored-same name i j entry entries h =
    stored-set name i j entry entries ∙ elim (Bool-cases (i == j)) [
      | inl y ↦
          rw y (h ∙ ap (λ (k : ℕ). token_of_entry (get (key name k) entries)) ((==_iff i j).0 y))
      | inr y ↦ rw y refl
    ]

module _ (timeout now : ℕ) (name : Text) (i : ℕ) (owner : Text) (entries : Entries) where
  -- A claim that came about.
  abbrev IsClaim : Claimed → Type 0
  IsClaim (t, entries') =
      (t ≡ stored_token name i entries)
      × ((j : ℕ) → stored_token name j entries' ≡ stored_token name j entries)

  claim_found-IsClaim :
      (found : Option TokenEntry) (r : Claimed)
      → get (key name i) entries ≡ found
      → claim_found timeout now (key name i) owner found entries ≡ ok r
      → IsClaim r
  unfolding stored_token
  claim_found-IsClaim none r h ok_r = subst IsClaim (ok-injective ok_r) (
    ap token_of_entry (sym h),
    λ j.
        stored-same name i j (record { token = none; owner_id = some owner; claimed_at = now })
          entries (ap token_of_entry (sym h)),
  )
  claim_found-IsClaim (some entry) r h ok_r = elim (Bool-cases (owned_by (some entry) owner)) [
    | inl y ↦ subst IsClaim (ok-injective (rw y at ok_r)) (
      ap token_of_entry (sym h),
      λ j.
          stored-same name i j (record entry { claimed_at = now }) entries
            (ap token_of_entry (sym h)),
    )
    | inr y ↦ elim (Bool-cases (is_claim_expired timeout now entry)) [
      | inl z ↦ subst IsClaim (ok-injective (rw (y, z) at ok_r)) (
        ap token_of_entry (sym h),
        λ j.
            stored-same name i j (record entry { owner_id = some owner; claimed_at = now }) entries
              (ap token_of_entry (sym h)),
      )
      | inr z ↦ absurd (ok-throws (sym (rw (y, z) at ok_r)))
    ]
  ]

  -- A claim gives the stored token, and leaves every token as it was.
  pub claim_token-IsClaim :
      (t : Option TrackingToken) (entries' : Entries)
      → claim_token timeout now name i owner entries ≡ ok (t, entries')
      → (t ≡ stored_token name i entries)
        × ((j : ℕ) → stored_token name j entries' ≡ stored_token name j entries)
  unfolding claim_token
  claim_token-IsClaim t entries' h =
      claim_found-IsClaim (get (key name i) entries) (t, entries') refl h

-- A release leaves every token as it was.
pub stored-release_claim :
    (name : Text) (i j : ℕ) (owner : Text) (entries : Entries)
    → stored_token name j (release_claim name i owner entries) ≡ stored_token name j entries
unfolding release_claim
stored-release_claim name i j owner entries = elim (Option-cases (get (key name i) entries)) [
  | inl e ↦ rw e refl
  | inr (entry, e) ↦ rw e (
      if-holds (λ (r : Entries). stored_token name j r ≡ stored_token name j entries)
        (owned_by (some entry) owner) (λ y. released entry e) (λ y. refl))
]
  where
    released :
        (entry : TokenEntry)
        → get (key name i) entries ≡ some entry
        → stored_token name j
            (set (key name i) (record entry { owner_id = none; claimed_at = 0 }) entries)
          ≡ stored_token name j entries
    released entry e =
        stored-same name i j (record entry { owner_id = none; claimed_at = 0 }) entries
          (ap token_of_entry (sym e))

module _ (now : ℕ) (name : Text) (i : ℕ) (token : TrackingToken) (entries : Entries) where
  stored-written :
      (found : Option TokenEntry) (j : ℕ)
      → stored_token name j (written now (key name i) token found entries)
        ≡ (if i == j then some token else stored_token name j entries)
  stored-written none j = stored-set name i j _ entries
  stored-written (some entry) j = stored-set name i j _ entries

  stored-store_found :
      (owner : Option Text) (found : Option TokenEntry) (entries' : Entries) (j : ℕ)
      → store_found now (key name i) token owner found entries ≡ ok entries'
      → stored_token name j entries' ≡ (if i == j then some token else stored_token name j entries)
  stored-store_found none found entries' j h =
      ap (stored_token name j) (sym (ok-injective h)) ∙ stored-written found j
  stored-store_found (some owner) found entries' j h = elim (Bool-cases (owned_by found owner)) [
    | inl y ↦ ap (stored_token name j) (sym (ok-injective (rw y at h))) ∙ stored-written found j
    | inr y ↦ absurd (ok-throws (sym (rw y at h)))
  ]

  -- A store that went through put this token under this segment, and left the others.
  pub stored-store :
      (owner : Option Text) (entries' : Entries) (j : ℕ)
      → store now name i token owner entries ≡ ok entries'
      → stored_token name j entries' ≡ (if i == j then some token else stored_token name j entries)
  unfolding store
  stored-store owner entries' j h = stored-store_found owner (get (key name i) entries) entries' j h

pub stored-delete_token :
    (name : Text) (i j : ℕ) (entries : Entries)
    → stored_token name j (delete_token name i entries)
      ≡ (if i == j then none else stored_token name j entries)
unfolding stored_token delete_token
stored-delete_token name i j entries =
    rw (get-delete (key name i) (key name j) entries, text_eq-key name i j) (push (i == j))
  where
    push :
        (b : Bool)
        → token_of_entry (if b then none else get (key name j) entries)
          ≡ (if b then none else token_of_entry (get (key name j) entries))
    push true = refl
    push false = refl
