-- ===== src/TokenStore/Owner.antt =====
-- Who owns an entry of the token store: a claim gives it to its owner, and no write of the owner is
-- refused.
use kronos_ts.Common.{
  ℕ, ◌≡◌, refl, sym, ◌∙◌, subst, Bool-cases, true, false, Option, none, some, inl, inr, if-holds,
}
use kronos_ts.Common.Text.{Text, text_eq, text_eq_refl}
use kronos_ts.Common.Map.{get, set, get-set}
use kronos_ts.Outcome.{ok, ok-injective, ok-throws}
use kronos_ts.Token.{TrackingToken}
use kronos_ts.TokenStore.{
  TokenEntry, Entries, Claimed, key, owned_by, is_claim_expired, claim_found, claim_token,
  store_found, store,
}

module _ (name owner : Text) where
  -- The owner has the segment.
  abbrev pub IsOwned : Entries → ℕ → Type 0
  IsOwned entries j = owned_by (get (key name j) entries) owner ≡ true

  -- An entry of the owner is put in place, wherever it is.
  set-IsOwned :
      (i j : ℕ) (entry : TokenEntry) (entries : Entries)
      → owned_by (some entry) owner ≡ true
      → IsOwned entries j
      → IsOwned (set (key name i) entry entries) j
  set-IsOwned i j entry entries h k =
      subst (λ o. owned_by o owner ≡ true) (sym (get-set (key name i) (key name j) entry entries))
        (if-holds (λ o. owned_by o owner ≡ true) (text_eq (key name i) (key name j)) (λ y. h)
          (λ y. k))

  set_here-IsOwned :
      (i : ℕ) (entry : TokenEntry) (entries : Entries)
      → owned_by (some entry) owner ≡ true
      → IsOwned (set (key name i) entry entries) i
  set_here-IsOwned i entry entries h =
      subst (λ o. owned_by o owner ≡ true) (sym (get-set (key name i) (key name i) entry entries))
        (if-holds (λ o. owned_by o owner ≡ true) (text_eq (key name i) (key name i)) (λ y. h)
          (λ y. absurd (true_false (sym (text_eq_refl (key name i)) ∙ y))))
    where
      true_false : true ≡ false → ⊥
      true_false h = cc

  -- After an operation on the segment i, which the owner has then.
  abbrev pub Keeps : ℕ → Entries → Entries → Type 0
  Keeps i entries entries' = IsOwned entries' i × ((j : ℕ) → IsOwned entries j → IsOwned entries' j)

  set-Keeps :
      (i : ℕ) (entry : TokenEntry) (entries : Entries)
      → owned_by (some entry) owner ≡ true
      → Keeps i entries (set (key name i) entry entries)
  set-Keeps i entry entries h =
      (set_here-IsOwned i entry entries h, λ j k. set-IsOwned i j entry entries h k)

  owned_by-new :
      (token : Option TrackingToken) (now : ℕ)
      → owned_by (some (record { token = token; owner_id = some owner; claimed_at = now })) owner
        ≡ true
  unfolding owned_by
  owned_by-new token now = text_eq_refl owner

  owned_by-same :
      (entry : TokenEntry) (token : Option TrackingToken) (now : ℕ)
      → owned_by (some entry) owner ≡ true
      → owned_by (some (record entry { token = token; claimed_at = now })) owner ≡ true
  unfolding owned_by
  owned_by-same entry token now h = h

  claim_found-Keeps :
      (timeout now i : ℕ) (entries : Entries) (found : Option TokenEntry) (r : Claimed)
      → claim_found timeout now (key name i) owner found entries ≡ ok r
      → Keeps i entries r.1
  claim_found-Keeps timeout now i entries none r h =
      subst (λ (r : Claimed). Keeps i entries r.1) (ok-injective h)
        (set-Keeps i _ entries (owned_by-new none now))
  claim_found-Keeps timeout now i entries (some entry) r h =
      elim (Bool-cases (owned_by (some entry) owner)) [
        | inl y ↦
            subst (λ (r : Claimed). Keeps i entries r.1) (ok-injective (rw y at h))
              (set-Keeps i _ entries (owned_by-same entry entry.token now y))
        | inr y ↦ elim (Bool-cases (is_claim_expired timeout now entry)) [
          | inl z ↦
              subst (λ (r : Claimed). Keeps i entries r.1) (ok-injective (rw (y, z) at h))
                (set-Keeps i _ entries (owned_by-new entry.token now))
          | inr z ↦ absurd (ok-throws (sym (rw (y, z) at h)))
        ]
      ]

  pub claim_token-Keeps :
      (timeout now i : ℕ) (entries : Entries) (r : Claimed)
      → claim_token timeout now name i owner entries ≡ ok r
      → Keeps i entries r.1
  unfolding claim_token
  claim_token-Keeps timeout now i entries r h =
      claim_found-Keeps timeout now i entries (get (key name i) entries) r h

  store_found-Keeps :
      (now i : ℕ) (token : TrackingToken) (entries : Entries) (found : Option TokenEntry)
      → owned_by found owner ≡ true
      → (w : Entries) × (store_found now (key name i) token (some owner) found entries ≡ ok w)
        × Keeps i entries w
  unfolding owned_by
  store_found-Keeps now i token entries none h = cc
  store_found-Keeps now i token entries (some entry) h = (
    set (key name i) (record entry { token = some token; claimed_at = now }) entries,
    rw h refl,
    set-Keeps i _ entries (owned_by-same entry (some token) now h),
  )

  -- A store of the owner goes through, and keeps what the owner has.
  pub store-Keeps :
      (now i : ℕ) (token : TrackingToken) (entries : Entries)
      → IsOwned entries i
      → (w : Entries) × (store now name i token (some owner) entries ≡ ok w) × Keeps i entries w
  unfolding store
  store-Keeps now i token entries h =
      store_found-Keeps now i token entries (get (key name i) entries) h
