-- ===== src/TokenStore/Lease.antt =====
-- What a claim on a segment is worth while it lasts, and what follows it.
use kronos_ts.Common.{
  ℕ, zero, suc, ◌+◌, ◌≤◌, ◌≡◌, ◌≢◌, refl, ap, ◌∙◌, true, false, Option, none, some, List, [], ◌∷◌,
  All, arith, Bool-cases, inl, inr, if◌then◌else◌, ◌⊎◌,
}
use kronos_ts.Common.Text.{Text, text_eq, text_eq_iff}
use kronos_ts.Common.Map.{get, set, has, has-eq, is_some, get-set}
use kronos_ts.Outcome.{Outcome, ok, throws, unable_to_claim_token}
use kronos_ts.Token.{TrackingToken}
use kronos_ts.TokenStore.{
  TokenEntry, Entries, Claimed, key, owned_by, is_claim_expired, store, initialize_from,
  store_found, claim_found, extend_found, release_found, initialize_segments, claim_token,
  extend_claim, release_claim,
}

-- What a node does to the store; a processor's writes are fenced by its identifier.
pub data Op : Type 0 where
  claim extend release : Text → ℕ → Text → Op
  save : Text → ℕ → TrackingToken → Text → Op
  prepare : Text → ℕ → Op

abbrev pub settled_claim : Entries → Outcome Claimed → Entries
settled_claim entries (ok r) = r.1
settled_claim entries (throws e) = entries

abbrev pub settled : Entries → Outcome Entries → Entries
settled entries (ok r) = r
settled entries (throws e) = entries

-- The entries after an operation; one that throws leaves them.
abbrev pub perform : ℕ → ℕ → Op → Entries → Entries
perform timeout now (claim name segment owner) entries =
    settled_claim entries (claim_token timeout now name segment owner entries)
perform timeout now (extend name segment owner) entries =
    extend_claim now name segment owner entries
perform timeout now (release name segment owner) entries = release_claim name segment owner entries
perform timeout now (save name segment token owner) entries =
    settled entries (store now name segment token (some owner) entries)
perform timeout now (prepare name segment_count) entries =
    initialize_segments name segment_count entries

abbrev pub perform_all : ℕ → List (ℕ × Op) → Entries → Entries
perform_all timeout [] entries = entries
perform_all timeout ((now, op) ∷ ops) entries =
    perform_all timeout ops (perform timeout now op entries)

-- The operation is not one of this owner's.
abbrev pub IsByAnother : Text → Op → Type 0
IsByAnother owner (claim name segment o) = owner ≢ o
IsByAnother owner (extend name segment o) = owner ≢ o
IsByAnother owner (release name segment o) = owner ≢ o
IsByAnother owner (save name segment token o) = owner ≢ o
IsByAnother owner (prepare name segment_count) = Unit

-- The segment's entry is claimed by this owner.
pub record IsHeld (entry : TokenEntry) (owner : Text) : Type 0 where
  pub holder : entry.owner_id ≡ some owner
  pub named : owner ≢ []

pub text_eq-false : (s t : Text) → s ≢ t → text_eq s t ≡ false
text_eq-false s t h = elim (Bool-cases (text_eq s t)) [
  | inl e ↦ absurd (h ((text_eq_iff s t).0 e))
  | inr e ↦ e
]

pub owned_by-other :
    (entry : TokenEntry) (owner other : Text)
    → IsHeld entry owner
    → owner ≢ other
    → owned_by (some entry) other ≡ false
unfolding owned_by
owned_by-other entry owner other h ne = rw h.holder (text_eq-false owner other ne)

is_claim_expired-held :
    (timeout now : ℕ) (entry : TokenEntry) (owner : Text)
    → IsHeld entry owner
    → now ≤ entry.claimed_at + timeout
    → is_claim_expired timeout now entry ≡ false
unfolding is_claim_expired
is_claim_expired-held timeout now entry owner h le =
    rw (h.holder, text_eq-false owner [] h.named) (ground arith)

-- Writing at another key leaves the entry.
get-set_other :
    (k j : Text) (e : TokenEntry) (m : Entries) → text_eq j k ≡ false → get k (set j e m) ≡ get k m
get-set_other k j e m h = rw (get-set j k e m, h) refl

-- An operation touches no entry but the one at its key.
module _ (now : ℕ) (j k other : Text) (entries : Entries) (h : text_eq j k ≡ false) where
  claim-apart :
      (timeout : ℕ) (found : Option TokenEntry)
      → get k (settled_claim entries (claim_found timeout now j other found entries))
        ≡ get k entries
  claim-apart timeout none = get-set_other k j _ entries h
  claim-apart timeout (some entry) = elim (Bool-cases (owned_by (some entry) other)) [
    | inl b ↦ rw b (get-set_other k j _ entries h)
    | inr b ↦ elim (Bool-cases (is_claim_expired timeout now entry)) [
      | inl c ↦ rw (b, c) (get-set_other k j _ entries h)
      | inr c ↦ rw (b, c) refl
    ]
  ]

  extend-apart :
      (found : Option TokenEntry) → get k (extend_found now j other found entries) ≡ get k entries
  extend-apart none = refl
  extend-apart (some entry) = elim (Bool-cases (owned_by (some entry) other)) [
    | inl b ↦ rw b (get-set_other k j _ entries h)
    | inr b ↦ rw b refl
  ]

  release-apart :
      (found : Option TokenEntry) → get k (release_found j other found entries) ≡ get k entries
  release-apart none = refl
  release-apart (some entry) = elim (Bool-cases (owned_by (some entry) other)) [
    | inl b ↦ rw b (get-set_other k j _ entries h)
    | inr b ↦ rw b refl
  ]

  save-apart :
      (token : TrackingToken) (found : Option TokenEntry)
      → get k (settled entries (store_found now j token (some other) found entries)) ≡ get k entries
  unfolding owned_by
  save-apart token none = refl
  save-apart token (some entry) = elim (Bool-cases (owned_by (some entry) other)) [
    | inl b ↦ rw b (get-set_other k j _ entries h)
    | inr b ↦ rw b refl
  ]

-- The claim of another owner protects the entry that an operation finds.
module _ (now : ℕ) (k other : Text) (entries : Entries) (entry : TokenEntry)
    (b : owned_by (some entry) other ≡ false) where
  claim-held :
      (timeout : ℕ)
      → is_claim_expired timeout now entry ≡ false
      → claim_found timeout now k other (some entry) entries ≡ throws unable_to_claim_token
  claim-held timeout c = rw (b, c) refl

  pub extend-held : extend_found now k other (some entry) entries ≡ entries
  extend-held = rw b refl

  pub release-held : release_found k other (some entry) entries ≡ entries
  release-held = rw b refl

  pub save-held :
      (token : TrackingToken)
      → store_found now k token (some other) (some entry) entries ≡ throws unable_to_claim_token
  save-held token = rw b refl

-- `initializeSegments` leaves an entry that is there.
initialize_from-keeps :
    (more i : ℕ) (name k : Text) (entry : TokenEntry) (entries : Entries)
    → get k entries ≡ some entry
    → get k (initialize_from i name more entries) ≡ some entry
unfolding initialize_from
initialize_from-keeps zero i name k entry entries h = h
initialize_from-keeps (suc more) i name k entry entries h =
    initialize_from-keeps more (suc i) name k entry _ (step (Bool-cases (text_eq (key name i) k)))
  where
    step :
        (text_eq (key name i) k ≡ true) ⊎ (text_eq (key name i) k ≡ false)
        → get k (
            if has (key name i) entries
            then entries
            else set
                (key name i)
                (record { token = none; owner_id = none; claimed_at = 0 })
                entries)
          ≡ some entry
    step (inl e) = rw ((text_eq_iff (key name i) k).0 e, has-eq k entries ∙ ap is_some h) h
    step (inr e) = elim (Bool-cases (has (key name i) entries)) [
      | inl d ↦ rw d h
      | inr d ↦ rw d (get-set_other k (key name i) _ entries e ∙ h)
    ]

-- An operation of another owner within the lease leaves the entry as it is.
perform-keeps :
    (timeout now : ℕ) (op : Op) (k owner : Text) (entry : TokenEntry) (entries : Entries)
    → IsHeld entry owner
    → IsByAnother owner op
    → now ≤ entry.claimed_at + timeout
    → get k entries ≡ some entry
    → get k (perform timeout now op entries) ≡ some entry
unfolding claim_token extend_claim release_claim store initialize_segments
perform-keeps timeout now (claim name segment o) k owner entry entries held ne le h =
    elim (Bool-cases (text_eq (key name segment) k)) [
      | inl e ↦
          rw
            (
              (text_eq_iff (key name segment) k).0 e,
              h,
              claim-held now k o entries entry (owned_by-other entry owner o held ne) timeout
                  (is_claim_expired-held timeout now entry owner held le),
            )
            h
      | inr e ↦
          claim-apart now (key name segment) k o entries e timeout (get (key name segment) entries)
          ∙ h
    ]
perform-keeps timeout now (extend name segment o) k owner entry entries held ne le h =
    elim (Bool-cases (text_eq (key name segment) k)) [
      | inl e ↦
          rw
            (
              (text_eq_iff (key name segment) k).0 e,
              h,
              extend-held now k o entries entry (owned_by-other entry owner o held ne),
            )
            h
      | inr e ↦
          extend-apart now (key name segment) k o entries e (get (key name segment) entries) ∙ h
    ]
perform-keeps timeout now (release name segment o) k owner entry entries held ne le h =
    elim (Bool-cases (text_eq (key name segment) k)) [
      | inl e ↦
          rw
            (
              (text_eq_iff (key name segment) k).0 e,
              h,
              release-held now k o entries entry (owned_by-other entry owner o held ne),
            )
            h
      | inr e ↦
          release-apart now (key name segment) k o entries e (get (key name segment) entries) ∙ h
    ]
perform-keeps timeout now (save name segment token o) k owner entry entries held ne le h =
    elim (Bool-cases (text_eq (key name segment) k)) [
      | inl e ↦
          rw
            (
              (text_eq_iff (key name segment) k).0 e,
              h,
              save-held now k o entries entry (owned_by-other entry owner o held ne) token,
            )
            h
      | inr e ↦
          save-apart now (key name segment) k o entries e token (get (key name segment) entries) ∙ h
    ]
perform-keeps timeout now (prepare name segment_count) k owner entry entries held ne le h =
    initialize_from-keeps segment_count 0 name k entry entries h

-- Within the lease: the time is not past the entry's claim by more than the timeout.
abbrev pub IsForeign : ℕ → TokenEntry → Text → ℕ × Op → Type 0
IsForeign timeout entry owner (now, op) = IsByAnother owner op × (now ≤ entry.claimed_at + timeout)

-- Whatever claims, extensions, releases, fenced stores and preparations other owners attempt, in any
-- order, while no more than the timeout has passed since the claim was made or renewed, the entry of
-- the owner stays as it is: its token, its owner and its time.
pub lease_protects :
    (timeout : ℕ) (ops : List (ℕ × Op)) (name : Text) (segment : ℕ) (owner : Text)
    (entry : TokenEntry) (entries : Entries)
    → IsHeld entry owner
    → All (IsForeign timeout entry owner) ops
    → get (key name segment) entries ≡ some entry
    → get (key name segment) (perform_all timeout ops entries) ≡ some entry
lease_protects timeout [] name segment owner entry entries held foreign h = h
lease_protects timeout ((now, op) ∷ ops) name segment owner entry entries held foreign h =
    lease_protects timeout ops name segment owner entry (perform timeout now op entries) held
      foreign.1
      (perform-keeps timeout now op (key name segment) owner entry entries held foreign.0.0
        foreign.0.1 h)
