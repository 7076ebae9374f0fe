-- ===== src/DeadLetterQueue/Oldest.antt =====
-- Which lane a drain picks.
use kronos_ts.Common.{
  ℕ, ◌≤◌, ◌≡◌, refl, subst, Bool, true, false, ◌&&◌, Option, none, some, List, [], ◌∷◌, ◌++◌, All,
  All-append, All-mono, Any, arith, Bool-cases, inl, inr, ◌⊎◌, if◌then◌else◌, append_assoc,
  append-nil,
}
use kronos_ts.Common.Text.{Text}
use kronos_ts.Common.Map.{Map}
use kronos_ts.DeadLetterQueue.{DeadLetter}
use kronos_ts.DeadLetterQueue.Process.{find_oldest, is_candidate, is_older, first_touched}

Any-left : {A : Type 0} (P : A → Type 0) (xs ys : List A) → Any P xs → Any P (xs ++ ys)
Any-left P [] ys h = absurd h
Any-left P (x ∷ xs) ys (inl p) = inl p
Any-left P (x ∷ xs) ys (inr h) = inr (Any-left P xs ys h)

Any-last : {A : Type 0} (P : A → Type 0) (xs : List A) (y : A) → P y → Any P (xs ++ y ∷ [])
Any-last P [] y p = inl p
Any-last P (x ∷ xs) y p = inr (Any-last P xs y p)

module _ {M C V : Type 0} (group : Text) (taken : List Text)
    (accepts : Text → DeadLetter M C V → Bool) where
  abbrev pub IsCandidate : Text × List (DeadLetter M C V) → Type 0
  IsCandidate e = is_candidate group taken accepts e.0 e.1 ≡ true

  -- The lane is there, a candidate, and was touched at this time.
  abbrev pub IsLane : Text → ℕ → Text × List (DeadLetter M C V) → Type 0
  IsLane id time e = (e.0 ≡ id) × (first_touched e.1 ≡ time) × IsCandidate e

  -- No candidate, or one whose head was touched at this time or later.
  abbrev pub IsNoOlder : ℕ → Text × List (DeadLetter M C V) → Type 0
  IsNoOlder time e = (is_candidate group taken accepts e.0 e.1 ≡ false) ⊎ (time ≤ first_touched e.1)

  -- What the search says of the lanes it has seen.
  abbrev pub IsOldestOf : Option (Text × ℕ) → Map (List (DeadLetter M C V)) → Type 0
  IsOldestOf none seen = All (λ e. is_candidate group taken accepts e.0 e.1 ≡ false) seen
  IsOldestOf (some (id, time)) seen = Any (IsLane id time) seen × All (IsNoOlder time) seen

  passed :
      (o : Option (Text × ℕ)) (e : Text × List (DeadLetter M C V))
      (seen : Map (List (DeadLetter M C V)))
      → is_candidate group taken accepts e.0 e.1 ≡ false
      → IsOldestOf o seen
      → IsOldestOf o (seen ++ e ∷ [])
  passed none e seen c h =
      All-append (λ e. is_candidate group taken accepts e.0 e.1 ≡ false) seen (e ∷ []) h (c, tt)
  passed (some (id, time)) e seen c (there, least) = (
    Any-left (IsLane id time) seen (e ∷ []) there,
    All-append (IsNoOlder time) seen (e ∷ []) least (inl c, tt),
  )

  newer :
      (id : Text) (time : ℕ) (e : Text × List (DeadLetter M C V))
      (seen : Map (List (DeadLetter M C V)))
      → time ≤ first_touched e.1
      → IsOldestOf (some (id, time)) seen
      → IsOldestOf (some (id, time)) (seen ++ e ∷ [])
  newer id time e seen le (there, least) = (
    Any-left (IsLane id time) seen (e ∷ []) there,
    All-append (IsNoOlder time) seen (e ∷ []) least (inr le, tt),
  )

  replaced :
      (o : Option (Text × ℕ)) (e : Text × List (DeadLetter M C V))
      (seen : Map (List (DeadLetter M C V)))
      → IsCandidate e
      → is_older (first_touched e.1) o ≡ true
      → IsOldestOf o seen
      → IsOldestOf (some (e.0, first_touched e.1)) (seen ++ e ∷ [])
  replaced o e seen c old h = (
    Any-last (IsLane e.0 (first_touched e.1)) seen e (refl, refl, c),
    All-append (IsNoOlder (first_touched e.1)) seen (e ∷ []) (earlier o old h)
        (inr (omega arith), tt),
  )
    where
      earlier :
          (o : Option (Text × ℕ))
          → is_older (first_touched e.1) o ≡ true
          → IsOldestOf o seen
          → All (IsNoOlder (first_touched e.1)) seen
      earlier none old h =
          All-mono {Q = IsNoOlder (first_touched e.1)}
            (λ x (d : is_candidate group taken accepts x.0 x.1 ≡ false). inl d) seen h
      earlier (some (id, time)) old (there, least) =
          All-mono {Q = IsNoOlder (first_touched e.1)}
            (λ x (f : IsNoOlder time x). elim f [ inl d ↦ inl d | inr le ↦ inr (below x le) ]) seen
            least
        where
          below :
              (x : Text × List (DeadLetter M C V))
              → time ≤ first_touched x.1
              → first_touched e.1 ≤ first_touched x.1
          below x le = ground arith

  -- The lane that the search holds after this one.
  abbrev next_oldest : Option (Text × ℕ) → Text × List (DeadLetter M C V) → Option (Text × ℕ)
  next_oldest o e =
      if is_candidate group taken accepts e.0 e.1 && is_older (first_touched e.1) o
      then some (e.0, first_touched e.1)
      else o

  step :
      (o : Option (Text × ℕ)) (e : Text × List (DeadLetter M C V))
      (seen : Map (List (DeadLetter M C V)))
      → IsOldestOf o seen
      → IsOldestOf (next_oldest o e) (seen ++ e ∷ [])
  step o e seen h = elim (Bool-cases (is_candidate group taken accepts e.0 e.1)) [
    | inr c ↦ rw c (passed o e seen c h)
    | inl c ↦ elim (Bool-cases (is_older (first_touched e.1) o)) [
      | inl b ↦ rw (c, b) (replaced o e seen c b h)
      | inr b ↦ rw (c, b) (later o b h)
    ]
  ]
    where
      later :
          (o : Option (Text × ℕ))
          → is_older (first_touched e.1) o ≡ false
          → IsOldestOf o seen
          → IsOldestOf o (seen ++ e ∷ [])
      later none b h = cc
      later (some (id, time)) b h = newer id time e seen (ground arith) h

  search_on :
      (o : Option (Text × ℕ)) (seen m : Map (List (DeadLetter M C V)))
      → IsOldestOf o seen
      → IsOldestOf (find_oldest group taken accepts o m) (seen ++ m)
  unfolding find_oldest
  search_on o seen [] h = rw (append-nil seen) h
  search_on o seen (e ∷ m) h =
      subst (IsOldestOf (find_oldest group taken accepts o (e ∷ m))) (append_assoc seen (e ∷ []) m)
        (search_on (next_oldest o e) (seen ++ e ∷ []) m (step o e seen h))

  -- The lane that the search picks is there, is not taken, is not empty, is accepted, and has a head
  -- that was touched no later than the head of any other such lane; it picks none only where no lane
  -- is like that.
  pub find_oldest_lem :
      (m : Map (List (DeadLetter M C V))) → IsOldestOf (find_oldest group taken accepts none m) m
  find_oldest_lem m = search_on none [] m tt
