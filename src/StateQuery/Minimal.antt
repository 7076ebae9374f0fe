-- ===== src/StateQuery/Minimal.antt =====
-- Step 4 of the derivation drops items, and no event with them.
use kronos_ts.Common.{
  ℕ, zero, suc, ◌<◌, ◌≡◌, ◌↔◌, refl, sym, ap, subst, inl, inr, Bool, true, not, List, [], ◌∷◌, map,
  any, all, filter, length, ltb, arith, Any, All, All-mono, any_iff, all_iff, &&_iff, Bool-cases,
  if-holds,
}
use kronos_ts.Common.Text.{Text, text_eq, text_eq_iff}
use kronos_ts.Common.Map.{Map, get}
use kronos_ts.Messages.{EventMessage, qualified_name_to_string}
use kronos_ts.Query.{wire_name, resolve_type_name}
use kronos_ts.Query.Matching.{Fits, Carries}
use kronos_ts.StateQuery.{
  Candidate, covered_by, same_index, includes, is_subset, kept, query_item, tag_value,
}

-- The value is in the list.
abbrev pub In : {A : Type 0} → A → List A → Type 0
In x xs = Any (λ y. y ≡ x) xs

pub Any-In : {A : Type 0} (Q : A → Type 0) (xs : List A) → Any Q xs → (x : A) × In x xs × Q x
Any-In Q [] h = absurd h
Any-In Q (x ∷ xs) (inl h) = (x, inl refl, h)
Any-In Q (x ∷ xs) (inr h) = let (y, i, q) = Any-In Q xs h in (y, inr i, q)

pub In-Any : {A : Type 0} (Q : A → Type 0) (x : A) (xs : List A) → In x xs → Q x → Any Q xs
In-Any Q x [] i q = absurd i
In-Any Q x (y ∷ xs) (inl e) q = inl (subst Q (sym e) q)
In-Any Q x (y ∷ xs) (inr i) q = inr (In-Any Q x xs i q)

pub In-All : {A : Type 0} (Q : A → Type 0) (x : A) (xs : List A) → In x xs → All Q xs → Q x
In-All Q x [] i h = absurd i
In-All Q x (y ∷ xs) (inl e) h = subst Q e h.0
In-All Q x (y ∷ xs) (inr i) h = In-All Q x xs i h.1

pub All-from : {A : Type 0} (Q : A → Type 0) (xs : List A) → ((x : A) → In x xs → Q x) → All Q xs
All-from Q [] h = tt
All-from Q (x ∷ xs) h = (h x (inl refl), All-from Q xs (λ y i. h y (inr i)))

In-filter :
    {A : Type 0} (p : A → Bool) (x : A) (xs : List A) → In x xs → p x ≡ true → In x (filter p xs)
In-filter p x [] i h = absurd i
In-filter p x (y ∷ xs) (inl e) h = rw (ap p e, h) (inl e)
In-filter p x (y ∷ xs) (inr i) h =
    let rest = In-filter p x xs i h in if-holds (In x) (p y) (λ k. inr rest) (λ k. rest)

pub filter-In : {A : Type 0} (p : A → Bool) (x : A) (xs : List A) → In x (filter p xs) → In x xs
filter-In p x [] i = absurd i
filter-In p x (y ∷ xs) i = elim (Bool-cases (p y)) [
  | inl k ↦ elim (rw k at i) [ inl e ↦ inl e | inr j ↦ inr (filter-In p x xs j) ]
  | inr k ↦ inr (filter-In p x xs (rw k at i))
]

pub includes_iff : (keys : List Text) (key : Text) → (includes keys key ≡ true) ↔ In key keys
includes_iff keys key = any_iff (λ k. text_eq k key) (λ k. text_eq_iff k key) keys

pub is_subset_iff : (xs ys : List Text) → (is_subset xs ys ≡ true) ↔ All (λ x. In x ys) xs
is_subset_iff xs ys = all_iff (includes ys) (includes_iff ys) xs

covered-shorter :
    (item other : Candidate) → covered_by item other ≡ true → length other.keys < length item.keys
covered-shorter item other h =
    let (_, r) = (&&_iff (not (same_index item.index other.index)) _).0 h in
    let (broader, _) = (&&_iff _ (all (includes other.types) item.types)).0 r in
    let (shorter, _) =
      (&&_iff (ltb (length other.keys) (length item.keys)) (is_subset other.keys item.keys)).0
        broader in
    ground (arith, shorter)

-- What goes over to the covering item holds of a kept one, if it holds of any.
pub kept-Any :
    (Q : Candidate → Type 0)
    → ((item other : Candidate) → covered_by item other ≡ true → Q item → Q other)
    → (items : List Candidate) (n : ℕ) (item : Candidate) → In item items
    → length item.keys < n
    → Q item
    → Any Q (kept items)
unfolding kept
kept-Any Q over items zero item i le q = absurd (omega arith)
kept-Any Q over items (suc n) item i le q = elim (Bool-cases (any (covered_by item) items)) [
  | inl y ↦
      let (other, j, covered) =
        Any-In (λ o. covered_by item o ≡ true) items
          ((any_iff (covered_by item) (λ o. (λ h. h, λ h. h)) items).0 y) in
      kept-Any Q over items n other j (omega (arith, covered-shorter item other covered))
        (over item other covered q)
  | inr y ↦
      In-Any Q item _ (In-filter (λ o. not (any (covered_by o) items)) item items i (ap not y)) q
]

kept-In : (items : List Candidate) (item : Candidate) → In item (kept items) → In item items
unfolding kept
kept-In items item i = filter-In (λ o. not (any (covered_by o) items)) item items i

pub All-kept : (Q : Candidate → Type 0) (items : List Candidate) → All Q items → All Q (kept items)
All-kept Q items h =
    All-from Q (kept items) (λ item i. In-All Q item items (kept-In items item i) h)

abbrev pub HasTypes : Candidate → Type 0
HasTypes item = Any (λ t. Unit {0}) item.types

module _ {P : Type 0} (event : EventMessage P) (tags : Map Text) where
  -- The event carries the state's tag of the key.
  abbrev pub HasKey : Text → Type 0
  HasKey key = Carries event (key, tag_value (get key tags))

  abbrev pub Holds : Candidate → Type 0
  Holds item = All HasKey item.keys × In (qualified_name_to_string event.name) item.types

  covered-Holds : (item other : Candidate) → covered_by item other ≡ true → Holds item → Holds other
  covered-Holds item other h holds =
      let (_, r) = (&&_iff (not (same_index item.index other.index)) _).0 h in
      let (broader, covers) = (&&_iff _ (all (includes other.types) item.types)).0 r in
      let (_, subset) =
        (&&_iff (ltb (length other.keys) (length item.keys)) (is_subset other.keys item.keys)).0
          broader in
      (
        All-mono (λ key i. In-All HasKey key item.keys i holds.0) other.keys
            ((is_subset_iff other.keys item.keys).0 subset),
        In-All (λ t. In t other.types) (qualified_name_to_string event.name) item.types holds.1
            ((is_subset_iff item.types other.types).0 covers),
      )

  -- Leaving out covered items leaves what holds of some item.
  pub kept_iff : (items : List Candidate) → Any Holds (kept items) ↔ Any Holds items
  kept_iff items = (
    λ h.
        let (item, i, holds) = Any-In Holds (kept items) h in
        In-Any Holds item items (kept-In items item i) holds,
    λ h.
        let (item, i, holds) = Any-In Holds items h in
        kept-Any Holds covered-Holds items (suc (length item.keys)) item i (omega arith) holds,
  )

  HasKey-iff :
      (keys : List Text)
      → All (Carries event) (map (λ key. (key, tag_value (get key tags))) keys) ↔ All HasKey keys
  HasKey-iff [] = (λ h. h, λ h. h)
  HasKey-iff (key ∷ keys) =
      let (to, from) = HasKey-iff keys in (λ h. (h.0, to h.1), λ h. (h.0, from h.1))

  wire_name_iff :
      (t : Text) (types : List Text)
      → Any (λ r. resolve_type_name r ≡ t) (map wire_name types) ↔ In t types
  unfolding resolve_type_name
  wire_name_iff t [] = (λ h. h, λ h. h)
  wire_name_iff t (type ∷ types) =
      let (to, from) = wire_name_iff t types in
      (
        λ h. elim h [ inl e ↦ inl e | inr j ↦ inr (to j) ],
        λ h. elim h [ inl e ↦ inl e | inr j ↦ inr (from j) ],
      )

  -- What an item of the query asks for.
  query_item_iff :
      (item : Candidate) → HasTypes item → Fits event (query_item tags item) ↔ Holds item
  query_item_iff item some_type = by_types item.types some_type
    where
      by_types :
          (types : List Text)
          → Any (λ t. Unit {0}) types
          → Fits event (query_item tags (record item { types = types }))
            ↔ Holds (record item { types = types })
      by_types [] h = absurd h
      by_types (t ∷ types) h =
          let (to, from) = HasKey-iff item.keys in
          let (to', from') = wire_name_iff (qualified_name_to_string event.name) (t ∷ types) in
          (λ x. (to x.0, to' x.1), λ x. (from x.0, from' x.1))

  -- And what the whole query asks for.
  pub query_items_iff :
      (items : List Candidate)
      → All HasTypes items
      → Any (Fits event) (map (query_item tags) items) ↔ Any Holds items
  query_items_iff [] h = (λ x. x, λ x. x)
  query_items_iff (item ∷ items) h =
      let (to, from) = query_item_iff item h.0 in
      let (to', from') = query_items_iff items h.1 in
      (
        λ x. elim x [ inl e ↦ inl (to e) | inr j ↦ inr (to' j) ],
        λ x. elim x [ inl e ↦ inl (from e) | inr j ↦ inr (from' j) ],
      )
