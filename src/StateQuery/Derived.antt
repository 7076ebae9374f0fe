-- ===== src/StateQuery/Derived.antt =====
-- What the query that a state derives matches.
use kronos_ts.Common.{
  ℕ, suc, ◌≡◌, ◌≢◌, ◌↔◌, refl, sym, ap, subst, inl, inr, true, List, [], ◌∷◌, map, filter, Any, All,
}
use kronos_ts.Common.Text.{Text}
use kronos_ts.Common.Map.{Map}
use kronos_ts.Outcome.{ok, traverse, ◌>>=◌}
use kronos_ts.Messages.{EventMessage, qualified_name_to_string}
use kronos_ts.Query.{QueryItem}
use kronos_ts.Query.Matching.{items_of}
use kronos_ts.StateQuery.{
  Evolved, Fold, Candidate, includes, is_subset, keys_of, fold_or_throw, fold_of, candidates_from,
  types_of, items_from, kept, query_item, query_of, derive_granular_query,
}
use kronos_ts.StateQuery.Minimal.{In, Any-In, In-Any, All-from, is_subset_iff, HasKey, Holds}
use kronos_ts.StateQuery.Steps.{Any-mono, candidates_iff, types_iff}

module _ (tags : Map Text) where
  -- The state's keys that the event type declares, too.
  abbrev pub shared_keys : Evolved → List Text
  shared_keys evolved = filter (λ key. includes evolved.declared key) (keys_of tags)

  abbrev pub fold_for : Evolved → Fold
  fold_for evolved = record {
    type = qualified_name_to_string evolved.name;
    shared = shared_keys evolved;
  }

  fold_for-ok :
      (evolved : Evolved)
      → shared_keys evolved ≢ []
      → fold_of (keys_of tags) evolved ≡ ok (fold_for evolved)
  fold_for-ok evolved h = by_keys (shared_keys evolved) h
    where
      by_keys :
          (keys : List Text)
          → keys ≢ []
          → fold_or_throw (qualified_name_to_string evolved.name) keys
            ≡ ok (record { type = qualified_name_to_string evolved.name; shared = keys })
      by_keys [] h = absurd (h refl)
      by_keys (key ∷ keys) h = refl

  traverse-fold_of :
      (evolvers : List Evolved)
      → All (λ e. shared_keys e ≢ []) evolvers
      → traverse (fold_of (keys_of tags)) evolvers ≡ ok (map fold_for evolvers)
  traverse-fold_of [] h = refl
  traverse-fold_of (e ∷ evolvers) h = rw (fold_for-ok e h.0, traverse-fold_of evolvers h.1) refl

  abbrev pub items_for : List Evolved → List Candidate
  items_for evolvers =
      items_from (map fold_for evolvers) 0 (candidates_from [] (map fold_for evolvers))

  pub derive-ok :
      (evolved : Evolved) (evolvers : List Evolved)
      → All (λ e. shared_keys e ≢ []) (evolved ∷ evolvers)
      → derive_granular_query tags (evolved ∷ evolvers)
        ≡ ok (query_of (map (query_item tags) (kept (items_for (evolved ∷ evolvers)))))
  unfolding derive_granular_query
  derive-ok evolved evolvers h =
      ap
        (λ o. o >>= (λ folds. ok (
          query_of (map (query_item tags) (kept (items_from folds 0 (candidates_from [] folds)))))))
        (traverse-fold_of (evolved ∷ evolvers) h)

pub items_of-query_of : (items : List QueryItem) → items_of (query_of items) ≡ items
items_of-query_of [] = refl
items_of-query_of (item ∷ []) = refl
items_of-query_of (item ∷ item' ∷ items) = refl

-- The types of a candidate that some fold gives.
pub types_of-some :
    (folds : List Fold) (keys : List Text)
    → Any (λ f. f.shared ≡ keys) folds
    → Any (λ t. Unit {0}) (types_of folds keys)
types_of-some folds keys h =
    let (f, i, e) = Any-In (λ f. f.shared ≡ keys) folds h in
    In-Any (λ t. Unit {0}) f.type (types_of folds keys)
      ((types_iff f.type folds keys).1 (
        In-Any (λ g. (is_subset keys g.shared ≡ true) × (g.type ≡ f.type)) f folds i
          (
            (is_subset_iff keys f.shared).1
                (All-from (λ k. In k f.shared) keys (λ k j. subst (In k) (sym e) j)),
            refl,
          )))
      tt

-- What holds of a candidate with its types holds of its item.
pub All-items_from :
    (Q : List Text → List Text → Type 0) (folds : List Fold) (n : ℕ) (candidates : List (List Text))
    → All (λ keys. Q keys (types_of folds keys)) candidates
    → All (λ item. Q item.keys item.types) (items_from folds n candidates)
All-items_from Q folds n [] h = tt
All-items_from Q folds n (keys ∷ candidates) h =
    (h.0, All-items_from Q folds (suc n) candidates h.1)

pub Any-items_from :
    (Q : List Text → List Text → Type 0) (folds : List Fold) (n : ℕ) (candidates : List (List Text))
    → Any (λ item. Q item.keys item.types) (items_from folds n candidates)
      ↔ Any (λ keys. Q keys (types_of folds keys)) candidates
Any-items_from Q folds n [] = (λ h. h, λ h. h)
Any-items_from Q folds n (keys ∷ candidates) =
    let (to, from) = Any-items_from Q folds (suc n) candidates in
    (
      λ h. elim h [ inl k ↦ inl k | inr k ↦ inr (to k) ],
      λ h. elim h [ inl k ↦ inl k | inr k ↦ inr (from k) ],
    )

pub candidate-fold :
    (folds : List Fold) (keys : List Text)
    → In keys (candidates_from [] folds)
    → Any (λ f. f.shared ≡ keys) folds
candidate-fold folds keys i = elim ((candidates_iff keys [] folds).0 i) [
  | inl j ↦ absurd j
  | inr j ↦ j
]

module _ {P : Type 0} (event : EventMessage P) (tags : Map Text) where
  -- Some fold's shared tags are on the event, and the event's type is folded and declares them too.
  abbrev pub IsWanted : List Fold → Type 0
  IsWanted folds =
      Any
        (λ g.
          All (HasKey event tags) g.shared
          × Any
              (λ f.
                All (λ k. In k f.shared) g.shared × (f.type ≡ qualified_name_to_string event.name))
              folds)
        folds

  pub Holds-IsWanted :
      (folds : List Fold)
      → Any (Holds event tags) (items_from folds 0 (candidates_from [] folds)) ↔ IsWanted folds
  Holds-IsWanted folds =
      let name = qualified_name_to_string event.name in
      let (to, from) =
        Any-items_from (λ keys types. All (HasKey event tags) keys × In name types) folds 0
          (candidates_from [] folds) in
      (
        λ h.
            let (keys, i, (has, typed)) = Any-In _ (candidates_from [] folds) (to h) in
            Any-mono
              (λ g e. (
                subst (All (HasKey event tags)) (sym e) has,
                Any-mono
                    (λ f r. (
                      subst (All (λ k. In k f.shared)) (sym e)
                          ((is_subset_iff keys f.shared).0 r.0),
                      r.1,
                    ))
                    folds ((types_iff name folds keys).0 typed),
              ))
              folds (candidate-fold folds keys i),
        λ h.
            let (g, i, (has, typed)) = Any-In _ folds h in
            from (
              In-Any _ g.shared (candidates_from [] folds)
                ((candidates_iff g.shared [] folds).1
                  (inr (In-Any (λ f. f.shared ≡ g.shared) g folds i refl)))
                (
                  has,
                  (types_iff name folds g.shared).1 (
                      Any-mono (λ f r. ((is_subset_iff g.shared f.shared).1 r.0, r.1)) folds typed),
                )),
      )
