-- ===== src/StateQuery/Matches.antt =====
-- The derivation comes to a query that compiles, and what that matches.
use kronos_ts.Common.{
  suc, ◌≡◌, ◌≢◌, ◌↔◌, refl, sym, ap, ◌∙◌, subst, inl, inr, true, false, List, [], ◌∷◌, map, length,
  Any, All, All-mono, arith, Bool-cases,
}
use kronos_ts.Common.Text.{Text, text_eq, text_eq_iff}
use kronos_ts.Common.Map.{Map, get}
use kronos_ts.Outcome.{ok, traverse, ◌>>=◌}
use kronos_ts.Messages.{EventMessage, Tag, tag, tags_from_record}
use kronos_ts.Query.{
  QueryItem, EventQuery, EventCriteria, tags, compile_query, compile_item, query_items, restrict,
  tags_or_empty, criteria_list, either, matches_criteria,
}
use kronos_ts.Query.Matching.{Fits, matches-compile_query}
use kronos_ts.StateQuery.{
  Evolved, Fold, Candidate, includes, keys_of, candidates_from, types_of, kept, query_item,
  query_of, tag_value, derive_granular_query,
}
use kronos_ts.StateQuery.Minimal.{
  In, Any-In, In-Any, In-All, All-from, All-kept, filter-In, kept-Any, HasTypes, kept_iff,
  query_items_iff,
}
use kronos_ts.StateQuery.Steps.{candidates_iff}
use kronos_ts.StateQuery.Derived.{
  shared_keys, fold_for, items_for, derive-ok, items_of-query_of, types_of-some, All-items_from,
  Any-items_from, candidate-fold, IsWanted, Holds-IsWanted,
}

-- A tag that `tag` takes.
abbrev pub IsNamed : Text × Text → Type 0
IsNamed entry = (entry.0 ≢ []) × (entry.1 ≢ [])

tag-ok : (k v : Text) → IsNamed (k, v) → (t : Tag) × (tag k v ≡ ok t)
unfolding tag
tag-ok [] v h = absurd (h.0 refl)
tag-ok (c ∷ k) [] h = absurd (h.1 refl)
tag-ok (c ∷ k) (d ∷ v) h = (_, refl)

tags_from_record-ok :
    (r : Map Text) → All IsNamed r → (ts : List Tag) × (tags_from_record r ≡ ok ts)
unfolding tags_from_record
tags_from_record-ok [] h = ([], refl)
tags_from_record-ok ((k, v) ∷ r) h =
    let (t, e) = tag-ok k v h.0 in
    let (ts, e') = tags_from_record-ok r h.1 in (t ∷ ts, rw (e, e') refl)

abbrev IsWritable : QueryItem → Type 0
IsWritable item = All IsNamed (tags_or_empty item.tags)

compile_item-ok :
    (item : QueryItem) → IsWritable item → (c : EventCriteria) × (compile_item item ≡ ok c)
unfolding compile_item
compile_item-ok item h =
    let (ts, e) = tags_from_record-ok (tags_or_empty item.tags) h in
    (restrict (tags ts) item.types, ap (λ o. o >>= (λ ts. ok (restrict (tags ts) item.types))) e)

traverse-compile_item :
    (items : List QueryItem)
    → All IsWritable items
    → (cs : List EventCriteria) × (traverse compile_item items ≡ ok cs)
traverse-compile_item [] h = ([], refl)
traverse-compile_item (item ∷ items) h =
    let (c, e) = compile_item-ok item h.0 in
    let (cs, e') = traverse-compile_item items h.1 in (c ∷ cs, rw (e, e') refl)

compile_query-ok :
    (items : List QueryItem)
    → Any (λ i. Unit {0}) items
    → All IsWritable items
    → (c : EventCriteria) × (compile_query (query_of items) ≡ ok c)
unfolding compile_query query_items
compile_query-ok [] some_item h = absurd some_item
compile_query-ok (item ∷ []) some_item h = compile_item-ok item h.0
compile_query-ok (item ∷ item' ∷ items) some_item h =
    let (cs, e) = traverse-compile_item (item ∷ item' ∷ items) h in
    (
      either (criteria_list cs),
      ap (λ o. o >>= (λ (cs : List EventCriteria). ok (either (criteria_list cs)))) e,
    )

get-IsNamed :
    (key : Text) (scope : Map Text)
    → All IsNamed scope
    → In key (keys_of scope)
    → IsNamed (key, tag_value (get key scope))
unfolding get
get-IsNamed key [] h i = absurd i
get-IsNamed key ((k, v) ∷ scope) h i = elim (Bool-cases (text_eq k key)) [
  | inl y ↦ rw y (subst (λ k. k ≢ []) ((text_eq_iff k key).0 y) h.0.0, h.0.1)
  | inr n ↦ elim i [
    | inl e ↦ absurd (false_true (sym n ∙ (text_eq_iff k key).1 e))
    | inr j ↦ rw n (get-IsNamed key scope h.1 j)
  ]
]
  where
    false_true : false ≡ true → ⊥
    false_true h = cc

All-map :
    {A B : Type 0} (Q : B → Type 0) (f : A → B) (xs : List A)
    → All (λ x. Q (f x)) xs
    → All Q (map f xs)
All-map Q f [] h = tt
All-map Q f (x ∷ xs) h = (h.0, All-map Q f xs h.1)

Any-map-Unit :
    (scope : Map Text) (items : List Candidate)
    → Any (λ i. Unit {0}) items
    → Any (λ i. Unit {0}) (map (query_item scope) items)
Any-map-Unit scope [] h = absurd h
Any-map-Unit scope (item ∷ items) h = inl tt

module _ (scope : Map Text) (evolved : Evolved) (evolvers : List Evolved) where
  abbrev folds : List Fold
  folds = map (fold_for scope) (evolved ∷ evolvers)

  -- A sound candidate: some type, and only keys of the state.
  abbrev IsItem : List Text → List Text → Type 0
  IsItem keys types = Any (λ t. Unit {0}) types × All (λ k. In k (keys_of scope)) keys

  folds-keys : All (λ (f : Fold). All (λ k. In k (keys_of scope)) f.shared) folds
  folds-keys =
      All-map (λ (f : Fold). All (λ k. In k (keys_of scope)) f.shared) (fold_for scope)
        (evolved ∷ evolvers)
        (All-from _ (evolved ∷ evolvers) (λ e i.
          All-from (λ k. In k (keys_of scope)) (shared_keys scope e)
            (λ k. filter-In (λ key. includes e.declared key) k (keys_of scope))))

  items-IsItem : All (λ item. IsItem item.keys item.types) (items_for scope (evolved ∷ evolvers))
  items-IsItem = All-items_from IsItem folds 0 (candidates_from [] folds) (
      All-from (λ keys. IsItem keys (types_of folds keys)) (candidates_from [] folds)
        (λ keys i.
          let h = candidate-fold folds keys i in
          let (f, j, e) = Any-In (λ f. f.shared ≡ keys) folds h in
          (
            types_of-some folds keys h,
            subst (All (λ k. In k (keys_of scope))) e (
                In-All (λ (f : Fold). All (λ k. In k (keys_of scope)) f.shared) f folds j
                  folds-keys),
          )))

  items-HasTypes : All HasTypes (items_for scope (evolved ∷ evolvers))
  items-HasTypes = All-mono (λ item h. h.0) (items_for scope (evolved ∷ evolvers)) items-IsItem

  items-IsWritable :
      All IsNamed scope
      → All (λ item. IsWritable (query_item scope item)) (items_for scope (evolved ∷ evolvers))
  items-IsWritable named =
      All-mono
        (λ item h.
          All-map IsNamed (λ key. (key, tag_value (get key scope))) item.keys
            (All-mono (λ key i. get-IsNamed key scope named i) item.keys h.1))
        (items_for scope (evolved ∷ evolvers)) items-IsItem

  some_kept : Any (λ item. Unit {0}) (kept (items_for scope (evolved ∷ evolvers)))
  some_kept =
      let items = items_for scope (evolved ∷ evolvers) in
      let i = (candidates_iff (shared_keys scope evolved) [] folds).1 (inr (inl refl)) in
      let h =
        (Any-items_from (λ keys types. Unit {0}) folds 0 (candidates_from [] folds)).1
          (In-Any (λ keys. Unit {0}) (shared_keys scope evolved) (candidates_from [] folds) i tt) in
      let (item, j, _) = Any-In (λ item. Unit {0}) items h in
      kept-Any (λ item. Unit {0}) (λ item other c u. tt) items (suc (length item.keys)) item j
        (omega arith) tt

  -- Where every evolver's event type declares one of the state's tag keys, and no key or value of the
  -- state's tags is empty, the derivation comes to a query, the query compiles, and an event matches
  -- it exactly if the event's type is folded and the event carries a tag set in full that some folded
  -- type shares with the state and that its own type declares, too.
  pub derived_matches :
      All (λ e. shared_keys scope e ≢ []) (evolved ∷ evolvers)
      → All IsNamed scope
      → (q : EventQuery) × (c : EventCriteria) × (derive_granular_query scope (evolved ∷ evolvers)
          ≡ ok q)
        × (compile_query q ≡ ok c)
        × ((P : Type 0) (event : EventMessage P)
            → (matches_criteria event c ≡ true)
              ↔ IsWanted event scope (map (fold_for scope) (evolved ∷ evolvers)))
  derived_matches shares named =
      let items = kept (items_for scope (evolved ∷ evolvers)) in
      let (c, compiled) =
        compile_query-ok (map (query_item scope) items) (Any-map-Unit scope items some_kept) (
          All-map IsWritable (query_item scope) items (
            All-kept (λ item. IsWritable (query_item scope item))
              (items_for scope (evolved ∷ evolvers)) (items-IsWritable named))) in
      (
        query_of (map (query_item scope) items),
        c,
        derive-ok scope evolved evolvers shares,
        compiled,
        λ P event.
            let (m, m') = matches-compile_query event _ c compiled in
            let (f, f') =
              query_items_iff event scope items
                (All-kept HasTypes (items_for scope (evolved ∷ evolvers)) items-HasTypes) in
            let (k, k') = kept_iff event scope (items_for scope (evolved ∷ evolvers)) in
            let (w, w') = Holds-IsWanted event scope folds in
            let same = items_of-query_of (map (query_item scope) items) in
            (
              λ h. w (k (f (subst (Any (Fits event)) same (m h)))),
              λ h. m' (subst (Any (Fits event)) (sym same) (f' (k' (w' h)))),
            ),
      )
