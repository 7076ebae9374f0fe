-- ===== src/Query/Matching.antt =====
-- The DCB specification of a query: items are ORed; within one, all of the tags and any of the types.
use kronos_ts.Common.{
  Bool, true, ◌&&◌, ◌≡◌, ◌↔◌, inl, inr, sym, subst, Option, none, some, List, [], ◌∷◌, map, any,
  All, Any, any_iff, all_iff, &&_iff, ||_iff,
}
use mathlib.Core.Path.{subst₂}
use mathlib.Core.Bool.{false≢true}
use kronos_ts.Common.Text.{Text, text_eq, text_eq_iff}
use kronos_ts.Common.Map.{Map}
use kronos_ts.Outcome.{
  ok, traverse, Results, none_left, one_more, traverse-Results, >>=-eq-ok, ok-injective,
}
use kronos_ts.Messages.{Tag, tag, tags_from_record, qualified_name_to_string, EventMessage}
use kronos_ts.Query.{
  TypeRef, QueryItem, EventQuery, one, several, EventCriteria, tags, resolve_type_name,
  tags_or_empty, compile_item, compile_items, restrict, compile_query, criteria_list, query_items,
  matches_tags, has_type, matches_criteria, matches_either,
}

module _ {P : Type 0} (event : EventMessage P) where
  -- The event carries the tag.
  abbrev pub Carries : Text × Text → Type 0
  Carries entry = Any (λ t. (t.key ≡ entry.0) × (t.value ≡ entry.1)) event.tags

  abbrev pub HasSomeType : Option (List TypeRef) → Type 0
  HasSomeType none = Unit
  HasSomeType (some []) = Unit
  HasSomeType (some (t ∷ ts)) =
      Any (λ r. resolve_type_name r ≡ qualified_name_to_string event.name) (t ∷ ts)

  -- What the item asks for holds of the event.
  abbrev pub Fits : QueryItem → Type 0
  Fits item = All Carries (tags_or_empty item.tags) × HasSomeType item.types

abbrev pub items_of : EventQuery → List QueryItem
items_of (one item) = item ∷ []
items_of (several items) = items

module _ {P : Type 0} (event : EventMessage P) where
  abbrev carries : Tag → Bool
  carries r = any (λ t. text_eq t.key r.key && text_eq t.value r.value) event.tags

  carries_iff : (r : Tag) → (carries r ≡ true) ↔ Carries event (r.key, r.value)
  carries_iff r =
      any_iff _
        (λ t. (
          λ h. let (a, b) = (&&_iff _ _).0 h in ((text_eq_iff _ _).0 a, (text_eq_iff _ _).0 b),
          λ h. (&&_iff _ _).1 ((text_eq_iff _ _).1 h.0, (text_eq_iff _ _).1 h.1),
        ))
        event.tags

tag-fields : (k v : Text) (t : Tag) → tag k v ≡ ok t → (t.key ≡ k) × (t.value ≡ v)
unfolding tag
tag-fields [] v t h = cc
tag-fields (c ∷ k) [] t h = cc
tag-fields (c ∷ k) (d ∷ v) t h = (cc, cc)

-- What holds of the tags holds of the record's entries, and the other way round.
All-tags_from_record :
    (Q : Text × Text → Type 0) (r : Map Text) (ts : List Tag)
    → tags_from_record r ≡ ok ts
    → All (λ t. Q (t.key, t.value)) ts ↔ All Q r
unfolding tags_from_record
All-tags_from_record Q [] ts h =
    subst (λ ts. All (λ t. Q (t.key, t.value)) ts ↔ Unit) (ok-injective h) (λ x. x, λ x. x)
All-tags_from_record Q ((k, v) ∷ r) ts h =
    let (t, e, h₁) = >>=-eq-ok (tag k v) _ h in
    let (us, e', h₂) = >>=-eq-ok (tags_from_record r) _ h₁ in
    let (ek, ev) = tag-fields k v t e in
    let (to, from) = All-tags_from_record Q r us e' in
    subst (λ ts. All (λ t. Q (t.key, t.value)) ts ↔ (Q (k, v) × All Q r)) (ok-injective h₂)
      (
        λ x. (subst₂ (λ a b. Q (a, b)) ek ev x.0, to x.1),
        λ x. (subst₂ (λ a b. Q (a, b)) (sym ek) (sym ev) x.0, from x.1),
      )

module _ {P : Type 0} (event : EventMessage P) where
  matches_tags_iff :
      (r : Map Text) (ts : List Tag)
      → tags_from_record r ≡ ok ts
      → (matches_tags event ts ≡ true) ↔ All (Carries event) r
  unfolding matches_tags
  matches_tags_iff r ts h =
      let (a, b) = all_iff (carries event) (carries_iff event) ts in
      let (c, d) = All-tags_from_record (Carries event) r ts h in (λ x. c (a x), λ x. b (d x))

  has_type_iff :
      (refs : List TypeRef)
      → (has_type event (map resolve_type_name refs) ≡ true)
        ↔ Any (λ r. resolve_type_name r ≡ qualified_name_to_string event.name) refs
  unfolding has_type
  has_type_iff [] = (λ h. absurd (false≢true h), λ h. absurd h)
  has_type_iff (r ∷ refs) =
      let name = qualified_name_to_string event.name in
      let (to, from) = has_type_iff refs in
      (
        λ h. elim ((||_iff _ _).0 h) [
          | inl k ↦ inl ((text_eq_iff (resolve_type_name r) name).0 k)
          | inr k ↦ inr (to k)
        ],
        λ h. (||_iff _ _).1 (elim h [
          | inl k ↦ inl ((text_eq_iff (resolve_type_name r) name).1 k)
          | inr k ↦ inr (from k)
        ]),
      )

  restrict_iff :
      (ts : List Tag) (types : Option (List TypeRef))
      → (matches_criteria event (restrict (tags ts) types) ≡ true)
        ↔ ((matches_tags event ts ≡ true) × HasSomeType event types)
  unfolding matches_criteria
  restrict_iff ts none = (λ h. (h, tt), λ h. h.0)
  restrict_iff ts (some []) = (λ h. (h, tt), λ h. h.0)
  restrict_iff ts (some (t ∷ refs)) =
      let (to, from) = has_type_iff (t ∷ refs) in
      (λ h. let (a, b) = (&&_iff _ _).0 h in (a, to b), λ h. (&&_iff _ _).1 (h.0, from h.1))

  -- One item.
  pub matches-compile_item :
      (item : QueryItem) (c : EventCriteria)
      → compile_item item ≡ ok c
      → (matches_criteria event c ≡ true) ↔ Fits event item
  unfolding compile_item
  matches-compile_item item c h =
      let (ts, e, h₁) = >>=-eq-ok (tags_from_record (tags_or_empty item.tags)) _ h in
      let (a, b) = restrict_iff ts item.types in
      let (to, from) = matches_tags_iff (tags_or_empty item.tags) ts e in
      subst (λ c. (matches_criteria event c ≡ true) ↔ Fits event item) (ok-injective h₁)
        (λ x. let (p, q) = a x in (to p, q), λ x. b (from x.0, x.1))

  matches_either-items :
      {items : List QueryItem} {cs : List EventCriteria}
      → Results compile_item items cs
      → (matches_either event (criteria_list cs) ≡ true) ↔ Any (Fits event) items
  unfolding matches_either
  matches_either-items none_left = (λ h. absurd (false≢true h), λ h. absurd h)
  matches_either-items (one_more {x = item} {y = c} e rest) =
      let (to, from) = matches-compile_item item c e in
      let (to', from') = matches_either-items rest in
      (
        λ h. elim ((||_iff _ _).0 h) [ inl k ↦ inl (to k) | inr k ↦ inr (to' k) ],
        λ h. (||_iff _ _).1 (elim h [ inl k ↦ inl (from k) | inr k ↦ inr (from' k) ]),
      )

  compile_items_iff :
      (items : List QueryItem) (c : EventCriteria)
      → compile_items items ≡ ok c
      → (matches_criteria event c ≡ true) ↔ Any (Fits event) items
  unfolding matches_criteria
  compile_items_iff [] c h =
      subst (λ c. (matches_criteria event c ≡ true) ↔ ⊥) (ok-injective h)
        (matches_either-items none_left)
  compile_items_iff (item ∷ []) c h =
      let (to, from) = matches-compile_item item c h in
      (λ x. inl (to x), λ x. elim x [ inl k ↦ from k | inr k ↦ absurd k ])
  compile_items_iff (item ∷ item' ∷ items) c h =
      let (cs, e, h₁) = >>=-eq-ok (traverse compile_item (item ∷ item' ∷ items)) _ h in
      subst (λ c. (matches_criteria event c ≡ true) ↔ Any (Fits event) (item ∷ item' ∷ items))
        (ok-injective h₁)
        (matches_either-items (traverse-Results compile_item (item ∷ item' ∷ items) cs e))

query_items-items_of :
    (q : EventQuery) (items : List QueryItem) → query_items q ≡ ok items → items_of q ≡ items
unfolding query_items
query_items-items_of (one item) items h = ok-injective h
query_items-items_of (several []) items h = cc
query_items-items_of (several (i ∷ is)) items h = ok-injective h

-- Where a query compiles, an event matches what it compiles to exactly when it fits some item of the query: it carries
-- every tag of the item, and has one of the item's types if the item names any.
pub matches-compile_query :
    {P : Type 0} (event : EventMessage P) (q : EventQuery) (c : EventCriteria)
    → compile_query q ≡ ok c
    → (matches_criteria event c ≡ true) ↔ Any (Fits event) (items_of q)
unfolding compile_query
matches-compile_query event q c h =
    let (items, e, h₁) = >>=-eq-ok (query_items q) _ h in
    subst (λ items. (matches_criteria event c ≡ true) ↔ Any (Fits event) items)
      (sym (query_items-items_of q items e)) (compile_items_iff event items c h₁)
