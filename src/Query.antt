-- ===== src/Query.antt =====
-- Event queries and what they compile to: packages/core/src/event-sourcing/dcb-query.ts, with the
-- matcher of packages/core/src/event-sourcing/in-memory.ts. A query that is no item and no array
-- is not a value of the source's type and is left out.
pub mod Matching
mod Tests
use kronos_ts.Common.{
  ℕ, Bool, true, false, ◌&&◌, ◌||◌, Option, none, some, List, [], ◌∷◌, map, any, all, if◌then◌else◌,
}
use kronos_ts.Common.Text.{Text, text_eq}
use kronos_ts.Common.Map.{Map}
use kronos_ts.Outcome.{Outcome, ok, throws, empty_query, ◌>>=◌, traverse}
use kronos_ts.Messages.{
  Tag, tags_from_record, QualifiedName, qualified_name_to_string, EventMessage,
}

-- An event descriptor (of which only the name is read), a qualified name or a text.
pub data TypeRef : Type 0 where
  descriptor : QualifiedName → TypeRef
  qualified : QualifiedName → TypeRef
  wire_name : Text → TypeRef

pub record QueryItem : Type 0 where
  pub tags : Option (Map Text)
  pub types : Option (List TypeRef)

pub data EventQuery : Type 0 where
  one : QueryItem → EventQuery
  several : List QueryItem → EventQuery

mutual
  pub data EventCriteria : Type 0 where
    tags : List Tag → EventCriteria
    type_restricted : EventCriteria → List Text → EventCriteria
    either : CriteriaList → EventCriteria
    any_tag : EventCriteria

  pub data CriteriaList : Type 0 where
    nil : CriteriaList
    cons : EventCriteria → CriteriaList → CriteriaList

unfoldable pub query_items : EventQuery → Outcome (List QueryItem)
query_items (one item) = ok (item ∷ [])
query_items (several []) = throws empty_query
query_items (several (item ∷ items)) = ok (item ∷ items)

unfoldable pub resolve_type_name : TypeRef → Text
resolve_type_name (wire_name t) = t
resolve_type_name (descriptor name) = qualified_name_to_string name
resolve_type_name (qualified name) = qualified_name_to_string name

-- `item.tags ?? {}`
abbrev pub tags_or_empty : Option (Map Text) → Map Text
tags_or_empty none = []
tags_or_empty (some r) = r

-- `!item.types || item.types.length === 0` leaves the tags alone.
abbrev pub restrict : EventCriteria → Option (List TypeRef) → EventCriteria
restrict inner none = inner
restrict inner (some []) = inner
restrict inner (some (t ∷ ts)) = type_restricted inner (map resolve_type_name (t ∷ ts))

unfoldable pub compile_item : QueryItem → Outcome EventCriteria
compile_item item = do
  ts ← tags_from_record (tags_or_empty item.tags)
  ok (restrict (tags ts) item.types)

abbrev pub criteria_list : List EventCriteria → CriteriaList
criteria_list [] = nil
criteria_list (c ∷ cs) = cons c (criteria_list cs)

abbrev pub compile_items : List QueryItem → Outcome EventCriteria
compile_items (item ∷ []) = compile_item item
compile_items items = do cs ← traverse compile_item items; ok (either (criteria_list cs))

unfoldable pub compile_query : EventQuery → Outcome EventCriteria
unfolding query_items
compile_query query = do items ← query_items query; compile_items items

-- `event.tags.length > 0`
abbrev has_tags : List Tag → Bool
has_tags [] = false
has_tags (t ∷ ts) = true

module _ {P : Type 0} where
  unfoldable pub matches_tags : EventMessage P → List Tag → Bool
  matches_tags event required =
      all (λ r. any (λ t. text_eq t.key r.key && text_eq t.value r.value) event.tags) required

  -- `criteria.types.includes(qualifiedNameToString(event.name))`
  unfoldable pub has_type : EventMessage P → List Text → Bool
  has_type event types = any (λ t. text_eq t (qualified_name_to_string event.name)) types

  unfoldable mutual
    unfolding matches_tags has_type

    pub matches_criteria : EventMessage P → EventCriteria → Bool
    matches_criteria event (tags required) = matches_tags event required
    matches_criteria event any_tag = has_tags event.tags
    matches_criteria event (type_restricted inner types) =
        matches_criteria event inner && has_type event types
    matches_criteria event (either criteria) = matches_either event criteria

    pub matches_either : EventMessage P → CriteriaList → Bool
    matches_either event nil = false
    matches_either event (cons c cs) = matches_criteria event c || matches_either event cs
