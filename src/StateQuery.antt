-- ===== src/StateQuery.antt =====
-- The query of a state, which is derived from its tags and from what its evolvers fold:
-- packages/core/src/event-sourcing/state.ts.
pub mod Minimal
pub mod Steps
pub mod Derived
pub mod Matches
mod Tests
use kronos_ts.Common.{
  ℕ, zero, suc, ◌+◌, Bool, true, false, not, ◌&&◌, Option, none, some, List, [], ◌∷◌, ◌++◌, map,
  any, all, filter, length, ltb, if◌then◌else◌,
}
use kronos_ts.Common.Text.{Text, text_eq}
use kronos_ts.Common.Map.{Map, get}
use kronos_ts.Outcome.{Outcome, ok, throws, no_scope, no_shared_tag, traverse, ◌>>=◌}
use kronos_ts.Messages.{QualifiedName, qualified_name_to_string}
use kronos_ts.Query.{QueryItem, EventQuery, one, several, wire_name}

-- What an evolver folds: the name of the event type and the tag keys that its descriptor declares.
pub record Evolved : Type 0 where
  pub name : QualifiedName
  pub declared : List Text

pub record Fold : Type 0 where
  pub type : Text
  pub shared : List Text

-- A candidate tag set at its index, with the types of its item.
pub record Candidate : Type 0 where
  pub index : ℕ
  pub keys : List Text
  pub types : List Text

pub data StateTags : Type 0 where
  granular : Map Text → StateTags
  override : List (Map Text) → StateTags

abbrev pub includes : List Text → Text → Bool
includes keys key = any (λ k. text_eq k key) keys

abbrev pub same_keys : List Text → List Text → Bool
same_keys [] [] = true
same_keys (x ∷ xs) (y ∷ ys) = text_eq x y && same_keys xs ys
same_keys _ _ = false

abbrev pub is_subset : List Text → List Text → Bool
is_subset subset keys = all (includes keys) subset

-- `Object.keys(record)`
abbrev pub keys_of : Map Text → List Text
keys_of tags = map (λ entry. entry.0) tags

abbrev fold_or_throw : Text → List Text → Outcome Fold
fold_or_throw type [] = throws no_shared_tag
fold_or_throw type (key ∷ keys) = ok (record { type = type; shared = key ∷ keys })

-- One turn of step 1.
abbrev pub fold_of : List Text → Evolved → Outcome Fold
fold_of state_keys evolved =
    fold_or_throw (qualified_name_to_string evolved.name)
      (filter (λ key. includes evolved.declared key) state_keys)

-- Step 2.
abbrev pub candidates_from : List (List Text) → List Fold → List (List Text)
candidates_from candidates [] = candidates
candidates_from candidates (fold ∷ folds) =
    candidates_from
      (if any (λ c. same_keys c fold.shared) candidates
        then candidates
        else candidates ++ fold.shared ∷ [])
      folds

-- `[...new Set(types)]`, with the types seen before.
abbrev pub distinct : List Text → List Text → List Text
distinct seen [] = seen
distinct seen (type ∷ types) =
    distinct (if includes seen type then seen else seen ++ type ∷ []) types

abbrev pub types_of : List Fold → List Text → List Text
types_of folds keys = distinct [] (map (λ f. f.type) (filter (λ f. is_subset keys f.shared) folds))

-- Step 3, from an index on.
abbrev pub items_from : List Fold → ℕ → List (List Text) → List Candidate
items_from folds index [] = []
items_from folds index (keys ∷ candidates) =
    record { index = index; keys = keys; types = types_of folds keys }
    ∷ items_from folds (suc index) candidates

abbrev pub same_index : ℕ → ℕ → Bool
same_index zero zero = true
same_index (suc i) (suc j) = same_index i j
same_index _ _ = false

-- Whether the other item is broader and covers the item.
abbrev pub covered_by : Candidate → Candidate → Bool
covered_by item other =
    not (same_index item.index other.index)
    && ((ltb (length other.keys) (length item.keys) && is_subset other.keys item.keys)
        && all (includes other.types) item.types)

-- Step 4.
unfoldable pub kept : List Candidate → List Candidate
kept items = filter (λ item. not (any (covered_by item) items)) items

-- `record[key]!`
abbrev pub tag_value : Option Text → Text
tag_value none = []
tag_value (some value) = value

abbrev pub query_item : Map Text → Candidate → QueryItem
query_item tags item = record {
  tags = some (map (λ key. (key, tag_value (get key tags))) item.keys);
  types = some (map wire_name item.types);
}

-- `kept.length === 1 ? kept[0]! : kept`
abbrev pub query_of : List QueryItem → EventQuery
query_of (item ∷ []) = one item
query_of items = several items

abbrev no_evolvers : Map Text → Outcome EventQuery
no_evolvers [] = throws no_scope
no_evolvers (tag ∷ tags) = ok (one (record { tags = some (tag ∷ tags); types = none }))

unfoldable pub derive_granular_query : Map Text → List Evolved → Outcome EventQuery
derive_granular_query tags [] = no_evolvers tags
derive_granular_query tags (evolved ∷ evolvers) = do
  folds ← traverse (fold_of (keys_of tags)) (evolved ∷ evolvers)
  ok (query_of (map (query_item tags) (kept (items_from folds 0 (candidates_from [] folds)))))

unfoldable pub derive_query : StateTags → List Evolved → Outcome EventQuery
unfolding derive_granular_query
derive_query (granular tags) evolvers = derive_granular_query tags evolvers
derive_query (override scopes) evolvers = ok (
    several (
      map
        (λ tags. record {
          tags = some tags;
          types =
              some (map (λ (e : Evolved). wire_name (qualified_name_to_string e.name)) evolvers);
        })
        scopes))
