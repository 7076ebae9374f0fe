-- ===== src/Query/Tests.antt =====
-- The query theorem at a query of two items.
use kronos_ts.Common.{ℕ, ◌≡◌, ◌↔◌, refl, true, none, some, [], ◌∷◌, Any}
use kronos_ts.Common.Text.{str}
use kronos_ts.Outcome.{ok}
use kronos_ts.Messages.{EventMessage, tags_from_record, qualified_name_to_string}
use kronos_ts.Query.{
  EventQuery, several, wire_name, EventCriteria, tags, type_restricted, either, nil, cons,
  compile_query, compile_item, matches_criteria, resolve_type_name,
}
use kronos_ts.Query.Matching.{Fits, items_of, matches-compile_query}

abbrev added : EventMessage ℕ
added = record {
  identifier = str "e";
  name = record { namespace = str "shop"; name = str "Added" };
  payload = 5;
  metadata = [];
  version = str "1";
  timestamp = 0;
  tags = record { key = str "cart"; value = str "a" } ∷ [];
}

abbrev query : EventQuery
query = several (
    record { tags = some ((str "cart", str "b") ∷ []); types = none }
    ∷ record { tags = none; types = some (wire_name (str "shop.Added") ∷ []) }
    ∷ [])

abbrev criteria : EventCriteria
criteria = either (
    cons (tags (record { key = str "cart"; value = str "b" } ∷ []))
      (cons (type_restricted (tags []) (str "shop.Added" ∷ [])) nil))

compiled : compile_query query ≡ ok criteria
unfolding compile_query compile_item tags_from_record resolve_type_name
compiled = refl

matched : matches_criteria added criteria ≡ true
unfolding matches_criteria qualified_name_to_string
matched = refl

matches-compile_query_example :
    (matches_criteria added criteria ≡ true) ↔ Any (Fits added) (items_of query)
matches-compile_query_example = matches-compile_query added query criteria compiled
