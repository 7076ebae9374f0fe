-- ===== src/StateQuery/Tests.antt =====
-- The derivation at a state of two streams, a course and a student.
use kronos_ts.Common.{◌≡◌, ◌≢◌, ◌↔◌, refl, true, some, List, [], ◌∷◌, map}
use kronos_ts.Common.Text.{Text, str}
use kronos_ts.Common.Map.{Map, get}
use kronos_ts.Outcome.{ok, throws, no_shared_tag, no_scope}
use kronos_ts.Messages.{EventMessage, qualified_name_to_string}
use kronos_ts.Query.{
  EventQuery, one, several, wire_name, compile_query, EventCriteria, matches_criteria,
}
use kronos_ts.StateQuery.{Evolved, granular, override, derive_granular_query, derive_query, kept}
use kronos_ts.StateQuery.Derived.{fold_for, IsWanted}
use kronos_ts.StateQuery.Matches.{derived_matches}

abbrev both_tags : Map Text
both_tags = (str "course", str "c") ∷ (str "student", str "s") ∷ []

abbrev evolved_of : Text → List Text → Evolved
evolved_of name declared = record {
  name = record { namespace = str "n"; name = name };
  declared = declared;
}

abbrev course : Evolved
course = evolved_of (str "Course") (str "course" ∷ [])

abbrev subscribed : Evolved
subscribed = evolved_of (str "Subscribed") (str "student" ∷ str "course" ∷ [])

abbrev enrolled : Evolved
enrolled = evolved_of (str "Enrolled") (str "student" ∷ [])

-- The subscription rides on both items, and the item of both keys is left out.
two_items :
    derive_query (granular both_tags) (course ∷ subscribed ∷ enrolled ∷ [])
    ≡ ok (
        several (
          record {
            tags = some ((str "course", str "c") ∷ []);
            types = some (wire_name (str "n.Course") ∷ wire_name (str "n.Subscribed") ∷ []);
          }
          ∷ record {
            tags = some ((str "student", str "s") ∷ []);
            types = some (wire_name (str "n.Subscribed") ∷ wire_name (str "n.Enrolled") ∷ []);
          }
          ∷ []))
unfolding derive_query derive_granular_query kept get qualified_name_to_string
two_items = refl

-- Alone, the subscription keeps both keys.
one_item :
    derive_query (granular both_tags) (subscribed ∷ [])
    ≡ ok
        (one (record { tags = some both_tags; types = some (wire_name (str "n.Subscribed") ∷ []) }))
unfolding derive_query derive_granular_query kept get qualified_name_to_string
one_item = refl

unshared :
    derive_query (granular both_tags) (course ∷ evolved_of (str "Other") [] ∷ [])
    ≡ throws no_shared_tag
unfolding derive_query derive_granular_query
unshared = refl

unscoped : derive_query (granular []) [] ≡ throws no_scope
unfolding derive_query derive_granular_query
unscoped = refl

overridden :
    derive_query (override (both_tags ∷ [])) (course ∷ [])
    ≡ ok (
        several
          (record { tags = some both_tags; types = some (wire_name (str "n.Course") ∷ []) } ∷ []))
unfolding derive_query qualified_name_to_string
overridden = refl

cons-nil : {A : Type 0} {x : A} {xs : List A} → x ∷ xs ≢ []
cons-nil {x} {xs} = λ h. ends h
  where
    ends : x ∷ xs ≡ [] → ⊥
    ends h = cc

derived_matches_example :
    (q : EventQuery) × (c : EventCriteria) × (derive_granular_query both_tags
        (course ∷ subscribed ∷ enrolled ∷ [])
      ≡ ok q)
    × (compile_query q ≡ ok c)
    × ((P : Type 0) (event : EventMessage P)
        → (matches_criteria event c ≡ true)
          ↔ IsWanted event both_tags
              (map (fold_for both_tags) (course ∷ subscribed ∷ enrolled ∷ [])))
derived_matches_example =
    derived_matches both_tags course (subscribed ∷ enrolled ∷ [])
      (cons-nil, (cons-nil, (cons-nil, tt))) ((cons-nil, cons-nil), ((cons-nil, cons-nil), tt))
