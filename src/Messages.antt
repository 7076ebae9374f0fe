-- ===== src/Messages.antt =====
-- The declaration vocabulary that the logs read: packages/core/src/messaging/messages.ts and
-- packages/core/src/messaging/tag.ts. `P` is the type of values that the framework does not look at.
pub mod Names
pub mod Metadata
mod Tests
use kronos_ts.Common.{ℕ, Bool, ◌&&◌, List, [], ◌∷◌, ◌++◌}
use kronos_ts.Common.Text.{Text, text_eq, str}
use kronos_ts.Common.Map.{Map}
use kronos_ts.Outcome.{Outcome, ok, throws, empty_tag_key, empty_tag_value, ◌>>=◌}

pub record Tag : Type 0 where
  pub key : Text
  pub value : Text

-- The function `tag`: an empty text is falsy.
unfoldable pub tag : Text → Text → Outcome Tag
tag [] value = throws empty_tag_key
tag (c ∷ key) [] = throws empty_tag_value
tag (c ∷ key) (d ∷ value) = ok (record { key = c ∷ key; value = d ∷ value })

-- `Object.entries(record).map(([key, value]) => tag(key, value))`
unfoldable pub tags_from_record : Map Text → Outcome (List Tag)
unfolding tag
tags_from_record [] = ok []
tags_from_record ((key, value) ∷ entries) = do
  t ← tag key value
  ts ← tags_from_record entries
  ok (t ∷ ts)

pub record QualifiedName : Type 0 where
  pub namespace : Text
  pub name : Text

unfoldable pub qualified_name_to_string : QualifiedName → Text
qualified_name_to_string qn = qn.namespace ++ str "." ++ qn.name

unfoldable pub qualified_names_equal : QualifiedName → QualifiedName → Bool
qualified_names_equal a b = text_eq a.namespace b.namespace && text_eq a.name b.name

pub record EventMessage (P : Type 0) : Type 0 where
  pub identifier : Text
  pub name : QualifiedName
  pub payload : P
  pub metadata : Map P
  pub version : Text
  pub timestamp : ℕ
  pub tags : List Tag
