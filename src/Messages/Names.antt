-- ===== src/Messages/Names.antt =====
-- Qualified names as texts: packages/core/src/messaging/messages.ts.
use kronos_ts.Common.{
  ℕ, ◌≡◌, refl, ap, ◌∙◌, Bool, false, Option, none, some, [], ◌∷◌, ◌++◌, ◌==◌, if◌then◌else◌, any,
  arith, append_assoc,
}
use kronos_ts.Common.Text.{Text, str}
use kronos_ts.Messages.{QualifiedName, qualified_name_to_string}

unfoldable pub qn : Text → Text → QualifiedName
qn namespace name = record { namespace = namespace; name = name }

-- 46 is the dot.
abbrev pub split_before : ℕ → Option (Text × Text) → Text → Option (Text × Text)
split_before c (some (front, back)) rest = some (c ∷ front, back)
split_before c none rest = if c == 46 then some ([], rest) else none

-- The text before the last dot and the one behind it: `lastIndexOf(".")` with the two slices.
abbrev pub at_last_dot : Text → Option (Text × Text)
at_last_dot [] = none
at_last_dot (c ∷ rest) = split_before c (at_last_dot rest) rest

abbrev name_of_parts : Text → Option (Text × Text) → QualifiedName
name_of_parts fqn none = qn [] fqn
name_of_parts fqn (some (front, back)) = qn front back

unfoldable pub qualified_name_from_string : Text → QualifiedName
qualified_name_from_string fqn = name_of_parts fqn (at_last_dot fqn)

abbrev pub has_dot : Text → Bool
has_dot = any (λ c. c == 46)

no_last_dot : (s : Text) → has_dot s ≡ false → at_last_dot s ≡ none
no_last_dot [] h = refl
no_last_dot (c ∷ s) h = ground (arith, no_last_dot s)

last_dot :
    (front back : Text)
    → has_dot back ≡ false
    → at_last_dot (front ++ 46 ∷ back) ≡ some (front, back)
last_dot [] back h = rw (no_last_dot back h) refl
last_dot (c ∷ front) back h = rw (last_dot front back h) refl

-- A name without a dot in its local part is read back from its text as it was, also where the
-- namespace has dots.
pub from_string-to_string :
    (q : QualifiedName)
    → has_dot q.name ≡ false
    → qualified_name_from_string (qualified_name_to_string q) ≡ q
unfolding qualified_name_from_string qualified_name_to_string qn
from_string-to_string q h =
    ap qualified_name_from_string (append_assoc q.namespace (str ".") q.name)
    ∙ ap (name_of_parts (q.namespace ++ 46 ∷ q.name)) (last_dot q.namespace q.name h)
