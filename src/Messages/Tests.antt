-- ===== src/Messages/Tests.antt =====
-- The theorems on names and metadata at small values.
use kronos_ts.Common.{ℕ, ◌≡◌, refl, [], ◌∷◌}
use kronos_ts.Common.Text.{str}
use kronos_ts.Common.Map.{Map}
use kronos_ts.Messages.{QualifiedName, qualified_name_to_string}
use kronos_ts.Messages.Names.{qualified_name_from_string, from_string-to_string}

abbrev order_placed : QualifiedName
order_placed = record { namespace = str "shop.orders"; name = str "Placed" }

from_string-to_string_example :
    qualified_name_from_string (qualified_name_to_string order_placed) ≡ order_placed
from_string-to_string_example = from_string-to_string order_placed refl

abbrev metadata : Map ℕ
metadata = (str "traceId", 7) ∷ (str "userId", 3) ∷ []
