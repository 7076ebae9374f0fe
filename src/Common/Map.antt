-- ===== src/Common/Map.antt =====
-- A JavaScript `Map` with text keys: entries in insertion order, one for each key that was set.
use mathlib.Core.Path.{◌≡◌, refl}
use mathlib.Core.Bool.{Bool, true, false}
use mathlib.Core.Option.{Option, none, some}
use mathlib.Core.List.{List, [], ◌∷◌}
use native.Mathlib.Omega.{arith}
use kronos_ts.Common.Tests.{if◌then◌else◌}
use kronos_ts.Common.Text.{Text, text_eq, text_eq_iff, text_eq_refl}

abbrev pub is_some {ℓ} : {A : Type ℓ} → Option A → Bool
is_some none = false
is_some (some a) = true

abbrev pub Map {ℓ} : Type ℓ → Type ℓ
Map V = List (Text × V)

module _ {ℓ} {V : Type ℓ} where
  -- `m.get(k)`
  unfoldable pub get : Text → Map V → Option V
  get k [] = none
  get k ((j, v) ∷ m) = if text_eq j k then some v else get k m

  -- `m.set(k, v)`: in place where the key is there, else at the end.
  unfoldable pub set : Text → V → Map V → Map V
  set k v [] = (k, v) ∷ []
  set k v ((j, w) ∷ m) = if text_eq j k then (j, v) ∷ m else (j, w) ∷ set k v m

  -- `m.delete(k)`
  unfoldable pub delete : Text → Map V → Map V
  delete k [] = []
  delete k ((j, v) ∷ m) = let rest = delete k m in if text_eq j k then rest else (j, v) ∷ rest

  -- `m.has(k)`
  unfoldable pub has : Text → Map V → Bool
  has k m = is_some (get k m)

  pub has-eq : (k : Text) (m : Map V) → has k m ≡ is_some (get k m)
  unfolding has
  has-eq k m = refl

  pub get-nil : (k : Text) → get k [] ≡ none
  unfolding get
  get-nil k = refl

  pub get-set :
      (k j : Text) (v : V) (m : Map V)
      → get j (set k v m) ≡ (if text_eq k j then some v else get j m)
  unfolding get set
  get-set k j v [] = refl
  get-set k j v ((i, w) ∷ m) =
      ground (arith, text_eq_iff k j, text_eq_iff i k, text_eq_iff i j, get-set k j v m)

  pub get-set_self : (k : Text) (v : V) (m : Map V) → get k (set k v m) ≡ some v
  get-set_self k v m = rw (get-set k k v m, text_eq_refl k)

  pub get-delete :
      (k j : Text) (m : Map V) → get j (delete k m) ≡ (if text_eq k j then none else get j m)
  unfolding get delete
  get-delete k j [] = ground arith
  get-delete k j ((i, w) ∷ m) =
      ground (arith, text_eq_iff k j, text_eq_iff i k, text_eq_iff i j, get-delete k j m)

pub ruleset map_laws = (get-nil, get-set, get-delete)

-- `{ ...old, ...update }`
abbrev pub spread {ℓ} : {V : Type ℓ} → Map V → Map V → Map V
spread old [] = old
spread old ((k, v) ∷ more) = spread (set k v old) more
