-- ===== src/Messages/Metadata.antt =====
-- Message metadata: packages/core/src/messaging/messages.ts. A record is a map without a key twice.
use kronos_ts.Common.{
  ◌≡◌, refl, sym, ◌∙◌, Bool, true, false, ◌&&◌, Option, none, some, List, [], ◌∷◌, if◌then◌else◌,
  any, arith, Bool-cases, inl, inr,
}
use kronos_ts.Common.Text.{Text, text_eq, text_eq_iff}
use kronos_ts.Common.Map.{Map, get, set, delete, has, spread, is_some, get-set, get-delete}

module _ {V : Type 0} where
  abbrev pub empty_metadata : Map V
  empty_metadata = []

  unfoldable pub metadata_with : Text → V → Map V
  metadata_with key value = set key value []

  unfoldable pub merge_metadata : Map V → Map V → Map V
  merge_metadata base override = spread base override

  unfoldable pub metadata_and : Map V → Text → V → Map V
  metadata_and metadata key value = set key value metadata

  -- The supplier is called only where the key is missing; `supplied` is what it gives.
  unfoldable pub metadata_and_if_not_present : Map V → Text → V → Map V
  metadata_and_if_not_present metadata key supplied =
      if has key metadata then metadata else set key supplied metadata

  unfoldable pub metadata_without_keys : Map V → List Text → Map V
  metadata_without_keys metadata [] = metadata
  metadata_without_keys metadata (key ∷ keys) = metadata_without_keys (delete key metadata) keys

  abbrev pub copy_found : Text → Option V → Map V → Map V
  copy_found key none result = result
  copy_found key (some value) result = set key value result

  -- The loop of `metadataSubset`, on the result so far.
  unfoldable pub subset_from : Map V → Map V → List Text → Map V
  subset_from result metadata [] = result
  subset_from result metadata (key ∷ keys) =
      subset_from (copy_found key (get key metadata) result) metadata keys

  unfoldable pub metadata_subset : Map V → List Text → Map V
  metadata_subset metadata keys = subset_from [] metadata keys

  unfoldable pub metadata_contains : Map V → Text → Bool
  metadata_contains metadata key = has key metadata

  get-without :
      (keys : List Text) (k : Text) (m : Map V)
      → get k (metadata_without_keys m keys) ≡ (if any (text_eq k) keys then none else get k m)
  unfolding metadata_without_keys
  get-without [] k m = refl
  get-without (key ∷ keys) k m = ground (
    arith,
    get-without keys k (delete key m),
    get-delete key k m,
    text_eq_iff key k,
    text_eq_iff k key,
  )

  get-copy_found :
      (key k : Text) (found : Option V) (m result : Map V)
      → get key m ≡ found
      → get k (copy_found key found result)
        ≡ (if text_eq key k && is_some (get k m) then get k m else get k result)
  get-copy_found key k none m result h = elim (Bool-cases (text_eq key k)) [
    | inl e ↦ rw (e, sym ((text_eq_iff key k).0 e), h) refl
    | inr e ↦ rw e refl
  ]
  get-copy_found key k (some v) m result h = elim (Bool-cases (text_eq key k)) [
    | inl e ↦ rw (get-set key k v result, e, sym ((text_eq_iff key k).0 e), h) refl
    | inr e ↦ rw (get-set key k v result, e) refl
  ]

  get-subset :
      (keys : List Text) (k : Text) (m result : Map V)
      → get k (subset_from result m keys)
        ≡ (if any (text_eq k) keys && is_some (get k m) then get k m else get k result)
  unfolding subset_from
  get-subset [] k m result = refl
  get-subset (key ∷ keys) k m result = ground (
    arith,
    get-subset keys k m (copy_found key (get key m) result),
    get-copy_found key k (get key m) m result refl,
    text_eq_iff key k,
    text_eq_iff k key,
  )

  found_or_none :
      (named : Bool) (o : Option V)
      → (if named && is_some o then o else none) ≡ (if named then o else none)
  found_or_none true none = refl
  found_or_none true (some v) = refl
  found_or_none false o = refl

  -- A key that is among those named is found in the subset by them as it is in the metadata, and not
  -- found in the metadata without them; for a key that is not among them it is the other way round.
  pub subset-without_keys :
      (keys : List Text) (k : Text) (m : Map V)
      → (get k (metadata_subset m keys) ≡ (if any (text_eq k) keys then get k m else none))
        × (get k (metadata_without_keys m keys) ≡ (if any (text_eq k) keys then none else get k m))
  unfolding metadata_subset get
  subset-without_keys keys k m = (
    get-subset keys k m [] ∙ found_or_none (any (text_eq k) keys) (get k m),
    get-without keys k m,
  )
