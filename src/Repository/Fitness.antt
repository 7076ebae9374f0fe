-- ===== src/Repository/Fitness.antt =====
-- Whether a cached state still fits: packages/core/src/event-sourcing/structural-fitness.ts. Values are
-- those that JSON and the native types give; functions and symbols are no states.
use kronos_ts.Common.{Bool, true, false, ◌&&◌, Option, none, some, if◌then◌else◌}
use kronos_ts.Common.Int.{ℤ}
use kronos_ts.Common.Text.{Text, text_eq}

mutual
  pub data Value : Type 0 where
    undefined null : Value
    boolean : Bool → Value
    number bigint : ℤ → Value
    text : Text → Value
    array : Values → Value
    object : Fields → Value

  pub data Values : Type 0 where
    no_values : Values
    one_value : Value → Values → Values

  pub data Fields : Type 0 where
    no_fields : Fields
    one_field : Text → Value → Fields → Fields

-- The results of `typeof` at the leaves.
pub data Kind : Type 0 where
  of_boolean of_number of_bigint of_string of_undefined of_object : Kind

abbrev pub type_of : Value → Kind
type_of undefined = of_undefined
type_of (boolean b) = of_boolean
type_of (number n) = of_number
type_of (bigint n) = of_bigint
type_of (text t) = of_string
type_of _ = of_object

abbrev same_kind : Kind → Kind → Bool
same_kind of_boolean of_boolean = true
same_kind of_number of_number = true
same_kind of_bigint of_bigint = true
same_kind of_string of_string = true
same_kind of_undefined of_undefined = true
same_kind of_object of_object = true
same_kind _ _ = false

-- `candidate.every(…)`
abbrev pub every_value : (Value → Bool) → Values → Bool
every_value p no_values = true
every_value p (one_value v vs) = p v && every_value p vs

-- The value under a key, if `key in candidateRecord`.
abbrev pub field : Text → Fields → Option Value
field key no_fields = none
field key (one_field k v fields) = if text_eq k key then some v else field key fields

abbrev pub fits_field : (Value → Bool) → Option Value → Bool
fits_field p none = false
fits_field p (some v) = p v

-- `candidate` as an array, and as an object that is none.
abbrev fits_array : (Values → Bool) → Value → Bool
fits_array p (array vs) = p vs
fits_array p _ = false

abbrev fits_object : (Fields → Bool) → Value → Bool
fits_object p (object fields) = p fields
fits_object p _ = false

-- `expected === undefined`, whose key is not looked for.
abbrev is_undefined : Value → Bool
is_undefined undefined = true
is_undefined _ = false

-- `element === null || element === undefined`
abbrev teaches_nothing : Value → Bool
teaches_nothing undefined = true
teaches_nothing null = true
teaches_nothing _ = false

unfoldable mutual
  pub matches_initial_structure : Value → Value → Bool
  matches_initial_structure undefined = λ candidate. true
  matches_initial_structure null = λ candidate. true
  matches_initial_structure (array vs) = fits_array (matches_first vs)
  matches_initial_structure (object fields) = fits_object (matches_fields fields)
  matches_initial_structure (boolean b) = λ candidate. same_kind (type_of candidate) of_boolean
  matches_initial_structure (number n) = λ candidate. same_kind (type_of candidate) of_number
  matches_initial_structure (bigint n) = λ candidate. same_kind (type_of candidate) of_bigint
  matches_initial_structure (text t) = λ candidate. same_kind (type_of candidate) of_string

  -- Against the first element.
  pub matches_first : Values → Values → Bool
  matches_first no_values = λ candidates. true
  matches_first (one_value element vs) =
      if teaches_nothing element
      then (λ candidates. true)
      else every_value (matches_initial_structure element)

  -- The loop over the keys.
  pub matches_fields : Fields → Fields → Bool
  matches_fields no_fields = λ candidate. true
  matches_fields (one_field key expected fields) = λ candidate.
      (if is_undefined expected
        then true
        else fits_field (matches_initial_structure expected) (field key candidate))
      && matches_fields fields candidate
