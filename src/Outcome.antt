-- ===== src/Outcome.antt =====
-- What a call gives: its result, or the error that it throws (a rejected promise is a throw).
use kronos_ts.Common.{◌≡◌, refl, subst, List, [], ◌∷◌, ◌⊎◌, inl, inr}

-- The errors of the modelled files, one constructor for each `throw`.
pub data Failure : Type 0 where
  empty_tag_key empty_tag_value empty_query append_condition_error : Failure
  no_active_unit_of_work wrong_phase already_executed : Failure
  unable_to_claim_token dead_letter_queue_overflow : Failure
  already_pending messaging_overloaded range_error : Failure
  snapshots_unsupported processor_running segment_held_elsewhere : Failure
  no_such_segment no_sequence_function still_merging still_replaying nothing_to_merge
        split_further :
      Failure
  no_scope no_shared_tag handler_error : Failure

pub data Outcome {ℓ} (A : Type ℓ) : Type ℓ where
  ok : A → Outcome A
  throws : Failure → Outcome A

infixl 5 ◌>>=◌
abbrev pub ◌>>=◌ {ℓ κ} : {A : Type ℓ} {B : Type κ} → Outcome A → (A → Outcome B) → Outcome B
ok value >>= rest = rest value
throws failure >>= rest = throws failure

pub Outcome-cases {ℓ} :
    {A : Type ℓ} (m : Outcome A) → ((a : A) × (m ≡ ok a)) ⊎ ((e : Failure) × (m ≡ throws e))
Outcome-cases (ok a) = inl (a, refl)
Outcome-cases (throws e) = inr (e, refl)

-- `xs.map(f)`, where a call of `f` may throw.
abbrev pub traverse {ℓ κ} : {A : Type ℓ} {B : Type κ} → (A → Outcome B) → List A → Outcome (List B)
traverse f [] = ok []
traverse f (x ∷ xs) = do y ← f x; ys ← traverse f xs; ok (y ∷ ys)

-- What a chain that returned went through.
pub >>=-eq-ok {ℓ κ} :
    {A : Type ℓ} {B : Type κ} (call : Outcome A) (rest : A → Outcome B) {result : B}
    → call >>= rest ≡ ok result
    → (value : A) × (call ≡ ok value) × (rest value ≡ ok result)
>>=-eq-ok (throws failure) rest returned = cc
>>=-eq-ok (ok value) rest returned = (value, refl, returned)

pub ok-injective {ℓ} : {A : Type ℓ} {a b : A} → ok a ≡ ok b → a ≡ b
ok-injective {a} {b} h = cc

-- Relates the elements of a list to the results of the calls on them.
pub data Results {ℓ κ} {A : Type ℓ} {B : Type κ} (f : A → Outcome B)
    : List A → List B → Type (ℓ ⊔ κ) where
  none_left : Results f [] []
  one_more :
      {x : A} {y : B} {xs : List A} {ys : List B}
      → f x ≡ ok y
      → Results f xs ys
      → Results f (x ∷ xs) (y ∷ ys)

pub traverse-Results {ℓ κ} :
    {A : Type ℓ} {B : Type κ} (f : A → Outcome B) (xs : List A) (ys : List B)
    → traverse f xs ≡ ok ys
    → Results f xs ys
traverse-Results f [] ys h = subst (Results f []) (ok-injective h) none_left
traverse-Results f (x ∷ xs) ys h =
    let (y, e, h₁) = >>=-eq-ok (f x) _ h in
    let (zs, e', h₂) = >>=-eq-ok (traverse f xs) _ h₁ in
    subst (Results f (x ∷ xs)) (ok-injective h₂) (one_more e (traverse-Results f xs zs e'))

pub ok-throws {ℓ} : {A : Type ℓ} {a : A} {e : Failure} → ok a ≡ throws e → ⊥
ok-throws {a} {e} h = cc
