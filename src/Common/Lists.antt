-- ===== src/Common/Lists.antt =====
-- Lists measured by native numbers, and tests over their elements.
use Prim.Native.Nat.{ℕ, suc, ◌+◌}
use mathlib.Core.Path.{◌≡◌, refl, ap}
use mathlib.Core.Logic.{◌⊎◌, inl, inr, ◌↔◌}
use mathlib.Core.Bool.{Bool, true, false, false≢true, ◌&&◌, ◌||◌}
use mathlib.Core.List.{List, [], ◌∷◌, ◌++◌, map}
use mathlib.Core.Option.{Option, none, some}
use native.Mathlib.Omega.{arith}
use kronos_ts.Common.Tests.{if◌then◌else◌, Bool-cases, &&_iff, ||_iff}

module _ {ℓ} {A : Type ℓ} where
  abbrev pub length : List A → ℕ
  length [] = 0
  length (x ∷ xs) = suc (length xs)

  -- `xs.filter(p)`
  abbrev pub filter : (A → Bool) → List A → List A
  filter p [] = []
  filter p (x ∷ xs) = if p x then x ∷ filter p xs else filter p xs

  -- `xs.some(p)`, `xs.every(p)`
  abbrev pub any : (A → Bool) → List A → Bool
  any p [] = false
  any p (x ∷ xs) = p x || any p xs

  abbrev pub all : (A → Bool) → List A → Bool
  all p [] = true
  all p (x ∷ xs) = p x && all p xs

  -- `xs.find(p)`
  abbrev pub find : (A → Bool) → List A → Option A
  find p [] = none
  find p (x ∷ xs) = if p x then some x else find p xs

  -- `xs.filter(p).length`
  abbrev pub count : (A → Bool) → List A → ℕ
  count p [] = 0
  count p (x ∷ xs) = (if p x then 1 else 0) + count p xs

  pub length-append : (xs ys : List A) → length (xs ++ ys) ≡ length xs + length ys
  length-append [] ys = omega arith
  length-append (x ∷ xs) ys = omega (arith, length-append xs ys)

  pub count-append : (p : A → Bool) (xs ys : List A) → count p (xs ++ ys) ≡ count p xs + count p ys
  count-append p [] ys = omega arith
  count-append p (x ∷ xs) ys = omega (arith, count-append p xs ys)

  pub filter-append :
      (p : A → Bool) (xs ys : List A) → filter p (xs ++ ys) ≡ filter p xs ++ filter p ys
  filter-append p [] ys = refl
  filter-append p (x ∷ xs) ys = ground (arith, filter-append p xs ys)

  pub any-append : (p : A → Bool) (xs ys : List A) → any p (xs ++ ys) ≡ any p xs || any p ys
  any-append p [] ys = refl
  any-append p (x ∷ xs) ys = ground (arith, any-append p xs ys)

module _ {ℓ κ} {A : Type ℓ} (P : A → Type κ) where
  -- Every element of the list satisfies `P`.
  abbrev pub All : List A → Type κ
  All [] = Unit
  All (x ∷ xs) = P x × All xs

  pub All-append : (xs ys : List A) → All xs → All ys → All (xs ++ ys)
  All-append [] ys h k = k
  All-append (x ∷ xs) ys h k = (h.0, All-append xs ys h.1 k)

pub All-mono {ℓ κ κ'} :
    {A : Type ℓ} {P : A → Type κ} {Q : A → Type κ'} (f : (x : A) → P x → Q x) (xs : List A)
    → All P xs
    → All Q xs
All-mono f [] h = tt
All-mono f (x ∷ xs) h = (f x h.0, All-mono f xs h.1)

module _ {ℓ} {A : Type ℓ} (P : A → Type 0) where
  -- Some element of the list satisfies `P`.
  abbrev pub Any : List A → Type 0
  Any [] = ⊥
  Any (x ∷ xs) = P x ⊎ Any xs

module _ {ℓ} {A : Type ℓ} {P : A → Type 0} (p : A → Bool) (e : (x : A) → (p x ≡ true) ↔ P x) where
  -- A test that decides a predicate decides it for some, and for every, element.
  pub any_iff : (xs : List A) → (any p xs ≡ true) ↔ Any P xs
  any_iff [] = (λ h. absurd (false≢true h), λ h. absurd h)
  any_iff (x ∷ xs) = (
    λ h. elim ((||_iff (p x) (any p xs)).0 h) [
      | inl k ↦ inl ((e x).0 k)
      | inr k ↦ inr ((any_iff xs).0 k)
    ],
    λ h.
        (||_iff (p x) (any p xs)).1
          (elim h [ inl k ↦ inl ((e x).1 k) | inr k ↦ inr ((any_iff xs).1 k) ]),
  )

  pub all_iff : (xs : List A) → (all p xs ≡ true) ↔ All P xs
  all_iff [] = (λ h. tt, λ h. refl)
  all_iff (x ∷ xs) = (
    λ h. let (k, r) = (&&_iff (p x) (all p xs)).0 h in ((e x).0 k, (all_iff xs).0 r),
    λ h. (&&_iff (p x) (all p xs)).1 ((e x).1 h.0, (all_iff xs).1 h.1),
  )

cons-nil {ℓ} : {A : Type ℓ} {x : A} {xs : List A} → x ∷ xs ≡ [] → ⊥
cons-nil {x} {xs} h = cc

module _ {ℓ} {A : Type ℓ} (p q : A → Bool) where
  -- Nothing passes one of two tests exactly when nothing passes either.
  pub filter-or-nil :
      (xs : List A) → (filter (λ x. p x || q x) xs ≡ []) ↔ ((filter p xs ≡ []) × (filter q xs ≡ []))
  filter-or-nil [] = (λ h. (refl, refl), λ h. refl)
  filter-or-nil (x ∷ xs) = (
    λ h. elim (Bool-cases (p x)) [
      | inl e ↦ absurd (cons-nil (rw e at h))
      | inr e ↦ elim (Bool-cases (q x)) [
        | inl e' ↦ absurd (cons-nil (rw (e, e') at h))
        | inr e' ↦ rw (e, e') ((filter-or-nil xs).0 (rw (e, e') at h))
      ]
    ],
    λ h. elim (Bool-cases (p x)) [
      | inl e ↦ absurd (cons-nil (rw e at h.0))
      | inr e ↦ elim (Bool-cases (q x)) [
        | inl e' ↦ absurd (cons-nil (rw e' at h.1))
        | inr e' ↦ rw (e, e') ((filter-or-nil xs).1 (rw e at h.0, rw e' at h.1))
      ]
    ],
  )

pub append_self {ℓ} : {A : Type ℓ} (xs ys : List A) → xs ++ ys ≡ xs → ys ≡ []
append_self xs [] h = refl
append_self xs (y ∷ ys) h = absurd (omega (arith, ap length h, length-append xs (y ∷ ys)))

pub map-nil {ℓ κ} : {A : Type ℓ} {B : Type κ} (f : A → B) (xs : List A) → map f xs ≡ [] → xs ≡ []
map-nil f [] h = refl
map-nil f (x ∷ xs) h = cc
