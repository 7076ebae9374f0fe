-- ===== src/StateQuery/Steps.antt =====
-- Steps 2 and 3 of the derivation: the candidates and the types of their items.
use kronos_ts.Common.{
  ◌≡◌, ◌↔◌, ◌⊎◌, refl, ap₂, subst, inl, inr, Bool, true, false, List, [], ◌∷◌, ◌++◌, map, any,
  filter, Any, any_iff, &&_iff, Bool-cases, if◌then◌else◌,
}
use kronos_ts.Common.Text.{Text, text_eq, text_eq_iff}
use kronos_ts.StateQuery.{Fold, includes, is_subset, same_keys, candidates_from, distinct, types_of}
use kronos_ts.StateQuery.Minimal.{In, includes_iff}

In-snoc : {A : Type 0} (x y : A) (xs : List A) → In x (xs ++ y ∷ []) ↔ (In x xs ⊎ (y ≡ x))
In-snoc x y [] = (
  λ h. elim h [ inl e ↦ inr e | inr j ↦ absurd j ],
  λ h. elim h [ inl j ↦ absurd j | inr e ↦ inl e ],
)
In-snoc x y (z ∷ xs) =
    let (to, from) = In-snoc x y xs in
    (
      λ h. elim h [
        | inl e ↦ inl (inl e)
        | inr j ↦ elim (to j) [ inl k ↦ inl (inr k) | inr e ↦ inr e ]
      ],
      λ h. elim h [
        | inl k ↦ elim k [ inl e ↦ inl e | inr j ↦ inr (from (inl j)) ]
        | inr e ↦ inr (from (inr e))
      ],
    )

-- A value that is added to a list unless it is there.
added_iff :
    {A : Type 0} (x y : A) (xs : List A) (b : Bool)
    → (b ≡ true → In y xs)
    → In x (if b then xs else xs ++ y ∷ []) ↔ (In x xs ⊎ (y ≡ x))
added_iff x y xs true there =
    (λ h. inl h, λ h. elim h [ inl j ↦ j | inr e ↦ subst (λ z. In z xs) e (there refl) ])
added_iff x y xs false there = In-snoc x y xs

same_keys_eq : (xs ys : List Text) → same_keys xs ys ≡ true → xs ≡ ys
same_keys_eq [] [] h = refl
same_keys_eq [] (y ∷ ys) h = cc
same_keys_eq (x ∷ xs) [] h = cc
same_keys_eq (x ∷ xs) (y ∷ ys) h =
    let (e, r) = (&&_iff (text_eq x y) (same_keys xs ys)).0 h in
    ap₂ (λ z zs. z ∷ zs) ((text_eq_iff x y).0 e) (same_keys_eq xs ys r)

pub Any-mono :
    {A : Type 0} {Q R : A → Type 0} (f : (x : A) → Q x → R x) (xs : List A) → Any Q xs → Any R xs
Any-mono f [] h = absurd h
Any-mono f (x ∷ xs) (inl h) = inl (f x h)
Any-mono f (x ∷ xs) (inr h) = inr (Any-mono f xs h)

-- The candidates are the shared keys of the folds.
pub candidates_iff :
    (keys : List Text) (seen : List (List Text)) (folds : List Fold)
    → In keys (candidates_from seen folds) ↔ (In keys seen ⊎ Any (λ f. f.shared ≡ keys) folds)
candidates_iff keys seen [] = (λ h. inl h, λ h. elim h [ inl j ↦ j | inr j ↦ absurd j ])
candidates_iff keys seen (fold ∷ folds) =
    let there = any (λ c. same_keys c fold.shared) seen in
    let (to, from) = added_iff keys fold.shared seen there (λ h.
      Any-mono (λ c. same_keys_eq c fold.shared) seen
        ((any_iff (λ c. same_keys c fold.shared) (λ c. (λ k. k, λ k. k)) seen).0 h)) in
    let (to', from') =
      candidates_iff keys (if there then seen else seen ++ fold.shared ∷ []) folds in
    (
      λ h. elim (to' h) [
        | inl j ↦ elim (to j) [ inl k ↦ inl k | inr e ↦ inr (inl e) ]
        | inr j ↦ inr (inr j)
      ],
      λ h. elim h [
        | inl j ↦ from' (inl (from (inl j)))
        | inr j ↦ elim j [ inl e ↦ from' (inl (from (inr e))) | inr k ↦ from' (inr k) ]
      ],
    )

distinct_iff :
    (t : Text) (seen types : List Text) → In t (distinct seen types) ↔ (In t seen ⊎ In t types)
distinct_iff t seen [] = (λ h. inl h, λ h. elim h [ inl j ↦ j | inr j ↦ absurd j ])
distinct_iff t seen (type ∷ types) =
    let there = includes seen type in
    let (to, from) = added_iff t type seen there (includes_iff seen type).0 in
    let (to', from') = distinct_iff t (if there then seen else seen ++ type ∷ []) types in
    (
      λ h. elim (to' h) [
        | inl j ↦ elim (to j) [ inl k ↦ inl k | inr e ↦ inr (inl e) ]
        | inr j ↦ inr (inr j)
      ],
      λ h. elim h [
        | inl j ↦ from' (inl (from (inl j)))
        | inr j ↦ elim j [ inl e ↦ from' (inl (from (inr e))) | inr k ↦ from' (inr k) ]
      ],
    )

passing_iff :
    (t : Text) (p : Fold → Bool) (folds : List Fold)
    → In t (map (λ f. f.type) (filter p folds)) ↔ Any (λ f. (p f ≡ true) × (f.type ≡ t)) folds
passing_iff t p [] = (λ h. h, λ h. h)
passing_iff t p (fold ∷ folds) =
    let (to, from) = passing_iff t p folds in
    elim (Bool-cases (p fold)) [
      | inl y ↦ rw y (
        λ h. elim h [ inl e ↦ inl (refl, e) | inr j ↦ inr (to j) ],
        λ h. elim h [ inl e ↦ inl e.1 | inr j ↦ inr (from j) ],
      )
      | inr n ↦
          rw n (λ h. inr (to h), λ h. elim h [ inl e ↦ absurd (false_true e.0) | inr j ↦ from j ])
    ]
  where
    false_true : false ≡ true → ⊥
    false_true h = cc

pub types_iff :
    (t : Text) (folds : List Fold) (keys : List Text)
    → In t (types_of folds keys) ↔ Any (λ f. (is_subset keys f.shared ≡ true) × (f.type ≡ t)) folds
types_iff t folds keys =
    let (to, from) =
      distinct_iff t [] (map (λ f. f.type) (filter (λ f. is_subset keys f.shared) folds)) in
    let (to', from') = passing_iff t (λ f. is_subset keys f.shared) folds in
    (λ h. elim (to h) [ inl j ↦ absurd j | inr j ↦ to' j ], λ h. from (inr (from' h)))
