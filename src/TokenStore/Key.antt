-- ===== src/TokenStore/Key.antt =====
-- The texts under which the token store keeps its entries.
use kronos_ts.Common.{
  ℕ, zero, suc, ◌+◌, ◌/◌, ◌%◌, ◌<◌, ◌≡◌, ◌≢◌, refl, ap, ap₂, sym, ◌∙◌, Bool, true, false, [], ◌∷◌,
  ◌++◌, All, All-append, arith, some_inj, if◌then◌else◌, ltb,
}
use kronos_ts.Common.Text.{Text, to_decimal, decimal_digits, of_decimal, of_decimal-to_decimal}
use kronos_ts.TokenStore.{key}

-- No unit of the text is a colon.
abbrev HasNoColon : Text → Type 0
HasNoColon = All (λ c. c ≢ 58)

HasNoColon-if :
    (b : Bool) (s t : Text)
    → (b ≡ true → HasNoColon s)
    → (b ≡ false → HasNoColon t)
    → HasNoColon (if b then s else t)
HasNoColon-if true s t h k = h refl
HasNoColon-if false s t h k = k refl

ltb-true : (n m : ℕ) → ltb n m ≡ true → n < m
ltb-true n m h = ground arith

decimal_digits-HasNoColon : (fuel n : ℕ) → HasNoColon (decimal_digits fuel n)
unfolding decimal_digits
decimal_digits-HasNoColon zero n = tt
decimal_digits-HasNoColon (suc fuel) n =
    HasNoColon-if (ltb n 10) ((48 + n) ∷ []) (decimal_digits fuel (n / 10) ++ ((48 + n % 10) ∷ []))
      (λ h. ((λ e. omega (arith, ltb-true n 10 h, e)), tt))
      (λ h.
        All-append (λ c. c ≢ 58) (decimal_digits fuel (n / 10)) ((48 + n % 10) ∷ [])
          (decimal_digits-HasNoColon fuel (n / 10)) ((λ e. omega (arith, e)), tt))

to_decimal-HasNoColon : (n : ℕ) → HasNoColon (to_decimal n)
unfolding to_decimal
to_decimal-HasNoColon n = decimal_digits-HasNoColon (suc n) n

head-eq : {a b : ℕ} {s t : Text} → a ∷ s ≡ b ∷ t → (a ≡ b) × (s ≡ t)
head-eq {a} {b} {s} {t} h = (cc, cc)

no-colon-inside : (p d s : Text) → HasNoColon d → d ≢ (p ++ 58 ∷ s)
no-colon-inside [] [] s h e = cc
no-colon-inside [] (c ∷ d) s h e = h.0 (head-eq e).0
no-colon-inside (a ∷ p) [] s h e = cc
no-colon-inside (a ∷ p) (c ∷ d) s h e = no-colon-inside p d s h.1 (head-eq e).1

-- The part before the last colon, and the part after it, are read off the text.
last-colon :
    (p q d e : Text) → HasNoColon d → HasNoColon e → p ++ 58 ∷ d ≡ q ++ 58 ∷ e → (p ≡ q) × (d ≡ e)
last-colon [] [] d e h k x = (refl, (head-eq x).1)
last-colon [] (b ∷ q) d e h k x = absurd (no-colon-inside q d e h (head-eq x).1)
last-colon (a ∷ p) [] d e h k x = absurd (no-colon-inside p e d k (sym (head-eq x).1))
last-colon (a ∷ p) (b ∷ q) d e h k x =
    let (l, r) = last-colon p q d e h k (head-eq x).1 in (ap₂ (λ a p. a ∷ p) (head-eq x).0 l, r)

-- Two segments have the same key only if they are the same segment of the same processor, whatever
-- the names contain.
pub key_injective :
    (name name' : Text) (segment segment' : ℕ)
    → key name segment ≡ key name' segment'
    → (name ≡ name') × (segment ≡ segment')
unfolding key
key_injective name name' segment segment' h =
    let (l, r) =
      last-colon name name' (to_decimal segment) (to_decimal segment')
        (to_decimal-HasNoColon segment) (to_decimal-HasNoColon segment') h in
    (
      l,
      some_inj
          (sym (of_decimal-to_decimal segment) ∙ ap of_decimal r ∙ of_decimal-to_decimal segment'),
    )
