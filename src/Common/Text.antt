-- ===== src/Common/Text.antt =====
-- JavaScript strings as lists of UTF-16 code units, and the decimal form of a number.
use Prim.Native.Char.{code}
use Prim.Native.String.{String}
use Prim.Native.Nat.{ℕ, zero, suc, ◌+◌, ◌-◌, ◌*◌, ◌/◌, ◌%◌, ◌<◌}
use mathlib.Core.Path.{◌≡◌, refl}
use mathlib.Core.Logic.{◌↔◌}
use mathlib.Core.Bool.{Bool, true, false, ◌&&◌}
use mathlib.Core.Option.{Option, none, some}
use mathlib.Core.List.{List, [], ◌∷◌, ◌++◌}
use native.Mathlib.Omega.{arith}
use kronos_ts.Common.Tests.{ltb, leb, ◌==◌, if◌then◌else◌}

abbrev pub Text : Type 0
Text = List ℕ

-- A literal of the source, of characters that take one code unit each.
abbrev pub str : String → Text
str String.[] = []
str (String.◌∷◌ c s) = code c ∷ str s

abbrev pub text_eq : Text → Text → Bool
text_eq [] [] = true
text_eq [] (b ∷ t) = false
text_eq (a ∷ s) [] = false
text_eq (a ∷ s) (b ∷ t) = (a == b) && text_eq s t

pub text_eq-eq : (s t : Text) → text_eq s t ≡ true → s ≡ t
text_eq-eq [] [] h = refl
text_eq-eq [] (b ∷ t) h = ground arith
text_eq-eq (a ∷ s) [] h = ground arith
text_eq-eq (a ∷ s) (b ∷ t) h = ground (arith, text_eq-eq s t)

pub text_eq_refl : (s : Text) → text_eq s s ≡ true
text_eq_refl [] = refl
text_eq_refl (a ∷ s) = ground (arith, text_eq_refl s)

pub text_eq_iff : (s t : Text) → (text_eq s t ≡ true) ↔ (s ≡ t)
text_eq_iff s t = (text_eq-eq s t, λ e. rw e (text_eq_refl t))

-- `s.startsWith(p)`
abbrev pub starts_with : Text → Text → Bool
starts_with s [] = true
starts_with [] (b ∷ p) = false
starts_with (a ∷ s) (b ∷ p) = (a == b) && starts_with s p

-- `s.slice(p.length)`
abbrev pub slice_after : Text → Text → Text
slice_after s [] = s
slice_after [] (b ∷ p) = []
slice_after (a ∷ s) (b ∷ p) = slice_after s p

pub starts_with-append : (p s : Text) → starts_with (p ++ s) p ≡ true
starts_with-append [] s = refl
starts_with-append (a ∷ p) s = ground (arith, starts_with-append p s)

pub slice_after-append : (p s : Text) → slice_after (p ++ s) p ≡ s
slice_after-append [] s = refl
slice_after-append (a ∷ p) s = slice_after-append p s

-- The decimal form of a number. A number below the fuel has no more digits than that.
unfoldable pub decimal_digits : ℕ → ℕ → Text
decimal_digits zero n = []
decimal_digits (suc fuel) n =
    let front = decimal_digits fuel (n / 10) in
    if ltb n 10 then (48 + n) ∷ [] else front ++ ((48 + n % 10) ∷ [])

unfoldable pub to_decimal : ℕ → Text
unfolding decimal_digits
to_decimal n = decimal_digits (suc n) n

abbrev pub is_digit : ℕ → Bool
is_digit c = leb 48 c && leb c 57

-- The number that a text of decimal digits stands for; `none` at any other unit.
unfoldable pub of_digits : ℕ → Text → Option ℕ
of_digits acc [] = some acc
of_digits acc (c ∷ cs) =
    let rest = of_digits (acc * 10 + (c - 48)) cs in if is_digit c then rest else none

unfoldable pub of_decimal : Text → Option ℕ
unfolding of_digits
of_decimal s = of_digits 0 s

abbrev continue_at : Option ℕ → Text → Option ℕ
continue_at none s = none
continue_at (some n) s = of_digits n s

of_digits-append : (acc : ℕ) (s t : Text) → of_digits acc (s ++ t) ≡ continue_at (of_digits acc s) t
unfolding of_digits
of_digits-append acc [] t = refl
of_digits-append acc (c ∷ s) t = ground (arith, of_digits-append (acc * 10 + (c - 48)) s t)

of_digits-decimal_digits : (fuel n : ℕ) → n < fuel → of_digits 0 (decimal_digits fuel n) ≡ some n
unfolding of_digits decimal_digits
of_digits-decimal_digits zero n h = absurd (omega arith)
of_digits-decimal_digits (suc fuel) n h = ground (
  arith,
  of_digits-decimal_digits fuel (n / 10),
  of_digits-append 0 (decimal_digits fuel (n / 10)) ((48 + n % 10) ∷ []),
)

-- Reading a decimal form back gives the number.
pub of_decimal-to_decimal : (n : ℕ) → of_decimal (to_decimal n) ≡ some n
unfolding of_decimal to_decimal
of_decimal-to_decimal n = of_digits-decimal_digits (suc n) n (omega arith)
