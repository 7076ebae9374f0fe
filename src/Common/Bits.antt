-- ===== src/Common/Bits.antt =====
-- Masks of low ones, and what `&` and `^` do with them at a variable width.
use Prim.Native.Nat.{
  ℕ, zero, suc, ◌+◌, ◌*◌, ◌/◌, ◌%◌, ◌≤◌, min, bit_and, bit_xor, digits, differ, bit_and-bitwise,
  bit_xor-bitwise,
}
use mathlib.Core.Path.{◌≡◌, refl, ap, ap₂, sym, ◌∙◌}
use native.Mathlib.Omega.{arith}

-- k ones: 0, 1, 3, 7, ...
abbrev pub mask_of : ℕ → ℕ
mask_of zero = 0
mask_of (suc k) = mask_of k * 2 + 1

-- The k low binary digits of a number.
abbrev pub low : ℕ → ℕ → ℕ
low zero a = 0
low (suc k) a = low k (a / 2) * 2 + a % 2

-- The digit at place k.
abbrev pub digit : ℕ → ℕ → ℕ
digit zero a = a % 2
digit (suc k) a = digit k (a / 2)

pub low-le-mask : (k a : ℕ) → low k a ≤ mask_of k
low-le-mask zero a = omega arith
low-le-mask (suc k) a = omega (arith, low-le-mask k (a / 2))

pub digit_bound : (k a : ℕ) → digit k a ≤ 1
digit_bound zero a = omega arith
digit_bound (suc k) a = digit_bound k (a / 2)

-- One more digit, read from the top.
pub low_top : (k a : ℕ) → low (suc k) a ≡ low k a + digit k a * (mask_of k + 1)
low_top zero a = omega arith
low_top (suc k) a = omega (arith, low_top k (a / 2), digit_bound k (a / 2))

pub low_of_le : (k a : ℕ) → a ≤ mask_of k → low k a ≡ a
low_of_le zero a h = omega arith
low_of_le (suc k) a h = omega (arith, low_of_le k (a / 2))

pub digit_of_le : (k a : ℕ) → a ≤ mask_of k → digit k a ≡ 0
digit_of_le zero a h = omega arith
digit_of_le (suc k) a h = omega (arith, digit_of_le k (a / 2))

pub mask_of_mono : (j k : ℕ) → j ≤ k → mask_of j ≤ mask_of k
mask_of_mono zero k h = omega arith
mask_of_mono (suc j) zero h = absurd (omega arith)
mask_of_mono (suc j) (suc k) h = omega (arith, mask_of_mono j k)

-- The digits of two numbers combined: more places to go than the first number has digits make no
-- difference.
module _ (past : ℕ → ℕ) (join : ℕ → ℕ → ℕ) where
  run_out : (spare y : ℕ) → digits past join spare 0 y ≡ past y
  run_out zero y = refl
  run_out (suc spare) y = refl

  spare_places :
      (x y places more : ℕ)
      → x ≤ places
      → places ≤ more
      → digits past join more x y ≡ digits past join places x y
  spare_places zero y places more le _ = run_out more y ∙ sym (run_out places y)
  spare_places (suc x) y (suc places) (suc more) le le' =
      ap (λ (rest : ℕ). rest * 2 + join (suc x % 2) (y % 2))
        (spare_places (suc x / 2) (y / 2) places more (omega arith) (omega arith))
  spare_places (suc x) y (suc places) zero le le' = absurd (omega arith)
  spare_places (suc x) y zero more le le' = absurd (omega arith)

  -- The places of a number serve for its half.
  half_places :
      (x y : ℕ) → digits past join x (suc x / 2) y ≡ digits past join (suc x / 2) (suc x / 2) y
  half_places x y = spare_places (suc x / 2) y (suc x / 2) x (omega arith) (omega arith)

zero-bit_and : (y : ℕ) → bit_and 0 y ≡ 0
zero-bit_and y = bit_and-bitwise 0 y

pub bit_and_halves : (x y : ℕ) → bit_and x y ≡ bit_and (x / 2) (y / 2) * 2 + min (x % 2) (y % 2)
bit_and_halves zero y = omega (arith, zero-bit_and (y / 2), zero-bit_and y)
bit_and_halves (suc x) y = omega (
  half_places (λ _. zero) min x (y / 2),
  bit_and-bitwise (suc x / 2) (y / 2),
  bit_and-bitwise (suc x) y,
  arith,
)

bit_and-zero_below : (bound x : ℕ) → x ≤ bound → bit_and x 0 ≡ 0
bit_and-zero_below bound zero le = zero-bit_and 0
bit_and-zero_below (suc bound) (suc x) le =
    omega (bit_and-zero_below bound (suc x / 2) (omega arith), bit_and_halves (suc x) 0, arith)
bit_and-zero_below zero (suc x) le = absurd (omega arith)

half_odd : (m : ℕ) → (m * 2 + 1) / 2 ≡ m
half_odd m = omega arith

half_even : (m : ℕ) → (m * 2) / 2 ≡ m
half_even m = omega arith

-- `a & (2^k - 1)` keeps the k low digits.
pub bit_and-mask_of : (k a : ℕ) → bit_and a (mask_of k) ≡ low k a
bit_and-mask_of zero a = bit_and-zero_below a a (omega arith)
bit_and-mask_of (suc k) a = omega (
  arith,
  bit_and_halves a (mask_of k * 2 + 1),
  bit_and-mask_of k (a / 2),
  ap (bit_and (a / 2)) (half_odd (mask_of k)),
)

zero-bit_xor : (b : ℕ) → bit_xor 0 b ≡ b
zero-bit_xor b = bit_xor-bitwise 0 b

differ-zero : (x : ℕ) → differ x 0 ≡ x
differ-zero zero = refl
differ-zero (suc x) = refl

pub bit_xor_halves : (x y : ℕ) → bit_xor x y ≡ bit_xor (x / 2) (y / 2) * 2 + differ (x % 2) (y % 2)
bit_xor_halves zero y = omega (arith, zero-bit_xor (y / 2), zero-bit_xor y)
bit_xor_halves (suc x) y = omega (
  half_places (λ digit. digit) differ x (y / 2),
  bit_xor-bitwise (suc x / 2) (y / 2),
  bit_xor-bitwise (suc x) y,
  arith,
)

-- The masks of k + 1 and of k ones differ in the digit at place k.
pub mask_of-bit_xor : (k : ℕ) → bit_xor (mask_of (suc k)) (mask_of k) ≡ mask_of k + 1
mask_of-bit_xor zero = refl
mask_of-bit_xor (suc k) = omega (
  arith,
  bit_xor_halves (mask_of (suc k) * 2 + 1) (mask_of k * 2 + 1),
  mask_of-bit_xor k,
  ap₂ bit_xor (half_odd (mask_of (suc k))) (half_odd (mask_of k)),
  ap₂ differ (odd_low (mask_of (suc k))) (odd_low (mask_of k)),
)
  where
    odd_low : (m : ℕ) → (m * 2 + 1) % 2 ≡ 1
    odd_low m = omega arith

xor_even : (a p : ℕ) → bit_xor a (p * 2) ≡ bit_xor (a / 2) p * 2 + a % 2
xor_even a p = omega (
  arith,
  bit_xor_halves a (p * 2),
  ap (bit_xor (a / 2)) (half_even p),
  ap (differ (a % 2)) even_low,
  differ-zero (a % 2),
)
  where
    even_low : (p * 2) % 2 ≡ 0
    even_low = omega arith

double_mask : (k : ℕ) → mask_of k * 2 + 1 + 1 ≡ (mask_of k + 1) * 2
double_mask k = omega arith

-- `^` sets the digit at place k where it is 0, and clears it where it is 1.
pub bit_xor_set : (k a : ℕ) → a ≤ mask_of k → bit_xor a (mask_of k + 1) ≡ a + (mask_of k + 1)
bit_xor_set zero zero h = refl
bit_xor_set zero (suc a) h = absurd (omega arith)
bit_xor_set (suc k) a h = omega (
  arith,
  ap (bit_xor a) (double_mask k),
  xor_even a (mask_of k + 1),
  bit_xor_set k (a / 2) (omega arith),
)

pub bit_xor_clear : (k a : ℕ) → a ≤ mask_of k → bit_xor (a + (mask_of k + 1)) (mask_of k + 1) ≡ a
bit_xor_clear zero zero h = refl
bit_xor_clear zero (suc a) h = absurd (omega arith)
bit_xor_clear (suc k) a h = omega (
  arith,
  ap (bit_xor (a + (mask_of k * 2 + 1 + 1))) (double_mask k),
  xor_even (a + (mask_of k * 2 + 1 + 1)) (mask_of k + 1),
  ap (λ (x : ℕ). bit_xor x (mask_of k + 1)) half_sum,
  bit_xor_clear k (a / 2) (omega arith),
)
  where
    half_sum : (a + (mask_of k * 2 + 1 + 1)) / 2 ≡ a / 2 + (mask_of k + 1)
    half_sum = omega arith
