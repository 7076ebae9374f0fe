-- ===== src/Segment/Recover.antt =====
-- The mask is never stored: from the ids of any segments that splits made, `segmentsOf` finds the
-- segments themselves again.
use kronos_ts.Common.{
  ℕ, zero, suc, ◌+◌, ◌*◌, ◌^◌, ◌≤◌, max, ◌≡◌, refl, ap, ap₂, sym, ◌∙◌, Bool, true, false, ◌&&◌,
  ◌||◌, ◌≢◌, some, List, [], ◌∷◌, ◌++◌, map, ltb, ◌==◌, ==_refl, ==_iff, arith, Bool-cases, inl,
  inr, lt→ltb, any-append, map-append, All, All-append, All-mono,
}
use mathlib.Core.Bool.{false≢true}
use kronos_ts.Common.Bits.{
  mask_of, mask_of_mono, low, digit, low_top, digit_bound, low-le-mask, low_of_le,
}
use kronos_ts.Segment.{
  Segment, whole, split_segment, contains, both, is_split, walk, sort, segments_of,
}
use kronos_ts.Segment.Tree.{IsAtDepth, whole-IsAtDepth, split-IsAtDepth}
use kronos_ts.Segment.Partition.{depth_of_is_split, walk_split, walk_leaf}

-- The splits that made a processor's segments.
pub data Splits : Type 0 where
  leaf : Splits
  node : Splits → Splits → Splits

abbrev pub height : Splits → ℕ
height leaf = 0
height (node l r) = suc (max (height l) (height r))

-- The segments that they leave, below a given one.
abbrev pub leaves : Splits → Segment → List Segment
leaves leaf s = s ∷ []
leaves (node l r) s = leaves l (split_segment s).0 ++ leaves r (split_segment s).1

abbrev pub ids_of : List Segment → List ℕ
ids_of = map λ s. s.id

abbrev pub InClass : ℕ → ℕ → ℕ → Type 0
InClass k c x = low k x ≡ c

top_first : (m id d l : ℕ) → d ≤ 1 → l ≤ m → id ≤ m → l + d * (m + 1) ≡ id → l ≡ id
top_first m id zero l hd hl hi e = omega arith
top_first m id (suc d) l hd hl hi e = absurd (grind arith)

top_second : (m id d l : ℕ) → d ≤ 1 → l ≤ m → id ≤ m → l + d * (m + 1) ≡ id + m + 1 → l ≡ id
top_second m id zero l hd hl hi e = omega arith
top_second m id (suc zero) l hd hl hi e = omega arith
top_second m id (suc (suc d)) l hd hl hi e = absurd (omega arith)

module _ (k : ℕ) (s : Segment) (d : IsAtDepth k s) (x : ℕ) where
  class_first : low (suc k) x ≡ (split_segment s).0.id → low k x ≡ s.id
  unfolding split_segment
  class_first e =
      top_first (mask_of k) s.id (digit k x) (low k x) (digit_bound k x) (low-le-mask k x) d.id
        (sym (low_top k x) ∙ e)

  class_second : low (suc k) x ≡ (split_segment s).1.id → low k x ≡ s.id
  unfolding split_segment
  class_second e =
      top_second (mask_of k) s.id (digit k x) (low k x) (digit_bound k x) (low-le-mask k x) d.id
        (sym (low_top k x) ∙ e ∙ ap (λ (m : ℕ). s.id + m + 1) d.mask)

-- The ids below a segment have its low digits.
leaf_class :
    (t : Splits) (k : ℕ) (s : Segment)
    → IsAtDepth k s
    → height t + k ≤ 31
    → All (InClass k s.id) (ids_of (leaves t s))
leaf_class leaf k s d h = (low_of_le k s.id d.id, tt)
leaf_class (node l r) k s d h =
    let (d₀, d₁) = split-IsAtDepth k s d (omega arith) in
    rw (map-append (λ (x : Segment). x.id)) (
      All-append (InClass k s.id) _ _
        (All-mono (class_first k s d) _ (leaf_class l (suc k) (split_segment s).0 d₀ (omega arith)))
        (All-mono (class_second k s d) _
          (leaf_class r (suc k) (split_segment s).1 d₁ (omega arith))))

contains_class :
    (k c x : ℕ) (ids : List ℕ) → All (InClass k c) ids → low k x ≢ c → contains ids x ≡ false
contains_class k c x [] h n = refl
contains_class k c x (i ∷ ids) h n = elim (Bool-cases (i == x)) [
  | inl e ↦ absurd (n (sym (ap (low k) ((==_iff i x).0 e)) ∙ h.0))
  | inr e ↦ rw (e) (contains_class k c x ids h.1 n)
]

contains-leaves :
    (l r : Splits) (s : Segment) (x : ℕ)
    → contains (ids_of (leaves (node l r) s)) x ≡ (
        contains (ids_of (leaves l (split_segment s).0)) x
        || contains (ids_of (leaves r (split_segment s).1)) x)
contains-leaves l r s x = rw (map-append (λ (s : Segment). s.id)) (
    any-append (λ y. y == x) (ids_of (leaves l (split_segment s).0))
      (ids_of (leaves r (split_segment s).1)))

first-id : (s : Segment) → (split_segment s).0.id ≡ s.id
unfolding split_segment
first-id s = refl

-- The first id below a segment is its own.
contains_first : (t : Splits) (s : Segment) → contains (ids_of (leaves t s)) s.id ≡ true
unfolding split_segment
contains_first leaf s = rw (==_refl s.id) refl
contains_first (node l r) s =
    rw (contains-leaves l r s s.id, ← first-id s, contains_first l (split_segment s).0) refl

-- The ids agree with the ones below the segment wherever they have its low digits.
abbrev Agrees : ℕ → List ℕ → Splits → Segment → Type 0
Agrees k ids t s = (x : ℕ) → low k x ≡ s.id → contains ids x ≡ contains (ids_of (leaves t s)) x

||-false : (b : Bool) → (b || false) ≡ b
||-false b = ground arith

module _ (l r : Splits) (k : ℕ) (s : Segment) (ids : List ℕ) (d : IsAtDepth k s)
    (h : height (node l r) + k ≤ 31) (a : Agrees k ids (node l r) s) where
  halves : IsAtDepth (suc k) (split_segment s).0 × IsAtDepth (suc k) (split_segment s).1
  halves = split-IsAtDepth k s d (omega arith)

  ids_differ : (split_segment s).0.id ≢ (split_segment s).1.id
  unfolding split_segment
  ids_differ = omega arith

  Agrees-first : Agrees (suc k) ids l (split_segment s).0
  Agrees-first x e =
      a x (class_first k s d x e)
      ∙ contains-leaves l r s x
      ∙ ap (λ (b : Bool). contains (ids_of (leaves l (split_segment s).0)) x || b)
          (contains_class (suc k) (split_segment s).1.id x _
            (leaf_class r (suc k) (split_segment s).1 halves.1 (omega arith))
            (λ e'. ids_differ (sym e ∙ e')))
      ∙ ||-false _

  Agrees-second : Agrees (suc k) ids r (split_segment s).1
  Agrees-second x e =
      a x (class_second k s d x e)
      ∙ contains-leaves l r s x
      ∙ ap (λ (b : Bool). b || contains (ids_of (leaves r (split_segment s).1)) x)
          (contains_class (suc k) (split_segment s).0.id x _
            (leaf_class l (suc k) (split_segment s).0 halves.0 (omega arith))
            (λ e'. ids_differ (sym e' ∙ e)))

  second_class : low k (split_segment s).1.id ≡ s.id
  second_class = class_second k s d _ (low_of_le (suc k) (split_segment s).1.id halves.1.id)

  contains_second : contains ids (split_segment s).1.id ≡ true
  contains_second =
      a (split_segment s).1.id second_class
      ∙ contains-leaves l r s (split_segment s).1.id
      ∙ ap
          (λ (b : Bool).
            contains (ids_of (leaves l (split_segment s).0)) (split_segment s).1.id || b)
          (contains_first r (split_segment s).1)
      ∙ ground arith

  is_split_node : is_split ids s ≡ true
  unfolding is_split
  is_split_node =
      rw (contains_second, lt→ltb s.mask (2 ^ 30) (omega (arith, d.mask, mask_of_mono k 30))) refl

&&-second : (a b : Bool) → (a && b) ≡ true → b ≡ true
&&-second a b h = ground arith

contains_of_is_split :
    (ids : List ℕ) (s : Segment)
    → is_split ids s ≡ true
    → contains ids (split_segment s).1.id ≡ true
unfolding is_split
contains_of_is_split ids s e = &&-second (ltb s.mask (2 ^ 30)) _ e

single-second : (s : Segment) → contains (s.id ∷ []) (split_segment s).1.id ≡ false
unfolding split_segment
single-second s = ground arith

not_split_leaf :
    (k : ℕ) (s : Segment) (ids : List ℕ)
    → IsAtDepth k s
    → Agrees k ids leaf s
    → is_split ids s ≡ false
not_split_leaf k s ids d a = elim (Bool-cases (is_split ids s)) [
  | inl e ↦
      let d₁ = (split-IsAtDepth k s d (depth_of_is_split k ids s d e)).1 in
      let same = a (split_segment s).1.id (class_second k s d _ (low_of_le (suc k) _ d₁.id)) in
      absurd (false≢true (sym (single-second s) ∙ sym same ∙ contains_of_is_split ids s e))
  | inr e ↦ e
]

walk-leaves :
    (t : Splits) (fuel k : ℕ) (s : Segment) (ids : List ℕ)
    → IsAtDepth k s
    → height t + k ≤ 31
    → 32 ≤ fuel + k
    → Agrees k ids t s
    → walk fuel ids s ≡ some (leaves t s)
walk-leaves t zero k s ids d h f a = absurd (omega (arith, d.depth))
walk-leaves leaf (suc fuel) k s ids d h f a = walk_leaf fuel ids s (not_split_leaf k s ids d a)
walk-leaves (node l r) (suc fuel) k s ids d h f a =
    let (d₀, d₁) = halves l r k s ids d h a in
    walk_split fuel ids s (is_split_node l r k s ids d h a)
    ∙ ap₂ both
        (walk-leaves l fuel (suc k) (split_segment s).0 ids d₀ (omega arith) (omega arith)
          (Agrees-first l r k s ids d h a))
        (walk-leaves r fuel (suc k) (split_segment s).1 ids d₁ (omega arith) (omega arith)
          (Agrees-second l r k s ids d h a))

-- From token rows whose ids are, in any order and as often as may be, those of the segments that
-- some splits left, none more than 31 deep, `segmentsOf` returns these segments, sorted by id.
pub segments_of-leaves :
    (t : Splits) (ids : List ℕ)
    → height t ≤ 31
    → ((x : ℕ) → contains ids x ≡ contains (ids_of (leaves t whole)) x)
    → segments_of ids ≡ some (sort (leaves t whole))
unfolding segments_of
segments_of-leaves t [] h a = absurd (false≢true (a (whole.id) ∙ contains_first t whole))
segments_of-leaves t (i ∷ ids) h a =
    rw (walk-leaves t 32 0 whole (i ∷ ids) whole-IsAtDepth (omega arith) (omega arith) (λ x _. a x))
      refl
