-- ===== src/Segment/Partition.antt =====
-- Whatever ids a processor has, its segments share out the hashes: each is in exactly one.
use kronos_ts.Common.{
  ℕ, zero, suc, ◌+◌, ◌^◌, ◌≤◌, ◌<◌, ◌≡◌, refl, ap, ap₂, ◌∙◌, Bool, true, false, ◌&&◌, ◌≢◌, Option,
  some, List, [], ◌∷◌, ◌++◌, if◌then◌else◌, arith, Bool-cases, inl, inr, count, count-append,
  ltb→lt,
}
use native.Mathlib.Decide.{dec_lt}
use kronos_ts.Common.Bits.{mask_of, mask_of_mono}
use kronos_ts.Segment.{
  Segment, whole, split_segment, in_segment, contains, both, is_split, walk, insert, sort,
  segments_of,
}
use kronos_ts.Segment.Tree.{IsAtDepth, whole-IsAtDepth, split-IsAtDepth, split-in_segment}

ltb_of_&& : (a b : Bool) → (a && b) ≡ true → a ≡ true
ltb_of_&& a b h = ground arith

mask_small : (k : ℕ) → mask_of k < 2 ^ 30 → k < 31
mask_small k h = elim (dec_lt k 31) [
  | yes p ↦ p
  | no p ↦ absurd (omega (arith, mask_of_mono 31 k (omega arith)))
]

-- The test of `walk` holds at depths below 31 only, so that the fuel 32 reaches every leaf.
pub depth_of_is_split :
    (k : ℕ) (ids : List ℕ) (s : Segment) → IsAtDepth k s → is_split ids s ≡ true → k < 31
unfolding is_split
depth_of_is_split k ids s d h =
    mask_small k
      (rw d.mask at (ltb→lt s.mask (2 ^ 30) (ltb_of_&& _ (contains ids (split_segment s).1.id) h)))

pub walk_split :
    (fuel : ℕ) (ids : List ℕ) (s : Segment)
    → is_split ids s ≡ true
    → walk (suc fuel) ids s
      ≡ both (walk fuel ids (split_segment s).0) (walk fuel ids (split_segment s).1)
unfolding walk
walk_split fuel ids s e = rw (e, walk)

pub walk_leaf :
    (fuel : ℕ) (ids : List ℕ) (s : Segment)
    → is_split ids s ≡ false
    → walk (suc fuel) ids s ≡ some (s ∷ [])
unfolding walk
walk_leaf fuel ids s e = rw (e, walk)

pub count-insert :
    (p : Segment → Bool) (s : Segment) (xs : List Segment)
    → count p (insert s xs) ≡ count p (s ∷ xs)
count-insert p s [] = refl
count-insert p s (x ∷ xs) = ground (arith, count-insert p s xs)

pub count-sort : (p : Segment → Bool) (xs : List Segment) → count p (sort xs) ≡ count p xs
count-sort p [] = refl
count-sort p (x ∷ xs) = omega (arith, count-insert p x (sort xs), count-sort p xs)

-- What `walk` finds below a segment: as many members for a hash as the segment itself is.
abbrev Shares : Segment → Option (List Segment) → Type 0
Shares s r =
    (found : List Segment) × (r ≡ some found)
    × ((hash : ℕ) → count (λ x. in_segment x hash) found ≡ (if in_segment s hash then 1 else 0))

walk-Shares :
    (fuel k : ℕ) (ids : List ℕ) (s : Segment)
    → IsAtDepth k s
    → 32 ≤ fuel + k
    → Shares s (walk fuel ids s)
walk-Shares zero k ids s d h = absurd (omega (arith, d.depth))
walk-Shares (suc fuel) k ids s d h = elim (Bool-cases (is_split ids s)) [
  | inl e ↦
      let lt = depth_of_is_split k ids s d e in
      let (d₀, d₁) = split-IsAtDepth k s d lt in
      let (xs, ex, hx) = walk-Shares fuel (suc k) ids (split_segment s).0 d₀ (omega arith) in
      let (ys, ey, hy) = walk-Shares fuel (suc k) ids (split_segment s).1 d₁ (omega arith) in
      (
        xs ++ ys,
        walk_split fuel ids s e ∙ ap₂ both ex ey,
        λ hash. omega (
          arith,
          count-append (λ x. in_segment x hash) xs ys,
          hx hash,
          hy hash,
          split-in_segment k s hash d lt,
        ),
      )
  | inr e ↦ (s ∷ [], walk_leaf fuel ids s e, λ hash. omega arith)
]

whole-in_segment : (hash : ℕ) → in_segment whole hash ≡ true
unfolding in_segment
whole-in_segment hash = refl

-- For a processor with at least one token row, whatever their ids, `segmentsOf` returns segments
-- of which every hash is in exactly one.
pub segments_of_partition :
    (ids : List ℕ)
    → ids ≢ []
    → (found : List Segment) × (segments_of ids ≡ some found)
      × ((hash : ℕ) → count (λ s. in_segment s hash) found ≡ 1)
unfolding segments_of
segments_of_partition [] h = absurd (h refl)
segments_of_partition (i ∷ ids) h =
    let (found, e, shares) = walk-Shares 32 0 (i ∷ ids) whole whole-IsAtDepth (omega arith) in
    (
      sort found,
      rw e refl,
      λ hash.
          count-sort (λ s. in_segment s hash) found
          ∙ shares hash
          ∙ ap (λ (b : Bool). if b then 1 else 0) (whole-in_segment hash),
    )
