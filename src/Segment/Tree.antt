-- ===== src/Segment/Tree.antt =====
-- The segments that splits make, by their depth, and the arithmetic of membership.
use kronos_ts.Common.{
  ℕ, zero, suc, ◌+◌, ◌*◌, ◌/◌, ◌%◌, ◌^◌, ◌≤◌, ◌<◌, bit_and, bit_xor, ◌≡◌, ap, ◌∙◌, false, ◌||◌,
  ◌==◌, if◌then◌else◌, arith,
}
use kronos_ts.Common.Int.{pos, eqbℤ, int32, word}
use kronos_ts.Common.Bits.{
  mask_of, low, digit, low_top, digit_bound, low-le-mask, mask_of_mono, bit_and-mask_of,
  mask_of-bit_xor, bit_xor_set, bit_xor_clear,
}
use kronos_ts.Segment.{Segment, split_segment, mergeable_segment_id, in_segment, whole}

-- A segment that k splits lead to.
pub record IsAtDepth (k : ℕ) (s : Segment) : Type 0 where
  pub mask : s.mask ≡ mask_of k
  pub id : s.id ≤ mask_of k
  pub depth : k ≤ 31

pub whole-IsAtDepth : IsAtDepth 0 whole
whole-IsAtDepth = omega arith

pub mask_lt : (k : ℕ) → k ≤ 31 → mask_of k < 2 ^ 31
mask_lt k h = omega (arith, mask_of_mono k 31 h)

int32-small : (w : ℕ) → w < 2 ^ 31 → int32 w ≡ pos w
int32-small w h = ground arith

mask_of-mod : (k : ℕ) → k ≤ 31 → mask_of k % word ≡ mask_of k
mask_of-mod k h = omega (arith, mask_lt k h)

masked : (k hash : ℕ) → k ≤ 31 → int32 (bit_and hash (mask_of k % word)) ≡ pos (low k hash)
masked k hash h =
    rw (mask_of-mod k h, bit_and-mask_of k hash)
      (int32-small (low k hash) (omega (arith, low-le-mask k hash, mask_lt k h)))

mask_of-zero : (k : ℕ) → (mask_of (suc k) == 0) ≡ false
mask_of-zero k = ground arith

in_low :
    (k id hash : ℕ)
    → k ≤ 31
    → id ≤ mask_of k
    → (mask_of k == 0 || eqbℤ (int32 (bit_and hash (mask_of k % word))) (pos id))
      ≡ (low k hash == id)
in_low zero id hash h p = ground arith
in_low (suc k) id hash h p = rw (mask_of-zero k, masked (suc k) hash h) (ground arith)

-- Membership reads the k low digits of the hash.
pub in_segment-low :
    (k : ℕ) (s : Segment) (hash : ℕ)
    → IsAtDepth k s
    → in_segment s hash ≡ (low k (hash % word) == s.id)
unfolding in_segment
in_segment-low k s hash d = rw (d.mask) (in_low k s.id (hash % word) d.depth d.id)

pub split-IsAtDepth :
    (k : ℕ) (s : Segment)
    → IsAtDepth k s
    → k < 31
    → IsAtDepth (suc k) (split_segment s).0 × IsAtDepth (suc k) (split_segment s).1
unfolding split_segment
split-IsAtDepth k s d h = omega arith

b2n_split :
    (m id d l : ℕ)
    → d ≤ 1
    → l ≤ m
    → id ≤ m
    → (if l + d * (m + 1) == id then 1 else 0) + (if l + d * (m + 1) == id + m + 1 then 1 else 0)
      ≡ (if l == id then 1 else 0)
b2n_split m id zero l hd hl hi = ground arith
b2n_split m id (suc zero) l hd hl hi = ground arith
b2n_split m id (suc (suc d)) l hd hl hi = absurd (omega arith)

-- For a segment less than 31 splits below the whole, a hash is in one half of a split if it was in the segment, and in neither if it was not.
pub split-in_segment :
    (k : ℕ) (s : Segment) (hash : ℕ)
    → IsAtDepth k s
    → k < 31
    → (if in_segment (split_segment s).0 hash then 1 else 0)
        + (if in_segment (split_segment s).1 hash then 1 else 0)
      ≡ (if in_segment s hash then 1 else 0)
split-in_segment k s hash d h =
    let (d₀, d₁) = split-IsAtDepth k s d h in
    rw
      (
        in_segment-low k s hash d,
        in_segment-low (suc k) (split_segment s).0 hash d₀,
        in_segment-low (suc k) (split_segment s).1 hash d₁,
      )
      (unfold split_segment in
        rw (low_top k (hash % word), d.mask)
          (b2n_split (mask_of k) s.id (digit k (hash % word)) (low k (hash % word))
            (digit_bound k (hash % word)) (low-le-mask k (hash % word)) d.id))

small-mod : (k x : ℕ) → k ≤ 31 → x ≤ mask_of k → x % word ≡ x
small-mod k x h p = omega (arith, mask_lt k h)

parent_mask : (k : ℕ) → k < 31 → (mask_of (suc k) % word) / 2 ≡ mask_of k
parent_mask k h = rw (mask_of-mod (suc k) h) (omega arith)

merge_lem :
    (k id : ℕ)
    → k < 31
    → id ≤ mask_of (suc k)
    → int32 (bit_xor (id % word) (bit_xor (mask_of (suc k) % word) ((mask_of (suc k) % word) / 2)))
      ≡ int32 (bit_xor id (mask_of k + 1))
merge_lem k id h p =
    rw (parent_mask k h, mask_of-mod (suc k) h, mask_of-bit_xor k, small-mod (suc k) id h p)

-- For a segment less than 31 splits below the whole, each half of a split names the other as the segment to merge with.
pub mergeable_segment_id-split :
    (k : ℕ) (s : Segment)
    → IsAtDepth k s
    → k < 31
    → (mergeable_segment_id (split_segment s).0 ≡ pos (split_segment s).1.id)
      × (mergeable_segment_id (split_segment s).1 ≡ pos (split_segment s).0.id)
unfolding mergeable_segment_id split_segment
mergeable_segment_id-split k s d h = rw d.mask (
  merge_lem k s.id h (omega arith)
      ∙ ap int32 (bit_xor_set k s.id d.id)
      ∙ int32-small _ (omega (arith, mask_lt (suc k) h))
      ∙ ap pos (omega arith),
  merge_lem k (s.id + mask_of k + 1) h (omega arith)
      ∙ ap (λ (x : ℕ). int32 (bit_xor x (mask_of k + 1))) sum
      ∙ ap int32 (bit_xor_clear k s.id d.id)
      ∙ int32-small _ (omega (arith, mask_lt (suc k) h)),
)
  where
    sum : s.id + mask_of k + 1 ≡ s.id + (mask_of k + 1)
    sum = omega arith
