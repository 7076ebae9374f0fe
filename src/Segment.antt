-- ===== src/Segment.antt =====
-- Segments of a processor's sequences: packages/core/src/event-processing/segment.ts.
-- Ids and masks are natural numbers; `&`, `^` and `>>>` work on their 32-bit patterns.
pub mod Tree
pub mod Partition
pub mod Recover
mod Tests
use kronos_ts.Common.{
  ℕ, zero, suc, ◌+◌, ◌*◌, ◌/◌, ◌%◌, ◌^◌, bit_and, bit_xor, Bool, ◌||◌, ◌&&◌, true, false, Option,
  none, some, List, [], ◌∷◌, ◌++◌, ltb, leb, ◌==◌, if◌then◌else◌, any,
}
use kronos_ts.Common.Int.{ℤ, pos, eqbℤ, int32, word}
use kronos_ts.Common.Text.{Text}

pub record Segment : Type 0 where
  pub id : ℕ
  pub mask : ℕ

abbrev pub whole : Segment
whole = record { id = 0; mask = 0 }

unfoldable pub split_segment : Segment → Segment × Segment
split_segment s =
    let mask = s.mask * 2 + 1 in
    (record { id = s.id; mask = mask }, record { id = s.id + s.mask + 1; mask = mask })

-- `segment.id ^ (segment.mask ^ parent)`, with `parent = segment.mask >>> 1`.
unfoldable pub mergeable_segment_id : Segment → ℤ
mergeable_segment_id s =
    let parent = (s.mask % word) / 2 in
    int32 (bit_xor (s.id % word) (bit_xor (s.mask % word) parent))

-- `new Set(ids).has(x)`
abbrev pub contains : List ℕ → ℕ → Bool
contains ids x = any (λ y. y == x) ids

-- The two results of a split, one list behind the other; `none` if one of them ran out of fuel.
abbrev pub both : Option (List Segment) → Option (List Segment) → Option (List Segment)
both (some xs) (some ys) = some (xs ++ ys)
both (some xs) none = none
both none ys = none

-- The test of `walk`: the segment is small enough to split, and the second half has a token row.
unfoldable pub is_split : List ℕ → Segment → Bool
unfolding split_segment
is_split ids s = ltb s.mask (2 ^ 30) && contains ids (split_segment s).1.id

-- The inner function `walk`, with the segments that it pushes as its result.
unfoldable pub walk : ℕ → List ℕ → Segment → Option (List Segment)
walk zero ids s = none
walk (suc fuel) ids s = elim (is_split ids s) [
  | true ↦ both (walk fuel ids (split_segment s).0) (walk fuel ids (split_segment s).1)
  | false ↦ some (s ∷ [])
]

-- `found.sort((a, b) => a.id - b.id)`, a stable sort.
abbrev pub insert : Segment → List Segment → List Segment
insert s [] = s ∷ []
insert s (x ∷ xs) = if leb s.id x.id then s ∷ x ∷ xs else x ∷ insert s xs

abbrev pub sort : List Segment → List Segment
sort [] = []
sort (x ∷ xs) = insert x (sort xs)

abbrev sorted : Option (List Segment) → Option (List Segment)
sorted none = none
sorted (some xs) = some (sort xs)

-- 31 splits lead from the mask 0 past 2^30, so 32 calls deep are enough.
unfoldable pub segments_of : List ℕ → Option (List Segment)
segments_of [] = some []
segments_of (i ∷ ids) = sorted (walk 32 (i ∷ ids) whole)

unfoldable pub in_segment : Segment → ℕ → Bool
in_segment s hash = s.mask == 0 || eqbℤ (int32 (bit_and (hash % word) (s.mask % word))) (pos s.id)

-- The loop of `sequenceHash`; the hash is a 32-bit pattern, which `>>> 0` reads as it stands.
unfoldable pub hash_units : ℕ → Text → ℕ
hash_units hash [] = hash
hash_units hash (c ∷ cs) = hash_units ((bit_xor hash c * 0x01000193) % word) cs

unfoldable pub sequence_hash : Text → ℕ
unfolding hash_units
sequence_hash id = hash_units 0x811c9dc5 id
