-- ===== src/Segment/Tests.antt =====
-- The segment theorems at the segments that two splits make.
use kronos_ts.Common.{ℕ, ◌≡◌, ◌≢◌, refl, some, List, [], ◌∷◌, count, arith}
use kronos_ts.Common.Int.{pos}
use kronos_ts.Segment.{
  Segment, whole, split_segment, mergeable_segment_id, segments_of, in_segment, sort, walk,
  is_split,
}
use kronos_ts.Segment.Tree.{mergeable_segment_id-split, whole-IsAtDepth}
use kronos_ts.Segment.Partition.{segments_of_partition}
use kronos_ts.Segment.Recover.{leaf, node, leaves, segments_of-leaves}

-- The rows 0, 1 and 3 belong to a processor that split its segment and then the second half.
three_rows :
    segments_of (0 ∷ 1 ∷ 3 ∷ [])
    ≡ some (
        record { id = 0; mask = 1 }
        ∷ record { id = 1; mask = 3 }
        ∷ record { id = 3; mask = 3 }
        ∷ [])
unfolding segments_of walk is_split
three_rows = refl

cons-not-nil : {x : ℕ} {xs : List ℕ} → x ∷ xs ≢ []
cons-not-nil {x} {xs} h = cc

segments_of_partition_example :
    (found : List Segment) × (segments_of (0 ∷ 1 ∷ 3 ∷ []) ≡ some found)
    × ((hash : ℕ) → count (λ s. in_segment s hash) found ≡ 1)
segments_of_partition_example = segments_of_partition (0 ∷ 1 ∷ 3 ∷ []) cons-not-nil

segments_of-leaves_example :
    segments_of (0 ∷ 1 ∷ 3 ∷ []) ≡ some (sort (leaves (node leaf (node leaf leaf)) whole))
segments_of-leaves_example =
    segments_of-leaves (node leaf (node leaf leaf)) (0 ∷ 1 ∷ 3 ∷ []) (omega arith)
      (unfold split_segment in λ x. refl)

mergeable_segment_id-split_example :
    (mergeable_segment_id (split_segment whole).0 ≡ pos (split_segment whole).1.id)
    × (mergeable_segment_id (split_segment whole).1 ≡ pos (split_segment whole).0.id)
mergeable_segment_id-split_example =
    mergeable_segment_id-split 0 whole whole-IsAtDepth (omega arith)
