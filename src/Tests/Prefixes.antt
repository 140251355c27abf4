-- ===== src/Tests/Prefixes.antt =====
-- Runs of the functions on prefixes and ranges of keys, and their properties at concrete keys.
use cornerstone_octree.Base.{ℕ, ◌*◌, ◌^◌, ◌<◌, ◌≡◌, refl, arith, List, [], ◌∷◌, length, ◌!◌}
use cornerstone_octree.Key.{u32, add_key, shl_key}
use cornerstone_octree.Primitives.Clz.{count_leading_zeros, leading_zeros, count_trailing_zeros}
use cornerstone_octree.Primitives.Search.Splits.{IsSortedIn}
use cornerstone_octree.Sfc.Range.{octal_digit, octal_power, last_nz_place}
use cornerstone_octree.Sfc.Prefix.{encode_placeholder_bit}
use cornerstone_octree.Sfc.Span.{span_digits, span_up, span_down, span_sfc_range}
use cornerstone_octree.Sfc.Span.Loops.{IsRun}
use cornerstone_octree.Sfc.Span.Cover.{span_sfc_range-IsRun}
use cornerstone_octree.Tree.Leaves.{IsOctree}
use cornerstone_octree.Tree.Spanning.{compute_spanning_tree}
use cornerstone_octree.Tree.Spanning.Covered.{
  compute_spanning_tree-IsOctree, compute_spanning_tree_keys,
}
use cornerstone_octree.Tests.{ascending→IsSortedIn}

-- The example of the comment on `encodePlaceholderBit`: octal 06350000000 gives 01635.
encode_run : encode_placeholder_bit u32 866123776 9 ≡ 925
unfolding encode_placeholder_bit shl_key
encode_run = refl

-- The example of the comment on `spanSfcRange`, in the last places of a 32-bit key: from octal 1 to 742.
span_run : (span_sfc_range u32 1 482).0 ≡ 26
unfolding span_sfc_range span_up span_down span_digits count_leading_zeros leading_zeros
    count_trailing_zeros octal_digit octal_power last_nz_place add_key shl_key
span_run = refl

span_sfc_range-IsRun_example :
    IsRun u32 1 (span_sfc_range u32 1 482) × ((span_sfc_range u32 1 482).2 ≡ 482)
span_sfc_range-IsRun_example = span_sfc_range-IsRun u32 1 482 (omega arith) (omega arith)

abbrev splitters : List ℕ
splitters = 0 ∷ 8 ^ 7 ∷ 8 ^ 7 ∷ 3 * 8 ^ 9 ∷ 8 ^ 10 ∷ []

splitters-IsSortedIn : IsSortedIn splitters 0 5
splitters-IsSortedIn = ascending→IsSortedIn splitters refl

compute_spanning_tree-IsOctree_example : IsOctree u32 (compute_spanning_tree u32 splitters)
compute_spanning_tree-IsOctree_example =
    compute_spanning_tree-IsOctree u32 splitters (omega arith) refl refl splitters-IsSortedIn

compute_spanning_tree_keys_example :
    (j : ℕ) × (j < length (compute_spanning_tree u32 splitters))
    × (compute_spanning_tree u32 splitters ! j ≡ splitters ! 1)
compute_spanning_tree_keys_example =
    compute_spanning_tree_keys u32 splitters (omega arith) refl refl splitters-IsSortedIn 1
      (omega arith)
