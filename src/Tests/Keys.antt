-- ===== src/Tests/Keys.antt =====
-- Runs of the functions on keys, and the properties of keys and searches at concrete inputs.
use cornerstone_octree.Base.{ℕ, ◌^◌, ◌≡◌, refl, List, [], ◌∷◌, ◌↔◌, true}
use cornerstone_octree.Key.{u32, u64, n_nodes, sub_key}
use cornerstone_octree.Primitives.Clz.{count_leading_zeros, leading_zeros}
use cornerstone_octree.Primitives.Search.Splits.{IsSortedIn}
use cornerstone_octree.Sfc.Range.{is_power_of8, log8ceil, sub_unsigned}
use cornerstone_octree.Tree.Leaves.{IsOctree, check_octree_invariants}
use cornerstone_octree.Tree.Leaves.Check.{check_octree_invariants_iff}
use cornerstone_octree.Tree.Csarray.Siblings.{key-le}
use cornerstone_octree.Tests.{ascending→IsSortedIn, sample, sample-IsOctree}

-- A size that is no power of eight, and that `isPowerOf8` takes for one: its excess of leading
-- zeros over the unused bits wraps to a multiple of three.
beyond_range : is_power_of8 u32 (2 ^ 31) ≡ true
unfolding is_power_of8 count_leading_zeros sub_unsigned sub_key leading_zeros
beyond_range = refl

log8ceil_run : log8ceil u64 65 ≡ 3
unfolding log8ceil count_leading_zeros sub_unsigned sub_key leading_zeros
log8ceil_run = refl

abbrev sorted_keys : List ℕ
sorted_keys = 3 ∷ 5 ∷ 5 ∷ 5 ∷ 9 ∷ 12 ∷ []

sorted_keys-IsSortedIn : IsSortedIn sorted_keys 0 6
sorted_keys-IsSortedIn = ascending→IsSortedIn sorted_keys refl

check_octree_invariants_iff_example :
    (check_octree_invariants u32 sample (n_nodes sample) ≡ true) ↔ IsOctree u32 sample
check_octree_invariants_iff_example =
    check_octree_invariants_iff u32 sample (λ i h. key-le sample-IsOctree i h)
