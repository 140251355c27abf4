-- ===== src/Tests/Focus.antt =====
-- Decisions on the nodes of the octree of the root and its octants.
use cornerstone_octree.Tree.Linked.{containing_node}
use cornerstone_octree.Primitives.Clz.{count_leading_zeros, leading_zeros, count_trailing_zeros}
use cornerstone_octree.Base.{
  ℕ, ◌+◌, ◌-◌, ◌*◌, ◌/◌, ◌^◌, ◌≤◌, ◌<◌, ◌≡◌, ◌≢◌, refl, arith, false, ◌==◌, ltb, if◌then◌else◌,
  List, [], ◌∷◌, ◌!◌, inr, replicate, min,
}
use cornerstone_octree.Key.{u32, n_nodes, shl_key, add_key, mul_key}
use cornerstone_octree.Sfc.Range.{last_nz_place, node_range, octal_digit}
use cornerstone_octree.Sfc.Prefix.{decode_prefix_length, decode_placeholder_bit, make_prefix}
use cornerstone_octree.Focus.Rebalance.{
  merge_count_and_mac_op, refine_op, merges_node, nz_ancestor_op, protect_ancestors,
}
use cornerstone_octree.Focus.Rebalance.Decision.{IsDecided, merge_count_and_mac_op-decides}
use cornerstone_octree.Focus.Rebalance.Protect.{
  ParentsBelow, Nearest, start_key, nz_ancestor_op-Nearest,
}
use cornerstone_octree.Focus.Rebalance.Interleaving.{visits, all_one, protect_ancestors-decided}
use cornerstone_octree.Focus.Enforce.{enforce_key_single, enforce_keys, converged, failed}
use cornerstone_octree.Focus.Enforce.Ancestors.{Ancestor, direct}
use cornerstone_octree.Focus.Enforce.Keys.{
  IsMissing, closest, IsSettled, enforce_key_single-splits, enforce_key_single-children,
  enforce_keys-converged,
}
use cornerstone_octree.Traversal.Overlap.{overlap_two_ranges}
use cornerstone_octree.Focus.RangeCount.{range_count}
use cornerstone_octree.Focus.RangeCount.Sum.{range_count-sum}
use cornerstone_octree.Domain.Decomposition.Sums.{sum_first}
use cornerstone_octree.Tests.{sample, sample-IsOctree}
use cornerstone_octree.Tests.Linked.{octants}

abbrev child_offsets : List ℕ
child_offsets = 1 ∷ replicate 8 0

abbrev parents : List ℕ
parents = 0 ∷ []

abbrev counts : List ℕ
counts = 100 ∷ 5 ∷ 5 ∷ 70 ∷ 4 ∷ 4 ∷ 4 ∷ 4 ∷ 4 ∷ []

parents-ParentsBelow : ParentsBelow parents 9
parents-ParentsBelow i some h = let first : (i - 1) / 8 ≡ 0 = omega arith in rw first some

octants_end :
    decode_placeholder_bit u32 (octants ! 0)
      + 8 * node_range u32 (decode_prefix_length u32 (octants ! 3) / 3)
    < 2 ^ 32
unfolding decode_prefix_length decode_placeholder_bit shl_key count_leading_zeros leading_zeros
    node_range
octants_end = omega arith

merge_count_and_mac_op-decides_example :
    IsDecided u32 3 octants child_offsets parents counts (replicate 9 1) 0 (8 ^ 10) 1
merge_count_and_mac_op-decides_example =
    merge_count_and_mac_op-decides u32 3 octants child_offsets parents counts (replicate 9 1) 0
      (8 ^ 10) 1 (omega arith) (omega arith) (λ h. octants_end)

-- Node 3 holds 70 keys, more than 64 buckets of one key.
merge_count_and_mac_op_test :
    merge_count_and_mac_op u32 3 octants child_offsets parents counts (replicate 9 1) 0 (8 ^ 10) 1
    ≡ 64
unfolding merge_count_and_mac_op refine_op merges_node overlap_two_ranges decode_prefix_length
    decode_placeholder_bit shl_key count_leading_zeros leading_zeros node_range add_key mul_key
merge_count_and_mac_op_test = refl

abbrev ops : List ℕ
ops = 1 ∷ 0 ∷ 1 ∷ 0 ∷ 8 ∷ 1 ∷ 1 ∷ 1 ∷ 1 ∷ []

nz_ancestor_op-Nearest_example :
    (a : ℕ) × Nearest parents ops 3 a
    × (ops ! a ≢ 0)
    × (nz_ancestor_op u32 3 octants parents ops
        ≡ (if start_key u32 octants 3 == start_key u32 octants a then ops ! a else 0))
nz_ancestor_op-Nearest_example =
    nz_ancestor_op-Nearest u32 octants parents 9 parents-ParentsBelow ops 3 (omega arith)
      (omega arith)

abbrev backwards : List ℕ
backwards = 8 ∷ 7 ∷ 6 ∷ 5 ∷ 4 ∷ 3 ∷ 2 ∷ 1 ∷ 0 ∷ []

backwards-visits : (i : ℕ) → visits backwards i ≡ ltb i 9
backwards-visits i = ground arith

protect_ancestors-decided_example :
    ((protect_ancestors u32 octants parents backwards ops).0 ! 3
      ≡ nz_ancestor_op u32 3 octants parents ops)
    × ((protect_ancestors u32 octants parents backwards ops).1
        ≡ all_one (λ i. nz_ancestor_op u32 i octants parents ops) backwards)
protect_ancestors-decided_example =
    protect_ancestors-decided u32 octants parents ops 9 parents-ParentsBelow (omega arith) backwards
      3 refl backwards-visits (omega arith)

protect_ancestors_test :
    protect_ancestors u32 octants parents backwards ops
    ≡ (1 ∷ 1 ∷ 1 ∷ 0 ∷ 8 ∷ 1 ∷ 1 ∷ 1 ∷ 1 ∷ [], false)
unfolding protect_ancestors nz_ancestor_op decode_placeholder_bit shl_key count_leading_zeros
    leading_zeros
protect_ancestors_test = refl

-- A key three levels down.
abbrev deep : ℕ
deep = 3 * 8 ^ 9 + 5 * 8 ^ 7

deep-IsMissing : IsMissing u32 deep octants child_offsets
unfolding containing_node make_prefix decode_prefix_length shl_key count_leading_zeros last_nz_place
    count_trailing_zeros leading_zeros octal_digit decode_placeholder_bit
deep-IsMissing = (omega arith, omega arith)

enforce_key_single-splits_example :
    8
    ≤ (enforce_key_single u32 deep octants child_offsets parents ops).1
      ! closest u32 deep octants child_offsets
unfolding node_range containing_node decode_prefix_length count_leading_zeros make_prefix shl_key
    last_nz_place count_trailing_zeros leading_zeros octal_digit decode_placeholder_bit
enforce_key_single-splits_example =
    enforce_key_single-splits u32 deep octants child_offsets parents ops (omega arith, omega arith)
      (omega arith) (omega arith) deep-IsMissing

deep-Ancestor : Ancestor parents (closest u32 deep octants child_offsets) 0
unfolding containing_node decode_prefix_length count_leading_zeros make_prefix shl_key last_nz_place
    count_trailing_zeros leading_zeros octal_digit decode_placeholder_bit
deep-Ancestor = direct (omega arith)

enforce_key_single-children_example :
    (enforce_key_single u32 deep octants child_offsets parents ops).1 ! (child_offsets ! 0 + 2) ≢ 0
unfolding node_range containing_node decode_prefix_length count_leading_zeros make_prefix shl_key
    last_nz_place count_trailing_zeros leading_zeros octal_digit decode_placeholder_bit
enforce_key_single-children_example =
    enforce_key_single-children u32 deep octants child_offsets parents ops
      (omega arith, omega arith) 9 2 0 parents-ParentsBelow deep-Ancestor (inr deep-IsMissing)
      (omega arith) (omega arith) (omega arith)

enforce_keys_test :
    enforce_keys u32 (0 ∷ deep ∷ []) octants child_offsets parents ops
    ≡ (failed, 1 ∷ 1 ∷ 1 ∷ 1 ∷ 8 ∷ 1 ∷ 1 ∷ 1 ∷ 1 ∷ [])
unfolding enforce_keys node_range containing_node decode_prefix_length count_leading_zeros
    make_prefix shl_key last_nz_place count_trailing_zeros leading_zeros octal_digit
    decode_placeholder_bit
enforce_keys_test = refl

enforce_keys-converged_example :
    ((enforce_keys u32 (0 ∷ 2 * 8 ^ 9 ∷ []) octants child_offsets parents (replicate 9 1)).1
      ≡ replicate 9 1)
    × IsSettled u32 octants child_offsets parents (replicate 9 1) ((0 ∷ 2 * 8 ^ 9 ∷ []) ! 1)
unfolding enforce_keys node_range containing_node decode_prefix_length count_leading_zeros
    make_prefix shl_key last_nz_place count_trailing_zeros leading_zeros octal_digit
    decode_placeholder_bit
enforce_keys-converged_example =
    enforce_keys-converged u32 octants child_offsets parents (replicate 9 1) (0 ∷ 2 * 8 ^ 9 ∷ []) 1
      done (omega arith)
  where
    done :
        (enforce_keys u32 (0 ∷ 2 * 8 ^ 9 ∷ []) octants child_offsets parents (replicate 9 1)).0
        ≡ converged
    done = refl

range_count-sum_example :
    range_count sample (replicate 15 3) (0 ∷ 8 ^ 9 ∷ 8 ^ 10 ∷ []) (1 ∷ 0 ∷ []) (replicate 2 0)
      ! ((1 ∷ 0 ∷ []) ! 1)
    ≡ min 0xFFFF_FFFF (sum_first (replicate 15 3) 8 - sum_first (replicate 15 3) 0)
unfolding n_nodes
range_count-sum_example =
    range_count-sum u32 sample (replicate 15 3) (0 ∷ 8 ^ 9 ∷ 8 ^ 10 ∷ []) (1 ∷ 0 ∷ [])
      (replicate 2 0) 1 0 8 sample-IsOctree (omega arith) (omega arith) (omega arith) refl refl
      (omega arith) (omega arith) (omega arith)
