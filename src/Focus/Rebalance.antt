-- ===== src/Focus/Rebalance.antt =====
-- include/cstone/focus/rebalance.hpp: the decisions on the nodes of a focused octree. An operation is 0 to
-- merge a node, 1 to keep it, and a power of 8 to split it.
pub mod Depth
pub mod Decision
pub mod Protect
pub mod Interleaving
use cornerstone_octree.Base.{
  ℕ, zero, suc, ◌+◌, ◌-◌, ◌*◌, ◌/◌, ◌%◌, ◌^◌, Bool, true, false, not, ◌&&◌, ◌||◌, ◌==◌, ltb, leb,
  if◌then◌else◌, List, [], ◌∷◌, length, set, ◌!◌, min, max,
}
use cornerstone_octree.Base.Int.{ℤ, pos, pos_part, sub_ℕ, ltb_ℤ, min_ℤ}
use cornerstone_octree.Base.Loops.{fill}
use cornerstone_octree.Key.{KeyType, u32, max_tree_level, add_key, mul_key}
use cornerstone_octree.Sfc.Range.{node_range, last_nz_place}
use cornerstone_octree.Sfc.Prefix.{decode_prefix_length, decode_placeholder_bit, make_prefix}
use cornerstone_octree.Traversal.Overlap.{overlap_two_ranges}
use cornerstone_octree.Tree.Counts.{find_node_above, find_node_below}
use cornerstone_octree.Tree.Linked.{containing_node}

-- The tests of `mergeCountAndMacOp` that split a leaf; `4096 * bucketSize` is a product of `unsigned`.
unfoldable pub refine_op : KeyType → ℕ → ℕ → ℕ → ℕ
refine_op k level count bucket_size =
    if ltb (level + 3) (max_tree_level k) && ltb (mul_key u32 4096 bucket_size) count
    then 4096
    else if ltb (level + 2) (max_tree_level k) && ltb (mul_key u32 512 bucket_size) count
    then 512
    else if ltb (level + 1) (max_tree_level k) && ltb (mul_key u32 64 bucket_size) count
    then 64
    else if ltb level (max_tree_level k) && ltb bucket_size count
    then 8
    else 1

-- Its test that merges a node which is not the root.
unfoldable pub merges_node : KeyType → ℕ → ℕ → List ℕ → List ℕ → List ℕ → ℕ → ℕ → ℕ → Bool
unfolding overlap_two_ranges
merges_node k parent level node_keys counts macs focus_start focus_end bucket_size =
    let count_merge = leb (counts ! parent) bucket_size in
    let mac_merge = macs ! parent == 0 in
    let first_group_key = decode_placeholder_bit k (node_keys ! parent) in
    let last_group_key = add_key k first_group_key (mul_key k 8 (node_range k level)) in
    let in_fringe = overlap_two_ranges first_group_key last_group_key focus_start focus_end in
    count_merge || (mac_merge && not in_fringe)

-- `mergeCountAndMacOp`.
unfoldable pub merge_count_and_mac_op :
    KeyType → ℕ → List ℕ → List ℕ → List ℕ → List ℕ → List ℕ → ℕ → ℕ → ℕ → ℕ
unfolding refine_op merges_node
merge_count_and_mac_op k i node_keys child_offsets parents counts macs focus_start focus_end
      bucket_size =
    let parent = if i == 0 then 0 else parents ! ((i - 1) / 8) in
    let level = decode_prefix_length k (node_keys ! i) / 3 in
    let node_start = decode_placeholder_bit k (node_keys ! i) in
    let is_leaf = child_offsets ! i == 0 in
    let in_focus = leb focus_start node_start && ltb node_start focus_end in
    if not (i == 0)
      && merges_node k parent level node_keys counts macs focus_start focus_end bucket_size
    then 0
    else if is_leaf && (not (macs ! i == 0) || in_focus)
    then refine_op k level (counts ! i) bucket_size
    else 1

-- `macRefineOp`.
unfoldable pub mac_refine_op : KeyType → ℕ → ℕ → ℕ
mac_refine_op k node_key mac =
    let level = decode_prefix_length k node_key / 3 in
    if ltb level (max_tree_level k) && not (mac == 0) then 8 else 1

-- `rebalanceDecisionEssential`.
unfoldable pub rebalance_decision_essential :
    KeyType → List ℕ → List ℕ → List ℕ → List ℕ → List ℕ → ℕ → ℕ → ℕ → List ℕ → List ℕ
rebalance_decision_essential k node_keys child_offsets parents counts macs focus_start focus_end
      bucket_size node_ops =
    fill (length node_keys) 0
      (λ i.
        merge_count_and_mac_op k i node_keys child_offsets parents counts macs focus_start focus_end
          bucket_size)
      node_ops

-- The loop of `nzAncestorOp`. A parent stands before its children, so as many rounds as the index of the
-- node are enough to reach the root.
unfoldable pub closest_non_zero : List ℕ → List ℕ → ℕ → ℕ → ℕ
closest_non_zero parents node_ops zero i = i
closest_non_zero parents node_ops (suc fuel) i = elim (node_ops ! i == 0) [
  | true ↦ closest_non_zero parents node_ops fuel (parents ! ((i - 1) / 8))
  | false ↦ i
]

-- `nzAncestorOp`.
unfoldable pub nz_ancestor_op : KeyType → ℕ → List ℕ → List ℕ → List ℕ → ℕ
unfolding closest_non_zero
nz_ancestor_op k i prefixes parents node_ops =
    if i == 0
    then node_ops ! 0
    else (let closest = closest_non_zero parents node_ops i i in
        if decode_placeholder_bit k (prefixes ! i) == decode_placeholder_bit k (prefixes ! closest)
        then node_ops ! closest
        else 0)

-- The loop of `protectAncestors` over nodes in some order; the operations and the number of changes.
unfoldable pub protect_loop : KeyType → List ℕ → List ℕ → List ℕ → List ℕ × ℕ → List ℕ × ℕ
protect_loop k node_keys parents [] s = s
protect_loop k node_keys parents (i ∷ order) (node_ops, num_changes) =
    let op_decision = nz_ancestor_op k i node_keys parents node_ops in
    protect_loop k node_keys parents order
      (set node_ops i op_decision, (if op_decision == 1 then num_changes else num_changes + 1))

-- `protectAncestors`, whose threads take the nodes in the order `order`.
unfoldable pub protect_ancestors : KeyType → List ℕ → List ℕ → List ℕ → List ℕ → List ℕ × Bool
unfolding protect_loop
protect_ancestors k node_keys parents order node_ops =
    let (ops, num_changes) = protect_loop k node_keys parents order (node_ops, 0) in
    (ops, num_changes == 0)
