-- ===== src/Tree/Csarray.antt =====
-- include/cstone/tree/csarray.hpp: the rebalance step of a cornerstone leaf array. Keys are native
-- numbers below the modulus of their type; `TreeNodeIndex` is a native number, so sizes are
-- taken to fit an `int`.
pub mod Siblings
pub mod Groups
pub mod Reads
pub mod Decision
pub mod Pieces
pub mod Rebalance
pub mod Valid
pub mod Step
pub mod Converged
use cornerstone_octree.Base.{
  ℕ, zero, suc, ◌+◌, ◌-◌, ◌*◌, ◌≤◌, ◌<◌, Bool, true, false, ◌&&◌, ◌==◌, ltb, leb, if◌then◌else◌,
  List, [], ◌∷◌, length, set, resize, replicate, ◌!◌, Option, none, some,
}
use cornerstone_octree.Base.Loops.{fill, exclusive_scan}
use cornerstone_octree.Key.{KeyType, u32, max_tree_level, add_key, sub_key, mul_key, n_nodes}
use cornerstone_octree.Sfc.Range.{node_range, tree_level, octal_digit, log8ceil}

-- `siblingAndLevel`: `none` is the sibling index -1.
unfoldable pub sibling_and_level : KeyType → List ℕ → ℕ → Option ℕ × ℕ
sibling_and_level k tree i =
    let this_node = tree ! i in
    let level = tree_level k (sub_key k (tree ! (i + 1)) this_node) in
    let sibling = octal_digit k this_node level in
    let siblings =
      tree ! (i - sibling + 8) == add_key k (tree ! (i - sibling)) (node_range k (level - 1)) in
    if level == 0 then (none, level) else if siblings then (some sibling, level) else (none, level)

-- The sum of the eight counts of a sibling group, in `size_t`.
unfoldable pub parent_count : List ℕ → ℕ → ℕ
parent_count counts g =
    counts ! g
    + counts ! (g + 1)
    + counts ! (g + 2)
    + counts ! (g + 3)
    + counts ! (g + 4)
    + counts ! (g + 5)
    + counts ! (g + 6)
    + counts ! (g + 7)

-- The first test of `calculateNodeOp`: may the node be merged into its parent?
unfoldable pub merges : Option ℕ → ℕ → List ℕ → ℕ → Bool
unfolding parent_count
merges none i counts bucket = false
merges (some zero) i counts bucket = false
merges (some (suc s)) i counts bucket = leb (parent_count counts (i - suc s)) bucket

-- The tests of `calculateNodeOp` that split; `bucketSize * 512` is a product of `unsigned`.
unfoldable pub split_op : KeyType → ℕ → ℕ → ℕ → ℕ
split_op k level count bucket =
    if ltb (mul_key u32 bucket 512) count && ltb (level + 3) (max_tree_level k)
    then 4096
    else if ltb (mul_key u32 bucket 64) count && ltb (level + 2) (max_tree_level k)
    then 512
    else if ltb (mul_key u32 bucket 8) count && ltb (level + 1) (max_tree_level k)
    then 64
    else if ltb bucket count && ltb level (max_tree_level k)
    then 8
    else 1

-- `calculateNodeOp`: 0 to merge, 1 to keep, a power of eight to split.
unfoldable pub calculate_node_op : KeyType → List ℕ → ℕ → List ℕ → ℕ → ℕ
unfolding merges split_op
calculate_node_op k tree i counts bucket =
    let (sibling, level) = sibling_and_level k tree i in
    if merges sibling i counts bucket then 0 else split_op k level (counts ! i) bucket

-- `rebalanceDecision`: the threads together report whether every decision in [i, i + n) is 1.
unfoldable pub all_keep : ℕ → ℕ → (ℕ → ℕ) → Bool
all_keep zero i op = true
all_keep (suc n) i op = op i == 1 && all_keep n (i + 1) op

unfoldable pub rebalance_decision : KeyType → List ℕ → List ℕ → ℕ → ℕ → List ℕ → List ℕ × Bool
unfolding all_keep
rebalance_decision k tree counts n bucket node_ops =
    let op = λ (i : ℕ). calculate_node_op k tree i counts bucket in
    (fill n 0 op node_ops, all_keep n 0 op)

-- The loops of `processNode`: `newTree[newNodeIndex + sibling] = thisNode + sibling * range`.
unfoldable pub write_siblings : KeyType → ℕ → ℕ → ℕ → ℕ → ℕ → List ℕ → List ℕ
write_siblings k this_node range zero sibling new_index new_tree = new_tree
write_siblings k this_node range (suc left) sibling new_index new_tree =
    write_siblings k this_node range left (sibling + 1) new_index
      (set new_tree (new_index + sibling) (add_key k this_node (mul_key k sibling range)))

-- `processNode`, on the scanned opcodes.
unfoldable pub process_node : KeyType → ℕ → List ℕ → List ℕ → List ℕ → List ℕ
process_node k i old_tree node_ops new_tree =
    let this_node = old_tree ! i in
    let level = tree_level k (sub_key k (old_tree ! (i + 1)) this_node) in
    let op_code = node_ops ! (i + 1) - node_ops ! i in
    let new_index = node_ops ! i in
    if op_code == 1
    then set new_tree new_index this_node
    else if op_code == 8
    then write_siblings k this_node (node_range k (level + 1)) 8 0 new_index new_tree
    else if ltb 8 op_code
    then write_siblings k this_node (node_range k (level + log8ceil u32 op_code)) op_code 0
        new_index new_tree
    else new_tree

-- The loop of `rebalanceTree` over the old nodes.
unfoldable pub process_nodes : KeyType → ℕ → ℕ → List ℕ → List ℕ → List ℕ → List ℕ
process_nodes k zero i old_tree node_ops new_tree = new_tree
process_nodes k (suc left) i old_tree node_ops new_tree =
    process_nodes k left (i + 1) old_tree node_ops (process_node k i old_tree node_ops new_tree)

-- `rebalanceTree`: the new tree, and `nodeOps` overwritten by its scan.
unfoldable pub rebalance_tree : KeyType → List ℕ → List ℕ → List ℕ → List ℕ × List ℕ
rebalance_tree k tree new_tree node_ops =
    let num_nodes = n_nodes tree in
    let offsets = exclusive_scan 0 node_ops in
    let sized = resize new_tree (offsets ! num_nodes + 1) 0 in
    let written = process_nodes k num_nodes 0 tree offsets sized in
    (set written (length written - 1) (tree ! (length tree - 1)), offsets)

-- `updateTreelet`.
unfoldable pub update_treelet : KeyType → List ℕ → List ℕ → ℕ → List ℕ
update_treelet k treelet counts bucket =
    let node_ops = replicate (n_nodes treelet + 1) 0 in
    let (decided, _converged) =
      rebalance_decision k treelet counts (n_nodes treelet) bucket node_ops in
    (rebalance_tree k treelet [] decided).0
