-- ===== src/Focus/RangeCount.antt =====
-- include/cstone/focus/rebalance.hpp: the counts of focused leaves from those of a global tree.
pub mod Sum
use cornerstone_octree.Base.{ℕ, zero, suc, ◌+◌, ◌-◌, ◌%◌, ◌^◌, List, length, set, ◌!◌, min}
use cornerstone_octree.Base.Int.{pos_part}
use cornerstone_octree.Tree.Counts.{find_node_above, find_node_below}

-- `std::accumulate` of `left` counts from `i` on, into a `uint64_t`.
unfoldable pub accumulate : List ℕ → ℕ → ℕ → ℕ → ℕ
accumulate counts zero i acc = acc
accumulate counts (suc left) i acc = accumulate counts left (i + 1) ((acc + counts ! i) % 2 ^ 64)

-- The body of the loop of `rangeCount`; the source asserts that both keys are in the tree.
unfoldable pub leaf_count : List ℕ → List ℕ → List ℕ → ℕ → ℕ
unfolding accumulate
leaf_count leaves counts leaves_focus leaf_idx =
    let start_idx = pos_part (find_node_below leaves (length leaves) (leaves_focus ! leaf_idx)) in
    let end_idx = find_node_above leaves (length leaves) (leaves_focus ! (leaf_idx + 1)) in
    min 0xFFFF_FFFF (accumulate counts (end_idx - start_idx) start_idx 0)

-- The loop of `rangeCount` from `i` on, `left` rounds, and the function.
unfoldable pub range_count_loop : List ℕ → List ℕ → List ℕ → List ℕ → ℕ → ℕ → List ℕ → List ℕ
unfolding leaf_count
range_count_loop leaves counts leaves_focus leaves_focus_idx zero i counts_focus = counts_focus
range_count_loop leaves counts leaves_focus leaves_focus_idx (suc left) i counts_focus =
    let leaf_idx = leaves_focus_idx ! i in
    range_count_loop leaves counts leaves_focus leaves_focus_idx left (i + 1)
      (set counts_focus leaf_idx (leaf_count leaves counts leaves_focus leaf_idx))

unfoldable pub range_count : List ℕ → List ℕ → List ℕ → List ℕ → List ℕ → List ℕ
unfolding range_count_loop
range_count leaves counts leaves_focus leaves_focus_idx counts_focus =
    range_count_loop leaves counts leaves_focus leaves_focus_idx (length leaves_focus_idx) 0
      counts_focus
