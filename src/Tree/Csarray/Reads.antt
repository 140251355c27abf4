-- ===== src/Tree/Csarray/Reads.antt =====
-- The reads of `siblingAndLevel` and of `calculateNodeOp` around a node stand inside their arrays.
use cornerstone_octree.Base.{ℕ, ◌+◌, ◌-◌, ◌≤◌, ◌<◌, ◌≡◌, ◌≢◌, arith, List, ◌!◌}
use cornerstone_octree.Key.{KeyType, max_tree_level, n_nodes}
use cornerstone_octree.Sfc.Range.{octal_digit, octal_digit-div}
use cornerstone_octree.Tree.Leaves.{IsOctree}
use cornerstone_octree.Tree.Csarray.{sibling_and_level}
use cornerstone_octree.Tree.Csarray.Groups.{sibling_bounds, level_found}

-- In the cornerstone format, the indices `nodeIdx - siblingIdx` and `nodeIdx - siblingIdx + 8` of
-- `siblingAndLevel` stand inside the array for each node that is not the root, and the first does
-- not wrap below zero.
pub sibling_and_level_reads :
    {k : KeyType} {tree : List ℕ}
    → IsOctree k tree
    → (i : ℕ) → i < n_nodes tree
    → (sibling_and_level k tree i).1 ≢ 0
    → let s = octal_digit k (tree ! i) (sibling_and_level k tree i).1 in
      (s ≤ i) × (i - s + 8 ≤ n_nodes tree)
sibling_and_level_reads {k} {tree} o i h below =
    let (e, small, step) = o.steps i h in
    let level = level_found o i e h small step in
    let deep : e < max_tree_level k = omega (arith, level, below) in
    let up : max_tree_level k - (max_tree_level k - e) ≡ e = omega arith in
    rw (octal_digit-div k (tree ! i) (sibling_and_level k tree i).1, level, up)
      (sibling_bounds o i e h deep step)
