-- ===== src/Tests/Csarray.antt =====
-- Runs of include/cstone/tree/csarray.hpp on the sample tree, and its properties there.
use cornerstone_octree.Base.{
  ◌+◌, ◌≡◌, refl, arith, [], ◌∷◌, ◌++◌, ◌!◌, replicate, true, false, some,
}
use cornerstone_octree.Key.{u32, n_nodes}
use cornerstone_octree.Sfc.Range.{octal_digit}
use cornerstone_octree.Tree.Leaves.{IsOctree}
use cornerstone_octree.Tree.Csarray.{
  sibling_and_level, parent_count, calculate_node_op, rebalance_decision, rebalance_tree,
  update_treelet,
}
use cornerstone_octree.Tree.Csarray.Groups.{InGroup}
use cornerstone_octree.Tree.Csarray.Rebalance.{refine_nodes, rebalance_tree-refine}
use cornerstone_octree.Tree.Csarray.Step.{
  decided, decided-IsOp, length-decided, update_treelet-IsOctree,
}
use cornerstone_octree.Base.Loops.{fill}
use cornerstone_octree.Key.{add_key, sub_key, mul_key}
use cornerstone_octree.Sfc.Range.{tree_level, sub_unsigned, node_range}
use cornerstone_octree.Primitives.Clz.{count_leading_zeros, leading_zeros}
use cornerstone_octree.Tests.{sample, sample-IsOctree, sample_counts, balanced_counts}

decision_run :
    rebalance_decision u32 sample sample_counts 15 8 (replicate 16 0)
    ≡ (1 ∷ 0 ∷ 0 ∷ 0 ∷ 0 ∷ 0 ∷ 0 ∷ 0 ∷ 1 ∷ 1 ∷ 1 ∷ 1 ∷ 1 ∷ 1 ∷ 64 ∷ 0 ∷ [], false)
unfolding rebalance_decision calculate_node_op sibling_and_level parent_count fill tree_level
    sub_unsigned count_leading_zeros sub_key leading_zeros octal_digit add_key node_range mul_key
decision_run = refl

update_treelet-IsOctree_example : IsOctree u32 (update_treelet u32 sample sample_counts 8)
update_treelet-IsOctree_example =
    update_treelet-IsOctree sample-IsOctree sample_counts 8 (omega arith)

rebalance_tree-refine_example :
    (rebalance_tree u32 sample [] (decided sample-IsOctree sample_counts 8)).0
    ≡ refine_nodes sample (decided sample-IsOctree sample_counts 8) (n_nodes sample) 0
      ++ (sample ! n_nodes sample) ∷ []
rebalance_tree-refine_example =
    rebalance_tree-refine sample-IsOctree [] (decided sample-IsOctree sample_counts 8)
      (length-decided sample-IsOctree sample_counts 8)
      (decided-IsOp sample-IsOctree sample_counts 8)

balanced_run :
    (rebalance_decision u32 sample balanced_counts
      (n_nodes sample)
      8
      (replicate (n_nodes sample + 1) 0)).1
    ≡ true
unfolding rebalance_decision calculate_node_op sibling_and_level parent_count fill tree_level
    sub_unsigned count_leading_zeros sub_key leading_zeros octal_digit add_key node_range mul_key
    n_nodes
balanced_run = refl

sample_group : InGroup u32 sample 5 5 8
sample_group =
    unfold n_nodes in
    record {
      number = omega arith;
      before = omega arith;
      inside = omega arith;
      deep = omega arith;
      aligned = refl;
      size = refl;
      total = refl;
    }

sibling_run : sibling_and_level u32 sample 5 ≡ (some 5, 2)
unfolding rebalance_decision calculate_node_op sibling_and_level parent_count fill tree_level
    sub_unsigned count_leading_zeros sub_key leading_zeros octal_digit add_key node_range mul_key
sibling_run = refl

merge_run : calculate_node_op u32 sample 5 sample_counts 8 ≡ 0
unfolding rebalance_decision calculate_node_op sibling_and_level parent_count fill tree_level
    sub_unsigned count_leading_zeros sub_key leading_zeros octal_digit add_key node_range mul_key
merge_run = refl
