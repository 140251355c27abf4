-- ===== src/Tests/Counts.antt =====
-- Runs of the counts and of the tree update on sample keys, and their properties there.
use cornerstone_octree.Base.{
  suc, ◌+◌, ◌-◌, ◌^◌, ◌≤◌, ◌≡◌, refl, ◌∙◌, arith, [], ◌∷◌, ◌!◌, true, min, replicate, ◌==◌, ==_iff,
}
use cornerstone_octree.Base.Int.{pos, negsuc, ◌+ℤ◌, ◌-ℤ◌, ◌*ℤ◌, min_ℤ, max_ℤ}
use cornerstone_octree.Key.{u32, n_nodes}
use cornerstone_octree.Primitives.Search.{lower_bound}
use cornerstone_octree.Tree.Counts.{
  to_signed, wrap_signed, second_index, search_on, search_loop, find_search_bounds,
  compute_node_counts, Octree, update_octree, compute_octree,
}
use cornerstone_octree.Tree.Counts.Bounds.{find_search_bounds-lower_bound}
use cornerstone_octree.Tree.Counts.Exact.{keys_in}
use cornerstone_octree.Tree.Counts.Every.{compute_node_counts-keys_in}
use cornerstone_octree.Tree.Counts.Update.{
  Counted, Balanced, update_octree-flag, update_octree-Counted, update_octree-Balanced,
}
use cornerstone_octree.Tree.Counts.Build.{IsDone, compute_octree-IsDone}
use cornerstone_octree.Base.Loops.{fill}
use cornerstone_octree.Key.{add_key, sub_key, mul_key}
use cornerstone_octree.Sfc.Range.{tree_level, sub_unsigned, node_range, octal_digit}
use cornerstone_octree.Primitives.Clz.{count_leading_zeros, leading_zeros}
use cornerstone_octree.Tree.Csarray.{
  sibling_and_level, parent_count, calculate_node_op, rebalance_decision,
}
use cornerstone_octree.Tests.{
  each_below, each_below→, sample, sample-IsOctree, sample_keys, sample_keys-IsSortedIn,
  sample_keys-lt, sample_keys-AreKeys,
}

find_search_bounds-lower_bound_example :
    let (a, b) = find_search_bounds u32 (pos 7) (8 ^ 8) sample_keys in
    (a ≤ b) × (b ≤ 9) × (lower_bound sample_keys a b (8 ^ 8) ≡ lower_bound sample_keys 0 9 (8 ^ 8))
find_search_bounds-lower_bound_example =
    find_search_bounds-lower_bound u32 sample_keys sample_keys-IsSortedIn sample_keys-AreKeys.small
      sample_keys-AreKeys.room (pos 7) (8 ^ 8)

-- At 32 bits 2 ^ 31 is the least integer, and a step of 2 ^ 30 from 2 ^ 30 leads to it.
wrap_signed_test : wrap_signed u32 (pos (2 ^ 31)) ≡ negsuc (2 ^ 31 - 1)
unfolding wrap_signed to_signed
wrap_signed_test = refl

second_index_test : second_index u32 (pos (2 ^ 30)) (pos (2 ^ 30)) (pos 1) ≡ negsuc (2 ^ 31 - 1)
unfolding second_index wrap_signed to_signed ◌+ℤ◌ ◌*ℤ◌
second_index_test = refl

find_search_bounds_test : find_search_bounds u32 (pos 7) (8 ^ 8) sample_keys ≡ (3, 7)
unfolding find_search_bounds search_loop search_on second_index wrap_signed to_signed ◌+ℤ◌ ◌-ℤ◌ ◌*ℤ◌
    min_ℤ max_ℤ node_range
find_search_bounds_test = refl

compute_node_counts-keys_in_example :
    compute_node_counts u32 sample (replicate 15 7) (n_nodes sample) sample_keys 100 true ! 2
    ≡ min (keys_in (sample ! 2) (sample ! 3) sample_keys) 100
compute_node_counts-keys_in_example =
    compute_node_counts-keys_in sample-IsOctree sample_keys-AreKeys 100 (replicate 15 7)
      (unfold n_nodes in refl) true 2 (unfold n_nodes in omega arith)

abbrev start : Octree
start = record { tree = sample; counts = replicate 15 7 }

update_octree-Counted_example :
    Counted u32 sample_keys 100 (update_octree u32 sample_keys 2 100 start).0
update_octree-Counted_example =
    update_octree-Counted u32 sample_keys 2 100 start sample-IsOctree sample_keys-AreKeys
      (omega arith)

compute_octree-IsDone_example :
    IsDone u32 sample_keys 2 1000 (compute_octree u32 sample_keys 2 1000 (11 + 8 ^ 10))
compute_octree-IsDone_example =
    compute_octree-IsDone sample_keys-AreKeys sample_keys-lt 2 1000 (11 + 8 ^ 10) (omega arith)
      (omega arith) (omega arith)

-- A state that the update leaves as it is, for a bucket of 5.
abbrev settled : Octree
settled = record {
  tree = sample;
  counts = 4 ∷ 1 ∷ 1 ∷ 0 ∷ 0 ∷ 0 ∷ 0 ∷ 0 ∷ 0 ∷ 0 ∷ 1 ∷ 0 ∷ 1 ∷ 0 ∷ 1 ∷ [];
}

settled_exact :
    each_below 15
      (λ i. settled.counts ! i == min (keys_in (sample ! i) (sample ! suc i) sample_keys) 100)
    ≡ true
unfolding keys_in
settled_exact = refl

settled-Counted : Counted u32 sample_keys 100 settled
settled-Counted =
    unfold n_nodes in
    record {
      octree = sample-IsOctree;
      size = refl;
      exact = λ i h. (==_iff _ _).0 (
          each_below→ 15
            (λ i. settled.counts ! i == min (keys_in (sample ! i) (sample ! suc i) sample_keys) 100)
            settled_exact i h);
    }

settled_decision :
    (rebalance_decision u32 sample settled.counts
      (n_nodes sample)
      5
      (replicate (n_nodes sample + 1) 0)).1
    ≡ true
unfolding rebalance_decision calculate_node_op sibling_and_level parent_count fill tree_level
    sub_unsigned count_leading_zeros sub_key leading_zeros octal_digit add_key node_range mul_key
    n_nodes
settled_decision = refl

settled_flag : (update_octree u32 sample_keys 5 100 settled).1 ≡ true
settled_flag = update_octree-flag u32 sample_keys 5 100 settled ∙ settled_decision

update_octree-Balanced_example : Balanced u32 5 (update_octree u32 sample_keys 5 100 settled).0
update_octree-Balanced_example =
    update_octree-Balanced u32 sample_keys 5 100 settled settled-Counted sample_keys-AreKeys
      (omega arith) settled_flag
