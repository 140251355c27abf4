-- ===== src/Tests/Octrees.antt =====
-- The octree of the root and its octants as buildOctreeCpu, upsweep and the accessors see it.
use cornerstone_octree.Base.{
  ℕ, zero, suc, ◌+◌, ◌-◌, ◌*◌, ◌^◌, ◌≤◌, ◌<◌, ◌≡◌, ◌≢◌, ◌⊎◌, refl, arith, List, [], ◌∷◌, ◌!◌,
  replicate,
}
use cornerstone_octree.Key.{u32}
use cornerstone_octree.Base.Loops.{fill}
use cornerstone_octree.Primitives.Gather.{sort_by_key}
use cornerstone_octree.Tree.Linked.Upsweep.{node_count, upsweep, node_count-IsLocal}
use cornerstone_octree.Tree.Linked.Upsweep.Combined.{HasLevels, upsweep_combined}
use cornerstone_octree.Tree.Linked.Build.{OctreeArrays, store_places}
use cornerstone_octree.Tree.Linked.Access.{
  child, parent, code_start, code_end, num_level_nodes, child-code_range,
}
use cornerstone_octree.Tree.Linked.Build.Sorted.{IsPlaced, sort_by_key-IsPlaced}
use cornerstone_octree.Tests.Linked.{octants, octants_range, octants_children, in_order}

-- Keys that are not in order, two of them equal.
abbrev some_keys : List ℕ
some_keys = 5 ∷ 3 ∷ 5 ∷ 1 ∷ []

sort_by_key_test :
    sort_by_key 4 some_keys (0 ∷ 1 ∷ 2 ∷ 3 ∷ []) ≡ (1 ∷ 3 ∷ 5 ∷ 5 ∷ [], 3 ∷ 1 ∷ 0 ∷ 2 ∷ [])
unfolding sort_by_key fill
sort_by_key_test = refl

sort_by_key-IsPlaced_example :
    IsPlaced 4 some_keys
      (sort_by_key 4 some_keys (0 ∷ 1 ∷ 2 ∷ 3 ∷ [])).0
      (sort_by_key 4 some_keys (0 ∷ 1 ∷ 2 ∷ 3 ∷ [])).1
      (store_places (sort_by_key 4 some_keys (0 ∷ 1 ∷ 2 ∷ 3 ∷ [])).1 4 0 (replicate 4 9))
sort_by_key-IsPlaced_example =
    sort_by_key-IsPlaced 4 some_keys (0 ∷ 1 ∷ 2 ∷ 3 ∷ []) (replicate 4 9) refl refl
      (λ j h. index j h) (omega arith)
  where
    index : (j : ℕ) → j < 4 → (0 ∷ 1 ∷ 2 ∷ 3 ∷ []) ! j ≡ j
    index zero h = refl
    index (suc zero) h = refl
    index (suc (suc zero)) h = refl
    index (suc (suc (suc zero))) h = refl
    index (suc (suc (suc (suc j)))) h = absurd (omega arith)

abbrev two_levels : List ℕ
two_levels = 0 ∷ 1 ∷ 9 ∷ []

abbrev octants_offsets : List ℕ
octants_offsets = 1 ∷ replicate 8 0

two_levels_has : HasLevels two_levels octants_offsets
two_levels_has = record { first = refl; ascend = up; behind = after }
  where
    up : (l : ℕ) → l < 2 → two_levels ! l ≤ two_levels ! (l + 1)
    up zero h = omega arith
    up (suc zero) h = omega arith
    up (suc (suc l)) h = absurd (omega arith)

    none : (j : ℕ) → 1 ≤ j → octants_offsets ! j ≡ 0
    none zero h = absurd (omega arith)
    none (suc j) h = zeros 8 j
      where
        zeros : (n i : ℕ) → replicate n 0 ! i ≡ 0
        zeros zero i = refl
        zeros (suc n) zero = refl
        zeros (suc n) (suc i) = zeros n i

    after :
        (l j : ℕ)
        → l < 2
        → two_levels ! l ≤ j
        → j < two_levels ! (l + 1)
        → octants_offsets ! j ≢ 0
        → two_levels ! (l + 1) ≤ octants_offsets ! j
    after zero zero h from to inner = omega arith
    after zero (suc j) h from to inner = absurd (inner (none (suc j) (omega arith)))
    after (suc zero) j h from to inner = absurd (inner (none j from))
    after (suc (suc l)) j h from to inner = absurd (omega arith)

abbrev octants_counts : List ℕ
octants_counts = 0 ∷ 1 ∷ 2 ∷ 3 ∷ 4 ∷ 5 ∷ 6 ∷ 7 ∷ 8 ∷ []

upsweep_combined_example :
    ((octants_offsets ! 0 ≡ 0)
      × (upsweep node_count two_levels octants_offsets octants_counts ! 0 ≡ octants_counts ! 0))
    ⊎ ((octants_offsets ! 0 ≢ 0)
        × (upsweep node_count two_levels octants_offsets octants_counts ! 0
            ≡ node_count 0
                (octants_offsets ! 0)
                (upsweep node_count two_levels octants_offsets octants_counts)))
upsweep_combined_example =
    upsweep_combined node_count two_levels octants_offsets node_count-IsLocal two_levels_has
      octants_counts 0 (omega arith) (omega arith)

upsweep_test : upsweep node_count two_levels octants_offsets octants_counts ! 0 ≡ 36
unfolding upsweep node_count
upsweep_test = refl

abbrev octants_tree : OctreeArrays
octants_tree = record {
  prefixes = octants;
  child_offsets = 1 ∷ replicate 8 0;
  parents = replicate 1 0;
  level_range = octants_range;
  internal_to_leaf = [];
  leaf_to_internal = in_order;
}

child-code_range_example :
    (8 * 8 ^ (10 - suc 0) + code_start u32 octants_tree 0 ≡ code_end u32 octants_tree 0)
    × (code_start u32 octants_tree (child octants_tree 0 5)
        ≡ code_start u32 octants_tree 0 + 5 * 8 ^ (10 - suc 0))
    × (code_end u32 octants_tree (child octants_tree 0 5)
        ≡ code_start u32 octants_tree 0 + suc 5 * 8 ^ (10 - suc 0))
child-code_range_example =
    child-code_range u32 octants_tree 0 0 5 octants_children (λ e. absurd (omega (arith, e)))
      (omega arith, omega arith) (omega arith) (omega arith)

parent_test : parent octants_tree (child octants_tree 0 5) ≡ 0
unfolding parent child
parent_test = refl

num_level_nodes_test : num_level_nodes octants_tree 1 ≡ 8
unfolding num_level_nodes
num_level_nodes_test = refl
