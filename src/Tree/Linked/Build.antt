-- ===== src/Tree/Linked/Build.antt =====
-- `buildOctreeCpu` of include/cstone/tree/octree.hpp: layout, sort, the maps between both orders, and the links.
pub mod Order
pub mod Sorted
use cornerstone_octree.Base.{ℕ, zero, suc, ◌+◌, ◌*◌, List, set, ◌!◌, map}
use cornerstone_octree.Base.Int.{ℤ, pos, sub_ℕ}
use cornerstone_octree.Base.Loops.{fill}
use cornerstone_octree.Key.{KeyType}
use cornerstone_octree.Primitives.Gather.{sort_by_key}
use cornerstone_octree.Tree.Linked.{create_unsorted_layout, get_level_range, link_tree}

-- The arrays that the function fills.
pub record OctreeArrays : Type 0 where
  pub prefixes : List ℕ
  pub child_offsets : List ℕ
  pub parents : List ℕ
  pub level_range : List ℕ
  pub internal_to_leaf : List ℤ
  pub leaf_to_internal : List ℕ

-- The loop that stores the places of an order, from place `i` on.
unfoldable pub store_places : List ℕ → ℕ → ℕ → List ℕ → List ℕ
store_places order zero i places = places
store_places order (suc left) i places = store_places order left (i + 1) (set places (order ! i) i)

-- The layout of the nodes and their indices, in the order of the sorted prefixes.
unfoldable pub sorted_layout : KeyType → List ℕ → ℕ → ℕ → List ℕ → List ℕ → List ℕ × List ℕ
unfolding create_unsorted_layout sort_by_key
sorted_layout k cstone_tree num_leaf_nodes num_internal_nodes prefixes internal_to_leaf =
    let layout =
      create_unsorted_layout k cstone_tree num_internal_nodes num_leaf_nodes prefixes
        internal_to_leaf in
    sort_by_key (num_internal_nodes + num_leaf_nodes) layout.0 layout.1

-- `buildOctreeCpu`; the entries of `internalToLeaf` are negative for internal nodes at the end.
unfoldable pub build_octree :
    KeyType → List ℕ → ℕ → ℕ → List ℕ → List ℕ → List ℕ → List ℕ → List ℕ → List ℕ → OctreeArrays
unfolding sorted_layout store_places get_level_range link_tree
build_octree k cstone_tree num_leaf_nodes num_internal_nodes prefixes child_offsets parents
      level_range internal_to_leaf leaf_to_internal =
    let num_nodes = num_internal_nodes + num_leaf_nodes in
    let sorted =
      sorted_layout k cstone_tree num_leaf_nodes num_internal_nodes prefixes internal_to_leaf in
    let places = store_places sorted.1 num_nodes 0 leaf_to_internal in
    let levels = get_level_range k sorted.0 num_nodes level_range in
    let linked =
      link_tree k sorted.0 num_internal_nodes places levels
        (fill num_nodes 0 (λ i. 0) child_offsets) parents in
    record {
      prefixes = sorted.0;
      child_offsets = linked.0;
      parents = linked.1;
      level_range = levels;
      internal_to_leaf =
          fill num_nodes 0 (λ i. sub_ℕ (sorted.1 ! i) num_internal_nodes) (map pos sorted.1);
      leaf_to_internal = places;
    }
