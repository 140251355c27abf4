-- ===== src/Tree/Leaves.antt =====
-- include/cstone/tree/cs_util.hpp: the format of a cornerstone leaf array, and its check.
pub mod Check
pub mod Chain
use cornerstone_octree.Base.{
  ℕ, zero, suc, ◌+◌, ◌-◌, ◌*◌, ◌/◌, ◌%◌, ◌^◌, ◌≤◌, ◌<◌, ◌≡◌, refl, ap, sym, ◌∙◌, arith, Bool, true,
  false, not, ◌&&◌, ◌||◌, ◌==◌, ltb, leb, if◌then◌else◌, List, [], ◌∷◌, ◌++◌, length, ◌!◌,
}
use cornerstone_octree.Key.{KeyType, max_tree_level, sub_key, n_nodes, remove_key}
use cornerstone_octree.Sfc.Range.{node_range, is_power_of8}

-- The loop of `checkOctreeInvariants` at index `i`, with `left` rounds to go.
unfoldable pub check_nodes : KeyType → List ℕ → ℕ → ℕ → ℕ → Bool
check_nodes k tree n zero i = true
check_nodes k tree n (suc left) i =
    let rest = check_nodes k tree n left (i + 1) in
    let range = sub_key k (tree ! (i + 1)) (tree ! i) in
    if ltb (i + 1) n && leb (tree ! (i + 1)) (tree ! i)
    then false
    else if range == 0
    then false
    else if not (is_power_of8 k range)
    then false
    else rest

-- `checkOctreeInvariants`.
unfoldable pub check_octree_invariants : KeyType → List ℕ → ℕ → Bool
unfolding check_nodes
check_octree_invariants k tree n =
    if ltb n 1
    then false
    else if not (tree ! 0 == 0) || not (tree ! n == node_range k 0)
    then false
    else check_nodes k tree n n 0

-- `makeRootNodeTree`.
unfoldable pub make_root_node_tree : KeyType → List ℕ
make_root_node_tree k = 0 ∷ node_range k 0 ∷ []

-- The format by its arithmetic: `n` nodes from 0 to the end of the key range, each a power of
-- eight long.
pub record IsOctree (k : KeyType) (tree : List ℕ) : Type 0 where
  pub some_node : 2 ≤ length tree
  pub first : tree ! 0 ≡ 0
  pub last : tree ! n_nodes tree ≡ 8 ^ max_tree_level k
  pub steps :
      (i : ℕ)
      → i < n_nodes tree
      → (e : ℕ) × (e ≤ max_tree_level k) × (tree ! suc i ≡ tree ! i + 8 ^ e)
