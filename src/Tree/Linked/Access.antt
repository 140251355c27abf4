-- ===== src/Tree/Linked/Access.antt =====
-- What the class `Octree` of include/cstone/tree/octree.hpp tells of its nodes.
use native.Mathlib.Nat.{suc-mul, mul-le-mul_right, mul_assoc, add-mul}
use cornerstone_octree.Base.{
  ℕ, suc, ◌+◌, ◌-◌, ◌*◌, ◌/◌, ◌^◌, ◌≤◌, ◌<◌, ◌≡◌, ◌≢◌, ap, ◌∙◌, arith, Bool, ◌==◌, if◌then◌else◌,
  length, ◌!◌, get_or,
}
use cornerstone_octree.Base.Int.{ℤ, pos}
use cornerstone_octree.Base.Pow.{pow2_triple, pow8-suc, pow8-pos, pow8-add}
use cornerstone_octree.Key.{KeyType, max_tree_level, modulus, add_key, add_key_exact}
use cornerstone_octree.Sfc.Range.{pow8_level_lt}
use cornerstone_octree.Sfc.Prefix.{decode_prefix_length, decode_placeholder_bit}
use cornerstone_octree.Tree.Linked.Build.{OctreeArrays}
use cornerstone_octree.Tree.Linked.Containing.{HasLevel, HasChildren, HasLevel-length, HasLevel-key}

-- `isLeaf`.
unfoldable pub is_leaf : OctreeArrays → ℕ → Bool
is_leaf tree node = tree.child_offsets ! node == 0

-- `child`.
unfoldable pub child : OctreeArrays → ℕ → ℕ → ℕ
child tree node octant = tree.child_offsets ! node + octant

-- `parent`.
unfoldable pub parent : OctreeArrays → ℕ → ℕ
parent tree node = if node == 0 then 0 else tree.parents ! ((node - 1) / 8)

-- `codeStart`.
unfoldable pub code_start : KeyType → OctreeArrays → ℕ → ℕ
unfolding decode_placeholder_bit
code_start k tree node = decode_placeholder_bit k (tree.prefixes ! node)

-- `codeEnd`.
unfoldable pub code_end : KeyType → OctreeArrays → ℕ → ℕ
unfolding decode_placeholder_bit decode_prefix_length add_key
code_end k tree node =
    let prefix = tree.prefixes ! node in
    add_key k (decode_placeholder_bit k prefix)
      (2 ^ (3 * max_tree_level k - decode_prefix_length k prefix))

-- `level`.
unfoldable pub level_of : KeyType → OctreeArrays → ℕ → ℕ
unfolding decode_prefix_length
level_of k tree node = decode_prefix_length k (tree.prefixes ! node) / 3

-- `levelOffset` and the two `numTreeNodes`.
unfoldable pub offset_of_level : OctreeArrays → ℕ → ℕ
offset_of_level tree level = tree.level_range ! level

unfoldable pub num_tree_nodes : OctreeArrays → ℕ
num_tree_nodes tree = tree.level_range ! (length tree.level_range - 1)

unfoldable pub num_level_nodes : OctreeArrays → ℕ → ℕ
num_level_nodes tree level = tree.level_range ! (level + 1) - tree.level_range ! level

-- `toInternal` and `cstoneIndex`.
unfoldable pub to_internal : OctreeArrays → ℕ → ℕ → ℕ
to_internal tree num_internal_nodes node = tree.leaf_to_internal ! (node + num_internal_nodes)

unfoldable pub cstone_index : OctreeArrays → ℕ → ℤ
cstone_index tree node = get_or tree.internal_to_leaf node (pos 0)

module _ (k : KeyType) (tree : OctreeArrays) (node level : ℕ)
    (key : HasLevel (tree.prefixes ! node) level) (fits : level ≤ max_tree_level k) where
  abbrev size : ℕ
  size = 8 ^ (max_tree_level k - level)

  abbrev start : ℕ
  start = (tree.prefixes ! node - 8 ^ level) * size

  range_inside : start + size ≤ 8 ^ max_tree_level k
  range_inside =
      let all : max_tree_level k ≡ level + (max_tree_level k - level) = omega arith in
      let top : 8 ^ max_tree_level k ≡ 8 ^ level * size =
        ap (λ (t : ℕ). 8 ^ t) all ∙ pow8-add (max_tree_level k - level) level in
      let small : suc (tree.prefixes ! node - 8 ^ level) ≤ 8 ^ level = omega (arith, key) in
      omega
        (arith, top, mul-le-mul_right size small, suc-mul (tree.prefixes ! node - 8 ^ level) size)

  below_modulus : (a : ℕ) → a ≤ 8 ^ max_tree_level k → a < modulus k
  below_modulus a h =
      omega (arith, pow8_level_lt k (max_tree_level k) (omega arith), pow8-pos (max_tree_level k))

  -- The range of keys of a node of a level.
  pub code_range : (code_start k tree node ≡ start) × (code_end k tree node ≡ start + size)
  unfolding code_start code_end
  code_range =
      let first = HasLevel-key k (tree.prefixes ! node) level fits key in
      let length = HasLevel-length k (tree.prefixes ! node) level fits key in
      let place : 3 * max_tree_level k - 3 * level ≡ 3 * (max_tree_level k - level) = omega arith in
      let width : 2 ^ (3 * max_tree_level k - decode_prefix_length k (tree.prefixes ! node))
          ≡ size =
        ap (λ (t : ℕ). 2 ^ (3 * max_tree_level k - t)) length
        ∙ ap (λ (t : ℕ). 2 ^ t) place
        ∙ pow2_triple (max_tree_level k - level) in
      (
        first,
        (λ i. add_key k (first i) (width i))
            ∙ add_key_exact k start size (below_modulus (start + size) range_inside),
      )

-- The eight children of an inner node part its range of keys evenly: an octant's range starts behind those of the octants
-- before it. The node has a level before the last one, and its children stand in a row.
pub child-code_range :
    (k : KeyType) (tree : OctreeArrays) (node level octant : ℕ)
    → HasChildren tree.prefixes tree.child_offsets
    → tree.child_offsets ! node ≢ 0
    → HasLevel (tree.prefixes ! node) level
    → level < max_tree_level k
    → octant < 8
    → (8 * 8 ^ (max_tree_level k - suc level) + code_start k tree node ≡ code_end k tree node)
      × (code_start k tree (child tree node octant)
          ≡ code_start k tree node + octant * 8 ^ (max_tree_level k - suc level))
      × (code_end k tree (child tree node octant)
          ≡ code_start k tree node + suc octant * 8 ^ (max_tree_level k - suc level))
unfolding child
child-code_range k tree node level octant linked inner key fits small =
    let q : ℕ = tree.prefixes ! node in
    let below : ℕ = 8 ^ (max_tree_level k - suc level) in
    let split : max_tree_level k - level ≡ suc (max_tree_level k - suc level) = omega arith in
    let eight : 8 ^ (max_tree_level k - level) ≡ 8 * below =
      ap (λ (t : ℕ). 8 ^ t) split ∙ pow8-suc (max_tree_level k - suc level) in
    let (start, end) = code_range k tree node level key (omega arith) in
    let is = linked node octant inner small in
    let lower : HasLevel (tree.prefixes ! (tree.child_offsets ! node + octant)) (suc level) =
      (omega (arith, is, key, pow8-suc level), omega (arith, is, key, pow8-suc level)) in
    let (start', end') =
      code_range k tree (tree.child_offsets ! node + octant) (suc level) lower (omega arith) in
    let digits : tree.prefixes ! (tree.child_offsets ! node + octant) - 8 ^ suc level
        ≡ (q - 8 ^ level) * 8 + octant =
      omega (arith, is, key, pow8-suc level) in
    let place : (tree.prefixes ! (tree.child_offsets ! node + octant) - 8 ^ suc level) * below
        ≡ (q - 8 ^ level) * (8 * below) + octant * below =
      ap (λ (t : ℕ). t * below) digits
      ∙ add-mul ((q - 8 ^ level) * 8) octant below
      ∙ ap (λ (t : ℕ). t + octant * below) (mul_assoc (q - 8 ^ level) 8 below) in
    let whole : (q - 8 ^ level) * 8 ^ (max_tree_level k - level) ≡ (q - 8 ^ level) * (8 * below) =
      ap (λ (t : ℕ). (q - 8 ^ level) * t) eight in
    (
      omega (arith, start, end, eight),
      omega (arith, start, start', place, whole),
      omega (arith, start, end', place, whole, suc-mul octant below),
    )
