-- ===== src/Tree/Linked.antt =====
-- include/cstone/tree/octree.hpp: the octree above a leaf array. Its nodes are keys in the placeholder-bit
-- format, sorted, so that the nodes of one level stand together.
pub mod Levels
pub mod Depth
pub mod Containing
pub mod Search
pub mod Children
pub mod Rounds
pub mod Siblings
pub mod Links
pub mod Build
pub mod Upsweep
pub mod Access
use cornerstone_octree.Base.{
  ℕ, zero, suc, ◌+◌, ◌-◌, ◌*◌, ◌/◌, ◌%◌, ◌^◌, ◌≤◌, ◌<◌, Bool, true, false, ◌&&◌, ◌||◌, not, ◌==◌,
  ltb, leb, if◌then◌else◌, List, [], ◌∷◌, length, set, ◌!◌,
}
use cornerstone_octree.Base.Int.{ℤ, pos, negsuc, ◌+ℤ◌, pos_part, sub_ℕ}
use cornerstone_octree.Base.Loops.{fill}
use cornerstone_octree.Key.{KeyType, max_tree_level, sub_key}
use cornerstone_octree.Primitives.Search.{lower_bound}
use cornerstone_octree.Sfc.Range.{tree_level, octal_digit}
use cornerstone_octree.Sfc.Prefix.{
  encode_placeholder_bit, decode_placeholder_bit, decode_prefix_length, common_prefix,
}

-- `digitWeight` of include/cstone/sfc/common.hpp; the masks choose one of its two terms.
unfoldable digit_weight : ℕ → ℤ
digit_weight digit = if leb 4 digit then sub_ℕ 7 digit else sub_ℕ 0 digit

-- The loop of `binaryKeyWeight` over the levels from `l` on, `left` of them.
unfoldable weigh_digits : KeyType → ℕ → ℕ → ℕ → ℤ → ℤ
unfolding digit_weight ◌+ℤ◌ octal_digit
weigh_digits k key zero l ret = ret
weigh_digits k key (suc left) l ret =
    weigh_digits k key left (l + 1) (ret +ℤ digit_weight (octal_digit k key l))

-- `binaryKeyWeight`.
unfoldable binary_key_weight : KeyType → ℕ → ℕ → ℤ
unfolding weigh_digits
binary_key_weight k key level = weigh_digits k key (level + 1) 1 (pos 0)

-- An `int` as an `unsigned`, of 32 bits.
unfoldable to_unsigned : ℤ → ℕ
to_unsigned (pos n) = n
to_unsigned (negsuc n) = 0x1_0000_0000 - suc n

-- The loop of `createUnsortedLayoutCpu` from leaf `tid` on: the prefixes and `internalToLeaf`.
unfoldable layout_leaves : KeyType → List ℕ → ℕ → ℕ → ℕ → ℕ → List ℕ × List ℕ → List ℕ × List ℕ
unfolding binary_key_weight to_unsigned ◌+ℤ◌
layout_leaves k leaves num_internal num_leaf zero tid s = s
layout_leaves k leaves num_internal num_leaf (suc left) tid (prefixes, internal_to_leaf) =
    let key = leaves ! tid in
    let level = tree_level k (sub_key k (leaves ! (tid + 1)) key) in
    let prefixes' = set prefixes (tid + num_internal) (encode_placeholder_bit k key (3 * level)) in
    let internal_to_leaf' = set internal_to_leaf (tid + num_internal) (tid + num_internal) in
    let prefix_length = to_unsigned (common_prefix k key (leaves ! (tid + 1))) in
    let oct_index = pos_part (pos tid +ℤ binary_key_weight k key (prefix_length / 3)) / 7 in
    layout_leaves k leaves num_internal num_leaf left (tid + 1) (
      if prefix_length % 3 == 0 && ltb tid (num_leaf - 1)
      then (
        set prefixes' oct_index (encode_placeholder_bit k key prefix_length),
        set internal_to_leaf' oct_index oct_index,
      )
      else (prefixes', internal_to_leaf'))

-- `createUnsortedLayoutCpu`. The index of an internal node is taken not to be negative.
unfoldable pub create_unsorted_layout : KeyType → List ℕ → ℕ → ℕ → List ℕ → List ℕ → List ℕ × List ℕ
unfolding layout_leaves
create_unsorted_layout k leaves num_internal num_leaf prefixes internal_to_leaf =
    layout_leaves k leaves num_internal num_leaf num_leaf 0 (prefixes, internal_to_leaf)

-- The loop of `linkTreeCpu` from node `i` on: the child offsets and the parents.
unfoldable link_nodes :
    KeyType → List ℕ → List ℕ → List ℕ → ℕ → ℕ → List ℕ × List ℕ → List ℕ × List ℕ
link_nodes k prefixes leaf_to_internal level_range zero i s = s
link_nodes k prefixes leaf_to_internal level_range (suc left) i (child_offsets, parents) =
    let idx = leaf_to_internal ! i in
    let prefix = prefixes ! idx in
    let node_key = decode_placeholder_bit k prefix in
    let prefix_length = decode_prefix_length k prefix in
    let level = prefix_length / 3 in
    let child_prefix = encode_placeholder_bit k node_key (prefix_length + 3) in
    let search_end = level_range ! (level + 2) in
    let child = lower_bound prefixes (level_range ! (level + 1)) search_end child_prefix in
    link_nodes k prefixes leaf_to_internal level_range left (i + 1) (
      if not (child == search_end) && child_prefix == prefixes ! child
      then (set child_offsets idx child, set parents ((child - 1) / 8) idx)
      else (child_offsets, parents))

-- `linkTreeCpu`.
unfoldable pub link_tree :
    KeyType → List ℕ → ℕ → List ℕ → List ℕ → List ℕ → List ℕ → List ℕ × List ℕ
unfolding link_nodes
link_tree k prefixes num_internal leaf_to_internal level_range child_offsets parents =
    link_nodes k prefixes leaf_to_internal level_range num_internal 0 (child_offsets, parents)

-- `getLevelRangeCpu`.
unfoldable pub get_level_range : KeyType → List ℕ → ℕ → List ℕ → List ℕ
get_level_range k node_keys num_nodes level_range =
    set
      (fill (max_tree_level k + 1) 0
        (λ level. lower_bound node_keys 0 num_nodes (encode_placeholder_bit k 0 (3 * level)))
        level_range)
      (max_tree_level k + 1) num_nodes

-- The loop of `containingNode` over the levels from `i` on, `left` of them.
unfoldable descend_to : KeyType → ℕ → ℕ → List ℕ → List ℕ → ℕ → ℕ → ℕ → ℕ
descend_to k node_key key prefixes child_offsets zero i ret = ret
descend_to k node_key key prefixes child_offsets (suc left) i ret =
    elim (child_offsets ! ret == 0 || node_key == prefixes ! ret) [
      | true ↦ ret
      | false ↦
          descend_to k node_key key prefixes child_offsets left (i + 1)
            (child_offsets ! ret + octal_digit k key i)
    ]

-- `containingNode`.
unfoldable pub containing_node : KeyType → ℕ → List ℕ → List ℕ → ℕ
unfolding descend_to
containing_node k node_key prefixes child_offsets =
    descend_to k node_key (decode_placeholder_bit k node_key) prefixes child_offsets
      (decode_prefix_length k node_key / 3) 1 0

-- `maxDepth`, called with a level of at least 1: `while (--level)`.
unfoldable pub max_depth : List ℕ → ℕ → ℕ
max_depth level_offsets zero = 0
max_depth level_offsets (suc zero) = 0
max_depth level_offsets (suc (suc level)) =
    let rest = max_depth level_offsets (suc level) in
    if level_offsets ! suc level == level_offsets ! level then rest else level
