-- ===== src/Traversal/Boxes.antt =====
-- include/cstone/traversal/boxoverlap.hpp: overlaps of boxes of integers and boxes inside key ranges. An `int` is
-- an integer without overflow.
pub mod Periodic
pub mod Contained
pub mod Nodes
use cornerstone_octree.Base.{
  ℕ, ◌+◌, ◌-◌, ◌*◌, ◌^◌, Bool, ◌&&◌, ◌||◌, not, if◌then◌else◌, ltb, leb, ◌==◌,
}
use cornerstone_octree.Base.Int.{ℤ, pos, ◌+ℤ◌, ◌-ℤ◌, pos_part, neg_part, ltb_ℤ, min_ℤ, max_ℤ}
use cornerstone_octree.Key.{KeyType, max_tree_level, add_key, shl_key}
use cornerstone_octree.Sfc.Range.{node_range}
use cornerstone_octree.Sfc.Prefix.{
  smallest_common_box, decode_prefix_length, decode_placeholder_bit,
}
use cornerstone_octree.Sfc.Box.{IBox, pbc_distance}

-- `overlapTwoRanges`, at `int`.
unfoldable pub overlap_two_ints : ℤ → ℤ → ℤ → ℤ → Bool
overlap_two_ints a b c d = ltb_ℤ c b && ltb_ℤ a d

-- `overlapRange`.
unfoldable pub overlap_range : ℤ → ℤ → ℤ → ℤ → ℕ → Bool
unfolding overlap_two_ints ◌+ℤ◌
overlap_range a b c d range =
    overlap_two_ints a b c d
    || overlap_two_ints (a +ℤ pos range) (b +ℤ pos range) c d
    || overlap_two_ints a b (c +ℤ pos range) (d +ℤ pos range)

-- `std::abs`.
unfoldable pub abs_ℤ : ℤ → ℤ
abs_ℤ x = pos (pos_part x + neg_part x)

-- `rangeSep`.
unfoldable pub range_sep : ℤ → ℤ → ℤ → ℤ → ℕ → ℤ
unfolding overlap_two_ints abs_ℤ min_ℤ pbc_distance ◌-ℤ◌
range_sep a b c d range =
    if overlap_two_ints a b c d
    then pos 0
    else min_ℤ (abs_ℤ (pbc_distance (d -ℤ a) range)) (abs_ℤ (pbc_distance (c -ℤ b) range))

-- `overlap` of two integer boxes.
unfoldable pub overlap : KeyType → IBox → IBox → Bool
unfolding overlap_range
overlap k a b =
    let max_coord = 2 ^ max_tree_level k in
    overlap_range a.xmin a.xmax b.xmin b.xmax max_coord
    && overlap_range a.ymin a.ymax b.ymin b.ymax max_coord
    && overlap_range a.zmin a.zmax b.zmin b.zmax max_coord

-- `boxSeparation`.
unfoldable pub box_separation : IBox → IBox → ℕ × ℕ × ℕ → ℤ × ℤ × ℤ
unfolding range_sep
box_separation a b (px, py, pz) = (
  range_sep a.xmin a.xmax b.xmin b.xmax px,
  range_sep a.ymin a.ymax b.ymin b.ymax py,
  range_sep a.zmin a.zmax b.zmin b.zmax pz,
)

-- `containedIn` of an integer box; the curve that gives a point its key is an argument.
unfoldable pub contained_in : KeyType → (ℕ → ℕ → ℕ → ℕ) → ℕ → ℕ → IBox → Bool
unfolding smallest_common_box min_ℤ max_ℤ
contained_in k sfc_key code_start code_end box =
    let pbc_range = 2 ^ max_tree_level k in
    if ltb_ℤ (min_ℤ (min_ℤ box.xmin box.ymin) box.zmin) (pos 0)
      || ltb_ℤ (pos pbc_range) (max_ℤ (max_ℤ box.xmax box.ymax) box.zmax)
    then code_start == 0 && code_end == node_range k 0
    else (let low_code = sfc_key (pos_part box.xmin) (pos_part box.ymin) (pos_part box.zmin) in
        let high_code =
          sfc_key (pos_part box.xmax - 1) (pos_part box.ymax - 1) (pos_part box.zmax - 1) in
        let envelope = smallest_common_box k low_code high_code in
        leb code_start envelope.0 && leb envelope.1 code_end)

-- `containedIn` of a key range.
unfoldable pub contained_in_keys : ℕ → ℕ → ℕ → ℕ → Bool
contained_in_keys node_start node_end code_start code_end =
    not (ltb node_start code_start || ltb code_end node_end)

-- `containedIn` of a key in the placeholder-bit format.
unfoldable pub contained_in_prefix : KeyType → ℕ → ℕ → ℕ → Bool
unfolding decode_placeholder_bit decode_prefix_length
contained_in_prefix k prefix_bit_key code_start code_end =
    let prefix_length = decode_prefix_length k prefix_bit_key in
    let first_prefix = decode_placeholder_bit k prefix_bit_key in
    let second_prefix =
      add_key k first_prefix (shl_key k 1 (3 * max_tree_level k - prefix_length)) in
    not (ltb first_prefix code_start || ltb code_end second_prefix)

-- `addDelta`.
unfoldable pub add_delta : KeyType → ℤ → ℤ → Bool → ℤ
unfolding min_ℤ max_ℤ ◌+ℤ◌
add_delta k value delta pbc =
    let temp = value +ℤ delta in
    if pbc then temp else min_ℤ (max_ℤ (pos 0) temp) (pos (2 ^ max_tree_level k))
