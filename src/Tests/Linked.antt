-- ===== src/Tests/Linked.antt =====
-- The octree of the root and its eight octants: its boundaries of the levels, its links and its depth.
use cornerstone_octree.Base.{
  ℕ, zero, suc, ◌+◌, ◌-◌, ◌*◌, ◌/◌, ◌^◌, ◌≤◌, ◌<◌, ◌≡◌, refl, ap, ◌∙◌, arith, List, [], ◌∷◌, ◌!◌,
  ◌↔◌, replicate,
}
use cornerstone_octree.Base.Loops.{fill}
use cornerstone_octree.Key.{u32, shl_key, sub_key}
use cornerstone_octree.Primitives.Clz.{count_leading_zeros, leading_zeros}
use cornerstone_octree.Sfc.Range.{tree_level, sub_unsigned, octal_digit}
use cornerstone_octree.Primitives.Search.{lower_bound}
use cornerstone_octree.Primitives.Search.Splits.{IsSortedIn}
use cornerstone_octree.Sfc.Prefix.{
  encode_placeholder_bit, decode_prefix_length, decode_placeholder_bit, common_prefix,
}
use cornerstone_octree.Tree.Linked.{
  create_unsorted_layout, link_tree, get_level_range, containing_node, max_depth,
}
use cornerstone_octree.Tree.Linked.Levels.{IsNodeKey, get_level_range-levels}
use cornerstone_octree.Tree.Linked.Containing.{HasChildren, IsClosest, containing_node-IsClosest}
use cornerstone_octree.Tree.Linked.Children.{AreNodes}
use cornerstone_octree.Tree.Linked.Siblings.{HasSiblings}
use cornerstone_octree.Tree.Linked.Links.{link_tree-HasChildren, link_tree_children}
use cornerstone_octree.Sfc.Prefix.RoundTrip.{encode_placeholder_bit-top}
use cornerstone_octree.Tests.{ascending→IsSortedIn}

abbrev pub octants : List ℕ
octants = 1 ∷ 8 ∷ 9 ∷ 10 ∷ 11 ∷ 12 ∷ 13 ∷ 14 ∷ 15 ∷ []

octants-IsSortedIn : IsSortedIn octants 0 9
octants-IsSortedIn = ascending→IsSortedIn octants refl

octant : (j : ℕ) → j < 8 → IsNodeKey u32 (8 + j)
octant j h = record {
  level = 1;
  code = j * 8 ^ 9;
  fits = omega arith;
  inside = omega arith;
  is =
      (let (small, top) =
          encode_placeholder_bit-top u32 (j * 8 ^ 9) 3 (omega arith) (omega arith) in
        omega (arith, top));
}

root_key : 1 ≡ encode_placeholder_bit u32 0 0
unfolding encode_placeholder_bit shl_key
root_key = refl

abbrev octants_nodes : (i : ℕ) → i < 9 → IsNodeKey u32 (octants ! i)
octants_nodes zero h = record {
  level = 0;
  code = 0;
  fits = omega arith;
  inside = omega arith;
  is = root_key;
}
octants_nodes (suc zero) h = octant 0 (omega arith)
octants_nodes (suc (suc zero)) h = octant 1 (omega arith)
octants_nodes (suc (suc (suc zero))) h = octant 2 (omega arith)
octants_nodes (suc (suc (suc (suc zero)))) h = octant 3 (omega arith)
octants_nodes (suc (suc (suc (suc (suc zero))))) h = octant 4 (omega arith)
octants_nodes (suc (suc (suc (suc (suc (suc zero)))))) h = octant 5 (omega arith)
octants_nodes (suc (suc (suc (suc (suc (suc (suc zero))))))) h = octant 6 (omega arith)
octants_nodes (suc (suc (suc (suc (suc (suc (suc (suc zero)))))))) h = octant 7 (omega arith)
octants_nodes (suc (suc (suc (suc (suc (suc (suc (suc (suc i))))))))) h = absurd (omega arith)

get_level_range-levels_example :
    ((get_level_range u32 octants 9 (replicate 12 0) ! 1 ≤ 5)
      × (5 < get_level_range u32 octants 9 (replicate 12 0) ! 2))
    ↔ (decode_prefix_length u32 (octants ! 5) ≡ 3 * 1)
get_level_range-levels_example =
    get_level_range-levels u32 octants 9 (replicate 12 0) refl octants-IsSortedIn octants_nodes 1 5
      (omega arith) (omega arith)

abbrev pub octants_range : List ℕ
octants_range = 0 ∷ 1 ∷ replicate 10 9

get_level_range_test : get_level_range u32 octants 9 (replicate 12 0) ≡ octants_range
unfolding get_level_range fill lower_bound encode_placeholder_bit shl_key
get_level_range_test = refl

max_depth_test : max_depth octants_range 12 ≡ 1
unfolding max_depth
max_depth_test = refl

abbrev pub octants_leaves : List ℕ
octants_leaves =
    0 ∷ 8 ^ 9 ∷ 2 * 8 ^ 9 ∷ 3 * 8 ^ 9 ∷ 4 * 8 ^ 9 ∷ 5 * 8 ^ 9 ∷ 6 * 8 ^ 9 ∷ 7 * 8 ^ 9 ∷ 8 ^ 10 ∷ []

pub create_unsorted_layout_test :
    create_unsorted_layout u32 octants_leaves 1 8 (replicate 9 0) (replicate 9 0)
    ≡ (octants, 0 ∷ 1 ∷ 2 ∷ 3 ∷ 4 ∷ 5 ∷ 6 ∷ 7 ∷ 8 ∷ [])
unfolding create_unsorted_layout common_prefix count_leading_zeros leading_zeros
    encode_placeholder_bit shl_key tree_level sub_unsigned sub_key
create_unsorted_layout_test = refl

link_tree_test :
    link_tree u32 octants 1
      (0 ∷ 1 ∷ 2 ∷ 3 ∷ 4 ∷ 5 ∷ 6 ∷ 7 ∷ 8 ∷ [])
      octants_range
      (replicate 9 0)
      (replicate 1 7)
    ≡ (1 ∷ replicate 8 0, 0 ∷ [])
unfolding link_tree lower_bound decode_prefix_length count_leading_zeros leading_zeros
    encode_placeholder_bit shl_key decode_placeholder_bit
link_tree_test = refl

containing_node_test : containing_node u32 (8 * 13 + 2) octants (1 ∷ replicate 8 0) ≡ 6
unfolding containing_node decode_prefix_length count_leading_zeros leading_zeros shl_key
    decode_placeholder_bit octal_digit
containing_node_test = refl

-- Only the root of the octants has children.
pub octants_children : HasChildren octants (1 ∷ replicate 8 0)
octants_children zero zero inner h = refl
octants_children zero (suc zero) inner h = refl
octants_children zero (suc (suc zero)) inner h = refl
octants_children zero (suc (suc (suc zero))) inner h = refl
octants_children zero (suc (suc (suc (suc zero)))) inner h = refl
octants_children zero (suc (suc (suc (suc (suc zero))))) inner h = refl
octants_children zero (suc (suc (suc (suc (suc (suc zero)))))) inner h = refl
octants_children zero (suc (suc (suc (suc (suc (suc (suc zero))))))) inner h = refl
octants_children zero (suc (suc (suc (suc (suc (suc (suc (suc octant)))))))) inner h =
    absurd (omega arith)
octants_children (suc node) octant inner h = absurd (inner (leaves_end 8 node))
  where
    leaves_end : (n i : ℕ) → replicate n 0 ! i ≡ 0
    leaves_end zero i = refl
    leaves_end (suc n) zero = refl
    leaves_end (suc n) (suc i) = leaves_end n i

containing_node-IsClosest_example :
    IsClosest u32
      (8 * 13 + 2)
      2
      (omega arith)
      (omega arith, omega arith)
      octants
      (1 ∷ replicate 8 0)
      octants_children
      (containing_node u32 (8 * 13 + 2) octants (1 ∷ replicate 8 0))
containing_node-IsClosest_example =
    containing_node-IsClosest u32 (8 * 13 + 2) 2 (omega arith) (omega arith, omega arith) octants
      (1 ∷ replicate 8 0) octants_children refl

eighth : (i : ℕ) → 0 < i → i < 9 → octants ! i / 8 ≡ 1
eighth zero some h = absurd (omega arith)
eighth (suc zero) some h = refl
eighth (suc (suc zero)) some h = refl
eighth (suc (suc (suc zero))) some h = refl
eighth (suc (suc (suc (suc zero)))) some h = refl
eighth (suc (suc (suc (suc (suc zero))))) some h = refl
eighth (suc (suc (suc (suc (suc (suc zero)))))) some h = refl
eighth (suc (suc (suc (suc (suc (suc (suc zero))))))) some h = refl
eighth (suc (suc (suc (suc (suc (suc (suc (suc zero)))))))) some h = refl
eighth (suc (suc (suc (suc (suc (suc (suc (suc (suc i))))))))) some h = absurd (omega arith)

row : (o : ℕ) → o < 8 → octants ! (1 + o) ≡ 8 + o
row zero h = refl
row (suc zero) h = refl
row (suc (suc zero)) h = refl
row (suc (suc (suc zero))) h = refl
row (suc (suc (suc (suc zero)))) h = refl
row (suc (suc (suc (suc (suc zero))))) h = refl
row (suc (suc (suc (suc (suc (suc zero)))))) h = refl
row (suc (suc (suc (suc (suc (suc (suc zero))))))) h = refl
row (suc (suc (suc (suc (suc (suc (suc (suc o)))))))) h = absurd (omega arith)

abbrev octants_are_nodes : AreNodes u32 octants 9
octants_are_nodes = record { ascend = λ i j lt h. ascending i j lt h; node = octants_nodes }
  where
    ascending : (i j : ℕ) → i < j → j < 9 → octants ! i < octants ! j
    ascending zero zero lt h = absurd (omega arith)
    ascending zero (suc j) lt h = omega (arith, eighth (suc j) (omega arith) h)
    ascending (suc i) zero lt h = absurd (omega arith)
    ascending (suc i) (suc j) lt h = omega (arith, below i (omega arith), below j (omega arith))
      where
        below : (o : ℕ) → o < 8 → octants ! suc o ≡ 8 + o
        below o small =
            let next : suc o ≡ 1 + o = omega arith in ap (λ (t : ℕ). octants ! t) next ∙ row o small

octants_siblings : HasSiblings octants 9
octants_siblings = record {
  root = refl;
  sibling = λ i o some h small. (1 + o, omega arith, row o small ∙ omega (arith, eighth i some h));
}

abbrev pub in_order : List ℕ
in_order = 0 ∷ 1 ∷ 2 ∷ 3 ∷ 4 ∷ 5 ∷ 6 ∷ 7 ∷ 8 ∷ []

root_inner :
    (j : ℕ)
    → j < 1
    → (here : in_order ! j < 9) × ((octants_are_nodes.node (in_order ! j) here).level < 10)
root_inner zero h = (omega arith, omega arith)
root_inner (suc j) h = absurd (omega arith)

abbrev linked_octants : List ℕ × List ℕ
linked_octants =
    link_tree u32 octants 1 in_order (get_level_range u32 octants 9 (replicate 12 0))
      (replicate 9 0) (replicate 1 7)

link_tree-HasChildren_example : HasChildren octants linked_octants.0
link_tree-HasChildren_example =
    link_tree-HasChildren u32 octants 9 octants_are_nodes octants_siblings (replicate 12 0) refl
      in_order 1 root_inner (replicate 9 0) (replicate 1 7) (omega arith) (zeros 9)
  where
    zeros : (n i : ℕ) → replicate n 0 ! i ≡ 0
    zeros zero i = refl
    zeros (suc n) zero = refl
    zeros (suc n) (suc i) = zeros n i

link_tree_children_example : (linked_octants.0 ! 0 ≡ 1) × (linked_octants.1 ! ((1 - 1) / 8) ≡ 0)
link_tree_children_example =
    link_tree_children u32 octants 9 octants_are_nodes octants_siblings (replicate 12 0) refl
      in_order 1 root_inner (replicate 9 0) (replicate 1 7) (omega arith)
      (λ i j lt h. absurd (omega arith)) (omega arith) 0 1 (omega arith) (omega arith) refl
