-- ===== src/Focus/Rebalance/Decision.antt =====
-- The operations that include/cstone/focus/rebalance.hpp decides on, node by node.
use cornerstone_octree.Base.{
  ℕ, ◌+◌, ◌-◌, ◌*◌, ◌/◌, ◌^◌, ◌≤◌, ◌<◌, ◌≡◌, ◌≢◌, ◌∙◌, ap, arith, true, false, ◌==◌, leb,
  Bool-cases, List, ◌!◌, max, ◌⊎◌, inl, inr,
}
use cornerstone_octree.Base.Pow.{pow8-pos}
use cornerstone_octree.Key.{
  KeyType, modulus, max_tree_level, add_key, mul_key, add_key_exact, mul_key_exact,
}
use cornerstone_octree.Sfc.Range.{node_range, node_range-pow8}
use cornerstone_octree.Sfc.Prefix.{decode_prefix_length, decode_placeholder_bit}
use cornerstone_octree.Traversal.Overlap.{overlap_two_ranges}
use cornerstone_octree.Focus.Rebalance.{refine_op, merges_node, merge_count_and_mac_op}
use cornerstone_octree.Focus.Rebalance.Depth.{IsDeepest, refine_op-IsDeepest}

module _ (k : KeyType) (i : ℕ) (node_keys child_offsets parents counts macs : List ℕ)
    (focus_start focus_end bucket : ℕ) where
  abbrev pub op : ℕ
  op =
      merge_count_and_mac_op k i node_keys child_offsets parents counts macs focus_start focus_end
        bucket

  abbrev pub level : ℕ
  level = decode_prefix_length k (node_keys ! i) / 3

  abbrev pub start : ℕ
  start = decode_placeholder_bit k (node_keys ! i)

  -- The parent of a node that is not the root, and the keys of its eight children.
  abbrev pub parent : ℕ
  parent = parents ! ((i - 1) / 8)

  abbrev pub group_start : ℕ
  group_start = decode_placeholder_bit k (node_keys ! parent)

  abbrev pub group_end : ℕ
  group_end = group_start + 8 * node_range k level

  -- The parent fits the bucket, or passes the multipole criterion and has no key in the focus.
  abbrev pub IsSpare : Type 0
  IsSpare =
      (counts ! parent ≤ bucket)
      ⊎ ((macs ! parent ≡ 0)
          × ((x : ℕ) → group_start ≤ x → x < group_end → (x < focus_start) ⊎ (focus_end ≤ x)))

  -- The parent is over the bucket, and fails the criterion or has a key in the focus.
  abbrev pub IsKept : Type 0
  IsKept =
      (bucket < counts ! parent)
      × ((macs ! parent ≢ 0)
          ⊎ ((x : ℕ) × (group_start ≤ x) × (x < group_end) × (focus_start ≤ x) × (x < focus_end)))

  -- A leaf that starts in the focus or fails the criterion, and a node that is no such leaf.
  abbrev pub IsActive : Type 0
  IsActive =
      (child_offsets ! i ≡ 0) × ((macs ! i ≢ 0) ⊎ ((focus_start ≤ start) × (start < focus_end)))

  abbrev pub IsPassive : Type 0
  IsPassive =
      (child_offsets ! i ≢ 0) ⊎ ((macs ! i ≡ 0) × ((start < focus_start) ⊎ (focus_end ≤ start)))

  -- The three outcomes: merged, split by the greatest worthwhile number of levels, and kept.
  abbrev pub IsDecided : Type 0
  IsDecided =
      ((op ≡ 0) × (i ≢ 0) × IsSpare)
      ⊎ (((i ≡ 0) ⊎ IsKept)
          × (((d : ℕ) × IsDeepest k level (counts ! i) bucket d × (op ≡ 8 ^ d) × IsActive)
              ⊎ ((op ≡ 1) × IsPassive)))

  op_cases :
      ((op ≡ 0)
        × (i ≢ 0)
        × (merges_node k parent level node_keys counts macs focus_start focus_end bucket ≡ true))
      ⊎ (((i ≡ 0)
            ⊎ (merges_node k parent level node_keys counts macs focus_start focus_end bucket
                ≡ false))
          × (((op ≡ refine_op k level (counts ! i) bucket) × IsActive) ⊎ ((op ≡ 1) × IsPassive)))
  unfolding merge_count_and_mac_op
  op_cases = ground arith

  group_end_exact :
      group_end < modulus k → add_key k group_start (mul_key k 8 (node_range k level)) ≡ group_end
  group_end_exact room =
      ap (λ (x : ℕ). add_key k group_start x)
        (mul_key_exact k 8 (node_range k level) (omega (arith, room)))
      ∙ add_key_exact k group_start (8 * node_range k level) room

  merges_node-IsSpare :
      group_end < modulus k
      → merges_node k parent level node_keys counts macs focus_start focus_end bucket ≡ true
      → IsSpare
  unfolding merges_node overlap_two_ranges
  merges_node-IsSpare room h =
      let end = group_end_exact room in
      elim (Bool-cases (leb (counts ! parent) bucket)) [
        | inl small ↦ inl (ground arith)
        | inr large ↦ inr (ground arith, λ x from to. ground (arith, end))
      ]

  merges_node-IsKept :
      group_end < modulus k
      → focus_start < focus_end
      → merges_node k parent level node_keys counts macs focus_start focus_end bucket ≡ false
      → IsKept
  unfolding merges_node overlap_two_ranges
  merges_node-IsKept room focus h =
      let end = group_end_exact room in
      let some : 1 ≤ node_range k level =
        omega (arith, node_range-pow8 k level, pow8-pos (max_tree_level k - level)) in
      (
        ground arith,
        elim (Bool-cases (macs ! parent == 0)) [
          | inr fails ↦ inl (ground arith)
          | inl passes ↦
              let below : focus_start < group_end = ground (arith, end) in
              let above : group_start < focus_end = ground (arith, end) in
              inr (
                max group_start focus_start,
                omega arith,
                omega (arith, below, some),
                omega arith,
                omega (arith, above, focus),
              )
        ],
      )

  -- `mergeCountAndMacOp` merges a node which is not the root exactly if its parent fits the bucket, or passes
  -- the multipole criterion and has no key in the focus. Else it splits a leaf that starts in the focus or fails the
  -- criterion by the greatest number of levels, up to four, that exist and whose buckets the count is over (one
  -- for a level, 8 ^ d for d of two and more), and keeps all other nodes. This is for a focus that is not
  -- empty, a bucket whose products do not wrap, and a parent whose end the key type holds.
  pub merge_count_and_mac_op-decides :
      bucket * 4096 < 2 ^ 32 → focus_start < focus_end → (i ≢ 0 → group_end < modulus k) → IsDecided
  merge_count_and_mac_op-decides small focus room = elim op_cases [
    | inl (merged, inner, test) ↦ inl (merged, inner, merges_node-IsSpare (room inner) test)
    | inr (test, rest) ↦
        let kept : (i ≡ 0) ⊎ IsKept = elim (Bool-cases (i == 0)) [
          | inl root ↦ inl (ground arith)
          | inr other ↦
              let inner : i ≢ 0 = ground arith in
              inr (merges_node-IsKept (room inner) focus (ground arith))
        ] in
        inr (
          kept,
          elim rest [
            | inr passive ↦ inr passive
            | inl (split, active) ↦
                let (d, deepest, value) = refine_op-IsDeepest k level (counts ! i) bucket small in
                inl (d, deepest, split ∙ value, active)
          ],
        )
  ]
