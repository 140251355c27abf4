-- ===== src/Tree/Linked/Depth.antt =====
-- What `maxDepth` of include/cstone/tree/octree.hpp gives on the boundaries of the levels.
use cornerstone_octree.Base.{
  ℕ, zero, suc, ◌+◌, ◌-◌, ◌*◌, ◌^◌, ◌≤◌, ◌<◌, ◌≡◌, ◌≢◌, refl, ap, sym, ◌∙◌, arith, List, length,
  ◌!◌, ◌⊎◌, inl, inr, ◌==◌, Bool-cases, ==_iff, true, false,
}
use cornerstone_octree.Base.Pow.{pow8-pos}
use cornerstone_octree.Key.{KeyType, max_tree_level}
use cornerstone_octree.Primitives.Search.Splits.{IsSortedIn, lower_bound-Splits}
use cornerstone_octree.Sfc.Prefix.{decode_prefix_length}
use cornerstone_octree.Tree.Linked.{get_level_range, max_depth}
use cornerstone_octree.Tree.Linked.Levels.{
  IsNodeKey, IsNodeKey-bounds, get_level_range-entry, get_level_range-end, get_level_range-splits,
  get_level_range-levels,
}

equal : (a b : ℕ) → (a == b) ≡ true → b ≡ a
equal a b h = sym ((==_iff a b).0 h)

differ : (a b : ℕ) → (a == b) ≡ false → a ≢ b
differ a b h = ground arith

-- The depth that `maxDepth` gives: its level is not empty, unless it is 0, and all behind it are.
max_depth_lem :
    (level_offsets : List ℕ) (level : ℕ)
    → (max_depth level_offsets (suc (suc level)) ≤ level)
      × (level_offsets ! suc (max_depth level_offsets (suc (suc level)))
          ≡ level_offsets ! suc level)
      × ((max_depth level_offsets (suc (suc level)) ≡ 0)
          ⊎ (level_offsets ! suc (max_depth level_offsets (suc (suc level)))
              ≢ level_offsets ! max_depth level_offsets (suc (suc level))))
unfolding max_depth
max_depth_lem level_offsets zero = elim (Bool-cases (level_offsets ! 1 == level_offsets ! 0)) [
  | inl same ↦ rw same (omega arith, refl, inl refl)
  | inr new ↦ rw new (omega arith, refl, inl refl)
]
max_depth_lem level_offsets (suc level) =
    let (fits, end, step) = max_depth_lem level_offsets level in
    elim (Bool-cases (level_offsets ! suc (suc level) == level_offsets ! suc level)) [
      | inl same ↦ rw same (
        omega (arith, fits),
        end ∙ equal (level_offsets ! suc (suc level)) (level_offsets ! suc level) same,
        step,
      )
      | inr new ↦ rw new (
        omega arith,
        refl,
        inr (differ (level_offsets ! suc (suc level)) (level_offsets ! suc level) new),
      )
    ]

module _ (k : KeyType) (node_keys : List ℕ) (num_nodes : ℕ) (level_range : List ℕ)
    (room : length level_range ≡ max_tree_level k + 2) (sorted : IsSortedIn node_keys 0 num_nodes)
    (nodes : (i : ℕ) → i < num_nodes → IsNodeKey k (node_keys ! i)) where
  -- On the `maxTreeLevel` + 2 boundaries that `getLevelRangeCpu` finds for at least one sorted key of a
  -- node in the placeholder-bit format, `maxDepth` is the level of the last node.
  pub max_depth-get_level_range :
      0 < num_nodes
      → decode_prefix_length k (node_keys ! (num_nodes - 1))
        ≡ 3 * max_depth (get_level_range k node_keys num_nodes level_range) (max_tree_level k + 2)
  max_depth-get_level_range some =
      let range = get_level_range k node_keys num_nodes level_range in
      let i : ℕ = num_nodes - 1 in
      let two : max_tree_level k + 2 ≡ suc (suc (max_tree_level k)) = omega arith in
      let d = max_depth range (suc (suc (max_tree_level k))) in
      let (fits, end, step) = max_depth_lem range (max_tree_level k) in
      let all : range ! (d + 1) ≡ num_nodes =
        ap (λ (n : ℕ). range ! n) (omega arith)
        ∙ end
        ∙ ap (λ (n : ℕ). range ! n) (omega arith)
        ∙ get_level_range-end k node_keys num_nodes level_range room sorted nodes in
      let begun : range ! d ≤ i = elim step [
        | inl none ↦
            (get_level_range-splits k node_keys num_nodes level_range room sorted nodes d i
                (omega arith) (omega arith)).1
              (rw none (
                omega (
                  arith,
                  (IsNodeKey-bounds k (node_keys ! i) (nodes i (omega arith))).0,
                  pow8-pos (nodes i (omega arith)).level,
                )))
        | inr new ↦ begun_before d (omega (arith, fits)) all new
      ] in
      rw two (
        (get_level_range-levels k node_keys num_nodes level_range room sorted nodes d i fits
            (omega arith)).0
          (begun, omega arith))
    where
      begun_before :
          (d : ℕ)
          → d ≤ max_tree_level k
          → get_level_range k node_keys num_nodes level_range ! (d + 1) ≡ num_nodes
          → get_level_range k node_keys num_nodes level_range ! suc d
            ≢ get_level_range k node_keys num_nodes level_range ! d
          → get_level_range k node_keys num_nodes level_range ! d ≤ num_nodes - 1
      begun_before d fits all new =
          let s = lower_bound-Splits node_keys 0 num_nodes (8 ^ d) (omega arith) sorted in
          let entry =
            get_level_range-entry k node_keys num_nodes level_range room sorted nodes d fits in
          let here : get_level_range k node_keys num_nodes level_range ! suc d ≡ num_nodes =
            ap (λ (n : ℕ). get_level_range k node_keys num_nodes level_range ! n) (omega arith)
            ∙ all in
          let last : get_level_range k node_keys num_nodes level_range ! d ≢ num_nodes =
            λ e. new (here ∙ sym e) in
          omega (arith, entry, s.to, last)
