-- ===== src/Tree/Linked/Children.antt =====
-- The search of `linkTreeCpu` of include/cstone/tree/octree.hpp for a node's first child, and its loop.
use native.Mathlib.Decide.{dec_lt, dec_le}
use cornerstone_octree.Base.{
  ℕ, suc, ◌+◌, ◌*◌, ◌/◌, ◌^◌, ◌≤◌, ◌<◌, ◌≡◌, ap, ◌∙◌, arith, List, ◌!◌, true, length,
}
use cornerstone_octree.Base.Pow.{pow8-suc, pow8-pos}
use cornerstone_octree.Key.{KeyType, max_tree_level}
use cornerstone_octree.Primitives.Search.Splits.{IsSortedIn, Splits, Splits-le, lower_bound-Splits}
use cornerstone_octree.Sfc.Prefix.{decode_prefix_length}
use cornerstone_octree.Tree.Linked.{get_level_range}
use cornerstone_octree.Tree.Linked.Levels.{
  IsNodeKey, get_level_range-entry, get_level_range-end, get_level_range-splits,
}
use cornerstone_octree.Tree.Linked.Containing.{HasLevel-length}
use cornerstone_octree.Tree.Linked.Search.{
  child_prefix, found_child, has_child, IsNodeKey-HasLevel, child_prefix-eight, passes, passed,
}

-- The nodes of a tree: their keys ascend, and each is that of a node.
pub record AreNodes (k : KeyType) (prefixes : List ℕ) (n : ℕ) : Type 0 where
  pub ascend : (i j : ℕ) → i < j → j < n → prefixes ! i < prefixes ! j
  pub node : (i : ℕ) → i < n → IsNodeKey k (prefixes ! i)

module _ (k : KeyType) (prefixes : List ℕ) (n : ℕ) (nodes : AreNodes k prefixes n) where
  AreNodes-IsSortedIn : IsSortedIn prefixes 0 n
  AreNodes-IsSortedIn i j from to here = elim (dec_lt i j) [
    | yes p ↦ omega (arith, nodes.ascend i j p here)
    | no p ↦ let same : i ≡ j = omega arith in rw same (omega arith)
  ]

  -- Two nodes have different keys.
  pub AreNodes-same : (i j : ℕ) → i < n → j < n → prefixes ! i ≡ prefixes ! j → i ≡ j
  AreNodes-same i j p q same = elim (dec_lt i j) [
    | yes lt ↦ absurd (omega (arith, nodes.ascend i j lt q))
    | no ge ↦ elim (dec_lt j i) [
      | yes lt ↦ absurd (omega (arith, nodes.ascend j i lt p))
      | no le ↦ omega arith
    ]
  ]

  module _ (level_range : List ℕ) (room : length level_range ≡ max_tree_level k + 2) where
    range_within :
        (l : ℕ) → l ≤ max_tree_level k + 1 → get_level_range k prefixes n level_range ! l ≤ n
    range_within l fits = elim (dec_le l (max_tree_level k)) [
      | yes p ↦ omega (
        arith,
        get_level_range-entry k prefixes n level_range room AreNodes-IsSortedIn nodes.node l p,
        (lower_bound-Splits prefixes 0 n (8 ^ l) (omega arith) AreNodes-IsSortedIn).to,
      )
      | no p ↦
          let last : l ≡ max_tree_level k + 1 = omega arith in
          rw last (
            omega (
              arith,
              get_level_range-end k prefixes n level_range room AreNodes-IsSortedIn nodes.node,
            ))
    ]

    range_ascends :
        (l : ℕ)
        → l ≤ max_tree_level k
        → get_level_range k prefixes n level_range ! l
          ≤ get_level_range k prefixes n level_range ! (suc l)
    range_ascends l fits =
        let i = get_level_range k prefixes n level_range ! (suc l) in
        elim (dec_lt i n) [
          | yes p ↦
              let split =
                get_level_range-splits k prefixes n level_range room AreNodes-IsSortedIn
                  nodes.node in
              (split l i (omega arith) p).1
                (omega (arith, (split (suc l) i (omega arith) p).0 (omega arith), pow8-suc l))
          | no p ↦ omega (arith, range_within l (omega arith))
        ]

    -- A node's level and how its children are looked for.
    module _ (idx : ℕ) (here : idx < n)
        (inner : (nodes.node idx here).level < max_tree_level k) where
      abbrev level : ℕ
      level = (nodes.node idx here).level

      abbrev range : List ℕ
      range = get_level_range k prefixes n level_range

      found_level : decode_prefix_length k (prefixes ! idx) / 3 ≡ level
      found_level = omega (
        arith,
        HasLevel-length k (prefixes ! idx) level (omega (arith, inner))
            (IsNodeKey-HasLevel k (prefixes ! idx) (nodes.node idx here)),
      )

      eight : child_prefix k prefixes idx ≡ 8 * (prefixes ! idx)
      eight =
          child_prefix-eight k prefixes idx level inner
            (IsNodeKey-HasLevel k (prefixes ! idx) (nodes.node idx here))

      found_child-Splits :
          Splits prefixes
            (range ! (level + 1))
            (range ! (level + 2))
            (8 * (prefixes ! idx))
            (found_child k prefixes range idx)
      found_child-Splits =
          let next : level + 2 ≡ suc (level + 1) = omega arith in
          let ends : range ! (level + 2) ≤ n = range_within (level + 2) (omega (arith, inner)) in
          rw (found_level, eight)
            (lower_bound-Splits prefixes (range ! (level + 1)) (range ! (level + 2))
              (8 * (prefixes ! idx)) (rw next (range_ascends (level + 1) (omega (arith, inner))))
              (λ i j from to inside.
                AreNodes-IsSortedIn i j (omega arith) to (omega (arith, ends))))

      -- A node with the first child's key is found.
      pub has_child_complete :
          (c : ℕ)
          → c < n
          → prefixes ! c ≡ 8 * (prefixes ! idx)
          → (has_child k prefixes range idx ≡ true) × (found_child k prefixes range idx ≡ c)
      has_child_complete c within is =
          let q : ℕ = prefixes ! idx in
          let (lo, hi) = IsNodeKey-HasLevel k q (nodes.node idx here) in
          let split =
            get_level_range-splits k prefixes n level_range room AreNodes-IsSortedIn nodes.node in
          let power : 8 ^ (level + 1) ≡ 8 * 8 ^ level =
            ap (λ (t : ℕ). 8 ^ t) (omega arith) ∙ pow8-suc level in
          let power' : 8 ^ (level + 2) ≡ 64 * 8 ^ level =
            ap (λ (t : ℕ). 8 ^ t) (omega arith)
            ∙ pow8-suc (suc level)
            ∙ omega (arith, pow8-suc level) in
          let from : range ! (level + 1) ≤ c =
            (split (level + 1) c (omega (arith, inner)) within).1 (omega (arith, power, is, lo)) in
          let to : c < range ! (level + 2) = elim (dec_lt c (range ! (level + 2))) [
            | yes p ↦ p
            | no p ↦ absurd (
                omega (
                  arith,
                  power',
                  is,
                  hi,
                  pow8-pos level,
                  (split (level + 2) c (omega (arith, inner)) within).0 (omega arith),
                ))
          ] in
          let s = found_child-Splits in
          let r = found_child k prefixes range idx in
          let before : r ≤ c = (Splits-le s c from to).1 (omega (arith, is)) in
          let same : r ≡ c = AreNodes-same r c (omega arith) within (
            omega (
              arith,
              is,
              s.above r (omega arith) (omega arith),
              AreNodes-IsSortedIn r c (omega arith) before within,
            )) in
          (
            passes prefixes (8 * q) same to (ap (λ (l : ℕ). range ! (l + 2)) found_level) eight is,
            same,
          )

      -- And nothing else is.
      pub has_child_sound :
          has_child k prefixes range idx ≡ true
          → (found_child k prefixes range idx < n)
            × (prefixes ! found_child k prefixes range idx ≡ 8 * (prefixes ! idx))
      has_child_sound has =
          let ends : range ! (level + 2) ≤ n = range_within (level + 2) (omega (arith, inner)) in
          passed prefixes (8 * (prefixes ! idx)) found_child-Splits.to ends
            (ap (λ (l : ℕ). range ! (l + 2)) found_level) eight has
