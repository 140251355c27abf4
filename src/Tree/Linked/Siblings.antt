-- ===== src/Tree/Linked/Siblings.antt =====
-- Where siblings stand among the sorted nodes of an octree, as include/cstone/tree/octree.hpp relies on.
use native.Mathlib.Decide.{dec_lt}
use cornerstone_octree.Base.{
  ℕ, zero, suc, ◌+◌, ◌-◌, ◌*◌, ◌/◌, ◌%◌, ◌<◌, ◌≡◌, ◌≢◌, ap, sym, ◌∙◌, arith, List, ◌!◌,
}
use cornerstone_octree.Key.{KeyType}
use cornerstone_octree.Tree.Linked.Children.{AreNodes}

-- Each node but the root has its seven siblings, and the root is the first node.
pub record HasSiblings (prefixes : List ℕ) (n : ℕ) : Type 0 where
  pub root : prefixes ! 0 ≡ 1
  pub sibling :
      (i octant : ℕ)
      → 0 < i
      → i < n
      → octant < 8
      → (s : ℕ) × (s < n) × (prefixes ! s ≡ 8 * (prefixes ! i / 8) + octant)

module _ (k : KeyType) (prefixes : List ℕ) (n : ℕ) (nodes : AreNodes k prefixes n)
    (whole : HasSiblings prefixes n) where
  -- A smaller key stands before.
  key_before : (i j : ℕ) → i < n → j < n → prefixes ! i < prefixes ! j → i < j
  key_before i j p q less = elim (dec_lt i j) [
    | yes lt ↦ lt
    | no ge ↦ elim (dec_lt j i) [
      | yes lt ↦ absurd (omega (arith, nodes.ascend j i lt p))
      | no le ↦
          let same : i ≡ j = omega arith in
          absurd (omega (arith, ap (λ (t : ℕ). prefixes ! t) same))
    ]
  ]

  -- Siblings stand in a row.
  pub sibling_next :
      (i : ℕ)
      → 0 < i
      → i < n
      → prefixes ! i % 8 ≢ 7
      → (suc i < n) × (prefixes ! suc i ≡ suc (prefixes ! i))
  sibling_next i some here inner =
      let (s, within, is) = whole.sibling i (prefixes ! i % 8 + 1) some here (omega arith) in
      let next : prefixes ! s ≡ suc (prefixes ! i) = omega (arith, is) in
      let behind : i < s = key_before i s here within (omega (arith, next)) in
      elim (dec_lt (suc i) s) [
        | yes lt ↦ absurd (
            omega (
              arith,
              next,
              nodes.ascend i (suc i) (omega arith) (omega (arith, within)),
              nodes.ascend (suc i) s lt within,
            ))
        | no ge ↦
            let same : s ≡ suc i = omega arith in
            (omega (arith, within), ap (λ (t : ℕ). prefixes ! t) (sym same) ∙ next)
      ]

  sibling_before :
      (i : ℕ)
      → 0 < i
      → i < n
      → prefixes ! i % 8 ≢ 0
      → (s : ℕ) × (s < i) × (suc (prefixes ! s) ≡ prefixes ! i)
  sibling_before i some here inner =
      let (s, within, is) = whole.sibling i (prefixes ! i % 8 - 1) some here (omega arith) in
      let next : suc (prefixes ! s) ≡ prefixes ! i = omega (arith, is) in
      (s, key_before s i within here (omega (arith, next)), next)

  -- The digit of the octant is the place behind the root, in groups of 8.
  pub sibling_place : (i : ℕ) → 0 < i → i < n → prefixes ! i % 8 ≡ (i - 1) % 8
  sibling_place zero some here = absurd (omega arith)
  sibling_place (suc zero) some here = elim (dec_lt 0 (prefixes ! 1 % 8)) [
    | yes p ↦
        let (s, within, is) = whole.sibling 1 0 (omega arith) here (omega arith) in
        let first : s < 1 = key_before s 1 within here (omega (arith, is)) in
        let root : s ≡ 0 = omega arith in
        absurd (omega (arith, is, whole.root, ap (λ (t : ℕ). prefixes ! t) root))
    | no p ↦ omega arith
  ]
  sibling_place (suc (suc i)) some here =
      let before = sibling_place (suc i) (omega arith) (omega arith) in
      elim (dec_lt (prefixes ! suc i % 8) 7) [
        | yes p ↦
            omega
              (arith, before, (sibling_next (suc i) (omega arith) (omega arith) (omega arith)).1)
        | no p ↦ elim (dec_lt 0 (prefixes ! suc (suc i) % 8)) [
          | yes q ↦
              let (s, lt, is) = sibling_before (suc (suc i)) some here (omega arith) in
              let up = nodes.ascend (suc i) (suc (suc i)) (omega arith) here in
              elim (dec_lt s (suc i)) [
                | yes r ↦ absurd (omega (arith, up, is, nodes.ascend s (suc i) r (omega arith)))
                | no r ↦
                    let same : s ≡ suc i = omega arith in
                    absurd (omega (arith, p, q, is, ap (λ (t : ℕ). prefixes ! t) same))
              ]
          | no q ↦ omega (arith, before)
        ]
      ]
