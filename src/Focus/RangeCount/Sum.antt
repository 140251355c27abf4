-- ===== src/Focus/RangeCount/Sum.antt =====
-- That `rangeCount` of include/cstone/focus/rebalance.hpp adds up the counts of the nodes of each leaf.
use native.Mathlib.Decide.{ℕ_discrete, dec_lt, dec_le}
use cornerstone_octree.Base.{
  ℕ, zero, suc, ◌+◌, ◌-◌, ◌%◌, ◌^◌, ◌≤◌, ◌<◌, ◌≡◌, refl, ap, ◌∙◌, arith, List, [], ◌∷◌, length,
  length-set, set, get_or-set_self, get_or-set_ne, ◌!◌, min,
}
use cornerstone_octree.Base.Int.{pos, ◌+ℤ◌}
use cornerstone_octree.Base.Pow.{pow8-pos}
use cornerstone_octree.Key.{KeyType, n_nodes}
use cornerstone_octree.Primitives.Search.{lower_bound, upper_bound}
use cornerstone_octree.Primitives.Search.Splits.{
  IsSortedIn, lower_bound-Splits, upper_bound-SplitsBehind, Splits-le, SplitsBehind-le,
}
use cornerstone_octree.Tree.Leaves.{IsOctree}
use cornerstone_octree.Tree.Counts.{find_node_above, find_node_below}
use cornerstone_octree.Tree.Counts.Whole.{IsOctree-ascending}
use cornerstone_octree.Domain.Decomposition.Sums.{sum_first, sum_first_mono}
use cornerstone_octree.Focus.RangeCount.{accumulate, leaf_count, range_count_loop, range_count}

sum_first-suc : (xs : List ℕ) (n : ℕ) → sum_first xs (suc n) ≡ sum_first xs n + xs ! n
sum_first-suc [] zero = refl
sum_first-suc [] (suc n) = refl
sum_first-suc (x ∷ xs) zero = omega arith
sum_first-suc (x ∷ xs) (suc n) = omega (arith, sum_first-suc xs n)

accumulate-sum :
    (counts : List ℕ) (left i acc : ℕ)
    → acc + sum_first counts (i + left) < 2 ^ 64 + sum_first counts i
    → accumulate counts left i acc + sum_first counts i ≡ acc + sum_first counts (i + left)
unfolding accumulate
accumulate-sum counts zero i acc h = let none : i + 0 ≡ i = omega arith in rw none refl
accumulate-sum counts (suc left) i acc h =
    let next : i + suc left ≡ i + 1 + left = omega arith in
    let one : i + 1 ≡ suc i = omega arith in
    let step : sum_first counts (i + 1) ≡ sum_first counts i + counts ! i =
      ap (sum_first counts) one ∙ sum_first-suc counts i in
    let up = sum_first_mono counts (i + 1) (i + 1 + left) (omega arith) in
    let all = ap (sum_first counts) next in
    let fits : (acc + counts ! i) % 2 ^ 64 ≡ acc + counts ! i = omega (arith, up, all, step) in
    rw fits (
      omega (
        arith,
        all,
        step,
        accumulate-sum counts left (i + 1) (acc + counts ! i) (omega (arith, all, step)),
      ))

module _ {k : KeyType} {leaves : List ℕ} (o : IsOctree k leaves) where
  leaves-IsSortedIn : IsSortedIn leaves 0 (length leaves)
  unfolding n_nodes
  leaves-IsSortedIn i j from up to = IsOctree-ascending o i j up (omega arith)

  strictly : (i j : ℕ) → i < j → j ≤ n_nodes leaves → leaves ! i < leaves ! j
  strictly i j lt h =
      let (e, small, step) = o.steps i (omega arith) in
      omega (arith, step, pow8-pos e, IsOctree-ascending o (suc i) j lt h)

  -- `findNodeBelow` and `findNodeAbove` find a key of the tree.
  find_node_below-at :
      (s : ℕ) → s < n_nodes leaves → find_node_below leaves (length leaves) (leaves ! s) ≡ pos s
  unfolding find_node_below n_nodes ◌+ℤ◌
  find_node_below-at s h =
      let u = upper_bound leaves 0 (length leaves) (leaves ! s) in
      let split =
        upper_bound-SplitsBehind leaves 0 (length leaves) (leaves ! s) (omega arith)
          leaves-IsSortedIn in
      let some : length leaves ≡ n_nodes leaves + 1 = omega (arith, o.some_node) in
      let low : s < u = elim (dec_le u s) [
        | yes p ↦ absurd (omega (arith, (SplitsBehind-le split s (omega arith) (omega arith)).0 p))
        | no p ↦ omega arith
      ] in
      let high : u ≤ s + 1 =
        (SplitsBehind-le split (s + 1) (omega arith) (omega arith)).1
          (strictly s (s + 1) (omega arith) (omega arith)) in
      let at : u ≡ suc s = omega arith in rw at (ground arith)

  find_node_above-at :
      (s : ℕ) → s ≤ n_nodes leaves → find_node_above leaves (length leaves) (leaves ! s) ≡ s
  unfolding find_node_above n_nodes
  find_node_above-at s h =
      let l = lower_bound leaves 0 (length leaves) (leaves ! s) in
      let split =
        lower_bound-Splits leaves 0 (length leaves) (leaves ! s) (omega arith) leaves-IsSortedIn in
      let some : length leaves ≡ n_nodes leaves + 1 = omega (arith, o.some_node) in
      let high : l ≤ s = (Splits-le split s (omega arith) (omega arith)).1 (omega arith) in
      elim (dec_lt l s) [
        | yes p ↦ absurd (
            omega (
              arith,
              (Splits-le split l (omega arith) (omega arith)).0 (omega arith),
              strictly l s p (omega arith),
            ))
        | no p ↦ omega arith
      ]

  module _ (counts focus : List ℕ) (small : sum_first counts (n_nodes leaves) < 2 ^ 64)
      (leaf s e : ℕ) (start : leaves ! s ≡ focus ! leaf) (end : leaves ! e ≡ focus ! (leaf + 1))
      (some : s < n_nodes leaves) (order : s ≤ e) (within : e ≤ n_nodes leaves) where
    leaf_count-sum :
        leaf_count leaves counts focus leaf
        ≡ min 0xFFFF_FFFF (sum_first counts e - sum_first counts s)
    unfolding leaf_count
    leaf_count-sum =
        let whole : s + (e - s) ≡ e = omega arith in
        let up = sum_first_mono counts s e order in
        let top = sum_first_mono counts e (n_nodes leaves) within in
        let sum =
          accumulate-sum counts (e - s) s 0 (omega (arith, ap (sum_first counts) whole, up, top)) in
        let value : accumulate counts (e - s) s 0 ≡ sum_first counts e - sum_first counts s =
          omega (arith, sum, ap (sum_first counts) whole) in
        rw (← start, ← end, find_node_below-at s some, find_node_above-at e within)
          (ap (λ (t : ℕ). min 0xFFFF_FFFF t) value)

module _ (leaves counts focus idx : List ℕ) where
  range_count_loop-keeps :
      (left i : ℕ) (out : List ℕ) (p : ℕ)
      → p < length out
      → out ! p ≡ leaf_count leaves counts focus p
      → range_count_loop leaves counts focus idx left i out ! p ≡ leaf_count leaves counts focus p
  unfolding range_count_loop
  range_count_loop-keeps zero i out p h e = e
  range_count_loop-keeps (suc left) i out p h e =
      let leaf = idx ! i in
      let v = leaf_count leaves counts focus leaf in
      range_count_loop-keeps left (i + 1) (set out leaf v) p (omega (arith, length-set out leaf v))
        (elim (ℕ_discrete leaf p) [
          | yes same ↦ rw (← same) (get_or-set_self out leaf v 0 (omega arith))
          | no ne ↦ get_or-set_ne out leaf p v 0 ne ∙ e
        ])

  range_count_loop-at :
      (left i : ℕ) (out : List ℕ) (j : ℕ)
      → i ≤ j
      → j < i + left
      → idx ! j < length out
      → range_count_loop leaves counts focus idx left i out ! (idx ! j)
        ≡ leaf_count leaves counts focus (idx ! j)
  unfolding range_count_loop
  range_count_loop-at zero i out j from to h = absurd (omega arith)
  range_count_loop-at (suc left) i out j from to h =
      let v = leaf_count leaves counts focus (idx ! i) in
      elim (dec_lt i j) [
        | yes p ↦
            range_count_loop-at left (i + 1) (set out (idx ! i) v) j (omega arith) (omega arith)
              (omega (arith, length-set out (idx ! i) v))
        | no p ↦
            let here : i ≡ j = omega arith in
            rw (← here) (
              range_count_loop-keeps left (i + 1) (set out (idx ! i) v) (idx ! i)
                (omega (arith, length-set out (idx ! i) v, ap (λ (m : ℕ). idx ! m) here))
                (get_or-set_self out (idx ! i) v 0 (omega (arith, ap (λ (m : ℕ). idx ! m) here))))
      ]

-- `rangeCount` stores for each of the given focused leaves, whose keys are those of nodes `s` and `e` of a tree in
-- the cornerstone format, the sum of the counts of the nodes from `s` up to `e`, or the largest
-- `unsigned` if this is smaller, for a sum of all counts that 64 bits hold.
pub range_count-sum :
    (k : KeyType) (leaves counts focus idx out : List ℕ) (j s e : ℕ)
    → IsOctree k leaves
    → sum_first counts (n_nodes leaves) < 2 ^ 64
    → j < length idx
    → idx ! j < length out
    → leaves ! s ≡ focus ! (idx ! j)
    → leaves ! e ≡ focus ! (idx ! j + 1)
    → s < n_nodes leaves
    → s ≤ e
    → e ≤ n_nodes leaves
    → range_count leaves counts focus idx out ! (idx ! j)
      ≡ min 0xFFFF_FFFF (sum_first counts e - sum_first counts s)
unfolding range_count
range_count-sum k leaves counts focus idx out j s e o small h room start end some order within =
    range_count_loop-at leaves counts focus idx (length idx) 0 out j (omega arith) (omega arith)
      room
    ∙ leaf_count-sum o counts focus small (idx ! j) s e start end some order within
