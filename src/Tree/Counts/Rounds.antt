-- ===== src/Tree/Counts/Rounds.antt =====
-- The rounds of `computeOctree` in which nothing is split any more: a round that does not report
-- convergence merges some nodes.
use native.Mathlib.Decide.{ℕ_discrete}
use cornerstone_octree.Base.{
  ℕ, zero, suc, ◌+◌, ◌-◌, ◌*◌, ◌^◌, ◌≤◌, ◌<◌, ◌≡◌, ap, sym, ◌∙◌, arith, List, [], ◌∷◌, length, ◌!◌,
  inl, inr, false, length-append,
}
use cornerstone_octree.Key.{KeyType, max_tree_level, n_nodes}
use cornerstone_octree.Tree.Csarray.{calculate_node_op}
use cornerstone_octree.Tree.Csarray.Decision.{split_found}
use cornerstone_octree.Tree.Csarray.Pieces.{split_node, length-split_node}
use cornerstone_octree.Tree.Csarray.Rebalance.{refine_nodes}
use cornerstone_octree.Tree.Csarray.Step.{decided, decided_at, update_treelet-refine}
use cornerstone_octree.Tree.Csarray.Converged.{converged_iff}
use cornerstone_octree.Tree.Counts.{Octree, update_octree}
use cornerstone_octree.Tree.Counts.Every.{AreKeys}
use cornerstone_octree.Tree.Counts.Update.{Counted, update_octree-tree, update_octree-flag}
use cornerstone_octree.Tree.Counts.Splitting.{IsSplitTo, split_over, exponent-le}

-- Where no opcode is above 1, the refined nodes are at most as many, and as many only if all are kept.
refine-le :
    (tree ops : List ℕ) (left i : ℕ)
    → ((j : ℕ) → i ≤ j → j < i + left → ops ! j ≤ 1)
    → (length (refine_nodes tree ops left i) ≤ left)
      × (length (refine_nodes tree ops left i) ≡ left
          → (j : ℕ) → i ≤ j
          → j < i + left
          → ops ! j ≡ 1)
unfolding refine_nodes
refine-le tree ops zero i few = (omega arith, λ e j lo hi. absurd (omega arith))
refine-le tree ops (suc left) i few =
    let pieces : List ℕ = split_node (tree ! i) (tree ! suc i) (ops ! i) in
    let (fits, all) =
      refine-le tree ops left (suc i) (λ j lo hi. few j (omega arith) (omega arith)) in
    let total = length-append {0} pieces (refine_nodes tree ops left (suc i)) in
    let count = length-split_node (tree ! i) (tree ! suc i) (ops ! i) in
    let one = few i (omega arith) (omega arith) in
    (
      omega (arith, fits, total, count, one),
      λ e j lo hi. elim (ℕ_discrete i j) [
        | yes same ↦ rw (← same) (omega (arith, e, fits, total, count, one))
        | no ne ↦ all (omega (arith, e, fits, total, count, one)) j (omega arith) (omega arith)
      ],
    )

module _ {k : KeyType} {codes : List ℕ} (keys : AreKeys k codes) (bucket max_count : ℕ)
    (no_wrap : bucket * 512 < 2 ^ 32) where
  abbrev next : Octree → Octree
  next s = (update_octree k codes bucket max_count s).0

  -- When all levels are through, nothing is split.
  op-le :
      (s : Octree) (r : ℕ) (c : Counted k codes max_count s)
      → IsSplitTo k bucket r s
      → max_tree_level k ≤ r
      → (i : ℕ) → i < n_nodes s.tree
      → calculate_node_op k s.tree i s.counts bucket ≤ 1
  op-le s r c split deep i h = elim (ℕ_discrete (calculate_node_op k s.tree i s.counts bucket) 0) [
    | yes merged ↦ omega (arith, merged)
    | no start ↦ bound (split_found c.octree s.counts bucket i h start)
  ]
    where
      bound :
          ((d : ℕ) × (e : ℕ) × (calculate_node_op k s.tree i s.counts bucket ≡ 8 ^ d)
            × (d ≤ 4)
            × (d ≤ e)
            × (e ≤ max_tree_level k)
            × (s.tree ! suc i ≡ s.tree ! i + 8 ^ e))
          → calculate_node_op k s.tree i s.counts bucket ≤ 1
      bound (zero, e, power, few, de, small, size) = omega (arith, power)
      bound (suc d, e, power, few, de, small, size) = elim (split.over i h) [
        | inl fits ↦ absurd (omega (arith, fits, split_over c bucket no_wrap i d power))
        | inr room ↦
            let low =
              exponent-le (s.tree ! i) e (max_tree_level k - r) (omega (arith, room, size)) in
            absurd (omega arith)
      ]

  -- Then a round without convergence loses a node.
  pub next-fewer :
      (s : Octree) (r : ℕ) (c : Counted k codes max_count s)
      → IsSplitTo k bucket r s
      → max_tree_level k ≤ r
      → (update_octree k codes bucket max_count s).1 ≡ false
      → n_nodes (next s).tree < n_nodes s.tree
  next-fewer s r c split deep goes_on =
      let ops : List ℕ = decided c.octree s.counts bucket in
      let n : ℕ = n_nodes s.tree in
      let (fits, all) = refine-le s.tree ops n 0 (λ j lo hi.
        rw (decided_at c.octree s.counts bucket j (omega arith))
          (op-le s r c split deep j (omega arith))) in
      let closed =
        update_octree-tree k codes bucket max_count s
        ∙ update_treelet-refine c.octree s.counts bucket in
      let size : n_nodes (next s).tree ≡ length (refine_nodes s.tree ops n 0) =
        ap n_nodes closed
        ∙ (unfold n_nodes in
            omega (arith, length-append {0} (refine_nodes s.tree ops n 0) ((s.tree ! n) ∷ []))) in
      elim (ℕ_discrete (length (refine_nodes s.tree ops n 0)) n) [
        | no ne ↦ omega (arith, size, fits)
        | yes kept ↦
            let flag = converged_iff c.octree s.counts bucket in
            let done = flag.1 (λ i h.
              sym (decided_at c.octree s.counts bucket i h)
              ∙ all kept i (omega arith) (omega arith)) in
            cc (update_octree-flag k codes bucket max_count s, done, goes_on)
      ]
