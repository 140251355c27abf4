-- ===== src/Tree/Csarray/Converged.antt =====
-- What it means that `rebalanceDecision` reports convergence.
use native.Mathlib.Nat.{zero-mul}
use native.Mathlib.Decide.{dec_lt}
use cornerstone_octree.Base.{
  ℕ, zero, suc, ◌+◌, ◌-◌, ◌*◌, ◌/◌, ◌^◌, ◌≤◌, ◌<◌, ◌≡◌, refl, ap, sym, ◌∙◌, arith, List, [], ◌∷◌,
  ◌++◌, length, ◌!◌, replicate, ◌⊎◌, inl, inr, ◌↔◌, true, drop, drop_one, drop_all,
}
use cornerstone_octree.Key.{KeyType, max_tree_level, n_nodes}
use cornerstone_octree.Tree.Leaves.{IsOctree}
use cornerstone_octree.Tree.Csarray.{
  sibling_and_level, parent_count, calculate_node_op, rebalance_decision, all_keep, update_treelet,
}
use cornerstone_octree.Tree.Csarray.Groups.{InGroup, level_found}
use cornerstone_octree.Tree.Csarray.Decision.{op-split, split_op-over, merge_rest}
use cornerstone_octree.Tree.Csarray.Pieces.{ramp, split_node}
use cornerstone_octree.Tree.Csarray.Rebalance.{refine_nodes}
use cornerstone_octree.Tree.Csarray.Step.{decided, decided_at, update_treelet-refine}

all_keep→ : (n i : ℕ) (op : ℕ → ℕ) → all_keep n i op ≡ true → (j : ℕ) → i ≤ j → j < i + n → op j ≡ 1
unfolding all_keep
all_keep→ zero i op t j lo hi = absurd (omega arith)
all_keep→ (suc n) i op t j lo hi =
    let parts : (op i ≡ 1) × (all_keep n (i + 1) op ≡ true) = (ground arith, ground arith) in
    elim (dec_lt i j) [
      | yes p ↦ all_keep→ n (i + 1) op parts.1 j (omega arith) (omega arith)
      | no p ↦ let same : i ≡ j = omega arith in rw (← same) parts.0
    ]

→all_keep :
    (n i : ℕ) (op : ℕ → ℕ) → ((j : ℕ) → i ≤ j → j < i + n → op j ≡ 1) → all_keep n i op ≡ true
unfolding all_keep
→all_keep zero i op h = refl
→all_keep (suc n) i op h = ground (
  arith,
  h i (omega arith) (omega arith),
  →all_keep n (i + 1) op (λ j p q. h j (omega arith) (omega arith)),
)

module _ {k : KeyType} {tree : List ℕ} (o : IsOctree k tree) (counts : List ℕ) (bucket : ℕ) where
  abbrev n : ℕ
  n = n_nodes tree

  abbrev op : ℕ → ℕ
  op i = calculate_node_op k tree i counts bucket

  refine_kept :
      (ops : List ℕ)
      → ((i : ℕ) → i < n → ops ! i ≡ 1)
      → (left i : ℕ) → i + left ≡ n
      → refine_nodes tree ops left i ++ (tree ! n) ∷ [] ≡ drop i tree
  unfolding refine_nodes split_node ramp
  refine_kept ops keep zero i e =
      let same : n ≡ i = omega arith in
      let enough : length tree ≡ suc i = unfold n_nodes in omega (arith, o.some_node) in
      rw same (
        sym (
          drop_one tree i 0 (omega (arith, enough))
          ∙ ap (λ t. (tree ! i) ∷ t) (drop_all tree (suc i) (omega (arith, enough)))))
  refine_kept ops keep (suc left) i e =
      let inside : i < length tree = unfold n_nodes in omega (arith, o.some_node) in
      let here : tree ! i + 0 * ((tree ! suc i - tree ! i) / 1) ≡ tree ! i =
        omega (arith, zero-mul ((tree ! suc i - tree ! i) / 1)) in
      rw (keep i (omega arith), here, drop_one tree i 0 inside)
        (ap (λ t. (tree ! i) ∷ t) (refine_kept ops keep left (suc i) (omega arith)))

  -- `rebalanceDecision` reports convergence exactly when it keeps every node.
  pub converged_iff :
      ((rebalance_decision k tree counts n bucket (replicate (n + 1) 0)).1 ≡ true)
      ↔ ((i : ℕ) → i < n → op i ≡ 1)
  unfolding rebalance_decision
  converged_iff = (
    λ t i h. all_keep→ n 0 op t i (omega arith) (omega arith),
    λ h. →all_keep n 0 op (λ j p q. h j (omega arith)),
  )

  -- A step that reports convergence gives the tree back as it was.
  pub converged_unchanged :
      (rebalance_decision k tree counts n bucket (replicate (n + 1) 0)).1 ≡ true
      → update_treelet k tree counts bucket ≡ tree
  converged_unchanged t =
      update_treelet-refine o counts bucket
      ∙ refine_kept (decided o counts bucket)
          (λ i h. decided_at o counts bucket i h ∙ converged_iff.0 t i h) n 0 (omega arith)

  -- A node that is kept is within the bucket or stands at the deepest level.
  pub kept_leaf :
      (i e : ℕ)
      → i < n
      → e ≤ max_tree_level k
      → tree ! suc i ≡ tree ! i + 8 ^ e
      → op i ≡ 1
      → (counts ! i ≤ bucket) ⊎ (e ≡ 0)
  kept_leaf i e h small step keep =
      let level = level_found o i e h small step in
      let split = op-split o counts bucket i (λ z. absurd (omega (arith, keep, z))) in
      elim (dec_lt bucket (counts ! i)) [
        | yes over ↦ elim (dec_lt 0 e) [
          | yes deep ↦ absurd (
              omega (
                arith,
                keep,
                split,
                split_op-over k (sibling_and_level k tree i).1 (counts ! i) bucket over
                    (omega (arith, level)),
              ))
          | no flat ↦ inr (omega (arith, flat))
        ]
        | no fits ↦ inl (omega (arith, fits))
      ]

  -- If the step reports convergence, a node over the bucket stands at the deepest level, where
  -- nodes have size 1.
  pub converged_leaf :
      (rebalance_decision k tree counts n bucket (replicate (n + 1) 0)).1 ≡ true
      → (i : ℕ) → i < n
      → (counts ! i ≤ bucket) ⊎ (tree ! suc i ≡ tree ! i + 1)
  converged_leaf t i h =
      let (e, small, step) = o.steps i h in
      elim (kept_leaf i e h small step (converged_iff.0 t i h)) [
        | inl fits ↦ inl fits
        | inr flat ↦ inr (step ∙ ap (λ x. tree ! i + 8 ^ x) flat)
      ]

  -- If the step reports convergence, eight siblings together are over the bucket.
  pub converged_group :
      (rebalance_decision k tree counts n bucket (replicate (n + 1) 0)).1 ≡ true
      → (i s e : ℕ) → i < n
      → InGroup k tree i s e
      → bucket < parent_count counts (i - s)
  converged_group t i s e h group = elim (dec_lt bucket (parent_count counts (i - s))) [
    | yes over ↦ over
    | no fits ↦ absurd (
        omega (
          arith,
          merge_rest o counts bucket i s e 0 h group (omega (arith, fits)) (omega arith),
          converged_iff.0 t (i - s + 1) (omega (arith, group.inside)),
        ))
  ]
