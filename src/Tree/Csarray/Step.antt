-- ===== src/Tree/Csarray/Step.antt =====
-- The whole rebalance step: decision, scan and rewrite.
use mathlib.Core.Path.{subst, subst₂}
use native.Mathlib.Decide.{ℕ_discrete}
use cornerstone_octree.Base.{
  ℕ, suc, ◌+◌, ◌-◌, ◌*◌, ◌^◌, ◌≤◌, ◌<◌, ◌≡◌, ◌≢◌, ap, sym, ◌∙◌, arith, List, [], ◌∷◌, ◌++◌, length,
  ◌!◌, replicate, inl, inr, length-replicate, length-append,
}
use cornerstone_octree.Base.Loops.{length-fill, get_or-fill}
use cornerstone_octree.Key.{KeyType, max_tree_level, n_nodes}
use cornerstone_octree.Tree.Leaves.{IsOctree}
use cornerstone_octree.Tree.Leaves.Chain.{Chain, Chain-step, Chain→IsOctree}
use cornerstone_octree.Tree.Csarray.{
  parent_count, calculate_node_op, rebalance_decision, update_treelet,
}
use cornerstone_octree.Tree.Csarray.Decision.{merge_found, split_found}
use cornerstone_octree.Tree.Csarray.Rebalance.{refine_nodes, IsOp, rebalance_tree-refine}
use cornerstone_octree.Tree.Csarray.Valid.{refine-Chain}

module _ {k : KeyType} {tree : List ℕ} (o : IsOctree k tree) (counts : List ℕ) (bucket : ℕ) where
  abbrev n : ℕ
  n = n_nodes tree

  abbrev op : ℕ → ℕ
  op i = calculate_node_op k tree i counts bucket

  abbrev pub decided : List ℕ
  decided = (rebalance_decision k tree counts n bucket (replicate (n + 1) 0)).0

  pub length-decided : length decided ≡ length tree
  unfolding rebalance_decision n_nodes
  length-decided =
      length-fill n 0 op (replicate (n + 1) 0)
      ∙ length-replicate (n + 1) 0
      ∙ omega (arith, o.some_node)

  pub decided_at : (i : ℕ) → i < n → decided ! i ≡ op i
  unfolding rebalance_decision
  decided_at i h =
      get_or-fill n 0 op (replicate (n + 1) 0) i 0 (omega arith) (omega arith)
        (omega (arith, length-replicate {A = ℕ} (n + 1) 0))

  -- Every opcode can be carried out: d ≤ 4 is the deepest split.
  pub decided-IsOp : (i : ℕ) → i < n → IsOp k tree decided i
  decided-IsOp i h = elim (ℕ_discrete (op i) 0) [
    | yes merged ↦
        let (e, small, size) = o.steps i h in
        record {
          d = 0;
          e = e;
          code = inl (decided_at i h ∙ merged);
          few = omega arith;
          fits = omega arith;
          small = small;
          size = size;
        }
    | no start ↦
        let (d, e, power, few, de, small, size) = split_found o counts bucket i h start in
        record {
          d = d;
          e = e;
          code = inr (decided_at i h ∙ power);
          few = few;
          fits = de;
          small = small;
          size = size;
        }
  ]

  pub update_treelet-refine :
      update_treelet k tree counts bucket ≡ refine_nodes tree decided n 0 ++ (tree ! n) ∷ []
  unfolding update_treelet
  update_treelet-refine = rebalance_tree-refine o [] decided length-decided decided-IsOp

  -- The first node is never merged.
  first_start : op 0 ≢ 0
  first_start merged =
      let (s, e, group, fits) =
        merge_found o counts bucket 0 (unfold n_nodes in omega (arith, o.some_node)) merged in
      absurd (omega (arith, group.before))

  module _ (no_wrap : bucket * 512 < 2 ^ 32) where
    -- What the decisions give of each new node holds of each node of the new tree.
    module _ (Q : ℕ → ℕ → Type 0)
        (on_merge : (i e : ℕ)
          → i + 8 ≤ n
          → e < max_tree_level k
          → ((t : ℕ) → t < 8 → tree ! suc (i + t) ≡ tree ! (i + t) + 8 ^ e)
          → tree ! (i + 8) ≡ tree ! i + 8 ^ suc e
          → parent_count counts i ≤ bucket
          → Q (tree ! i) (suc e))
        (on_split : (i d e t : ℕ)
          → i < n
          → op i ≡ 8 ^ d
          → d ≤ e
          → tree ! suc i ≡ tree ! i + 8 ^ e
          → t < 8 ^ d
          → Q (tree ! i + t * 8 ^ (e - d)) (e - d)) where
      refined-Chain : Chain k Q 0 (refine_nodes tree decided n 0) (8 ^ max_tree_level k)
      refined-Chain =
          subst₂ (λ u v. Chain k Q u (refine_nodes tree decided n 0) v) o.first o.last
            (refine-Chain o counts bucket no_wrap Q on_merge on_split decided decided_at n n 0
              (omega arith) (omega arith) (λ p. first_start))

      pub update_treelet-each :
          (i : ℕ)
          → i < n_nodes (update_treelet k tree counts bucket)
          → (e : ℕ) × (e ≤ max_tree_level k)
            × (update_treelet k tree counts bucket ! suc i
                ≡ update_treelet k tree counts bucket ! i + 8 ^ e)
            × Q (update_treelet k tree counts bucket ! i) e
      update_treelet-each =
          let closed : update_treelet k tree counts bucket
              ≡ refine_nodes tree decided n 0 ++ (8 ^ max_tree_level k) ∷ [] =
            update_treelet-refine ∙ ap (λ x. refine_nodes tree decided n 0 ++ x ∷ []) o.last in
          subst
            (λ xs.
              (i : ℕ)
              → i < n_nodes xs
              → (e : ℕ) × (e ≤ max_tree_level k) × (xs ! suc i ≡ xs ! i + 8 ^ e) × Q (xs ! i) e)
            (sym closed)
            (λ i h.
              Chain-step k Q 0 (8 ^ max_tree_level k) (refine_nodes tree decided n 0) i
                refined-Chain
                (unfold n_nodes in
                  omega (
                    arith,
                    length-append {0} (refine_nodes tree decided n 0) ((8 ^ max_tree_level k) ∷ []),
                    h,
                  )))

    -- A rebalance step with the decisions of `rebalanceDecision` keeps the cornerstone format,
    -- whatever the counts, if the bucket is small enough for its products not to wrap.
    pub update_treelet-IsOctree : IsOctree k (update_treelet k tree counts bucket)
    update_treelet-IsOctree =
        rw (update_treelet-refine, o.last)
          (Chain→IsOctree k (λ a e. 0 ≤ a) (refine_nodes tree decided n 0)
            (refined-Chain (λ a e. 0 ≤ a) (λ i e inside deep sizes total fits. omega arith)
              (λ i d e t h power de size p. omega arith)))
