-- ===== src/Tree/Counts/Update.antt =====
-- `updateOctree`: the state that it leaves, and the state in which it reports convergence.
use mathlib.Core.Path.{ap₂}
use cornerstone_octree.Base.{
  ℕ, suc, ◌+◌, ◌-◌, ◌*◌, ◌^◌, ◌≤◌, ◌<◌, ◌≡◌, refl, ap, sym, ◌∙◌, arith, List, [], ◌∷◌, length, ◌!◌,
  ◌⊎◌, true, min, resize, length-resize, replicate,
}
use cornerstone_octree.Key.{KeyType, n_nodes}
use cornerstone_octree.Tree.Leaves.{IsOctree}
use cornerstone_octree.Tree.Csarray.{rebalance_decision, update_treelet, parent_count}
use cornerstone_octree.Tree.Csarray.Groups.{InGroup}
use cornerstone_octree.Tree.Csarray.Step.{update_treelet-IsOctree}
use cornerstone_octree.Tree.Csarray.Converged.{converged_unchanged, converged_leaf, converged_group}
use cornerstone_octree.Tree.Counts.{compute_node_counts, Octree, update_octree}
use cornerstone_octree.Tree.Counts.Exact.{keys_in}
use cornerstone_octree.Tree.Counts.Every.{
  AreKeys, compute_node_counts-keys_in, length-compute_node_counts,
}

-- A tree in the cornerstone format with the count of each node.
pub record Counted (k : KeyType) (codes : List ℕ) (max_count : ℕ) (s : Octree) : Type 0 where
  pub octree : IsOctree k s.tree
  pub size : length s.counts ≡ n_nodes s.tree
  pub exact :
      (i : ℕ)
      → i < n_nodes s.tree
      → s.counts ! i ≡ min (keys_in (s.tree ! i) (s.tree ! suc i) codes) max_count

-- No node over the bucket can be split, and no eight siblings fit the bucket together.
pub record Balanced (k : KeyType) (bucket : ℕ) (s : Octree) : Type 0 where
  pub leaf :
      (i : ℕ) → i < n_nodes s.tree → (s.counts ! i ≤ bucket) ⊎ (s.tree ! suc i ≡ s.tree ! i + 1)
  pub group :
      (i t e : ℕ)
      → i < n_nodes s.tree
      → InGroup k s.tree i t e
      → bucket < parent_count s.counts (i - t)

same_list :
    (xs ys : List ℕ) → length xs ≡ length ys → ((i : ℕ) → i < length xs → xs ! i ≡ ys ! i) → xs ≡ ys
same_list [] [] l h = refl
same_list [] (y ∷ ys) l h = absurd (omega arith)
same_list (x ∷ xs) [] l h = absurd (omega arith)
same_list (x ∷ xs) (y ∷ ys) l h =
    ap₂ (λ a b. a ∷ b) (h 0 (omega arith))
      (same_list xs ys (omega arith) (λ i p. h (suc i) (omega arith)))

module _ (k : KeyType) (codes : List ℕ) (bucket max_count : ℕ) (s : Octree) where
  abbrev next : Octree
  next = (update_octree k codes bucket max_count s).0

  pub update_octree-tree : next.tree ≡ update_treelet k s.tree s.counts bucket
  unfolding update_octree update_treelet
  update_octree-tree = refl

  pub update_octree-flag :
      (update_octree k codes bucket max_count s).1
      ≡ (rebalance_decision k s.tree s.counts
          (n_nodes s.tree)
          bucket
          (replicate (n_nodes s.tree + 1) 0)).1
  unfolding update_octree
  update_octree-flag = refl

  counts_of :
      next.counts
      ≡ compute_node_counts k next.tree
          (resize s.counts (n_nodes next.tree) 0)
          (n_nodes next.tree)
          codes
          max_count
          true
  unfolding update_octree
  counts_of = refl

  module _ (o : IsOctree k s.tree) (keys : AreKeys k codes) where
    -- `updateOctree` leaves a tree in the cornerstone format with the number of keys, or `maxCount` if
    -- this is smaller, as the count of each node, from a tree in that format and whatever the counts were
    -- before. This is for sorted keys that the signed key type holds, at most 2 ^ 30 of them with 32-bit
    -- keys and fewer than 2 ^ 32 with 64-bit keys, and a bucket whose product with 512 is less than 2 ^ 32.
    pub update_octree-Counted : bucket * 512 < 2 ^ 32 → Counted k codes max_count next
    update_octree-Counted no_wrap =
        let o' : IsOctree k next.tree =
          rw update_octree-tree (update_treelet-IsOctree o s.counts bucket no_wrap) in
        let given = length-resize s.counts (n_nodes next.tree) 0 in
        record {
          octree = o';
          size =
              ap length counts_of
              ∙ length-compute_node_counts o' keys max_count (resize s.counts (n_nodes next.tree) 0)
                  given true;
          exact = λ i h.
              ap (λ xs. xs ! i) counts_of
              ∙ compute_node_counts-keys_in o' keys max_count
                  (resize s.counts (n_nodes next.tree) 0) given true i h;
        }

  module _ (c : Counted k codes max_count s) (keys : AreKeys k codes)
      (no_wrap : bucket * 512 < 2 ^ 32)
      (converged : (update_octree k codes bucket max_count s).1 ≡ true) where
    -- If `updateOctree` reports convergence on a tree with exact counts, it leaves tree and counts as they
    -- were.
    pub update_octree-unchanged : next ≡ s
    update_octree-unchanged =
        let same : next.tree ≡ s.tree =
          update_octree-tree
          ∙ converged_unchanged c.octree s.counts bucket (sym update_octree-flag ∙ converged) in
        let c' = update_octree-Counted c.octree keys no_wrap in
        let nodes : n_nodes next.tree ≡ n_nodes s.tree = ap n_nodes same in
        let counts : next.counts ≡ s.counts =
          same_list next.counts s.counts (c'.size ∙ nodes ∙ sym c.size) (λ i h.
            let inside : i < n_nodes next.tree = omega (arith, h, c'.size) in
            c'.exact i inside
            ∙ ap (λ t. min (keys_in (t ! i) (t ! suc i) codes) max_count) same
            ∙ sym (c.exact i (omega (arith, inside, nodes)))) in
        ap₂ (λ t n. record { tree = t; counts = n }) same counts

    -- If `updateOctree` reports convergence on a tree in the cornerstone format with exact counts, the tree that it
    -- leaves is balanced: a node over the bucket has size 1, and no eight siblings fit the bucket together.
    -- This is for sorted keys that the signed key type holds, at most 2 ^ 30 of them with 32-bit keys and
    -- fewer than 2 ^ 32 with 64-bit keys, and a bucket whose product with 512 is less than 2 ^ 32.
    pub update_octree-Balanced : Balanced k bucket next
    update_octree-Balanced =
        let flag = sym update_octree-flag ∙ converged in
        rw update_octree-unchanged (record {
          leaf = converged_leaf c.octree s.counts bucket flag;
          group = converged_group c.octree s.counts bucket flag;
        })
