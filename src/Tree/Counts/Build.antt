-- ===== src/Tree/Counts/Build.antt =====
-- `computeOctree` ends: the nodes over the bucket get smaller until none is split, and from there on
-- every round that does not report convergence merges some nodes. The result is balanced.
use native.Mathlib.Nat.{mod-eq_of_lt}
use cornerstone_octree.Base.{
  ℕ, zero, suc, ◌+◌, ◌-◌, ◌*◌, ◌%◌, ◌^◌, ◌≤◌, ◌<◌, ◌≡◌, refl, ◌∙◌, arith, List, [], ◌∷◌, length,
  ◌!◌, ◌⊎◌, inl, inr, Bool, true, false, Bool-cases, min,
}
use cornerstone_octree.Base.Pow.{pow8-pos}
use cornerstone_octree.Key.{KeyType, max_tree_level, n_nodes}
use cornerstone_octree.Sfc.Range.{node_range, node_range_root}
use cornerstone_octree.Tree.Leaves.{IsOctree}
use cornerstone_octree.Tree.Leaves.Chain.{Chain→IsOctree}
use cornerstone_octree.Tree.Counts.{Octree, update_octree, update_until, compute_octree}
use cornerstone_octree.Tree.Counts.Exact.{keys_in}
use cornerstone_octree.Tree.Counts.Every.{AreKeys}
use cornerstone_octree.Tree.Counts.Update.{
  Counted, Balanced, update_octree-Counted, update_octree-Balanced,
}
use cornerstone_octree.Tree.Counts.Splitting.{IsSplitTo, IsSplitTo-update_octree}
use cornerstone_octree.Tree.Counts.Rounds.{next-fewer}

-- What `computeOctree` is to come to: convergence, on a balanced tree with exact counts.
pub record IsDone (k : KeyType) (codes : List ℕ) (bucket max_count : ℕ) (r : Octree × Bool)
    : Type 0 where
  pub converged : r.1 ≡ true
  pub counted : Counted k codes max_count r.0
  pub balanced : Balanced k bucket r.0

until_stop :
    (k : KeyType) (codes : List ℕ) (bucket max_count fuel : ℕ) (s : Octree)
    → (update_octree k codes bucket max_count s).1 ≡ true
    → update_until k codes bucket max_count (suc fuel) s
      ≡ ((update_octree k codes bucket max_count s).0, true)
unfolding update_until
until_stop k codes bucket max_count fuel s t = rw (t, update_until) refl

until_next :
    (k : KeyType) (codes : List ℕ) (bucket max_count fuel : ℕ) (s : Octree)
    → (update_octree k codes bucket max_count s).1 ≡ false
    → update_until k codes bucket max_count (suc fuel) s
      ≡ update_until k codes bucket max_count fuel (update_octree k codes bucket max_count s).0
unfolding update_until
until_next k codes bucket max_count fuel s t = rw (t, update_until) refl

-- A tree has no more nodes than keys.
n_nodes-le : {k : KeyType} {tree : List ℕ} → IsOctree k tree → n_nodes tree ≤ 8 ^ max_tree_level k
n_nodes-le {k} {tree} o = omega (arith, index-le (n_nodes tree) (omega arith), o.last)
  where
    index-le : (i : ℕ) → i ≤ n_nodes tree → i ≤ tree ! i
    index-le zero h = omega arith
    index-le (suc i) h =
        let (e, small, step) = o.steps i h in
        omega (arith, index-le i (omega arith), step, pow8-pos e)

module _ {k : KeyType} {codes : List ℕ} (keys : AreKeys k codes) (bucket max_count : ℕ)
    (no_wrap : bucket * 512 < 2 ^ 32) where
  merging-ends :
      (fuel r : ℕ) (s : Octree)
      → Counted k codes max_count s
      → IsSplitTo k bucket r s
      → max_tree_level k ≤ r
      → n_nodes s.tree < fuel
      → IsDone k codes bucket max_count (update_until k codes bucket max_count fuel s)
  merging-ends zero r s c split deep h = absurd (omega arith)
  merging-ends (suc fuel) r s c split deep h =
      let c' = update_octree-Counted k codes bucket max_count s c.octree keys no_wrap in
      elim (Bool-cases (update_octree k codes bucket max_count s).1) [
        | inl t ↦ rw (until_stop k codes bucket max_count fuel s t) (record {
          converged = refl;
          counted = c';
          balanced = update_octree-Balanced k codes bucket max_count s c keys no_wrap t;
        })
        | inr f ↦ rw (until_next k codes bucket max_count fuel s f) (
            merging-ends fuel (suc r) (update_octree k codes bucket max_count s).0 c'
              (IsSplitTo-update_octree c keys no_wrap split) (omega arith)
              (omega (arith, h, next-fewer keys bucket max_count no_wrap s r c split deep f)))
      ]

  splitting-ends :
      (left r fuel : ℕ) (s : Octree)
      → max_tree_level k ≤ r + left
      → Counted k codes max_count s
      → IsSplitTo k bucket r s
      → left + 8 ^ max_tree_level k < fuel
      → IsDone k codes bucket max_count (update_until k codes bucket max_count fuel s)
  splitting-ends zero r fuel s deep c split h =
      merging-ends fuel r s c split (omega arith) (omega (arith, h, n_nodes-le c.octree))
  splitting-ends (suc left) r zero s deep c split h = absurd (omega arith)
  splitting-ends (suc left) r (suc fuel) s deep c split h =
      let c' = update_octree-Counted k codes bucket max_count s c.octree keys no_wrap in
      elim (Bool-cases (update_octree k codes bucket max_count s).1) [
        | inl t ↦ rw (until_stop k codes bucket max_count fuel s t) (record {
          converged = refl;
          counted = c';
          balanced = update_octree-Balanced k codes bucket max_count s c keys no_wrap t;
        })
        | inr f ↦ rw (until_next k codes bucket max_count fuel s f) (
            splitting-ends left (suc r) fuel (update_octree k codes bucket max_count s).0
              (omega arith) c' (IsSplitTo-update_octree c keys no_wrap split) (omega arith))
      ]

keys_in-all :
    (b : ℕ) (xs : List ℕ) → ((j : ℕ) → j < length xs → xs ! j < b) → keys_in 0 b xs ≡ length xs
unfolding keys_in
keys_in-all b [] h = refl
keys_in-all b (x ∷ xs) h =
    let rest = keys_in-all b xs (λ j p. h (suc j) (omega arith)) in
    ground (arith, h 0 (omega arith), rest)

-- `computeOctree` ends within `maxTreeLevel` rounds, one for each key of the key range, and one more, and
-- gives a balanced tree in the cornerstone format with exact counts: for sorted keys inside the key
-- range, at most 2 ^ 30 of them with 32-bit keys and fewer than 2 ^ 32 with 64-bit keys, a `maxCount` of at
-- least their number and a bucket whose product with 512 is less than 2 ^ 32.
pub compute_octree-IsDone :
    {k : KeyType} {codes : List ℕ}
    → AreKeys k codes
    → ((j : ℕ) → j < length codes → codes ! j < 8 ^ max_tree_level k)
    → (bucket max_count fuel : ℕ) → bucket * 512 < 2 ^ 32
    → length codes ≤ max_count
    → max_tree_level k + 8 ^ max_tree_level k < fuel
    → IsDone k codes bucket max_count (compute_octree k codes bucket max_count fuel)
unfolding compute_octree
compute_octree-IsDone {k} {codes} keys inside bucket max_count fuel no_wrap few enough =
    splitting-ends keys bucket max_count no_wrap (max_tree_level k) 0 fuel start (omega arith)
      counted (record { over = root_size }) enough
  where
    start : Octree
    start = record { tree = 0 ∷ node_range k 0 ∷ []; counts = (length codes % 2 ^ 32) ∷ [] }

    root : IsOctree k (0 ∷ (8 ^ max_tree_level k) ∷ [])
    root =
        Chain→IsOctree k (λ a e. 0 ≤ a) (0 ∷ [])
          (refl, max_tree_level k, omega arith, omega arith, omega arith)

    root_count :
        (i : ℕ)
        → i < 1
        → start.counts ! i ≡ min (keys_in (start.tree ! i) (start.tree ! suc i) codes) max_count
    root_count zero h =
        rw (node_range_root k, keys_in-all (8 ^ max_tree_level k) codes inside)
          (mod-eq_of_lt keys.few ∙ omega (arith, few))
    root_count (suc i) h = absurd (omega arith)

    root_size :
        (i : ℕ)
        → i < n_nodes start.tree
        → (start.counts ! i ≤ bucket)
          ⊎ (start.tree ! suc i ≤ start.tree ! i + 8 ^ (max_tree_level k - 0))
    root_size zero h =
        let whole : max_tree_level k - 0 ≡ max_tree_level k = omega arith in
        inr (rw (node_range_root k, whole) (omega arith))
    root_size (suc i) h = absurd (unfold n_nodes in omega arith)

    counted : Counted k codes max_count start
    counted =
        unfold n_nodes in
        record { octree = rw (node_range_root k) root; size = refl; exact = root_count }
