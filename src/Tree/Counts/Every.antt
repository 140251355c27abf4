-- ===== src/Tree/Counts/Every.antt =====
-- `computeNodeCounts` counts every node of a tree, with and without guesses.
use native.Mathlib.Decide.{dec_lt}
use cornerstone_octree.Base.{
  ℕ, suc, ◌-◌, ◌*◌, ◌^◌, ◌≤◌, ◌<◌, ◌≡◌, refl, ap, ◌∙◌, arith, List, length, ◌!◌, ◌⊎◌, Bool, true,
  false, ◌==◌, if◌then◌else◌, min,
}
use cornerstone_octree.Base.Loops.{fill, length-fill}
use cornerstone_octree.Key.{KeyType, modulus, n_nodes}
use cornerstone_octree.Primitives.Search.Splits.{IsSortedIn}
use cornerstone_octree.Tree.Leaves.{IsOctree}
use cornerstone_octree.Tree.Counts.{update_counts, scan_counts, compute_node_counts}
use cornerstone_octree.Tree.Counts.Exact.{keys_in, update_counts-fill}
use cornerstone_octree.Tree.Counts.Whole.{
  exact, counted, length-cleared, plain, scanned, first_node, last_node, populated_range,
  keys_in-none, length-scan_counts,
}

-- What makes the counts of keys exact: the keys are sorted, the signed key type holds them, and their
-- number fits `unsigned` and is at most a quarter of the modulus of the key type, so that the signed
-- indices of `findSearchBounds` do not wrap.
pub record AreKeys (k : KeyType) (codes : List ℕ) : Type 0 where
  pub sorted : IsSortedIn codes 0 (length codes)
  pub small : (j : ℕ) → j < length codes → codes ! j * 2 < modulus k
  pub few : length codes < 2 ^ 32
  pub room : length codes * 4 ≤ modulus k

module _ {k : KeyType} {tree : List ℕ} (o : IsOctree k tree) {codes : List ℕ}
    (keys : AreKeys k codes) (max_count : ℕ) (counts : List ℕ)
    (size : length counts ≡ n_nodes tree) where
  abbrev n : ℕ
  n = n_nodes tree

  range :
      (first : ℕ) × (last : ℕ) × (first ≤ last)
      × (last ≤ n)
      × ((j : ℕ) → j < n → (j < first) ⊎ (last ≤ j) → exact o codes max_count keys.sorted j ≡ 0)
      × ((use_counts : Bool)
          → compute_node_counts k tree counts n codes max_count use_counts ≡ (
              let base = fill (n - last) last (λ _. 0) (fill first 0 (λ _. 0) counts) in
              if use_counts
              then update_counts k tree codes max_count n
                  (last - first)
                  first
                  (scan_counts (last - first) first 0 base)
              else fill (last - first) first (counted o codes max_count keys.sorted) base))
  unfolding compute_node_counts
  range = elim (dec_lt 0 (length codes)) [
    | no none ↦
        let t : (length codes == 0) ≡ true = ground arith in
        (
          n,
          n,
          omega arith,
          omega arith,
          λ j h p.
              let z =
                keys_in-none (tree ! j) (tree ! suc j) codes
                  (λ c q. absurd (omega (arith, none, q))) in
              ground (arith, z),
          λ use_counts. rw t refl,
        )
    | yes some ↦
        let t : (length codes == 0) ≡ false = ground arith in
        let (order, top, empty) = populated_range o codes max_count keys.sorted some in
        (
          first_node o codes max_count keys.sorted some,
          last_node o codes max_count keys.sorted some,
          order,
          top,
          empty,
          unfold first_node last_node in λ use_counts. rw t refl,
        )
  ]

  -- `computeNodeCounts` stores for each node of a tree in the cornerstone format the number of its keys
  -- or `maxCount`, whichever is smaller, with and without the old counts as guesses, whatever these are,
  -- for an array with a count for each node and sorted keys that the signed key type holds, at most 2 ^ 30 of them with 32-bit keys and fewer than
  -- 2 ^ 32 with 64-bit keys.
  pub compute_node_counts-keys_in :
      (use_counts : Bool) (i : ℕ)
      → i < n
      → compute_node_counts k tree counts n codes max_count use_counts ! i
        ≡ min (keys_in (tree ! i) (tree ! suc i) codes) max_count
  compute_node_counts-keys_in true i h =
      let (first, last, order, top, empty, value) = range in
      ap (λ xs. xs ! i)
        (value true
          ∙ update_counts-fill k codes keys.sorted keys.small keys.few keys.room tree max_count n
              (last - first) first _)
      ∙ scanned o codes max_count keys.sorted first last counts order top size empty i h
  compute_node_counts-keys_in false i h =
      let (first, last, order, top, empty, value) = range in
      ap (λ xs. xs ! i) (value false)
      ∙ plain o codes max_count keys.sorted first last counts order top size empty i h

  pub length-compute_node_counts :
      (use_counts : Bool)
      → length (compute_node_counts k tree counts n codes max_count use_counts) ≡ n
  length-compute_node_counts true =
      let (first, last, order, top, empty, value) = range in
      ap length (
        value true
        ∙ update_counts-fill k codes keys.sorted keys.small keys.few keys.room tree max_count n
            (last - first) first _)
      ∙ length-fill (last - first) first (counted o codes max_count keys.sorted) _
      ∙ length-scan_counts (last - first) first 0 _
      ∙ length-cleared o codes max_count keys.sorted first last counts order top size empty
  length-compute_node_counts false =
      let (first, last, order, top, empty, value) = range in
      ap length (value false)
      ∙ length-fill (last - first) first (counted o codes max_count keys.sorted) _
      ∙ length-cleared o codes max_count keys.sorted first last counts order top size empty
