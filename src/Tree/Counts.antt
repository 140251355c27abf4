-- ===== src/Tree/Counts.antt =====
-- include/cstone/tree/csarray.hpp: the particle counts of the nodes, and the update of a tree with
-- its counts. An iterator into the sorted keys is its index.
pub mod Guess
pub mod Bounds
pub mod Exact
pub mod Whole
pub mod Every
pub mod Update
pub mod Splitting
pub mod Rounds
pub mod Build
use cornerstone_octree.Base.{
  ℕ, zero, suc, ◌+◌, ◌-◌, ◌*◌, ◌%◌, ◌^◌, Bool, true, false, ◌&&◌, ◌==◌, ltb, leb, if◌then◌else◌,
  List, [], ◌∷◌, length, set, resize, replicate, ◌!◌, min,
}
use cornerstone_octree.Base.Int.{
  ℤ, pos, negsuc, ◌+ℤ◌, ◌-ℤ◌, ◌*ℤ◌, ltb_ℤ, leb_ℤ, pos_part, neg_part, min_ℤ, max_ℤ,
}
use cornerstone_octree.Base.Loops.{fill}
use cornerstone_octree.Key.{KeyType, modulus, n_nodes}
use cornerstone_octree.Primitives.Search.{lower_bound, upper_bound}
use cornerstone_octree.Sfc.Range.{node_range}
use cornerstone_octree.Tree.Csarray.{rebalance_decision, rebalance_tree}

-- `findNodeBelow` and `findNodeAbove`; the first is -1 below the first key.
unfoldable pub find_node_below : List ℕ → ℕ → ℕ → ℤ
find_node_below tree num_nodes key = pos (upper_bound tree 0 num_nodes key) +ℤ negsuc 0

unfoldable pub find_node_above : List ℕ → ℕ → ℕ → ℕ
find_node_above tree num_nodes key = lower_bound tree 0 num_nodes key

-- `calculateNodeCount`; the difference is that of two positions in one array, in `size_t`.
unfoldable pub calculate_node_count : ℕ → ℕ → List ℕ → ℕ → ℕ
calculate_node_count node_start node_end codes max_count =
    let range_start = lower_bound codes 0 (length codes) node_start in
    let range_end = lower_bound codes 0 (length codes) node_end in
    min (range_end - range_start) max_count

-- The conversion to `std::make_signed_t<KeyType>`.
unfoldable pub to_signed : KeyType → ℕ → ℤ
to_signed k x = if ltb (x * 2) (modulus k) then pos x else negsuc (modulus k - 1 - x)

-- The conversion of an integer to that type: the value modulo the modulus.
unfoldable pub wrap_signed : KeyType → ℤ → ℤ
unfolding to_signed
wrap_signed k (pos n) = to_signed k (n % modulus k)
wrap_signed k (negsuc n) = to_signed k (modulus k - 1 - n % modulus k)

-- `firstIdx + searchRange * d`; each operation of the signed type wraps.
unfoldable pub second_index : KeyType → ℤ → ℤ → ℤ → ℤ
unfolding wrap_signed ◌+ℤ◌ ◌*ℤ◌
second_index k first range d = wrap_signed k (first +ℤ wrap_signed k (range *ℤ d))

-- The test and the loop of `findSearchBounds`; `d` is 1 or -1. The range at least doubles, so
-- as many rounds as there are codes are enough to leave the array where nothing wraps.
unfoldable pub search_on : KeyType → List ℕ → ℤ → ℤ → ℤ → ℤ → Bool
unfolding wrap_signed to_signed ◌*ℤ◌
search_on k codes n_codes d target_times_d second =
    leb_ℤ (pos 0) second
    && ltb_ℤ second n_codes
    && leb_ℤ (wrap_signed k (d *ℤ to_signed k (codes ! pos_part second))) target_times_d

unfoldable pub search_loop : KeyType → List ℕ → ℤ → ℤ → ℤ → ℤ → ℕ → ℤ → ℤ
unfolding second_index search_on wrap_signed ◌*ℤ◌
search_loop k codes n_codes d target_times_d first zero range = second_index k first range d
search_loop k codes n_codes d target_times_d first (suc fuel) range =
    elim (search_on k codes n_codes d target_times_d (second_index k first range d)) [
      | true ↦
          search_loop k codes n_codes d target_times_d first fuel (wrap_signed k (range *ℤ pos 2))
      | false ↦ second_index k first range d
    ]

-- `findSearchBounds`. `nCodes` and the indices have the signed type. Where `nCodes` wraps to a negative
-- number the source reads and returns positions in front of the array, which are 0 here.
unfoldable pub find_search_bounds : KeyType → ℤ → ℕ → List ℕ → ℕ × ℕ
unfolding search_loop wrap_signed ◌-ℤ◌ ◌*ℤ◌
find_search_bounds k guess target codes =
    let n_codes = wrap_signed k (pos (length codes)) in
    let first = min_ℤ (wrap_signed k (n_codes -ℤ pos 1)) (max_ℤ guess (pos 0)) in
    let d = if ltb (codes ! pos_part first) target then pos 1 else negsuc 0 in
    let target_times_d = wrap_signed k (pos target *ℤ d) in
    let stop = search_loop k codes n_codes d target_times_d first (length codes) (pos 1) in
    let second = min_ℤ n_codes (max_ℤ (pos 0) stop) in
    if pos_part n_codes == 0 && neg_part n_codes == 0
    then (0, 0)
    else if leb (node_range k 0) target
    then (lower_bound codes 0 (length codes) target, length codes)
    else (pos_part (min_ℤ first second), pos_part (max_ℤ first second))

-- `updateNodeCount`; the difference is cut to `unsigned`.
unfoldable pub update_node_count : KeyType → ℕ → List ℕ → ℤ → ℤ → List ℕ → ℕ → ℕ
update_node_count k i tree first_guess second_guess codes max_count =
    let node_start = tree ! i in
    let node_end = tree ! (i + 1) in
    let (first, last) = find_search_bounds k first_guess node_start codes in
    let range_start = lower_bound codes first last node_start in
    let (first', last') = find_search_bounds k second_guess node_end codes in
    let range_end = lower_bound codes first' last' node_end in
    min ((range_end - range_start) % 2 ^ 32) max_count

-- `std::exclusive_scan` in place over `n` counts from `i` on, in `unsigned`.
unfoldable pub scan_counts : ℕ → ℕ → ℕ → List ℕ → List ℕ
scan_counts zero i acc counts = counts
scan_counts (suc n) i acc counts =
    scan_counts n (i + 1) ((acc + counts ! i) % 2 ^ 32) (set counts i acc)

-- The loop of `computeNodeCounts` that updates counts from the guesses that they hold.
unfoldable pub update_counts : KeyType → List ℕ → List ℕ → ℕ → ℕ → ℕ → ℕ → List ℕ → List ℕ
update_counts k tree keys max_count n zero i counts = counts
update_counts k tree keys max_count n (suc left) i counts =
    let first_guess = to_signed k (counts ! i) in
    let second_guess = to_signed k (counts ! min (i + 1) (n - 1)) in
    update_counts k tree keys max_count n left (i + 1)
      (set counts i (update_node_count k i tree first_guess second_guess keys max_count))

-- `computeNodeCounts`; node `i` of `populatedTree` is node `first_node + i` of the tree.
unfoldable pub compute_node_counts : KeyType → List ℕ → List ℕ → ℕ → List ℕ → ℕ → Bool → List ℕ
compute_node_counts k tree counts n keys max_count use_counts_as_guess =
    let none = length keys == 0 in
    let first_node = if none then n else upper_bound tree 0 n (keys ! 0) - 1 in
    let last_node = if none then n else upper_bound tree 0 n (keys ! (length keys - 1)) in
    let cleared = fill (n - last_node) last_node (λ _. 0) (fill first_node 0 (λ _. 0) counts) in
    let populated = last_node - first_node in
    if use_counts_as_guess
    then update_counts k tree keys max_count n populated first_node
        (scan_counts populated first_node 0 cleared)
    else fill populated first_node
        (λ i. calculate_node_count (tree ! i) (tree ! (i + 1)) keys max_count) cleared

-- The tree and its counts, which `updateOctree` changes in place.
pub record Octree : Type 0 where
  pub tree : List ℕ
  pub counts : List ℕ

-- `updateOctree`: the new state, and whether the tree is unchanged.
unfoldable pub update_octree : KeyType → List ℕ → ℕ → ℕ → Octree → Octree × Bool
update_octree k keys bucket max_count s =
    let n = n_nodes s.tree in
    let (node_ops, converged) =
      rebalance_decision k s.tree s.counts n bucket (replicate (n + 1) 0) in
    let new_tree = (rebalance_tree k s.tree [] node_ops).0 in
    let n' = n_nodes new_tree in
    (
      record {
        tree = new_tree;
        counts = compute_node_counts k new_tree (resize s.counts n' 0) n' keys max_count true;
      },
      converged,
    )

-- The loop of `computeOctree`: the flag is false when the fuel runs out before the tree has converged.
unfoldable pub update_until : KeyType → List ℕ → ℕ → ℕ → ℕ → Octree → Octree × Bool
update_until k keys bucket max_count zero s = (s, false)
update_until k keys bucket max_count (suc fuel) s =
    let (s', converged) = update_octree k keys bucket max_count s in
    elim converged [ true ↦ (s', true) | false ↦ update_until k keys bucket max_count fuel s' ]

-- `computeOctree`, with a bound on the rounds of its loop.
unfoldable pub compute_octree : KeyType → List ℕ → ℕ → ℕ → ℕ → Octree × Bool
compute_octree k keys bucket max_count fuel =
    update_until k keys bucket max_count fuel
      (record { tree = 0 ∷ node_range k 0 ∷ []; counts = (length keys % 2 ^ 32) ∷ [] })
