-- ===== src/Domain/Decomposition.antt =====
-- include/cstone/domain/domaindecomp.hpp: the assignment of parts of the space-filling curve to ranks.
pub mod Ranks
pub mod Sums
pub mod Bins
pub mod Assign
pub mod Initial
pub mod Translate
use cornerstone_octree.Base.{
  ℕ, zero, suc, ◌+◌, ◌-◌, ◌*◌, ◌/◌, ◌%◌, ◌^◌, List, [], ◌∷◌, length, set, resize, replicate, ◌!◌,
  ltb, if◌then◌else◌, get_or,
}
use cornerstone_octree.Base.Int.{ℤ, pos, negsuc, ◌+ℤ◌, pos_part, ltb_ℤ}
use cornerstone_octree.Base.Loops.{fill}
use cornerstone_octree.Key.{KeyType, mul_key}
use cornerstone_octree.Primitives.Gather.{gather}
use cornerstone_octree.Primitives.Search.{lower_bound, upper_bound}
use cornerstone_octree.Sfc.Range.{node_range, enclosing_box_code}
use cornerstone_octree.Tree.Counts.{find_node_above, find_node_below}

-- `SfcAssignment`: the private members.
pub record SfcAssignment : Type 0 where
  pub rank_boundaries : List ℕ
  pub counts : List ℕ
  pub num_nodes_per_rank : List ℕ
  pub tree_offsets : List ℕ

-- `SfcAssignment(numRanks)`.
abbrev pub empty_assignment : ℕ → SfcAssignment
empty_assignment num_ranks = record {
  rank_boundaries = replicate (num_ranks + 1) 0;
  counts = replicate num_ranks 0;
  num_nodes_per_rank = replicate num_ranks 0;
  tree_offsets = replicate (num_ranks + 1) 0;
}

-- `SfcAssignment::set`, `numRanks` and `findRank`, which is -1 below the first boundary.
unfoldable pub set_rank : SfcAssignment → ℕ → ℕ → ℕ → SfcAssignment
set_rank s rank a count = record s {
  rank_boundaries = set s.rank_boundaries rank a;
  counts = if ltb rank (length s.counts) then set s.counts rank count else s.counts;
}

unfoldable pub num_ranks : SfcAssignment → ℕ
num_ranks s = length s.rank_boundaries - 1

unfoldable pub find_rank : SfcAssignment → ℕ → ℤ
find_rank s key = pos (upper_bound s.rank_boundaries 0 (length s.rank_boundaries) key) +ℤ negsuc 0

-- `std::inclusive_scan` of `uint64_t` values.
unfoldable pub inclusive_scan : ℕ → List ℕ → List ℕ
inclusive_scan acc [] = []
inclusive_scan acc (x ∷ xs) = ((acc + x) % 2 ^ 64) ∷ inclusive_scan ((acc + x) % 2 ^ 64) xs

-- `countScan` of `uniformBins`.
unfoldable pub count_scan : List ℕ → List ℕ
unfolding inclusive_scan
count_scan counts = 0 ∷ inclusive_scan 0 counts

-- `uniformBins`: the bins and their counts. `share total n i` is what `uint64_t(i * (double(total) / n))`
-- gives. The difference of two sums is cut to 32 bits.
module _ (share : ℕ → ℕ → ℕ → ℕ) where
  unfoldable pub uniform_bins : List ℕ → List ℕ → List ℕ → List ℕ × List ℕ
  unfolding count_scan
  uniform_bins counts bins bin_counts =
      let scan = count_scan counts in
      let num_bins = length bins - 1 in
      let total = scan ! length counts in
      let bins' =
        fill (num_bins - 1) 1 (λ i. lower_bound scan 0 (length scan) (share total num_bins i))
          (set (set bins 0 0) num_bins (length counts)) in
      (
        bins',
        set
            (fill (num_bins - 1) 0
              (λ i. (scan ! (bins' ! (i + 1)) + 2 ^ 64 - scan ! (bins' ! i)) % 2 ^ 32) bin_counts)
            (length bin_counts - 1) ((total + 2 ^ 64 - scan ! (bins' ! (num_bins - 1))) % 2 ^ 32),
      )

  -- `makeSfcAssignment`.
  unfoldable pub make_sfc_assignment : ℕ → List ℕ → List ℕ → SfcAssignment
  unfolding uniform_bins gather
  make_sfc_assignment n counts tree =
      let s = empty_assignment n in
      let (offsets, bin_counts) = uniform_bins counts s.tree_offsets s.counts in
      record {
        rank_boundaries = gather offsets tree s.rank_boundaries;
        counts = bin_counts;
        num_nodes_per_rank = fill n 0 (λ i. offsets ! (i + 1) - offsets ! i) s.num_nodes_per_rank;
        tree_offsets = offsets;
      }

-- The range of nodes of one rank in `translateAssignment`, and the function.
unfoldable pub translate_rank : SfcAssignment → List ℕ → ℕ → ℕ × ℕ
translate_rank assignment focus_tree rank =
    let start_index =
      find_node_above focus_tree (length focus_tree) (assignment.rank_boundaries ! rank) in
    let end_index =
      find_node_below focus_tree (length focus_tree) (assignment.rank_boundaries ! (rank + 1)) in
    (start_index, (if ltb_ℤ end_index (pos start_index) then start_index else pos_part end_index))

unfoldable pub translate_assignment : SfcAssignment → List ℕ → List (ℕ × ℕ) → List (ℕ × ℕ)
unfolding translate_rank num_ranks
translate_assignment assignment focus_tree focus_assignment =
    let n = num_ranks assignment in
    fill n 0 (translate_rank assignment focus_tree)
      (fill n 0 (λ _. (0, 0)) (resize focus_assignment n (0, 0)))

-- `createSendRanges`.
unfoldable pub create_send_ranges : SfcAssignment → List ℕ → List ℕ
unfolding num_ranks
create_send_ranges assignment particle_keys =
    let n = num_ranks assignment in
    fill (n + 1) 0
      (λ rank.
        lower_bound particle_keys 0 (length particle_keys) (assignment.rank_boundaries ! rank))
      (replicate (n + 1) 0)

-- The loop of `shiftSendRanges` from `rank` on, `left` rounds, and the function.
unfoldable pub shift_loop : ℕ → ℕ → ℕ → List ℕ → List ℕ
shift_loop num_incoming zero rank ranges = ranges
shift_loop num_incoming (suc left) rank ranges =
    shift_loop num_incoming left (rank + 1)
      (set ranges rank ((ranges ! rank + num_incoming) % 2 ^ 32))

unfoldable pub shift_send_ranges : List ℕ → ℕ → ℕ → List ℕ
unfolding shift_loop
shift_send_ranges ranges this_rank num_incoming =
    shift_loop num_incoming (length ranges - 1 - this_rank) (this_rank + 1) ranges

-- `initialDomainSplits`.
unfoldable pub initial_domain_splits : KeyType → ℕ → ℕ → List ℕ
initial_domain_splits k n level =
    let delta = node_range k 0 / n in
    set
      (fill (n - 1) 1 (λ i. enclosing_box_code k (mul_key k i delta) level)
        (set (replicate (n + 1) 0) 0 0))
      n (node_range k 0)
