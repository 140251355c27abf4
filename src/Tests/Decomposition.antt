-- ===== src/Tests/Decomposition.antt =====
-- Assignments of the curve to ranks.
use cornerstone_octree.Sfc.Range.{enclosing_box_code, node_range}
use cornerstone_octree.Base.Loops.{fill}
use cornerstone_octree.Base.{
  ℕ, ◌+◌, ◌-◌, ◌*◌, ◌/◌, ◌%◌, ◌^◌, ◌≤◌, ◌<◌, ◌≡◌, refl, arith, List, [], ◌∷◌, ◌!◌, ◌↔◌, replicate,
  get_or,
}
use cornerstone_octree.Base.Int.{pos}
use cornerstone_octree.Key.{u32, n_nodes, mul_key, sub_key}
use cornerstone_octree.Domain.Decomposition.{
  SfcAssignment, find_rank, uniform_bins, make_sfc_assignment, translate_assignment,
  create_send_ranges, shift_send_ranges, initial_domain_splits, num_ranks,
}
use cornerstone_octree.Domain.Decomposition.Ranks.{create_send_ranges-find_rank}
use cornerstone_octree.Domain.Decomposition.Sums.{sum_first}
use cornerstone_octree.Domain.Decomposition.Bins.{AreShares, uniform_bins-count}
use cornerstone_octree.Domain.Decomposition.Assign.{IsAssignment, make_sfc_assignment-IsAssignment}
use cornerstone_octree.Domain.Decomposition.Translate.{translate_assignment-nodes}
use cornerstone_octree.Tests.{
  ascending→IsSortedIn, sample, sample-IsOctree, sample_keys, sample_keys-IsSortedIn,
}

-- Equal shares of a total, rounded down.
abbrev equal_share : ℕ → ℕ → ℕ → ℕ
equal_share total n i = i * total / n

equal_share-AreShares : AreShares equal_share 30 3
equal_share-AreShares = record { bounded = λ i h. omega arith; ascending = λ i j h. omega arith }

abbrev node_counts : List ℕ
node_counts = replicate 15 2

three_ranks : SfcAssignment
three_ranks = make_sfc_assignment equal_share 3 node_counts sample

three_ranks-IsAssignment : IsAssignment u32 three_ranks 3
unfolding three_ranks n_nodes
three_ranks-IsAssignment =
    make_sfc_assignment-IsAssignment equal_share u32 node_counts sample 3 (omega arith)
      sample-IsOctree refl (omega arith) equal_share-AreShares

make_sfc_assignment-IsAssignment_example :
    IsAssignment u32 (make_sfc_assignment equal_share 3 node_counts sample) 3
unfolding n_nodes
make_sfc_assignment-IsAssignment_example =
    make_sfc_assignment-IsAssignment equal_share u32 node_counts sample 3 (omega arith)
      sample-IsOctree refl (omega arith) equal_share-AreShares

uniform_bins-count_example :
    ((uniform_bins equal_share node_counts (replicate 4 0) (replicate 3 0)).0 ! 0 ≡ 0)
    × ((uniform_bins equal_share node_counts (replicate 4 0) (replicate 3 0)).0 ! 3 ≡ 15)
    × ((uniform_bins equal_share node_counts (replicate 4 0) (replicate 3 0)).0 ! 1
        ≤ (uniform_bins equal_share node_counts (replicate 4 0) (replicate 3 0)).0 ! (1 + 1))
    × ((uniform_bins equal_share node_counts (replicate 4 0) (replicate 3 0)).0 ! (1 + 1) ≤ 15)
    × ((uniform_bins equal_share node_counts (replicate 4 0) (replicate 3 0)).1 ! 1
        ≡ (sum_first node_counts
              ((uniform_bins equal_share node_counts (replicate 4 0) (replicate 3 0)).0 ! (1 + 1))
            - sum_first node_counts
                ((uniform_bins equal_share node_counts (replicate 4 0) (replicate 3 0)).0 ! 1))
          % 2 ^ 32)
uniform_bins-count_example =
    uniform_bins-count equal_share node_counts (replicate 4 0) (replicate 3 0) 3 (omega arith) refl
      (omega arith) equal_share-AreShares 1 (omega arith) refl

abbrev two_ranks : SfcAssignment
two_ranks = record {
  rank_boundaries = 0 ∷ 8 ^ 9 ∷ 8 ^ 10 ∷ [];
  counts = 4 ∷ 5 ∷ [];
  num_nodes_per_rank = 8 ∷ 7 ∷ [];
  tree_offsets = 0 ∷ 8 ∷ 15 ∷ [];
}

create_send_ranges-find_rank_example :
    ((create_send_ranges two_ranks sample_keys ! 1 ≤ 5)
      × (5 < create_send_ranges two_ranks sample_keys ! (1 + 1)))
    ↔ (find_rank two_ranks (sample_keys ! 5) ≡ pos 1)
unfolding n_nodes num_ranks
create_send_ranges-find_rank_example =
    create_send_ranges-find_rank two_ranks (ascending→IsSortedIn two_ranks.rank_boundaries refl)
      sample_keys 1 5 sample_keys-IsSortedIn (omega arith) (omega arith)

translate_assignment-nodes_example :
    ((get_or (translate_assignment two_ranks sample []) 1 (0, 0)).0 ≤ 9)
      × (9 < (get_or (translate_assignment two_ranks sample []) 1 (0, 0)).1)
    ↔ (8 ^ 9 ≤ sample ! 9) × (sample ! (9 + 1) ≤ 8 ^ 10)
unfolding num_ranks n_nodes
translate_assignment-nodes_example =
    translate_assignment-nodes two_ranks sample (ascending→IsSortedIn sample refl) [] 1 9
      (omega arith) (omega arith)

-- The example of the source, for three ranks and five levels.
initial_domain_splits_test :
    initial_domain_splits u32 3 5
    ≡ 0
      ∷ (2 * 8 ^ 9 + 5 * 8 ^ 8 + 2 * 8 ^ 7 + 5 * 8 ^ 6 + 2 * 8 ^ 5)
      ∷ (5 * 8 ^ 9 + 2 * 8 ^ 8 + 5 * 8 ^ 7 + 2 * 8 ^ 6 + 5 * 8 ^ 5)
      ∷ 8 ^ 10
      ∷ []
unfolding initial_domain_splits fill enclosing_box_code node_range mul_key sub_key
initial_domain_splits_test = refl

shift_send_ranges_test : shift_send_ranges (0 ∷ 3 ∷ 5 ∷ 9 ∷ []) 1 10 ≡ 0 ∷ 3 ∷ 15 ∷ 19 ∷ []
unfolding shift_send_ranges
shift_send_ranges_test = refl
