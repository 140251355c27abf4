-- ===== src/Domain/Decomposition/Assign.antt =====
-- The assignment that `makeSfcAssignment` of include/cstone/domain/domaindecomp.hpp builds from a tree.
use native.Mathlib.Decide.{dec_le}
use cornerstone_octree.Base.{
  ℕ, ◌+◌, ◌-◌, ◌^◌, ◌≤◌, ◌<◌, ◌≡◌, ap, ◌∙◌, arith, List, length, length-replicate, replicate, ◌!◌,
}
use cornerstone_octree.Base.Int.{pos}
use cornerstone_octree.Base.Loops.{length-fill, get_or-fill}
use cornerstone_octree.Key.{KeyType, max_tree_level, n_nodes}
use cornerstone_octree.Primitives.Gather.{gather}
use cornerstone_octree.Primitives.Search.{upper_bound}
use cornerstone_octree.Primitives.Search.Splits.{
  IsSortedIn, upper_bound-SplitsBehind, SplitsBehind-le,
}
use cornerstone_octree.Tree.Leaves.{IsOctree}
use cornerstone_octree.Tree.Counts.Whole.{IsOctree-ascending}
use cornerstone_octree.Domain.Decomposition.{
  SfcAssignment, num_ranks, find_rank, uniform_bins, make_sfc_assignment,
}
use cornerstone_octree.Domain.Decomposition.Ranks.{find_rank-Owns}
use cornerstone_octree.Domain.Decomposition.Sums.{sum_first}
use cornerstone_octree.Domain.Decomposition.Bins.{
  AreShares, bin_mono, bin_within, length-uniform_bins, uniform_bins-first, uniform_bins-last,
}

-- Boundaries that split the whole curve.
pub record IsAssignment (k : KeyType) (s : SfcAssignment) (n : ℕ) : Type 0 where
  pub ranks : length s.rank_boundaries ≡ n + 1
  pub first : s.rank_boundaries ! 0 ≡ 0
  pub last : s.rank_boundaries ! n ≡ 8 ^ max_tree_level k
  pub sorted : IsSortedIn s.rank_boundaries 0 (length s.rank_boundaries)

-- On boundaries that split the whole curve `findRank` gives each key of the curve one of the ranks.
pub IsAssignment-rank :
    (k : KeyType) (s : SfcAssignment) (n key : ℕ)
    → IsAssignment k s n
    → key < 8 ^ max_tree_level k
    → (rank : ℕ) × (rank < n) × (find_rank s key ≡ pos rank)
unfolding num_ranks
IsAssignment-rank k s n key a h =
    let b = s.rank_boundaries in
    let u = upper_bound b 0 (length b) key in
    let size = a.ranks in
    let split = upper_bound-SplitsBehind b 0 (length b) key (omega arith) a.sorted in
    let low : 1 ≤ u = elim (dec_le u 0) [
      | yes p ↦
          absurd (omega (arith, (SplitsBehind-le split 0 (omega arith) (omega arith)).0 p, a.first))
      | no p ↦ omega arith
    ] in
    let high : u ≤ n =
      (SplitsBehind-le split n (omega arith) (omega arith)).1 (omega (arith, a.last)) in
    let from : b ! (u - 1) ≤ key = split.below (u - 1) (omega arith) (omega arith) in
    let same : u - 1 + 1 ≡ u = omega arith in
    let to : key < b ! (u - 1 + 1) = rw same (split.above u (omega arith) (omega arith)) in
    (u - 1, omega arith, (find_rank-Owns s a.sorted (u - 1) key (omega arith)).1 (from, to))

module _ (share : ℕ → ℕ → ℕ → ℕ) (k : KeyType) (counts tree : List ℕ) (n : ℕ) (some_rank : 0 < n)
    (octree : IsOctree k tree) (nodes : length counts ≡ n_nodes tree)
    (small : sum_first counts (length counts) < 2 ^ 64)
    (shares : AreShares share (sum_first counts (length counts)) n) where
  abbrev offset : ℕ → ℕ
  offset r = (uniform_bins share counts (replicate (n + 1) 0) (replicate n 0)).0 ! r

  make_sfc_assignment-boundary :
      (r : ℕ)
      → r ≤ n
      → (make_sfc_assignment share n counts tree).rank_boundaries ! r ≡ tree ! offset r
  unfolding make_sfc_assignment gather
  make_sfc_assignment-boundary r h =
      let offsets = (uniform_bins share counts (replicate (n + 1) 0) (replicate n 0)).0 in
      let all =
        length-uniform_bins share counts (replicate (n + 1) 0) (replicate n 0) n some_rank
          (length-replicate (n + 1) 0) small shares in
      get_or-fill (length offsets) 0 (λ i. tree ! (offsets ! i)) (replicate (n + 1) 0) r 0
        (omega arith) (omega (arith, all)) (omega (arith, length-replicate {A = ℕ} (n + 1) 0))

  length-boundaries : length (make_sfc_assignment share n counts tree).rank_boundaries ≡ n + 1
  unfolding make_sfc_assignment gather
  length-boundaries =
      let offsets = (uniform_bins share counts (replicate (n + 1) 0) (replicate n 0)).0 in
      length-fill (length offsets) 0 (λ i. tree ! (offsets ! i)) (replicate (n + 1) 0)
      ∙ length-replicate (n + 1) 0

  make_sfc_assignment-ascending :
      (i j : ℕ)
      → i ≤ j
      → j ≤ n
      → (make_sfc_assignment share n counts tree).rank_boundaries ! i
        ≤ (make_sfc_assignment share n counts tree).rank_boundaries ! j
  make_sfc_assignment-ascending i j up h =
      let bins : List ℕ = replicate (n + 1) 0 in
      let size : length bins ≡ n + 1 = length-replicate (n + 1) 0 in
      let back : i + (j - i) ≡ j = omega arith in
      let fits : i + (j - i) ≤ n = omega arith in
      let order : offset i ≤ offset j =
        rw back at (
          bin_mono share counts bins (replicate n 0) n some_rank size small shares i (j - i)
            fits) in
      let within = bin_within share counts bins (replicate n 0) n some_rank size small shares j h in
      omega (
        arith,
        make_sfc_assignment-boundary i (omega arith),
        make_sfc_assignment-boundary j h,
        IsOctree-ascending octree (offset i) (offset j) order (omega arith),
      )

  -- `makeSfcAssignment` on a tree in the cornerstone format, with a count for each node, gives sorted
  -- boundaries from 0 to the end of the key range, for at least one rank, a sum of counts that 64 bits
  -- hold and shares of it that ascend and are not more than it.
  pub make_sfc_assignment-IsAssignment : IsAssignment k (make_sfc_assignment share n counts tree) n
  make_sfc_assignment-IsAssignment =
      let bins : List ℕ = replicate (n + 1) 0 in
      let size : length bins ≡ n + 1 = length-replicate (n + 1) 0 in
      let first =
        uniform_bins-first share counts bins (replicate n 0) n some_rank size small shares in
      let last =
        uniform_bins-last share counts bins (replicate n 0) n some_rank size small shares in
      record {
        ranks = length-boundaries;
        first =
            make_sfc_assignment-boundary 0 (omega arith)
            ∙ ap (λ (i : ℕ). tree ! i) first
            ∙ octree.first;
        last =
            make_sfc_assignment-boundary n (omega arith)
            ∙ ap (λ (i : ℕ). tree ! i) (last ∙ nodes)
            ∙ octree.last;
        sorted = λ i j from up to.
            make_sfc_assignment-ascending i j up (omega (arith, length-boundaries));
      }
