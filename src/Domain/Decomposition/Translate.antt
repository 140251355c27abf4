-- ===== src/Domain/Decomposition/Translate.antt =====
-- The translation of an assignment to another tree in include/cstone/domain/domaindecomp.hpp.
use native.Mathlib.Decide.{dec_le}
use cornerstone_octree.Base.{
  ℕ, ◌+◌, ◌≤◌, ◌<◌, arith, List, length, ◌!◌, ◌↔◌, get_or, resize, length-resize,
}
use cornerstone_octree.Base.Int.{◌+ℤ◌}
use cornerstone_octree.Base.Loops.{fill, length-fill, get_or-fill}
use cornerstone_octree.Key.{n_nodes}
use cornerstone_octree.Primitives.Search.{lower_bound, upper_bound}
use cornerstone_octree.Primitives.Search.Splits.{
  IsSortedIn, lower_bound-Splits, upper_bound-SplitsBehind, Splits-le, SplitsBehind-le,
}
use cornerstone_octree.Tree.Counts.{find_node_above, find_node_below}
use cornerstone_octree.Domain.Decomposition.{
  SfcAssignment, num_ranks, translate_rank, translate_assignment,
}

-- The range of one rank, by the two searches.
translate_rank-bounds :
    (s : SfcAssignment) (tree : List ℕ) (rank i : ℕ)
    → ((translate_rank s tree rank).0 ≤ i) × (i < (translate_rank s tree rank).1)
      ↔ (lower_bound tree 0 (length tree) (s.rank_boundaries ! rank) ≤ i)
        × (i + 1 < upper_bound tree 0 (length tree) (s.rank_boundaries ! (rank + 1)))
unfolding translate_rank find_node_above find_node_below ◌+ℤ◌
translate_rank-bounds s tree rank i = ground arith

module _ (s : SfcAssignment) (tree : List ℕ) (sorted : IsSortedIn tree 0 (length tree)) where
  translate_rank-nodes :
      (rank i : ℕ)
      → i < n_nodes tree
      → ((translate_rank s tree rank).0 ≤ i) × (i < (translate_rank s tree rank).1)
        ↔ (s.rank_boundaries ! rank ≤ tree ! i) × (tree ! (i + 1) ≤ s.rank_boundaries ! (rank + 1))
  unfolding n_nodes
  translate_rank-nodes rank i h =
      let a = s.rank_boundaries ! rank in
      let b = s.rank_boundaries ! (rank + 1) in
      let n = length tree in
      let start =
        Splits-le (lower_bound-Splits tree 0 n a (omega arith) sorted) i (omega arith)
          (omega arith) in
      let end =
        SplitsBehind-le (upper_bound-SplitsBehind tree 0 n b (omega arith) sorted) (i + 1)
          (omega arith) (omega arith) in
      let bounds = translate_rank-bounds s tree rank i in
      (
        λ h. (
          start.0 (bounds.0 h).0,
          (elim (dec_le (tree ! (i + 1)) b) [
            | yes p ↦ p
            | no p ↦ absurd (omega (arith, (bounds.0 h).1, end.1 (omega arith)))
          ]),
        ),
        λ (l, r). bounds.1 (
          start.1 l,
          (elim (dec_le (upper_bound tree 0 n b) (i + 1)) [
            | yes p ↦ absurd (omega (arith, end.0 p))
            | no p ↦ omega arith
          ]),
        ),
      )

  -- `translateAssignment` gives each rank the range of exactly those nodes of a sorted tree that the rank's
  -- part of the curve contains.
  pub translate_assignment-nodes :
      (focus_assignment : List (ℕ × ℕ)) (rank i : ℕ)
      → rank < num_ranks s
      → i < n_nodes tree
      → ((get_or (translate_assignment s tree focus_assignment) rank (0, 0)).0 ≤ i)
          × (i < (get_or (translate_assignment s tree focus_assignment) rank (0, 0)).1)
        ↔ (s.rank_boundaries ! rank ≤ tree ! i) × (tree ! (i + 1) ≤ s.rank_boundaries ! (rank + 1))
  unfolding translate_assignment
  translate_assignment-nodes focus rank i here h =
      let n = num_ranks s in
      let entry =
        get_or-fill n 0 (translate_rank s tree) (fill n 0 (λ _. (0, 0)) (resize focus n (0, 0)))
          rank (0, 0) (omega arith) (omega arith)
          (omega (
            arith,
            length-fill n 0 (λ _. (0, 0)) (resize focus n (0, 0)),
            length-resize focus n (0, 0),
          )) in
      rw entry (translate_rank-nodes rank i h)
