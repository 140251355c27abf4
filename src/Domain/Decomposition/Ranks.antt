-- ===== src/Domain/Decomposition/Ranks.antt =====
-- The ranks that include/cstone/domain/domaindecomp.hpp sends keys to.
use native.Mathlib.Decide.{dec_le}
use cornerstone_octree.Base.{
  ℕ, ◌+◌, ◌≤◌, ◌<◌, ◌≡◌, ap, arith, List, length, length-replicate, replicate, ◌!◌, ◌↔◌,
}
use cornerstone_octree.Base.Int.{pos, negsuc, ◌+ℤ◌, pos_part, neg_part, eq_of_parts, int_laws}
use cornerstone_octree.Base.Loops.{get_or-fill}
use cornerstone_octree.Primitives.Search.{lower_bound, upper_bound}
use cornerstone_octree.Primitives.Search.Splits.{
  IsSortedIn, lower_bound-Splits, upper_bound-SplitsBehind, Splits-le, SplitsBehind-le,
}
use cornerstone_octree.Domain.Decomposition.{
  SfcAssignment, num_ranks, find_rank, create_send_ranges,
}

-- The part of the curve of a rank.
abbrev pub Owns : SfcAssignment → ℕ → ℕ → Type 0
Owns s rank key = (s.rank_boundaries ! rank ≤ key) × (key < s.rank_boundaries ! (rank + 1))

module _ (s : SfcAssignment)
    (sorted : IsSortedIn s.rank_boundaries 0 (length s.rank_boundaries)) where
  -- `findRank` gives a rank exactly if the key is in the rank's part, for sorted boundaries.
  pub find_rank-Owns :
      (rank key : ℕ) → rank < num_ranks s → (find_rank s key ≡ pos rank) ↔ Owns s rank key
  unfolding find_rank num_ranks
  find_rank-Owns rank key here =
      let b = s.rank_boundaries in
      let u = upper_bound b 0 (length b) key in
      let split = upper_bound-SplitsBehind b 0 (length b) key (omega arith) sorted in
      let this = SplitsBehind-le split rank (omega arith) (omega arith) in
      let next = SplitsBehind-le split (rank + 1) (omega arith) (omega arith) in
      (
        λ e.
            let at : u ≡ rank + 1 = omega (int_laws, ap pos_part e, ap neg_part e) in
            (
              elim (dec_le (b ! rank) key) [
                | yes p ↦ p
                | no p ↦ absurd (omega (arith, this.1 (omega arith)))
              ],
              next.0 (omega arith),
            ),
        λ (from, to).
            let at : u ≡ rank + 1 = elim (dec_le u rank) [
              | yes p ↦ absurd (omega (arith, this.0 p))
              | no p ↦ omega (arith, next.1 to)
            ] in
            eq_of_parts (pos u +ℤ negsuc 0) (pos rank) (omega int_laws),
      )

  create_send_ranges-entry :
      (keys : List ℕ) (rank : ℕ)
      → rank ≤ num_ranks s
      → create_send_ranges s keys ! rank
        ≡ lower_bound keys 0 (length keys) (s.rank_boundaries ! rank)
  unfolding create_send_ranges
  create_send_ranges-entry keys rank h =
      get_or-fill (num_ranks s + 1) 0
        (λ r. lower_bound keys 0 (length keys) (s.rank_boundaries ! r))
        (replicate (num_ranks s + 1) 0) rank 0 (omega arith) (omega arith)
        (omega (arith, length-replicate {A = ℕ} (num_ranks s + 1) 0))

  -- `createSendRanges` sends to each rank exactly the particles for whose keys `findRank` gives this rank,
  -- if the boundaries and the keys are sorted.
  pub create_send_ranges-find_rank :
      (keys : List ℕ) (rank i : ℕ)
      → IsSortedIn keys 0 (length keys)
      → rank < num_ranks s
      → i < length keys
      → ((create_send_ranges s keys ! rank ≤ i) × (i < create_send_ranges s keys ! (rank + 1)))
        ↔ (find_rank s (keys ! i) ≡ pos rank)
  create_send_ranges-find_rank keys rank i ordered here inside =
      let b = s.rank_boundaries in
      let owner = find_rank-Owns rank (keys ! i) here in
      let from = create_send_ranges-entry keys rank (omega arith) in
      let to = create_send_ranges-entry keys (rank + 1) (omega arith) in
      let start =
        Splits-le (lower_bound-Splits keys 0 (length keys) (b ! rank) (omega arith) ordered) i
          (omega arith) inside in
      let end =
        Splits-le (lower_bound-Splits keys 0 (length keys) (b ! (rank + 1)) (omega arith) ordered) i
          (omega arith) inside in
      rw (from, to)
        (
          λ (l, r). owner.1 (
            start.0 l,
            (elim (dec_le (b ! (rank + 1)) (keys ! i)) [
              | yes p ↦ absurd (omega (arith, end.1 p))
              | no p ↦ omega arith
            ]),
          ),
          λ e.
              let (l, r) = owner.0 e in
              (
                start.1 l,
                (elim (dec_le (lower_bound keys 0 (length keys) (b ! (rank + 1))) i) [
                  | yes p ↦ absurd (omega (arith, end.0 p))
                  | no p ↦ omega arith
                ]),
              ),
        )
