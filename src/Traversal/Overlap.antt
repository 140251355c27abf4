-- ===== src/Traversal/Overlap.antt =====
-- include/cstone/traversal/boxoverlap.hpp: overlaps of ranges.
use cornerstone_octree.Base.{ℕ, Bool, ◌&&◌, ltb}

-- `overlapTwoRanges`, at an unsigned type.
unfoldable pub overlap_two_ranges : ℕ → ℕ → ℕ → ℕ → Bool
overlap_two_ranges a b c d = ltb c b && ltb a d
