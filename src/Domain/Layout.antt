-- ===== src/Domain/Layout.antt =====
-- include/cstone/domain/layout.hpp: ranges of node indices, as pairs of a start and an end.
pub mod Complement
pub mod Offsets
use cornerstone_octree.Base.{
  ℕ, Bool, true, false, ◌&&◌, ◌||◌, ◌==◌, ltb, leb, if◌then◌else◌, List, [], ◌∷◌, ◌++◌, ◌!◌, ◌+◌,
  ◌%◌, ◌^◌, length, not,
}
use cornerstone_octree.Base.Loops.{fill}

-- The loop of `invertRanges` over the ranges that are left.
unfoldable invert_loop : List (ℕ × ℕ) → ℕ → List (ℕ × ℕ) → ℕ → List (ℕ × ℕ)
invert_loop [] current_index inverted_ranges last =
    if ltb current_index last
    then inverted_ranges ++ (current_index, last) ∷ []
    else inverted_ranges
invert_loop ((start, end) ∷ ranges) current_index inverted_ranges last = elim (start == end) [
  | true ↦ invert_loop ranges current_index inverted_ranges last
  | false ↦
      invert_loop ranges end
        (if ltb current_index start
          then inverted_ranges ++ (current_index, start) ∷ []
          else inverted_ranges)
        last
]

-- `invertRanges`.
unfoldable pub invert_ranges : ℕ → List (ℕ × ℕ) → ℕ → List (ℕ × ℕ)
unfolding invert_loop
invert_ranges first ranges last = invert_loop ranges first [] last

-- Whether an index is in one of the ranges.
abbrev pub covers : List (ℕ × ℕ) → ℕ → Bool
covers [] j = false
covers ((start, end) ∷ ranges) j = (leb start j && ltb j end) || covers ranges j

-- Whether a leaf is assigned, between `start` and `end`, or marked as a halo.
unfoldable pub have_particles : List ℕ → List ℕ → ℕ → ℕ → ℕ → Bool
have_particles flags leaf_to_internal start end i =
    (leb start i && ltb i end) || not (flags ! (leaf_to_internal ! i) == 0)

-- `std::exclusive_scan` of `LocalIndex` values, of 32 bits.
unfoldable pub scan_indices : ℕ → List ℕ → List ℕ
scan_indices acc [] = []
scan_indices acc (x ∷ xs) = acc ∷ scan_indices ((acc + x) % 2 ^ 32) xs

-- `computeNodeLayout` on the CPU.
unfoldable pub compute_node_layout : List ℕ → List ℕ → List ℕ → ℕ → ℕ → List ℕ → List ℕ
unfolding have_particles scan_indices
compute_node_layout focus_leaf_counts flags leaf_to_internal start end layout = scan_indices 0 (
    fill (length focus_leaf_counts) 0
      (λ i. if have_particles flags leaf_to_internal start end i then focus_leaf_counts ! i else 0)
      layout)
