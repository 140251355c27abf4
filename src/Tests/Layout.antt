-- ===== src/Tests/Layout.antt =====
-- Ranges of nodes and offsets of leaves.
use cornerstone_octree.Base.{ℕ, ◌≡◌, refl, arith, not, List, [], ◌∷◌, replicate}
use cornerstone_octree.Base.Loops.{fill}
use cornerstone_octree.Domain.Layout.{invert_ranges, covers, compute_node_layout}
use cornerstone_octree.Domain.Layout.Complement.{
  AreSortedFrom, no_range, empty_range, next_range, invert_ranges-covers,
}

abbrev halos : List (ℕ × ℕ)
halos = (2, 4) ∷ (5, 5) ∷ (7, 9) ∷ []

halos-AreSortedFrom : AreSortedFrom 1 halos
halos-AreSortedFrom =
    next_range (omega arith) (omega arith)
      (empty_range refl (next_range (omega arith) (omega arith) no_range))

invert_ranges_test : invert_ranges 1 halos 12 ≡ (1, 2) ∷ (4, 7) ∷ (9, 12) ∷ []
unfolding invert_ranges
invert_ranges_test = refl

invert_ranges-covers_example : covers (invert_ranges 1 halos 12) 5 ≡ not (covers halos 5)
invert_ranges-covers_example =
    invert_ranges-covers 1 halos 12 5 halos-AreSortedFrom (omega arith) (omega arith)

abbrev leaf_counts : List ℕ
leaf_counts = 3 ∷ 5 ∷ 7 ∷ 11 ∷ []

abbrev halo_flags : List ℕ
halo_flags = 0 ∷ 1 ∷ 0 ∷ 0 ∷ []

abbrev leaf_indices : List ℕ
leaf_indices = 0 ∷ 1 ∷ 2 ∷ 3 ∷ []

compute_node_layout_test :
    compute_node_layout leaf_counts halo_flags leaf_indices 2 3 (replicate 5 0)
    ≡ 0 ∷ 0 ∷ 5 ∷ 12 ∷ 12 ∷ []
unfolding compute_node_layout fill
compute_node_layout_test = refl
