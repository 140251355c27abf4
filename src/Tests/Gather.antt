-- ===== src/Tests/Gather.antt =====
-- Orderings and sorts.
use cornerstone_octree.Base.Loops.{fill}
use cornerstone_octree.Base.{ℕ, ◌≡◌, refl, arith, List, [], ◌∷◌, replicate}
use cornerstone_octree.Primitives.Gather.{gather_scatter, omp_copy, sort_by_key}
use cornerstone_octree.Primitives.Gather.Scatter.{IsInjective}

abbrev ordering : List ℕ
ordering = 2 ∷ 0 ∷ 3 ∷ 1 ∷ []

abbrev source : List ℕ
source = 10 ∷ 11 ∷ 12 ∷ 13 ∷ []

ordering-IsInjective : IsInjective ordering
ordering-IsInjective i j lt h = grind arith

abbrev some_keys : List ℕ
some_keys = 5 ∷ 3 ∷ 5 ∷ 1 ∷ []

sort_by_key_test : sort_by_key 4 some_keys source ≡ (1 ∷ 3 ∷ 5 ∷ 5 ∷ [], 13 ∷ 11 ∷ 10 ∷ 12 ∷ [])
unfolding sort_by_key fill
sort_by_key_test = refl

gather_scatter_test : gather_scatter ordering ordering source (replicate 4 0) ≡ source
unfolding gather_scatter
gather_scatter_test = refl

omp_copy_test : omp_copy source (replicate 4 0) ≡ source
unfolding omp_copy fill
omp_copy_test = refl
