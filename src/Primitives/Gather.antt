-- ===== src/Primitives/Gather.antt =====
-- include/cstone/primitives/gather.hpp: copies in the order of an index array.
pub mod Scatter
pub mod Sort
use cornerstone_octree.Base.{
  ℕ, zero, suc, ◌+◌, List, [], ◌∷◌, length, set, ◌!◌, get_or, ltb, if◌then◌else◌,
}
use cornerstone_octree.Base.Loops.{fill}

-- `gather`.
unfoldable pub gather : List ℕ → List ℕ → List ℕ → List ℕ
gather ordering source destination =
    fill (length ordering) 0 (λ i. source ! (ordering ! i)) destination

-- The loop of `scatter` from `i` on, `left` rounds.
unfoldable pub scatter_loop : List ℕ → List ℕ → ℕ → ℕ → List ℕ → List ℕ
scatter_loop ordering source zero i destination = destination
scatter_loop ordering source (suc left) i destination =
    scatter_loop ordering source left (i + 1) (set destination (ordering ! i) (source ! i))

-- `scatter`.
unfoldable pub scatter : List ℕ → List ℕ → List ℕ → List ℕ
unfolding scatter_loop
scatter ordering source destination = scatter_loop ordering source (length ordering) 0 destination

-- The loop of `gatherScatter` and the function.
unfoldable pub gather_scatter_loop : List ℕ → List ℕ → List ℕ → ℕ → ℕ → List ℕ → List ℕ
gather_scatter_loop gmap smap src zero i dst = dst
gather_scatter_loop gmap smap src (suc left) i dst =
    gather_scatter_loop gmap smap src left (i + 1) (set dst (smap ! i) (src ! (gmap ! i)))

unfoldable pub gather_scatter : List ℕ → List ℕ → List ℕ → List ℕ → List ℕ
unfolding gather_scatter_loop
gather_scatter gmap smap src dst = gather_scatter_loop gmap smap src (length gmap) 0 dst

-- `omp_copy` of a whole array.
unfoldable pub omp_copy : List ℕ → List ℕ → List ℕ
omp_copy source out = fill (length source) 0 (λ i. source ! i) out

-- The pairs of the keys and values from `i` on, as `sort_by_key` zips them.
unfoldable pub zip_pairs : ℕ → ℕ → List ℕ → List ℕ → List (ℕ × ℕ)
zip_pairs zero i keys values = []
zip_pairs (suc n) i keys values = (keys ! i, values ! i) ∷ zip_pairs n (i + 1) keys values

-- `std::stable_sort` of pairs by their keys: the order that it gives is unique.
unfoldable pub insert_pair : ℕ × ℕ → List (ℕ × ℕ) → List (ℕ × ℕ)
insert_pair p [] = p ∷ []
insert_pair p (q ∷ qs) = if ltb q.0 p.0 then q ∷ insert_pair p qs else p ∷ q ∷ qs

unfoldable pub stable_sort : List (ℕ × ℕ) → List (ℕ × ℕ)
unfolding insert_pair
stable_sort [] = []
stable_sort (p ∷ ps) = insert_pair p (stable_sort ps)

-- `sort_by_key` of the first `n` keys and values, in ascending order.
unfoldable pub sort_by_key : ℕ → List ℕ → List ℕ → List ℕ × List ℕ
unfolding zip_pairs stable_sort
sort_by_key n keys values =
    let pairs = stable_sort (zip_pairs n 0 keys values) in
    (
      fill n 0 (λ i. (get_or pairs i (0, 0)).0) keys,
      fill n 0 (λ i. (get_or pairs i (0, 0)).1) values,
    )
