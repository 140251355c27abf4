-- ===== src/Primitives/Search.antt =====
-- include/cstone/primitives/stl.hpp: the binary searches, over the part [first, last) of an array.
-- An iterator is its index. `std::lower_bound` and `std::upper_bound` are taken to be the same.
pub mod Splits
use cornerstone_octree.Base.{ℕ, zero, suc, ◌+◌, ◌-◌, ◌/◌, Bool, true, false, not, ltb, List, ◌!◌}

-- The loop of `lower_bound`; a round at least takes one off `count`, so `count` rounds are enough.
unfoldable pub lower_bound_loop : List ℕ → ℕ → ℕ → ℕ → ℕ → ℕ
lower_bound_loop xs value zero first count = first
lower_bound_loop xs value (suc fuel) first count = elim (ltb 0 count) [
  | false ↦ first
  | true ↦ elim (ltb (xs ! (first + count / 2)) value) [
    | true ↦ lower_bound_loop xs value fuel (first + count / 2 + 1) (count - (count / 2 + 1))
    | false ↦ lower_bound_loop xs value fuel first (count / 2)
  ]
]

unfoldable pub lower_bound : List ℕ → ℕ → ℕ → ℕ → ℕ
unfolding lower_bound_loop
lower_bound xs first last value = lower_bound_loop xs value (last - first) first (last - first)

-- The loop of `upper_bound`.
unfoldable pub upper_bound_loop : List ℕ → ℕ → ℕ → ℕ → ℕ → ℕ
upper_bound_loop xs value zero first count = first
upper_bound_loop xs value (suc fuel) first count = elim (ltb 0 count) [
  | false ↦ first
  | true ↦ elim (not (ltb value (xs ! (first + count / 2)))) [
    | true ↦ upper_bound_loop xs value fuel (first + count / 2 + 1) (count - (count / 2 + 1))
    | false ↦ upper_bound_loop xs value fuel first (count / 2)
  ]
]

unfoldable pub upper_bound : List ℕ → ℕ → ℕ → ℕ → ℕ
unfolding upper_bound_loop
upper_bound xs first last value = upper_bound_loop xs value (last - first) first (last - first)
