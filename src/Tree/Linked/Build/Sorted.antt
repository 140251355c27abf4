-- ===== src/Tree/Linked/Build/Sorted.antt =====
-- The sort in `buildOctreeCpu` of include/cstone/tree/octree.hpp and the loop behind it that inverts its order.
use native.Mathlib.Decide.{dec_lt}
use cornerstone_octree.Base.{ℕ, ◌≤◌, ◌<◌, ◌≡◌, ◌⊎◌, arith, List, length, ◌!◌, inl, inr}
use cornerstone_octree.Primitives.Gather.{sort_by_key}
use cornerstone_octree.Primitives.Search.Splits.{IsSortedIn}
use cornerstone_octree.Tree.Linked.Build.{store_places}
use cornerstone_octree.Tree.Linked.Build.Order.{
  store_places-at, sort_by_key_ordered, sort_by_key_source, sort_by_key_apart,
}

-- The sorted keys, the order that they have come in, and where each key has gone.
pub record IsPlaced (n : ℕ) (keys sorted order places : List ℕ) : Type 0 where
  pub ascending : IsSortedIn sorted 0 n
  pub stable : (a b : ℕ) → a < b → b < n → (sorted ! a < sorted ! b) ⊎ (order ! a < order ! b)
  pub within : (i : ℕ) → i < n → order ! i < n
  pub source : (i : ℕ) → i < n → sorted ! i ≡ keys ! (order ! i)
  pub place : (i : ℕ) → i < n → places ! (order ! i) ≡ i

-- For keys whose values are their indices, and a place for each, `sort_by_key` sorts the keys and keeps the order of equal ones, and
-- its values tell from where each key has come; the loop of `buildOctreeCpu` that follows it stores under
-- each of these values the place that its key has gone to.
pub sort_by_key-IsPlaced :
    (n : ℕ) (keys values places : List ℕ)
    → length keys ≡ n
    → length values ≡ n
    → ((j : ℕ) → j < n → values ! j ≡ j)
    → n ≤ length places
    → IsPlaced n keys
        (sort_by_key n keys values).0
        (sort_by_key n keys values).1
        (store_places (sort_by_key n keys values).1 n 0 places)
sort_by_key-IsPlaced n keys values places keys_room values_room index places_room =
    let ordered = sort_by_key_ordered n keys values keys_room values_room index in
    let from = sort_by_key_source n keys values keys_room values_room index in
    record {
      ascending = λ a b _ end order. elim (dec_lt a b) [
        | yes lt ↦ elim (ordered a b lt order) [
          | inl less ↦ omega (arith, less)
          | inr (same, later) ↦ omega (arith, same)
        ]
        | no ge ↦ let equal : a ≡ b = omega arith in rw equal (omega arith)
      ];
      stable = λ a b lt end. elim (ordered a b lt end) [
        | inl less ↦ inl less
        | inr (same, later) ↦ inr later
      ];
      within = λ i h. (from i h).0;
      source = λ i h. (from i h).1;
      place = λ i h.
          store_places-at (sort_by_key n keys values).1 n 0 places i
            (λ a b lt end.
              sort_by_key_apart n keys values keys_room values_room index a b lt (omega arith))
            (omega (arith, (from i h).0, places_room)) (omega arith) (omega arith);
    }
