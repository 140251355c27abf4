-- ===== src/Tree/Linked/Build/Order.antt =====
-- The orders that `buildOctreeCpu` of include/cstone/tree/octree.hpp goes between.
use native.Mathlib.Decide.{dec_lt}
use cornerstone_octree.Base.{
  ℕ, zero, suc, ◌+◌, ◌≤◌, ◌<◌, ◌≡◌, ◌≢◌, refl, ap, sym, ◌∙◌, arith, List, [], ◌∷◌, length, set, ◌!◌,
  get_or, inl, inr, length-set, get_or-set_self, get_or-set_ne,
}
use cornerstone_octree.Base.Loops.{get_or-fill}
use cornerstone_octree.Primitives.Gather.{zip_pairs, stable_sort, sort_by_key}
use cornerstone_octree.Primitives.Gather.Sort.{
  All, IsOrdered, AscendByValue, Precedes, All-stable_sort, stable_sort-IsOrdered,
  length-stable_sort, length-zip_pairs,
}
use cornerstone_octree.Tree.Linked.Build.{store_places}

-- A loop that stores places leaves what it does not store, and finds each place of an order without repetitions.
store_places-outside :
    (order : List ℕ) (left i : ℕ) (places : List ℕ) (p : ℕ)
    → ((j : ℕ) → i ≤ j → j < i + left → order ! j ≢ p)
    → store_places order left i places ! p ≡ places ! p
unfolding store_places
store_places-outside order zero i places p apart = refl
store_places-outside order (suc left) i places p apart =
    store_places-outside order left (i + 1) (set places (order ! i) i) p
      (λ j from to. apart j (omega arith) (omega arith))
    ∙ get_or-set_ne places (order ! i) p i 0 (apart i (omega arith) (omega arith))

pub store_places-at :
    (order : List ℕ) (left i : ℕ) (places : List ℕ) (j : ℕ)
    → ((a b : ℕ) → a < b → b < i + left → order ! a ≢ order ! b)
    → order ! j < length places
    → i ≤ j
    → j < i + left
    → store_places order left i places ! (order ! j) ≡ j
unfolding store_places
store_places-at order zero i places j apart inside from to = absurd (omega arith)
store_places-at order (suc left) i places j apart inside from to = elim (dec_lt i j) [
  | yes p ↦
      store_places-at order left (i + 1) (set places (order ! i) i) j
        (λ a b lt end. apart a b lt (omega arith)) (omega (arith, length-set places (order ! i) i))
        (omega arith) (omega arith)
  | no p ↦
      let here : i ≡ j = omega arith in
      store_places-outside order left (i + 1) (set places (order ! i) i) (order ! j)
        (λ m from' to' e. apart j m (omega arith) (omega arith) (sym e))
      ∙ rw here (get_or-set_self places (order ! j) j 0 inside)
]

All-at :
    (P : ℕ × ℕ → Type 0) (ps : List (ℕ × ℕ)) (i : ℕ)
    → All P ps
    → i < length ps
    → P (get_or ps i (0, 0))
All-at P [] i all h = absurd (omega arith)
All-at P (p ∷ ps) zero (here, all) h = here
All-at P (p ∷ ps) (suc i) (here, all) h = All-at P ps i all (omega arith)

IsOrdered-at :
    (ps : List (ℕ × ℕ)) (i j : ℕ)
    → IsOrdered ps
    → i < j
    → j < length ps
    → Precedes (get_or ps i (0, 0)) (get_or ps j (0, 0))
IsOrdered-at [] i j ordered lt h = absurd (omega arith)
IsOrdered-at (p ∷ ps) i zero ordered lt h = absurd (omega arith)
IsOrdered-at (p ∷ ps) zero (suc j) (all, ordered) lt h = All-at (Precedes p) ps j all (omega arith)
IsOrdered-at (p ∷ ps) (suc i) (suc j) (all, ordered) lt h =
    IsOrdered-at ps i j ordered (omega arith) (omega arith)

zip_pairs-All :
    (P : ℕ × ℕ → Type 0) (n i : ℕ) (keys values : List ℕ)
    → ((j : ℕ) → i ≤ j → j < i + n → P (keys ! j, values ! j))
    → All P (zip_pairs n i keys values)
unfolding zip_pairs
zip_pairs-All P zero i keys values each = tt
zip_pairs-All P (suc n) i keys values each = (
  each i (omega arith) (omega arith),
  zip_pairs-All P n (i + 1) keys values (λ j from to. each j (omega arith) (omega arith)),
)

zip_pairs-AscendByValue :
    (n i : ℕ) (keys values : List ℕ)
    → ((j : ℕ) → i ≤ j → j < i + n → values ! j ≡ j)
    → AscendByValue (zip_pairs n i keys values)
unfolding zip_pairs
zip_pairs-AscendByValue zero i keys values each = tt
zip_pairs-AscendByValue (suc n) i keys values each = (
  zip_pairs-All (λ q. values ! i < q.1) n (i + 1) keys values
      (λ j from to.
        omega (arith, each i (omega arith) (omega arith), each j (omega arith) (omega arith))),
  zip_pairs-AscendByValue n (i + 1) keys values (λ j from to. each j (omega arith) (omega arith)),
)

-- The order that the sort finds, for values that are their indices.
module _ (n : ℕ) (keys values : List ℕ) (keys_room : length keys ≡ n)
    (values_room : length values ≡ n) (index : (j : ℕ) → j < n → values ! j ≡ j) where
  abbrev sorted : List (ℕ × ℕ)
  sorted = stable_sort (zip_pairs n 0 keys values)

  sorted_room : length sorted ≡ n
  sorted_room = length-stable_sort (zip_pairs n 0 keys values) ∙ length-zip_pairs n 0 keys values

  key_at : (i : ℕ) → i < n → (sort_by_key n keys values).0 ! i ≡ (get_or sorted i (0, 0)).0
  unfolding sort_by_key
  key_at i h =
      get_or-fill n 0 (λ i. (get_or sorted i (0, 0)).0) keys i 0 (omega arith) (omega arith)
        (omega (arith, keys_room))

  value_at : (i : ℕ) → i < n → (sort_by_key n keys values).1 ! i ≡ (get_or sorted i (0, 0)).1
  unfolding sort_by_key
  value_at i h =
      get_or-fill n 0 (λ i. (get_or sorted i (0, 0)).1) values i 0 (omega arith) (omega arith)
        (omega (arith, values_room))

  pub sort_by_key_ordered :
      (i j : ℕ)
      → i < j
      → j < n
      → Precedes
          ((sort_by_key n keys values).0 ! i, (sort_by_key n keys values).1 ! i)
          ((sort_by_key n keys values).0 ! j, (sort_by_key n keys values).1 ! j)
  sort_by_key_ordered i j lt h =
      let ordered =
        IsOrdered-at sorted i j
          (stable_sort-IsOrdered (zip_pairs n 0 keys values)
            (zip_pairs-AscendByValue n 0 keys values (λ m from to. index m (omega arith))))
          lt (omega (arith, sorted_room)) in
      ground
        (arith, ordered, key_at i (omega arith), key_at j h, value_at i (omega arith), value_at j h)

  pub sort_by_key_source :
      (i : ℕ)
      → i < n
      → ((sort_by_key n keys values).1 ! i < n)
        × ((sort_by_key n keys values).0 ! i ≡ keys ! ((sort_by_key n keys values).1 ! i))
  sort_by_key_source i h =
      let pair =
        All-at (λ q. (q.1 < n) × (q.0 ≡ keys ! q.1)) sorted i
          (All-stable_sort (λ q. (q.1 < n) × (q.0 ≡ keys ! q.1)) (zip_pairs n 0 keys values)
            (zip_pairs-All (λ q. (q.1 < n) × (q.0 ≡ keys ! q.1)) n 0 keys values
              (λ j from to. (
                omega (arith, index j (omega arith)),
                ap (λ (t : ℕ). keys ! t) (sym (index j (omega arith))),
              ))))
          (omega (arith, sorted_room)) in
      (
        omega (arith, pair.0, value_at i h),
        key_at i h ∙ pair.1 ∙ ap (λ (t : ℕ). keys ! t) (sym (value_at i h)),
      )

  pub sort_by_key_apart :
      (i j : ℕ)
      → i < j
      → j < n
      → (sort_by_key n keys values).1 ! i ≢ (sort_by_key n keys values).1 ! j
  sort_by_key_apart i j lt h same =
      let (low, source) = sort_by_key_source i (omega arith) in
      let (low', source') = sort_by_key_source j h in
      let equal : (sort_by_key n keys values).0 ! i ≡ (sort_by_key n keys values).0 ! j =
        source ∙ ap (λ (t : ℕ). keys ! t) same ∙ sym source' in
      elim (sort_by_key_ordered i j lt h) [
        | inl less ↦ omega (arith, less, equal)
        | inr (key, less) ↦ omega (arith, less, same)
      ]
