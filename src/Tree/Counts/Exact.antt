-- ===== src/Tree/Counts/Exact.antt =====
-- The counts of `calculateNodeCount` and `updateNodeCount` are the numbers of keys in a node.
use native.Mathlib.Nat.{mod-eq_of_lt}
use cornerstone_octree.Base.{
  ℕ, zero, suc, ◌+◌, ◌-◌, ◌*◌, ◌^◌, ◌≤◌, ◌<◌, ◌≡◌, refl, sym, arith, List, [], ◌∷◌, length, ◌!◌,
  ltb, leb, ◌&&◌, if◌then◌else◌, min, set,
}
use cornerstone_octree.Base.Int.{ℤ}
use cornerstone_octree.Base.Loops.{fill}
use cornerstone_octree.Key.{KeyType, modulus}
use cornerstone_octree.Primitives.Search.{lower_bound}
use cornerstone_octree.Primitives.Search.Splits.{IsSortedIn, lower_bound-Splits}
use cornerstone_octree.Tree.Counts.{
  calculate_node_count, update_node_count, update_counts, to_signed,
}
use cornerstone_octree.Tree.Counts.Bounds.{find_search_bounds-lower_bound}

-- The keys in [a, b).
unfoldable pub keys_in : ℕ → ℕ → List ℕ → ℕ
keys_in a b [] = 0
keys_in a b (x ∷ xs) = if leb a x && ltb x b then suc (keys_in a b xs) else keys_in a b xs

keys_below :
    (b : ℕ) (xs : List ℕ) (r : ℕ)
    → r ≤ length xs
    → ((j : ℕ) → j < r → xs ! j < b)
    → ((j : ℕ) → r ≤ j → j < length xs → b ≤ xs ! j)
    → keys_in 0 b xs ≡ r
unfolding keys_in
keys_below b [] r h below above = omega arith
keys_below b (x ∷ xs) zero h below above =
    let first = above 0 (omega arith) (omega arith) in
    let rest =
      keys_below b xs zero (omega arith) (λ j p. absurd (omega arith))
        (λ j p q. above (suc j) (omega arith) (omega arith)) in
    ground (arith, first, rest)
keys_below b (x ∷ xs) (suc r) h below above =
    let first = below 0 (omega arith) in
    let rest =
      keys_below b xs r (omega arith) (λ j p. below (suc j) (omega arith))
        (λ j p q. above (suc j) (omega arith) (omega arith)) in
    ground (arith, first, rest)

pub keys_in-split :
    (a b c : ℕ) (xs : List ℕ) → a ≤ b → b ≤ c → keys_in a c xs ≡ keys_in a b xs + keys_in b c xs
unfolding keys_in
keys_in-split a b c [] h l = omega arith
keys_in-split a b c (x ∷ xs) h l = ground (arith, keys_in-split a b c xs h l)

pub lower_bound-keys_in :
    (codes : List ℕ) (b : ℕ)
    → IsSortedIn codes 0 (length codes)
    → lower_bound codes 0 (length codes) b ≡ keys_in 0 b codes
lower_bound-keys_in codes b sorted =
    let s = lower_bound-Splits codes 0 (length codes) b (omega arith) sorted in
    sym (keys_below b codes _ s.to (λ j p. s.below j (omega arith) p) s.above)

pub keys_in-le : (a b : ℕ) (xs : List ℕ) → keys_in a b xs ≤ length xs
unfolding keys_in
keys_in-le a b [] = omega arith
keys_in-le a b (x ∷ xs) = ground (arith, keys_in-le a b xs)

-- `calculateNodeCount` gives the number of keys in the node or `maxCount`, whichever is smaller, for
-- sorted keys.
pub calculate_node_count-keys_in :
    (codes : List ℕ) (a b max_count : ℕ)
    → IsSortedIn codes 0 (length codes)
    → a ≤ b
    → calculate_node_count a b codes max_count ≡ min (keys_in a b codes) max_count
unfolding calculate_node_count
calculate_node_count-keys_in codes a b max_count sorted le =
    let parts = keys_in-split 0 a b codes (omega arith) le in
    let difference : keys_in 0 b codes - keys_in 0 a codes ≡ keys_in a b codes =
      omega (arith, parts) in
    rw (lower_bound-keys_in codes a sorted, lower_bound-keys_in codes b sorted, difference) refl

module _ (k : KeyType) (codes : List ℕ) (sorted : IsSortedIn codes 0 (length codes))
    (small : (j : ℕ) → j < length codes → codes ! j * 2 < modulus k) (few : length codes < 2 ^ 32)
    (room : length codes * 4 ≤ modulus k) where
  -- Whatever the guesses, `updateNodeCount` gives what `calculateNodeCount` gives, for sorted keys that
  -- the signed key type holds and of which there are fewer than 2 ^ 32 and at most a quarter of the modulus.
  pub update_node_count-calculate :
      (i : ℕ) (tree : List ℕ) (first_guess second_guess : ℤ) (max_count : ℕ)
      → update_node_count k i tree first_guess second_guess codes max_count
        ≡ calculate_node_count (tree ! i) (tree ! (i + 1)) codes max_count
  unfolding update_node_count calculate_node_count
  update_node_count-calculate i tree first_guess second_guess max_count =
      let (a, b, start) =
        find_search_bounds-lower_bound k codes sorted small room first_guess (tree ! i) in
      let (c, d, end) =
        find_search_bounds-lower_bound k codes sorted small room second_guess (tree ! (i + 1)) in
      let whole : lower_bound codes 0 (length codes) (tree ! (i + 1))
            - lower_bound codes 0 (length codes) (tree ! i)
          < 2 ^ 32 =
        omega (
          arith,
          few,
          lower_bound-keys_in codes (tree ! (i + 1)) sorted,
          keys_in-le 0 (tree ! (i + 1)) codes,
        ) in
      rw (start, end, mod-eq_of_lt whole) refl

  -- The loop with guesses writes what the loop without writes.
  pub update_counts-fill :
      (tree : List ℕ) (max_count n left i : ℕ) (counts : List ℕ)
      → update_counts k tree codes max_count n left i counts
        ≡ fill left i (λ j. calculate_node_count (tree ! j) (tree ! (j + 1)) codes max_count) counts
  unfolding update_counts fill
  update_counts-fill tree max_count n zero i counts = refl
  update_counts-fill tree max_count n (suc left) i counts =
      rw
        (update_node_count-calculate i tree (to_signed k (counts ! i))
          (to_signed k (counts ! min (i + 1) (n - 1))) max_count)
        (update_counts-fill tree max_count n left (i + 1)
          (set counts i (calculate_node_count (tree ! i) (tree ! (i + 1)) codes max_count)))
