-- ===== src/Tree/Counts/Whole.antt =====
-- The ranges of nodes that `computeNodeCounts` clears and fills.
use native.Mathlib.Nat.{add-zero}
use native.Mathlib.Decide.{dec_lt}
use cornerstone_octree.Base.{
  ℕ, zero, suc, ◌+◌, ◌-◌, ◌%◌, ◌^◌, ◌≤◌, ◌<◌, ◌≡◌, refl, ap, sym, ◌∙◌, arith, List, [], ◌∷◌, length,
  ◌!◌, ◌⊎◌, inl, inr, min, set, length-set, get_or-set_ne,
}
use cornerstone_octree.Base.Loops.{fill, length-fill, get_or-fill, get_or-fill_outside}
use cornerstone_octree.Key.{KeyType, n_nodes}
use cornerstone_octree.Primitives.Search.{upper_bound}
use cornerstone_octree.Primitives.Search.Splits.{IsSortedIn, upper_bound-SplitsBehind}
use cornerstone_octree.Tree.Leaves.{IsOctree}
use cornerstone_octree.Tree.Counts.{calculate_node_count, scan_counts}
use cornerstone_octree.Tree.Counts.Exact.{keys_in, calculate_node_count-keys_in}

pub keys_in-none :
    (a b : ℕ) (xs : List ℕ)
    → ((j : ℕ) → j < length xs → (xs ! j < a) ⊎ (b ≤ xs ! j))
    → keys_in a b xs ≡ 0
unfolding keys_in
keys_in-none a b [] h = refl
keys_in-none a b (x ∷ xs) h =
    let rest = keys_in-none a b xs (λ j p. h (suc j) (omega arith)) in
    ground (arith, h 0 (omega arith), rest)

pub length-scan_counts :
    (n i acc : ℕ) (counts : List ℕ) → length (scan_counts n i acc counts) ≡ length counts
unfolding scan_counts
length-scan_counts zero i acc counts = refl
length-scan_counts (suc n) i acc counts =
    length-scan_counts n (i + 1) ((acc + counts ! i) % 2 ^ 32) (set counts i acc)
    ∙ length-set counts i acc

scan_counts_outside :
    (n i acc : ℕ) (counts : List ℕ) (j : ℕ)
    → (j < i) ⊎ (i + n ≤ j)
    → scan_counts n i acc counts ! j ≡ counts ! j
unfolding scan_counts
scan_counts_outside zero i acc counts j h = refl
scan_counts_outside (suc n) i acc counts j h =
    scan_counts_outside n (i + 1) ((acc + counts ! i) % 2 ^ 32) (set counts i acc) j (omega arith)
    ∙ get_or-set_ne counts i j acc 0 (omega arith)

module _ {k : KeyType} {tree : List ℕ} (o : IsOctree k tree) where
  ascends : (i d : ℕ) → i + d ≤ n_nodes tree → tree ! i ≤ tree ! (i + d)
  ascends i zero h = rw add-zero (omega arith)
  ascends i (suc d) h =
      let (e, small, step) = o.steps (i + d) (omega arith) in
      let next : i + suc d ≡ suc (i + d) = omega arith in
      rw next (omega (arith, ascends i d (omega arith), step))

  -- The keys of a tree in the format ascend.
  pub IsOctree-ascending : (i j : ℕ) → i ≤ j → j ≤ n_nodes tree → tree ! i ≤ tree ! j
  IsOctree-ascending i j h l =
      let e : i + (j - i) ≡ j = omega arith in
      let up = ascends i (j - i) (omega arith) in rw e at up

  module _ (codes : List ℕ) (max_count : ℕ) (sorted : IsSortedIn codes 0 (length codes)) where
    abbrev n : ℕ
    n = n_nodes tree

    -- The count that node `i` should have.
    abbrev pub exact : ℕ → ℕ
    exact i = min (keys_in (tree ! i) (tree ! suc i) codes) max_count

    abbrev pub counted : ℕ → ℕ
    counted i = calculate_node_count (tree ! i) (tree ! (i + 1)) codes max_count

    counted-exact : (i : ℕ) → i < n → counted i ≡ exact i
    counted-exact i h =
        let next : i + 1 ≡ suc i = omega arith in
        ap (λ j. calculate_node_count (tree ! i) (tree ! j) codes max_count) next
        ∙ calculate_node_count-keys_in codes (tree ! i) (tree ! suc i) max_count sorted
            (IsOctree-ascending i (suc i) (omega arith) h)

    populated_at :
        (first last : ℕ) (base : List ℕ)
        → first ≤ last
        → last ≤ n
        → length base ≡ n
        → ((j : ℕ) → j < n → (j < first) ⊎ (last ≤ j) → (base ! j ≡ 0) × (exact j ≡ 0))
        → (i : ℕ) → i < n
        → fill (last - first) first counted base ! i ≡ exact i
    populated_at first last base order top size empty i h = elim (dec_lt i first) [
      | yes low ↦
          let z = empty i h (inl low) in
          get_or-fill_outside (last - first) first counted base i 0 (inl low) ∙ z.0 ∙ sym z.1
      | no ge ↦ elim (dec_lt i last) [
        | yes inside ↦
            get_or-fill (last - first) first counted base i 0 (omega arith) (omega arith)
              (omega arith)
            ∙ counted-exact i h
        | no high ↦
            let z = empty i h (inr (omega arith)) in
            get_or-fill_outside (last - first) first counted base i 0 (inr (omega arith))
            ∙ z.0
            ∙ sym z.1
      ]
    ]

    module _ (first last : ℕ) (counts : List ℕ) (order : first ≤ last) (top : last ≤ n)
        (size : length counts ≡ n)
        (empty : (j : ℕ) → j < n → (j < first) ⊎ (last ≤ j) → exact j ≡ 0) where
      abbrev pub cleared : List ℕ
      cleared = fill (n - last) last (λ _. 0) (fill first 0 (λ _. 0) counts)

      pub length-cleared : length cleared ≡ n
      length-cleared =
          length-fill (n - last) last (λ _. 0) (fill first 0 (λ _. 0) counts)
          ∙ length-fill first 0 (λ _. 0) counts
          ∙ size

      cleared_at : (j : ℕ) → j < n → (j < first) ⊎ (last ≤ j) → cleared ! j ≡ 0
      cleared_at j h (inl low) =
          get_or-fill_outside (n - last) last (λ _. 0) (fill first 0 (λ _. 0) counts) j 0
            (inl (omega arith))
          ∙ get_or-fill first 0 (λ _. 0) counts j 0 (omega arith) (omega arith) (omega arith)
      cleared_at j h (inr high) =
          get_or-fill (n - last) last (λ _. 0) (fill first 0 (λ _. 0) counts) j 0 high (omega arith)
            (omega (arith, length-fill first 0 (λ (_ : ℕ). 0) counts))

      pub plain : (i : ℕ) → i < n → fill (last - first) first counted cleared ! i ≡ exact i
      plain =
          populated_at first last cleared order top length-cleared
            (λ j h p. (cleared_at j h p, empty j h p))

      pub scanned :
          (i : ℕ)
          → i < n
          → fill (last - first) first counted (scan_counts (last - first) first 0 cleared) ! i
            ≡ exact i
      scanned =
          populated_at first last (scan_counts (last - first) first 0 cleared) order top
            (length-scan_counts (last - first) first 0 cleared ∙ length-cleared)
            (λ j h p. (
              scan_counts_outside (last - first) first 0 cleared j (omega arith) ∙ cleared_at j h p,
              empty j h p,
            ))

    -- The nodes below that of the first key and behind that of the last key hold no key.
    unfoldable pub first_node : 1 ≤ length codes → ℕ
    first_node some = upper_bound tree 0 n (codes ! 0) - 1

    unfoldable pub last_node : 1 ≤ length codes → ℕ
    last_node some = upper_bound tree 0 n (codes ! (length codes - 1))

    tree_sorted : IsSortedIn tree 0 n
    tree_sorted i j lo le hi = IsOctree-ascending i j le (omega arith)

    pub populated_range :
        (some : 1 ≤ length codes)
        → (first_node some ≤ last_node some)
          × (last_node some ≤ n)
          × ((j : ℕ) → j < n → (j < first_node some) ⊎ (last_node some ≤ j) → exact j ≡ 0)
    unfolding first_node last_node
    populated_range some =
        let low = upper_bound-SplitsBehind tree 0 n (codes ! 0) (omega arith) tree_sorted in
        let high =
          upper_bound-SplitsBehind tree 0 n (codes ! (length codes - 1)) (omega arith)
            tree_sorted in
        let ends : codes ! 0 ≤ codes ! (length codes - 1) =
          sorted 0 (length codes - 1) (omega arith) (omega arith) (omega arith) in
        let started : 1 ≤ upper_bound tree 0 n (codes ! 0) =
          elim (dec_lt 0 (upper_bound tree 0 n (codes ! 0))) [
            | yes p ↦ p
            | no p ↦ absurd (
                omega (
                  arith,
                  o.first,
                  low.above 0 (omega arith) (unfold n_nodes in omega (arith, o.some_node)),
                ))
          ] in
        let first : ℕ = upper_bound tree 0 n (codes ! 0) - 1 in
        let order : first ≤ upper_bound tree 0 n (codes ! (length codes - 1)) =
          elim (dec_lt (upper_bound tree 0 n (codes ! (length codes - 1))) first) [
            | yes p ↦ absurd (
                omega (
                  arith,
                  ends,
                  low.below first (omega arith) (omega (arith, started)),
                  high.above first (omega arith) (omega (arith, low.to, started)),
                ))
            | no p ↦ omega arith
          ] in
        (
          order,
          high.to,
          λ j h p.
              let none = keys_in-none (tree ! j) (tree ! suc j) codes (λ c q. elim p [
                | inl under ↦ inr (
                    omega (
                      arith,
                      low.below (suc j) (omega arith) (omega (arith, started)),
                      sorted 0 c (omega arith) (omega arith) q,
                    ))
                | inr over ↦ inl (
                    omega (
                      arith,
                      high.above j over h,
                      sorted c (length codes - 1) (omega arith) (omega arith) (omega arith),
                    ))
              ]) in
              ground (arith, none),
        )
