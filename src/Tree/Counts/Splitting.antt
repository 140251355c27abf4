-- ===== src/Tree/Counts/Splitting.antt =====
-- The nodes over the bucket get smaller with each round of `computeOctree`.
use native.Mathlib.Nat.{add-zero, zero-mul}
use native.Mathlib.Decide.{dec_lt}
use cornerstone_octree.Base.{
  ℕ, zero, suc, ◌+◌, ◌-◌, ◌*◌, ◌^◌, ◌≤◌, ◌<◌, ◌≡◌, ap, arith, List, ◌!◌, ◌⊎◌, inl, inr, min,
}
use cornerstone_octree.Base.Pow.{pow8-pos, pow8-suc, pow8_lt, pow8_mono}
use cornerstone_octree.Key.{KeyType, max_tree_level, n_nodes}
use cornerstone_octree.Tree.Csarray.{sibling_and_level, calculate_node_op, parent_count}
use cornerstone_octree.Tree.Csarray.Step.{update_treelet-each}
use cornerstone_octree.Tree.Csarray.Decision.{op-split, split_op-fits}
use cornerstone_octree.Tree.Csarray.Converged.{kept_leaf}
use cornerstone_octree.Tree.Counts.{Octree, update_octree}
use cornerstone_octree.Tree.Counts.Exact.{keys_in, keys_in-split}
use cornerstone_octree.Tree.Counts.Whole.{IsOctree-ascending}
use cornerstone_octree.Tree.Counts.Every.{AreKeys}
use cornerstone_octree.Tree.Counts.Update.{Counted, update_octree-tree, update_octree-Counted}

-- After `r` rounds a node over the bucket has at most the size of a node at level `r`.
pub record IsSplitTo (k : KeyType) (bucket r : ℕ) (s : Octree) : Type 0 where
  pub over :
      (i : ℕ)
      → i < n_nodes s.tree
      → (s.counts ! i ≤ bucket) ⊎ (s.tree ! suc i ≤ s.tree ! i + 8 ^ (max_tree_level k - r))

pub exponent-le : (a e m : ℕ) → a + 8 ^ e ≤ a + 8 ^ m → e ≤ m
exponent-le a e m h = elim (dec_lt m e) [
  | yes p ↦ absurd (omega (arith, pow8_lt m e p))
  | no p ↦ omega arith
]

module _ {k : KeyType} {codes : List ℕ} {max_count : ℕ} {s : Octree}
    (c : Counted k codes max_count s) (bucket : ℕ) (no_wrap : bucket * 512 < 2 ^ 32) where
  abbrev n : ℕ
  n = n_nodes s.tree

  abbrev op : ℕ → ℕ
  op i = calculate_node_op k s.tree i s.counts bucket

  -- A node that is split is over the bucket.
  pub split_over : (i d : ℕ) → op i ≡ 8 ^ suc d → bucket < s.counts ! i
  split_over i d power = elim (dec_lt bucket (s.counts ! i)) [
    | yes p ↦ p
    | no fits ↦ absurd (
        omega (
          arith,
          power,
          pow8-suc d,
          pow8-pos d,
          op-split c.octree s.counts bucket i
              (λ z. absurd (omega (arith, z, power, pow8-pos (suc d)))),
          split_op-fits k (sibling_and_level k s.tree i).1 (s.counts ! i) bucket no_wrap
              (omega arith),
        ))
  ]

  -- The counts of `m` nodes from `i` on.
  unfoldable sum_counts : ℕ → ℕ → ℕ
  sum_counts i zero = 0
  sum_counts i (suc m) = sum_counts i m + s.counts ! (i + m)

  -- Counts that are cut off sum up to at least the count of the whole, cut off.
  whole-le :
      (i m : ℕ)
      → i + m ≤ n
      → min (keys_in (s.tree ! i) (s.tree ! (i + m)) codes) max_count ≤ sum_counts i m
  unfolding sum_counts
  whole-le i zero h = rw add-zero (
      omega (
        arith,
        keys_in-split (s.tree ! i) (s.tree ! i) (s.tree ! i) codes (omega arith) (omega arith),
      ))
  whole-le i (suc m) h =
      let next : i + suc m ≡ suc (i + m) = omega arith in
      omega (
        arith,
        whole-le i m (omega arith),
        keys_in-split (s.tree ! i) (s.tree ! (i + m)) (s.tree ! (i + suc m)) codes
            (IsOctree-ascending c.octree i (i + m) (omega arith) (omega arith))
            (IsOctree-ascending c.octree (i + m) (i + suc m) (omega arith) h),
        c.exact (i + m) (omega arith),
        ap (λ j. min (keys_in (s.tree ! (i + m)) (s.tree ! j) codes) max_count) next,
      )

  sum_counts-parent : (i : ℕ) → sum_counts i 8 ≡ parent_count s.counts i
  unfolding sum_counts parent_count
  sum_counts-parent i = rw add-zero (omega arith)

  module _ (r : ℕ) (split : IsSplitTo k bucket r s) where
    -- What a round makes of the node at `a` of size 8 ^ e.
    Fine : ℕ → ℕ → Type 0
    Fine a e =
        (min (keys_in a (a + 8 ^ e) codes) max_count ≤ bucket) ⊎ (e ≤ max_tree_level k - suc r)

    merged-Fine :
        (i e : ℕ)
        → i + 8 ≤ n
        → s.tree ! (i + 8) ≡ s.tree ! i + 8 ^ suc e
        → parent_count s.counts i ≤ bucket
        → Fine (s.tree ! i) (suc e)
    unfolding Fine
    merged-Fine i e inside total fits =
        inl (rw (← total) (omega (arith, whole-le i 8 inside, sum_counts-parent i, fits)))

    split-Fine :
        (i d e t : ℕ)
        → i < n
        → e ≤ max_tree_level k
        → op i ≡ 8 ^ d
        → d ≤ e
        → s.tree ! suc i ≡ s.tree ! i + 8 ^ e
        → t < 8 ^ d
        → Fine (s.tree ! i + t * 8 ^ (e - d)) (e - d)
    unfolding Fine
    split-Fine i zero e t h small power de size p =
        let first : t ≡ 0 = omega arith in
        let whole : e - 0 ≡ e = omega arith in
        let here : s.tree ! i + t * 8 ^ e ≡ s.tree ! i =
          omega (arith, ap (λ (x : ℕ). x * 8 ^ e) first, zero-mul (8 ^ e)) in
        elim (kept_leaf c.octree s.counts bucket i e h small size power) [
          | inl fits ↦ inl (rw (whole, here, ← size) (omega (arith, c.exact i h, fits)))
          | inr flat ↦ inr (omega arith)
        ]
    split-Fine i (suc d) e t h small power de size p = elim (split.over i h) [
      | inl fits ↦ absurd (omega (arith, split_over i d power, fits))
      | inr room ↦ inr (
          omega
            (arith, exponent-le (s.tree ! i) e (max_tree_level k - r) (omega (arith, room, size))))
    ]

-- A round halves the size of the nodes over the bucket, at least three times over.
pub IsSplitTo-update_octree :
    {k : KeyType} {codes : List ℕ} {bucket max_count r : ℕ} {s : Octree}
    → Counted k codes max_count s
    → AreKeys k codes
    → bucket * 512 < 2 ^ 32
    → IsSplitTo k bucket r s
    → IsSplitTo k bucket (suc r) (update_octree k codes bucket max_count s).0
IsSplitTo-update_octree {k} {codes} {bucket} {max_count} {r} {s} c keys no_wrap split =
    let o = c.octree in
    let c' = update_octree-Counted k codes bucket max_count s o keys no_wrap in
    let each =
      update_treelet-each o s.counts bucket no_wrap (Fine c bucket no_wrap r split)
        (λ i e inside deep sizes total fits.
          merged-Fine c bucket no_wrap r split i e inside total fits)
        (λ i d e t h power de size p.
          split-Fine c bucket no_wrap r split i d e t h (small i e h size) power de size p) in
    let next : Octree = (update_octree k codes bucket max_count s).0 in
    let each' : (i : ℕ)
        → i < n_nodes next.tree
        → (e : ℕ) × (e ≤ max_tree_level k)
          × (next.tree ! suc i ≡ next.tree ! i + 8 ^ e)
          × Fine c bucket no_wrap r split (next.tree ! i) e =
      rw (update_octree-tree k codes bucket max_count s) each in
    record {
      over = λ i h.
          let (e, room, size, fine) = each' i h in
          smaller next i e size (c'.exact i h) (unfold Fine in fine);
    }
  where
    small :
        (i e : ℕ) → i < n_nodes s.tree → s.tree ! suc i ≡ s.tree ! i + 8 ^ e → e ≤ max_tree_level k
    small i e h size =
        let (x, room, step) = c.octree.steps i h in
        omega (arith, room, exponent-le (s.tree ! i) e x (omega (arith, size, step)))

    smaller :
        (t : Octree) (i e : ℕ)
        → t.tree ! suc i ≡ t.tree ! i + 8 ^ e
        → t.counts ! i ≡ min (keys_in (t.tree ! i) (t.tree ! suc i) codes) max_count
        → (min (keys_in (t.tree ! i) (t.tree ! i + 8 ^ e) codes) max_count ≤ bucket)
          ⊎ (e ≤ max_tree_level k - suc r)
        → (t.counts ! i ≤ bucket) ⊎ (t.tree ! suc i ≤ t.tree ! i + 8 ^ (max_tree_level k - suc r))
    smaller t i e size exact (inl fits) =
        inl
          (omega (arith, exact, ap (λ b. min (keys_in (t.tree ! i) b codes) max_count) size, fits))
    smaller t i e size exact (inr low) =
        inr (omega (arith, size, pow8_mono e (max_tree_level k - suc r) low))
