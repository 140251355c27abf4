-- ===== src/Tree/Spanning/Covered.antt =====
-- The tree of `computeSpanningTree` is in the cornerstone format.
use mathlib.Core.List.{append_assoc, append-nil}
use mathlib.Core.Path.{subst}
use cornerstone_octree.Base.{
  ℕ, zero, suc, ◌+◌, ◌-◌, ◌^◌, ◌≤◌, ◌<◌, ◌≡◌, refl, ap, sym, ◌∙◌, arith, List, [], ◌∷◌, ◌++◌,
  length, ◌!◌, replicate, drop, set_behind, length-append, length-drop, length-replicate,
  get_or-append_right,
}
use cornerstone_octree.Base.Loops.{
  fill, length-fill, get_or-fill, exclusive_scan, length-exclusive_scan, exclusive_scan-zero,
  exclusive_scan-suc,
}
use cornerstone_octree.Key.{KeyType, max_tree_level}
use cornerstone_octree.Primitives.Search.Splits.{IsSortedIn}
use cornerstone_octree.Sfc.Range.{node_range_root}
use cornerstone_octree.Sfc.Span.{span_sfc_range}
use cornerstone_octree.Sfc.Span.Cover.{span_sfc_range-IsRun}
use cornerstone_octree.Tree.Leaves.{IsOctree}
use cornerstone_octree.Tree.Leaves.Chain.{Chain, Chain-append, Chain-first, Chain→IsOctree}
use cornerstone_octree.Tree.Csarray.Rebalance.{set_last}
use cornerstone_octree.Tree.Spanning.{write_output, write_spans, compute_spanning_tree}

-- Writes behind a prefix.
write_output-behind :
    (done rest xs : List ℕ) (i : ℕ)
    → length done ≡ i
    → length xs ≤ length rest
    → write_output (done ++ rest) i xs ≡ (done ++ xs) ++ drop (length xs) rest
unfolding write_output
write_output-behind done rest [] i e fits = rw (append-nil done) refl
write_output-behind done [] (x ∷ xs) i e fits = absurd (omega arith)
write_output-behind done (y ∷ rest) (x ∷ xs) i e fits =
    ap (λ t. write_output t (i + 1) xs) (set_behind done y rest i x e)
    ∙ write_output-behind (done ++ x ∷ []) rest xs (i + 1)
        (omega (arith, length-append {0} done (x ∷ []), e)) (omega arith)
    ∙ ap (λ t. t ++ drop (length xs) rest) (append_assoc done (x ∷ []) xs)

module _ (k : KeyType) (keys : List ℕ) (many : 2 ≤ length keys) (first : keys ! 0 ≡ 0)
    (last : keys ! (length keys - 1) ≡ 8 ^ max_tree_level k)
    (sorted : IsSortedIn keys 0 (length keys)) where
  abbrev n : ℕ
  n = length keys - 1

  abbrev span : ℕ → ℕ × List ℕ × ℕ
  span i = span_sfc_range k (keys ! i) (keys ! (i + 1))

  span_run :
      (i : ℕ)
      → i < n
      → (length (span i).1 ≡ (span i).0)
        × Chain k (λ x e. 0 ≤ x) (keys ! i) (span i).1 (keys ! (i + 1))
  span_run i h =
      let (run, end) =
        span_sfc_range-IsRun k (keys ! i) (keys ! (i + 1))
          (sorted i (i + 1) (omega arith) (omega arith) (omega arith))
          (omega (arith, sorted (i + 1) n (omega arith) (omega arith) (omega arith), last)) in
      (run.number, rw end at run.chain)

  -- The spans of the intervals from `i` on, one behind the other.
  unfoldable spans : ℕ → ℕ → List ℕ
  spans zero i = []
  spans (suc left) i = (span i).1 ++ spans left (i + 1)

  spans-Chain :
      (left i : ℕ)
      → i + left ≡ n
      → Chain k (λ x e. 0 ≤ x) (keys ! i) (spans left i) (8 ^ max_tree_level k)
  unfolding spans
  spans-Chain zero i e = let same : i ≡ n = omega arith in ap (λ j. keys ! j) same ∙ last
  spans-Chain (suc left) i e =
      let (count, chain) = span_run i (omega arith) in
      Chain-append k (λ x e. 0 ≤ x) (keys ! i) (keys ! (i + 1)) (8 ^ max_tree_level k) (span i).1
        (spans left (i + 1)) chain (spans-Chain left (i + 1) (omega arith))

  module _ (offsets : List ℕ)
      (scan : (i : ℕ) → i < n → offsets ! suc i ≡ offsets ! i + (span i).0) where
    offsets_total : (left i : ℕ) → i + left ≡ n → offsets ! n ≡ offsets ! i + length (spans left i)
    unfolding spans
    offsets_total zero i e = let same : n ≡ i = omega arith in rw same (omega arith)
    offsets_total (suc left) i e =
        let next : i + 1 ≡ suc i = omega arith in
        let (count, chain) = span_run i (omega arith) in
        omega (
          arith,
          scan i (omega arith),
          offsets_total left (i + 1) (omega arith),
          ap (λ j. offsets ! j) next,
          length-append {0} (span i).1 (spans left (i + 1)),
          count,
        )

    write_spans-append :
        (left i : ℕ) (done rest : List ℕ)
        → i + left ≡ n
        → length done ≡ offsets ! i
        → length (spans left i) ≤ length rest
        → (free : List ℕ) × (length free + length (spans left i) ≡ length rest)
          × (write_spans k keys offsets left i (done ++ rest) ≡ (done ++ spans left i) ++ free)
    unfolding write_spans spans
    write_spans-append zero i done rest e len fits = (rest, omega arith, rw append-nil refl)
    write_spans-append (suc left) i done rest e len fits =
        let out : List ℕ = (span i).1 in
        let next : i + 1 ≡ suc i = omega arith in
        let (count, chain) = span_run i (omega arith) in
        let parts = length-append {0} out (spans left (i + 1)) in
        let here = write_output-behind done rest out (offsets ! i) len (omega (arith, parts)) in
        let (free, room, rest_done) =
          write_spans-append left (i + 1) (done ++ out) (drop (length out) rest) (omega arith)
            (omega (
              arith,
              length-append {0} done out,
              count,
              len,
              scan i (omega arith),
              ap (λ j. offsets ! j) next,
            ))
            (omega (arith, length-drop {0} (length out) rest, parts)) in
        (
          free,
          omega (arith, room, length-drop {0} (length out) rest, parts),
          rw here (rest_done ∙ ap (λ t. t ++ free) (append_assoc done out (spans left (i + 1)))),
        )

  abbrev counts : List ℕ
  counts = fill n 0 (λ i. (span i).0) (replicate (n + 1) 0)

  abbrev offsets : List ℕ
  offsets = exclusive_scan 0 counts

  length-counts : length counts ≡ n + 1
  length-counts =
      length-fill n 0 (λ i. (span i).0) (replicate (n + 1) 0) ∙ length-replicate (n + 1) 0

  scanned : (i : ℕ) → i < n → offsets ! suc i ≡ offsets ! i + (span i).0
  scanned i h =
      let here =
        get_or-fill n 0 (λ i. (span i).0) (replicate (n + 1) 0) i 0 (omega arith) (omega arith)
          (omega (arith, length-replicate {A = ℕ} (n + 1) 0)) in
      omega (arith, exclusive_scan-suc 0 counts i (omega (arith, length-counts)), here)

  offsets-last : offsets ! (length offsets - 1) ≡ length (spans n 0)
  offsets-last =
      let size = length-exclusive_scan 0 counts in
      let end : length offsets - 1 ≡ n = omega (arith, size, length-counts) in
      omega (
        arith,
        ap (λ j. offsets ! j) end,
        exclusive_scan-zero 0 counts (omega (arith, length-counts)),
        offsets_total offsets scanned n 0 (omega arith),
      )

  compute_spanning_tree-spans :
      compute_spanning_tree k keys ≡ spans n 0 ++ (8 ^ max_tree_level k) ∷ []
  unfolding compute_spanning_tree
  compute_spanning_tree-spans =
      let sized : List ℕ = replicate (offsets ! (length offsets - 1) + 1) 0 in
      let size = length-replicate {A = ℕ} (offsets ! (length offsets - 1) + 1) 0 in
      let (free, room, done) =
        write_spans-append offsets scanned n 0 [] sized (omega arith)
          (sym (exclusive_scan-zero 0 counts (omega (arith, length-counts))))
          (omega (arith, size, offsets-last)) in
      rw (done, node_range_root k)
        (set_last (spans n 0) free (8 ^ max_tree_level k) (omega (arith, room, size, offsets-last)))

  -- `computeSpanningTree` gives a tree in the cornerstone format, for at least two sorted keys that start
  -- with 0 and end with the end of the key range.
  pub compute_spanning_tree-IsOctree : IsOctree k (compute_spanning_tree k keys)
  compute_spanning_tree-IsOctree = rw compute_spanning_tree-spans (
      Chain→IsOctree k (λ x e. 0 ≤ x) (spans n 0)
        (subst (λ a. Chain k (λ x e. 0 ≤ x) a (spans n 0) (8 ^ max_tree_level k)) first
          (spans-Chain n 0 (omega arith))))

  spans_before : (i left : ℕ) → i + left ≡ n → (done : List ℕ) × (spans n 0 ≡ done ++ spans left i)
  unfolding spans
  spans_before zero left e = let same : n ≡ left = omega arith in ([], ap (λ j. spans j 0) same)
  spans_before (suc i) left e =
      let (done, split) = spans_before i (suc left) (omega arith) in
      let next : i + 1 ≡ suc i = omega arith in
      (
        done ++ (span i).1,
        split
            ∙ ap (λ j. done ++ ((span i).1 ++ spans left j)) next
            ∙ sym (append_assoc done (span i).1 (spans left (suc i))),
      )

  -- Each of the keys is the start of a node of the tree of `computeSpanningTree`, or its end.
  pub compute_spanning_tree_keys :
      (i : ℕ)
      → i < length keys
      → (j : ℕ) × (j < length (compute_spanning_tree k keys))
        × (compute_spanning_tree k keys ! j ≡ keys ! i)
  compute_spanning_tree_keys i h =
      let (done, split) = spans_before i (n - i) (omega arith) in
      let chain = spans-Chain (n - i) i (omega arith) in
      let top : ℕ = 8 ^ max_tree_level k in
      let whole : compute_spanning_tree k keys ≡ done ++ (spans (n - i) i ++ top ∷ []) =
        compute_spanning_tree-spans
        ∙ ap (λ t. t ++ top ∷ []) split
        ∙ append_assoc done (spans (n - i) i) (top ∷ []) in
      let start : (spans (n - i) i ++ top ∷ []) ! 0 ≡ keys ! i =
        Chain-first k (λ x e. 0 ≤ x) (keys ! i) top (spans (n - i) i) chain in
      let place : length done + 0 ≡ length done = omega arith in
      (
        length done,
        rw whole (
            omega (
              arith,
              length-append {0} done (spans (n - i) i ++ top ∷ []),
              length-append {0} (spans (n - i) i) (top ∷ []),
            )),
        ap (λ t. t ! length done) whole
            ∙ ap (λ j. (done ++ (spans (n - i) i ++ top ∷ [])) ! j) (sym place)
            ∙ get_or-append_right done (spans (n - i) i ++ top ∷ []) 0 0
            ∙ start,
      )
