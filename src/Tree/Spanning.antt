-- ===== src/Tree/Spanning.antt =====
-- `computeSpanningTree` of include/cstone/tree/csarray.hpp.
pub mod Covered
use cornerstone_octree.Base.{ℕ, zero, suc, ◌+◌, ◌-◌, List, [], ◌∷◌, length, set, replicate, ◌!◌}
use cornerstone_octree.Base.Loops.{fill, exclusive_scan}
use cornerstone_octree.Key.{KeyType}
use cornerstone_octree.Sfc.Range.{node_range}
use cornerstone_octree.Sfc.Span.{span_sfc_range}

-- The writes of `*output++ = a` from `output` on.
unfoldable pub write_output : List ℕ → ℕ → List ℕ → List ℕ
write_output tree output [] = tree
write_output tree output (x ∷ xs) = write_output (set tree output x) (output + 1) xs

-- The loop over the intervals that writes the spanning tree.
unfoldable pub write_spans : KeyType → List ℕ → List ℕ → ℕ → ℕ → List ℕ → List ℕ
unfolding write_output
write_spans k keys offsets zero i tree = tree
write_spans k keys offsets (suc left) i tree =
    let (_, output, _) = span_sfc_range k (keys ! i) (keys ! (i + 1)) in
    write_spans k keys offsets left (i + 1) (write_output tree (offsets ! i) output)

-- `computeSpanningTree`; the source asserts at least two keys.
unfoldable pub compute_spanning_tree : KeyType → List ℕ → List ℕ
unfolding write_spans
compute_spanning_tree k keys =
    let num_intervals = length keys - 1 in
    let counts =
      fill num_intervals 0 (λ i. (span_sfc_range k (keys ! i) (keys ! (i + 1))).0)
        (replicate (num_intervals + 1) 0) in
    let offsets = exclusive_scan 0 counts in
    let sized = replicate (offsets ! (length offsets - 1) + 1) 0 in
    let written = write_spans k keys offsets num_intervals 0 sized in
    set written (length written - 1) (node_range k 0)
