-- ===== src/Domain/Layout/Offsets.antt =====
-- The offsets that `computeNodeLayout` of include/cstone/domain/layout.hpp gives.
use cornerstone_octree.Base.{
  ℕ, zero, suc, ◌+◌, ◌%◌, ◌^◌, ◌<◌, ◌≡◌, refl, ap, ◌∙◌, arith, if◌then◌else◌, List, [], ◌∷◌, length,
  ◌!◌,
}
use cornerstone_octree.Base.Loops.{fill, length-fill, get_or-fill}
use cornerstone_octree.Domain.Layout.{have_particles, scan_indices, compute_node_layout}

scan_indices-first : (acc : ℕ) (xs : List ℕ) → 0 < length xs → scan_indices acc xs ! 0 ≡ acc
unfolding scan_indices
scan_indices-first acc [] h = absurd (omega arith)
scan_indices-first acc (x ∷ xs) h = refl

scan_indices-next :
    (acc : ℕ) (xs : List ℕ) (i : ℕ)
    → suc i < length xs
    → scan_indices acc xs ! suc i ≡ (scan_indices acc xs ! i + xs ! i) % 2 ^ 32
unfolding scan_indices
scan_indices-next acc [] i h = absurd (omega arith)
scan_indices-next acc (x ∷ xs) zero h = scan_indices-first ((acc + x) % 2 ^ 32) xs (omega arith)
scan_indices-next acc (x ∷ xs) (suc i) h = scan_indices-next ((acc + x) % 2 ^ 32) xs i (omega arith)

-- `computeNodeLayout` into an array with one element more than there are leaves starts at 0, and from a
-- leaf to the next one it advances, modulo 2 ^ 32, by the count of the leaf if this is assigned or
-- marked as a halo and by 0 otherwise.
pub compute_node_layout-offsets :
    (counts flags leaf_to_internal : List ℕ) (start end : ℕ) (layout : List ℕ) (i : ℕ)
    → length layout ≡ length counts + 1
    → i < length counts
    → (compute_node_layout counts flags leaf_to_internal start end layout ! 0 ≡ 0)
      × (compute_node_layout counts flags leaf_to_internal start end layout ! (i + 1)
          ≡ (compute_node_layout counts flags leaf_to_internal start end layout ! i
              + (if have_particles flags leaf_to_internal start end i then counts ! i else 0))
            % 2 ^ 32)
unfolding compute_node_layout
compute_node_layout-offsets counts flags leaf_to_internal start end layout i room inside =
    let size =
      λ (j : ℕ). if have_particles flags leaf_to_internal start end j then counts ! j else 0 in
    let sizes = fill (length counts) 0 size layout in
    let same : length sizes ≡ length counts + 1 =
      length-fill (length counts) 0 size layout ∙ room in
    let here : sizes ! i ≡ size i =
      get_or-fill (length counts) 0 size layout i 0 (omega arith) (omega arith)
        (omega (arith, room)) in
    let one : i + 1 ≡ suc i = omega arith in
    (
      scan_indices-first 0 sizes (omega (arith, same)),
      ap (λ (n : ℕ). scan_indices 0 sizes ! n) one
          ∙ scan_indices-next 0 sizes i (omega (arith, same))
          ∙ ap (λ (n : ℕ). (scan_indices 0 sizes ! i + n) % 2 ^ 32) here,
    )
