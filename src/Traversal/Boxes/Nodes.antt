-- ===== src/Traversal/Boxes/Nodes.antt =====
-- That `hilbertIBox` of include/cstone/sfc/hilbert.hpp is the box of a node.
use native.Mathlib.Nat.{
  div-add-mod', mod-lt, mod-eq_of_lt, mul-div_cancel, div-lt_iff_lt-mul, suc-mul,
}
use cornerstone_octree.Base.{
  ℕ, suc, ◌+◌, ◌-◌, ◌*◌, ◌/◌, ◌%◌, ◌^◌, ◌≤◌, ◌<◌, ◌≡◌, ap, sym, ◌∙◌, arith, bit_and, ◌↔◌,
}
use cornerstone_octree.Base.Int.{pos}
use cornerstone_octree.Base.Pow.{pow2-pos, pow2_mono}
use cornerstone_octree.Base.Bits.{bit_and_fields}
use cornerstone_octree.Base.Bits.Laws.{bit_and_mask, bit_and-zero}
use cornerstone_octree.Key.{KeyType, u32, u64, max_tree_level}
use cornerstone_octree.Sfc.Box.{IBox}
use cornerstone_octree.Sfc.Curve.{IsPoint}
use cornerstone_octree.Sfc.Hilbert.{i_hilbert, hilbert_ibox}
use cornerstone_octree.Sfc.Hilbert.Decode.{decode_hilbert-i_hilbert}
use cornerstone_octree.Sfc.Hilbert.Places.{pow2_split, quotient_of}
use cornerstone_octree.Sfc.Hilbert.Cells.{i_hilbert-IsCurve}
use cornerstone_octree.Traversal.Boxes.Contained.{IsIn}

-- The box of a length at a corner.
abbrev box_at : ℕ → ℕ → ℕ → ℕ → IBox
box_at length x y z = record {
  xmin = pos x;
  xmax = pos (x + length);
  ymin = pos y;
  ymax = pos (y + length);
  zmin = pos z;
  zmax = pos (z + length);
}

-- The mask of a power of two rounds down.
mask_corner : (j v : ℕ) → j ≤ 32 → v < 2 ^ 32 → bit_and v (2 ^ 32 - 2 ^ j) ≡ v / 2 ^ j * 2 ^ j
mask_corner j v h small =
    let q : ℕ = 2 ^ (32 - j) in
    let split : 2 ^ 32 ≡ q * 2 ^ j = pow2_split j 32 h in
    let count : q ≡ suc (q - 1) = omega (arith, pow2-pos (32 - j)) in
    let mask : 2 ^ 32 - 2 ^ j ≡ (q - 1) * 2 ^ j + 0 =
      omega (arith, split, ap (λ (t : ℕ). t * 2 ^ j) count, suc-mul (q - 1) (2 ^ j)) in
    let inside : v / 2 ^ j < q = (div-lt_iff_lt-mul (pow2-pos j)).1 (omega (arith, split, small)) in
    ap (λ (t : ℕ). bit_and t (2 ^ 32 - 2 ^ j)) (sym (div-add-mod' v (2 ^ j)))
    ∙ ap (bit_and (v / 2 ^ j * 2 ^ j + v % 2 ^ j)) mask
    ∙ bit_and_fields j (v / 2 ^ j) (v % 2 ^ j) (q - 1) 0 (mod-lt v (pow2-pos j)) (pow2-pos j)
    ∙ omega (
      arith,
      bit_and-zero (v % 2 ^ j),
      ap (λ (t : ℕ). t * 2 ^ j) (bit_and_mask (32 - j) (v / 2 ^ j) ∙ mod-eq_of_lt inside),
    )

-- A coordinate is in the cell that starts at the rounded one exactly if both have the same quotient.
in_cell : (c u v : ℕ) → 1 ≤ c → ((v / c * c ≤ u) × (u < v / c * c + c)) ↔ (u / c ≡ v / c)
in_cell c u v some = (
  λ (from, to).
      let whole : v / c * c + (u - v / c * c) ≡ u = omega (arith, from) in
      ap (λ (t : ℕ). t / c) (sym whole) ∙ quotient_of c (v / c) (u - v / c * c) (omega (arith, to)),
  λ same.
      let start : v / c * c ≡ u / c * c = ap (λ (t : ℕ). t * c) (sym same) in
      (
        omega (arith, start, div-add-mod' u c),
        omega (arith, start, div-add-mod' u c, mod-lt u some),
      ),
)

level_small : (k : KeyType) → max_tree_level k ≤ 32
level_small u32 = omega arith
level_small u64 = omega arith

module _ (k : KeyType) (x y z level : ℕ) (point : IsPoint k x y z)
    (fits : level ≤ max_tree_level k) where
  abbrev length_at : ℕ
  length_at = 2 ^ (max_tree_level k - level)

  corner_box :
      hilbert_ibox k (i_hilbert k x y z) level
      ≡ box_at length_at
          (x / length_at * length_at)
          (y / length_at * length_at)
          (z / length_at * length_at)
  unfolding hilbert_ibox
  corner_box =
      let decoded = decode_hilbert-i_hilbert k x y z point.0 point.1 point.2 in
      let c = 2 ^ max_tree_level k / 2 ^ level in
      let size : c ≡ length_at =
        ap (λ (t : ℕ). t / 2 ^ level) (pow2_split level (max_tree_level k) fits)
        ∙ mul-div_cancel length_at (pow2-pos level) in
      let wide : 2 ^ max_tree_level k ≤ 2 ^ 32 = pow2_mono (max_tree_level k) 32 (level_small k) in
      let corner : (v : ℕ)
          → v < 2 ^ max_tree_level k
          → bit_and v (2 ^ 32 - length_at) ≡ v / length_at * length_at =
        λ v lt.
          mask_corner (max_tree_level k - level) v (omega (arith, level_small k))
            (omega (arith, wide, lt)) in
      (λ i.
        box_at (size i) (bit_and (decoded i).0 (2 ^ 32 - size i))
          (bit_and (decoded i).1 (2 ^ 32 - size i)) (bit_and (decoded i).2 (2 ^ 32 - size i)))
      ∙ (λ i. box_at length_at (corner x point.0 i) (corner y point.1 i) (corner z point.2 i))

  -- The box that `hilbertIBox` gives for the key of a point and a level holds exactly the points whose keys are in the
  -- node of that level around the key: those with the same quotient by the node's size.
  pub hilbert_ibox-IsIn :
      (u v w : ℕ)
      → IsPoint k u v w
      → IsIn (hilbert_ibox k (i_hilbert k x y z) level) u v w ↔ (
          i_hilbert k u v w / 8 ^ (max_tree_level k - level)
          ≡ i_hilbert k x y z / 8 ^ (max_tree_level k - level))
  hilbert_ibox-IsIn u v w other =
      let curve = i_hilbert-IsCurve k in
      let (there, back) = curve.cells (max_tree_level k - level) u v w x y z other point in
      let some = pow2-pos (max_tree_level k - level) in
      let cx = in_cell length_at u x some in
      let cy = in_cell length_at v y some in
      let cz = in_cell length_at w z some in
      rw corner_box (
        λ inside. back (
          cx.0 (omega (arith, inside.in_x), omega (arith, inside.in_x)),
          cy.0 (omega (arith, inside.in_y), omega (arith, inside.in_y)),
          cz.0 (omega (arith, inside.in_z), omega (arith, inside.in_z)),
        ),
        λ same.
            let (ex, ey, ez) = there same in
            record {
              in_x = (omega (arith, cx.1 ex), omega (arith, cx.1 ex));
              in_y = (omega (arith, cy.1 ey), omega (arith, cy.1 ey));
              in_z = (omega (arith, cz.1 ez), omega (arith, cz.1 ez));
            },
      )
