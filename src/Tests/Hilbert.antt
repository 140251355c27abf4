-- ===== src/Tests/Hilbert.antt =====
-- Keys of coordinates by include/cstone/sfc/hilbert.hpp.
use cornerstone_octree.Base.{ℕ, ◌-◌, ◌*◌, ◌/◌, ◌^◌, ◌≡◌, refl, arith, ◌↔◌, map, [], ◌∷◌}
use cornerstone_octree.Key.{u32, u64}
use cornerstone_octree.Sfc.Curve.{IsCurve}
use cornerstone_octree.Sfc.Hilbert.{i_hilbert, decode_hilbert, hilbert_ibox}
use cornerstone_octree.Sfc.Hilbert.Decode.{decode_hilbert-i_hilbert}
use cornerstone_octree.Sfc.Hilbert.Cells.{i_hilbert-IsCurve}
use cornerstone_octree.Traversal.Boxes.Contained.{IsIn}
use cornerstone_octree.Traversal.Boxes.Nodes.{hilbert_ibox-IsIn}

decode_hilbert-i_hilbert_example :
    decode_hilbert u64 (i_hilbert u64 1234567 7 2000000) ≡ (1234567, 7, 2000000)
decode_hilbert-i_hilbert_example =
    decode_hilbert-i_hilbert u64 1234567 7 2000000 (omega arith) (omega arith) (omega arith)

i_hilbert-IsCurve_example : IsCurve u32 (i_hilbert u32)
i_hilbert-IsCurve_example = i_hilbert-IsCurve u32

hilbert_ibox-IsIn_example :
    IsIn (hilbert_ibox u32 (i_hilbert u32 5 600 70) 3) 6 601 71
    ↔ (i_hilbert u32 6 601 71 / 8 ^ (10 - 3) ≡ i_hilbert u32 5 600 70 / 8 ^ (10 - 3))
hilbert_ibox-IsIn_example =
    hilbert_ibox-IsIn u32 5 600 70 3 (omega arith, omega arith, omega arith) (omega arith) 6 601 71
      (omega arith, omega arith, omega arith)

-- The octants in the order of the curve.
i_hilbert_test : map (λ (y : ℕ). i_hilbert u32 0 (512 * y) 0 / 8 ^ 9) (0 ∷ 1 ∷ []) ≡ 0 ∷ 3 ∷ []
unfolding i_hilbert
i_hilbert_test = refl
