-- ===== src/Tests/Morton.antt =====
-- Keys of coordinates by include/cstone/sfc/morton.hpp.
use cornerstone_octree.Base.{◌*◌, ◌^◌, ◌≡◌, refl, arith}
use cornerstone_octree.Key.{u32, u64, shl_key}
use cornerstone_octree.Sfc.Morton.{i_morton, i_morton_level, decode_morton, multiply_step}
use cornerstone_octree.Sfc.Morton.Decode.{decode_morton-i_morton}

decode_morton-i_morton_example :
    decode_morton u64 (i_morton u64 1234567 7 2000000) ≡ (1234567, 7, 2000000)
decode_morton-i_morton_example =
    decode_morton-i_morton u64 1234567 7 2000000 (omega arith) (omega arith) (omega arith)

i_morton_level_test : i_morton_level u32 1 0 1 1 ≡ 5 * 8 ^ 9
unfolding i_morton_level multiply_step shl_key
i_morton_level_test = refl
