-- ===== src/Sfc/Morton.antt =====
-- include/cstone/sfc/morton.hpp: the keys that interleave the bits of three coordinates.
pub mod Spread
pub mod Parts
pub mod Decode
pub mod Cells
use Prim.Native.Nat.{bit_or, bit_xor}
use cornerstone_octree.Base.{ℕ, ◌+◌, ◌-◌, ◌*◌, ◌/◌, ◌%◌, ◌^◌, bit_and}
use cornerstone_octree.Base.Int.{pos}
use cornerstone_octree.Key.{KeyType, u32, u64, max_tree_level, modulus, shl_key, sub_key}
use cornerstone_octree.Sfc.Range.{tree_level}
use cornerstone_octree.Sfc.Box.{IBox}

-- A step of the expansion of 64-bit numbers.
unfoldable pub or_step : ℕ → ℕ → ℕ → ℕ
or_step shift mask x = bit_and (bit_or x (shl_key u64 x shift)) mask

-- A step of the expansion of 32-bit numbers.
unfoldable pub multiply_step : ℕ → ℕ → ℕ → ℕ
multiply_step factor mask v = bit_and (v * factor % 0x1_0000_0000) mask

-- `expandBits`, at both key types.
unfoldable pub expand_bits : KeyType → ℕ → ℕ
unfolding multiply_step or_step
expand_bits u32 v = multiply_step 0x0000_0005 0x4924_9249 (
    multiply_step 0x0000_0011 0xC30C_30C3 (
      multiply_step 0x0000_0101 0x0F00_F00F
        (multiply_step 0x0001_0001 0xFF00_00FF (bit_and v 0x3FF))))
expand_bits u64 v = or_step 2 0x1249_2492_4924_9249 (
    or_step 4 0x10C3_0C30_C30C_30C3 (
      or_step 8 0x100F_00F0_0F00_F00F (
        or_step 16 0x001F_0000_FF00_00FF (or_step 32 0x001F_0000_0000_FFFF (bit_and v 0x1F_FFFF)))))

-- A step of the compaction.
unfoldable pub xor_step : ℕ → ℕ → ℕ → ℕ
xor_step shift mask v = bit_and (bit_xor v (v / 2 ^ shift)) mask

-- `compactBits`, at both key types.
unfoldable pub compact_bits : KeyType → ℕ → ℕ
unfolding xor_step
compact_bits u32 v = xor_step 16 0x3FF (
    xor_step 8 0xFF00_00FF
      (xor_step 4 0x0300_F00F (xor_step 2 0x030C_30C3 (bit_and v 0x0924_9249))))
compact_bits u64 v = xor_step 32 0x1F_FFFF (
    xor_step 16 0x001F_0000_0000_FFFF (
      xor_step 8 0x001F_0000_FF00_00FF (
        xor_step 4 0x100F_00F0_0F00_F00F
          (xor_step 2 0x10C3_0C30_C30C_30C3 (bit_and v 0x1249_2492_4924_9249)))))

-- `iMorton` of three coordinates.
unfoldable pub i_morton : KeyType → ℕ → ℕ → ℕ → ℕ
unfolding expand_bits
i_morton k ix iy iz = (expand_bits k ix * 4 + expand_bits k iy * 2 + expand_bits k iz) % modulus k

-- `iMorton` of three coordinates of a level.
unfoldable pub i_morton_level : KeyType → ℕ → ℕ → ℕ → ℕ → ℕ
unfolding i_morton
i_morton_level k ix iy iz level =
    let shifts = max_tree_level k - level in
    i_morton k (shl_key u32 ix shifts) (shl_key u32 iy shifts) (shl_key u32 iz shifts)

-- `idecodeMortonX`, `idecodeMortonY` and `idecodeMortonZ`, which give an `unsigned`.
unfoldable pub idecode_morton_x : KeyType → ℕ → ℕ
unfolding compact_bits
idecode_morton_x k code = compact_bits k (code / 2 ^ 2) % 0x1_0000_0000

unfoldable pub idecode_morton_y : KeyType → ℕ → ℕ
unfolding compact_bits
idecode_morton_y k code = compact_bits k (code / 2 ^ 1) % 0x1_0000_0000

unfoldable pub idecode_morton_z : KeyType → ℕ → ℕ
unfolding compact_bits
idecode_morton_z k code = compact_bits k code % 0x1_0000_0000

-- `decodeMorton`.
unfoldable pub decode_morton : KeyType → ℕ → ℕ × ℕ × ℕ
unfolding idecode_morton_x idecode_morton_y idecode_morton_z
decode_morton k code = (idecode_morton_x k code, idecode_morton_y k code, idecode_morton_z k code)

-- `mortonIBox`.
unfoldable pub morton_ibox : KeyType → ℕ → ℕ → IBox
unfolding decode_morton
morton_ibox k key_start level =
    let cube_length = 2 ^ (max_tree_level k - level) in
    let (ix, iy, iz) = decode_morton k key_start in
    record {
      xmin = pos ix;
      xmax = pos (ix + cube_length);
      ymin = pos iy;
      ymax = pos (iy + cube_length);
      zmin = pos iz;
      zmax = pos (iz + cube_length);
    }

-- `mortonIBoxKeys`.
unfoldable pub morton_ibox_keys : KeyType → ℕ → ℕ → IBox
unfolding morton_ibox
morton_ibox_keys k key_start key_end =
    morton_ibox k key_start (tree_level k (sub_key k key_end key_start))
