-- ===== src/Sfc/Box.antt =====
-- include/cstone/sfc/box.hpp: boxes of integers and periodic coordinates. An `int` is an integer without
-- overflow.
use cornerstone_octree.Base.{ℕ, ◌/◌, if◌then◌else◌}
use cornerstone_octree.Base.Int.{ℤ, pos, ◌+ℤ◌, ◌-ℤ◌, ltb_ℤ, min_ℤ}

-- `SimpleBox<int>`, by the name `IBox`.
pub record IBox : Type 0 where
  pub xmin : ℤ
  pub xmax : ℤ
  pub ymin : ℤ
  pub ymax : ℤ
  pub zmin : ℤ
  pub zmax : ℤ

-- The constructor of one range for all dimensions.
unfoldable pub cube_box : ℤ → ℤ → IBox
cube_box lower upper = record {
  xmin = lower;
  xmax = upper;
  ymin = lower;
  ymax = upper;
  zmin = lower;
  zmax = upper;
}

-- `minExtent`.
unfoldable pub min_extent : IBox → ℤ
unfolding min_ℤ ◌-ℤ◌
min_extent b = min_ℤ (min_ℤ (b.xmax -ℤ b.xmin) (b.ymax -ℤ b.ymin)) (b.zmax -ℤ b.zmin)

-- `pbcAdjust`, whose template parameter is `range`.
unfoldable pub pbc_adjust : ℕ → ℤ → ℤ
unfolding ◌+ℤ◌ ◌-ℤ◌
pbc_adjust range x =
    let ret = if ltb_ℤ x (pos 0) then x +ℤ pos range else x in
    if ltb_ℤ ret (pos range) then ret else ret -ℤ pos range

-- `pbcDistance`, for a range that is not negative.
unfoldable pub pbc_distance : ℤ → ℕ → ℤ
unfolding ◌+ℤ◌ ◌-ℤ◌
pbc_distance x range =
    let ret = if ltb_ℤ (pos 0 -ℤ pos (range / 2)) x then x else x +ℤ pos range in
    if ltb_ℤ (pos (range / 2)) ret then ret -ℤ pos range else ret
