-- ===== src/Tests/Boxes.antt =====
-- Boxes of include/cstone/traversal/boxoverlap.hpp: across the periodic boundary, and inside an octant.
use cornerstone_octree.Primitives.Clz.{count_leading_zeros, leading_zeros}
use cornerstone_octree.Sfc.Range.{enclosing_box_code, node_range}
use cornerstone_octree.Base.{◌*◌, ◌^◌, ◌≤◌, ◌<◌, ◌≡◌, refl, arith, ◌↔◌, true, false}
use cornerstone_octree.Base.Int.{pos, negsuc}
use cornerstone_octree.Key.{u32, u64, sub_key, add_key}
use cornerstone_octree.Sfc.Box.{IBox}
use cornerstone_octree.Sfc.Curve.{IsCurve}
use cornerstone_octree.Sfc.Morton.{i_morton}
use cornerstone_octree.Sfc.Morton.Cells.{i_morton-IsCurve}
use cornerstone_octree.Traversal.Boxes.{overlap, range_sep, contained_in, add_delta}
use cornerstone_octree.Traversal.Boxes.Periodic.{Meet, InPeriod, IsBoxInPeriod, overlap_iff}
use cornerstone_octree.Traversal.Boxes.Contained.{contained_in-points}

-- A cube across the lower end of the domain, and one at the upper end.
abbrev lower_cube : IBox
lower_cube = record {
  xmin = negsuc 4;
  xmax = pos 3;
  ymin = negsuc 4;
  ymax = pos 3;
  zmin = negsuc 4;
  zmax = pos 3;
}

abbrev upper_cube : IBox
upper_cube = record {
  xmin = pos 1020;
  xmax = pos 1024;
  ymin = pos 1020;
  ymax = pos 1024;
  zmin = pos 1020;
  zmax = pos 1024;
}

lower_cube_in : IsBoxInPeriod u32 lower_cube
lower_cube_in = record { in_x = range; in_y = range; in_z = range }
  where
    range : InPeriod 1024 (negsuc 4) (pos 3)
    range = record {
      above = omega arith;
      below = omega arith;
      some = omega arith;
      upper = omega arith;
      filled = omega arith;
    }

upper_cube_in : IsBoxInPeriod u32 upper_cube
upper_cube_in = record { in_x = range; in_y = range; in_z = range }
  where
    range : InPeriod 1024 (pos 1020) (pos 1024)
    range = record {
      above = omega arith;
      below = omega arith;
      some = omega arith;
      upper = omega arith;
      filled = omega arith;
    }

overlap_iff_example : (overlap u32 lower_cube upper_cube ≡ true) ↔ (
    Meet (negsuc 4) (pos 3) (pos 1020) (pos 1024) 1024
    × Meet (negsuc 4) (pos 3) (pos 1020) (pos 1024) 1024
    × Meet (negsuc 4) (pos 3) (pos 1020) (pos 1024) 1024)
overlap_iff_example = overlap_iff u32 lower_cube upper_cube lower_cube_in upper_cube_in

overlap_test : overlap u32 lower_cube upper_cube ≡ true
unfolding overlap
overlap_test = refl

i_morton-IsCurve_example : IsCurve u64 (i_morton u64)
i_morton-IsCurve_example = i_morton-IsCurve u64

-- A cube inside the second octant.
abbrev octant_cube : IBox
octant_cube = record {
  xmin = pos 1;
  xmax = pos 500;
  ymin = pos 1;
  ymax = pos 500;
  zmin = pos 512;
  zmax = pos 900;
}

octant_cube_contained : contained_in u32 (i_morton u32) (8 ^ 9) (2 * 8 ^ 9) octant_cube ≡ true
unfolding contained_in enclosing_box_code i_morton sub_key node_range count_leading_zeros
    leading_zeros add_key
octant_cube_contained = refl

contained_in-points_example : (8 ^ 9 ≤ i_morton u32 7 77 777) × (i_morton u32 7 77 777 < 2 * 8 ^ 9)
contained_in-points_example =
    contained_in-points u32 (i_morton u32) (i_morton-IsCurve u32) (8 ^ 9) (2 * 8 ^ 9) octant_cube 7
      77 777 (omega arith, omega arith, omega arith)
      (record {
        in_x = (omega arith, omega arith);
        in_y = (omega arith, omega arith);
        in_z = (omega arith, omega arith);
      })
      octant_cube_contained

range_sep_test : range_sep (pos 0) (pos 10) (pos 1000) (pos 1010) 1024 ≡ pos 14
unfolding range_sep
range_sep_test = refl

add_delta_test : add_delta u32 (pos 3) (negsuc 4) false ≡ pos 0
unfolding add_delta
add_delta_test = refl
