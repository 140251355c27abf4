-- ===== src/Traversal/Boxes/Contained.antt =====
-- That `containedIn` of include/cstone/traversal/boxoverlap.hpp lets no point of a box out of the key range.
use native.Mathlib.Nat.{div-add-mod', mod-lt}
use cornerstone_octree.Base.{
  ℕ, ◌+◌, ◌-◌, ◌*◌, ◌/◌, ◌^◌, ◌≤◌, ◌<◌, ◌≡◌, ap, sym, ◌∙◌, arith, Bool-cases, inl, inr, Bool, true,
  false, ◌==◌, ◌&&◌, ◌||◌, leb, leb→le, ==_iff, if◌then◌else◌,
}
use cornerstone_octree.Base.Int.{ℤ, pos, pos_part, neg_part, negsuc, ◌≤ℤ◌, ltb_ℤ, min_ℤ, max_ℤ}
use cornerstone_octree.Base.Pow.{pow8-pos, pow2-pos, div_mono}
use cornerstone_octree.Key.{KeyType, max_tree_level}
use cornerstone_octree.Sfc.Range.{node_range, node_range-pow8}
use cornerstone_octree.Sfc.Box.{IBox}
use cornerstone_octree.Sfc.Curve.{IsPoint, IsCurve}
use cornerstone_octree.Sfc.Prefix.{smallest_common_box}
use cornerstone_octree.Sfc.Prefix.Box.{smallest_common_box-div}
use cornerstone_octree.Traversal.Boxes.{contained_in}
use cornerstone_octree.Traversal.Boxes.Periodic.{◌<ℤ◌, not_negative}

-- A point in a box.
pub record IsIn (box : IBox) (x y z : ℕ) : Type 0 where
  pub in_x : (box.xmin ≤ℤ pos x) × (pos x <ℤ box.xmax)
  pub in_y : (box.ymin ≤ℤ pos y) × (pos y <ℤ box.ymax)
  pub in_z : (box.zmin ≤ℤ pos z) × (pos z <ℤ box.zmax)

-- A box that does not wrap around.
pub record IsInside (k : KeyType) (box : IBox) : Type 0 where
  from_x : neg_part box.xmin ≡ 0
  from_y : neg_part box.ymin ≡ 0
  from_z : neg_part box.zmin ≡ 0
  to_x : pos_part box.xmax ≤ 2 ^ max_tree_level k
  to_y : pos_part box.ymax ≤ 2 ^ max_tree_level k
  to_z : pos_part box.zmax ≤ 2 ^ max_tree_level k

min_from :
    (a b : ℤ)
    → neg_part (min_ℤ a b) ≤ pos_part (min_ℤ a b)
    → (neg_part a ≤ pos_part a) × (neg_part b ≤ pos_part b)
unfolding min_ℤ
min_from a b h = (ground arith, ground arith)

max_to :
    (a b : ℤ) (n : ℕ)
    → pos_part (max_ℤ a b) ≤ n + neg_part (max_ℤ a b)
    → (pos_part a ≤ n + neg_part a) × (pos_part b ≤ n + neg_part b)
unfolding max_ℤ
max_to a b n h = (ground arith, ground arith)

positive_to : (a : ℤ) (n : ℕ) → pos_part a ≤ n + neg_part a → pos_part a ≤ n
positive_to (pos m) n h = omega arith
positive_to (negsuc m) n h = omega arith

neither : (a b : Bool) → (a || b) ≡ false → (a ≡ false) × (b ≡ false)
neither a b h = (ground arith, ground arith)

both : (a b : Bool) → (a && b) ≡ true → (a ≡ true) × (b ≡ true)
both a b h = (ground arith, ground arith)

chosen_then : (b p q : Bool) → b ≡ true → (if b then p else q) ≡ true → p ≡ true
chosen_then b p q test h = ground arith

chosen_else : (b p q : Bool) → b ≡ false → (if b then p else q) ≡ true → q ≡ true
chosen_else b p q test h = ground arith

IsInside-test :
    (k : KeyType) (box : IBox)
    → (ltb_ℤ (min_ℤ (min_ℤ box.xmin box.ymin) box.zmin) (pos 0)
        || ltb_ℤ (pos (2 ^ max_tree_level k)) (max_ℤ (max_ℤ box.xmax box.ymax) box.zmax))
      ≡ false
    → IsInside k box
IsInside-test k box test =
    let n : ℕ = 2 ^ max_tree_level k in
    let (from, to) =
      neither (ltb_ℤ (min_ℤ (min_ℤ box.xmin box.ymin) box.zmin) (pos 0))
        (ltb_ℤ (pos n) (max_ℤ (max_ℤ box.xmax box.ymax) box.zmax)) test in
    let (xy, z) = min_from (min_ℤ box.xmin box.ymin) box.zmin (ground (arith, from)) in
    let (x, y) = min_from box.xmin box.ymin xy in
    let (xy', z') = max_to (max_ℤ box.xmax box.ymax) box.zmax n (ground (arith, to)) in
    let (x', y') = max_to box.xmax box.ymax n xy' in
    record {
      from_x = not_negative box.xmin x;
      from_y = not_negative box.ymin y;
      from_z = not_negative box.zmin z;
      to_x = positive_to box.xmax n x';
      to_y = positive_to box.ymax n y';
      to_z = positive_to box.zmax n z';
    }

-- A coordinate of a box and the cells of its ends.
between :
    (e : ℕ) (lo hi : ℤ) (x : ℕ)
    → neg_part lo ≡ 0
    → lo ≤ℤ pos x
    → pos x <ℤ hi
    → pos_part lo / 2 ^ e ≡ (pos_part hi - 1) / 2 ^ e
    → x / 2 ^ e ≡ pos_part lo / 2 ^ e
between e lo hi x none from to ends = omega (
  arith,
  ends,
  div_mono (pos_part lo) x (2 ^ e) (pow2-pos e) (omega (arith, none)),
  div_mono x (pos_part hi - 1) (2 ^ e) (pow2-pos e) (omega arith),
)

module _ (k : KeyType) (sfc_key : ℕ → ℕ → ℕ → ℕ) (curve : IsCurve k sfc_key) where
  module _ (code_start code_end : ℕ) (box : IBox) (x y z : ℕ) (point : IsPoint k x y z)
      (within : IsIn box x y z) where
    abbrev low : ℕ
    low = sfc_key (pos_part box.xmin) (pos_part box.ymin) (pos_part box.zmin)

    abbrev high : ℕ
    high = sfc_key (pos_part box.xmax - 1) (pos_part box.ymax - 1) (pos_part box.zmax - 1)

    -- The smallest node around the ends of the box is around the point.
    in_envelope :
        IsInside k box
        → code_start ≤ (smallest_common_box k low high).0
        → (smallest_common_box k low high).1 ≤ code_end
        → (code_start ≤ sfc_key x y z) × (sfc_key x y z < code_end)
    in_envelope inside start end =
        let key : ℕ = sfc_key x y z in
        let first : IsPoint k (pos_part box.xmin) (pos_part box.ymin) (pos_part box.zmin) = (
          omega (arith, within.in_x, inside.from_x, point),
          omega (arith, within.in_y, inside.from_y, point),
          omega (arith, within.in_z, inside.from_z, point),
        ) in
        let last : IsPoint k (pos_part box.xmax - 1) (pos_part box.ymax - 1)
            (pos_part box.zmax - 1) =
          (
            omega (arith, within.in_x, inside.to_x),
            omega (arith, within.in_y, inside.to_y),
            omega (arith, within.in_z, inside.to_z),
          ) in
        let (e, ends, same, least) =
          smallest_common_box-div k low high (curve.inside _ _ _ first) (curve.inside _ _ _ last) in
        let (ex, ey, ez) = (curve.cells e _ _ _ _ _ _ first last).0 same in
        let cell : key / 8 ^ e ≡ low / 8 ^ e = (curve.cells e x y z _ _ _ point first).1 (
          between e box.xmin box.xmax x inside.from_x within.in_x.0 within.in_x.1 ex,
          between e box.ymin box.ymax y inside.from_y within.in_y.0 within.in_y.1 ey,
          between e box.zmin box.zmax z inside.from_z within.in_z.0 within.in_z.1 ez,
        ) in
        let corner = low / 8 ^ e * 8 ^ e in
        let start' : code_start ≤ corner = rw (sym (ap (λ (t : ℕ × ℕ). t.0) ends)) start in
        let end' : corner + 8 ^ e ≤ code_end = rw (sym (ap (λ (t : ℕ × ℕ). t.1) ends)) end in
        let place : key / 8 ^ e * 8 ^ e ≡ corner = ap (λ (t : ℕ). t * 8 ^ e) cell in
        (
          omega (arith, start', place, div-add-mod' key (8 ^ e)),
          omega (arith, end', place, div-add-mod' key (8 ^ e), mod-lt key (pow8-pos e)),
        )

    -- If `containedIn` says that an integer box is inside a key range, then the keys of all points of the box are, for
    -- any curve that goes through the cells of the octree.
    pub contained_in-points :
        contained_in k sfc_key code_start code_end box ≡ true
        → (code_start ≤ sfc_key x y z) × (sfc_key x y z < code_end)
    unfolding contained_in
    contained_in-points test =
        let wraps =
          ltb_ℤ (min_ℤ (min_ℤ box.xmin box.ymin) box.zmin) (pos 0)
          || ltb_ℤ (pos (2 ^ max_tree_level k)) (max_ℤ (max_ℤ box.xmax box.ymax) box.zmax) in
        let whole = code_start == 0 && code_end == node_range k 0 in
        let envelope = smallest_common_box k low high in
        let fits = leb code_start envelope.0 && leb envelope.1 code_end in
        elim (Bool-cases wraps) [
          | inl out ↦
              let (start, end) =
                both (code_start == 0) (code_end == node_range k 0)
                  (chosen_then wraps whole fits out test) in
              let none : code_start ≡ 0 = (==_iff code_start 0).0 start in
              let all : code_end ≡ node_range k 0 = (==_iff code_end (node_range k 0)).0 end in
              let full : node_range k 0 ≡ 8 ^ max_tree_level k =
                node_range-pow8 k 0 ∙ ap (λ (t : ℕ). 8 ^ t) (omega arith) in
              (omega (arith, none), omega (arith, all, full, curve.inside x y z point))
          | inr in_domain ↦
              let (start, end) =
                both (leb code_start envelope.0) (leb envelope.1 code_end)
                  (chosen_else wraps whole fits in_domain test) in
              in_envelope (IsInside-test k box in_domain) (leb→le code_start envelope.0 start)
                (leb→le envelope.1 code_end end)
        ]
