-- ===== src/Traversal/Boxes/Periodic.antt =====
-- What `overlapRange` and `overlap` of include/cstone/traversal/boxoverlap.hpp, and `pbcAdjust` of
-- include/cstone/sfc/box.hpp, say of periodic coordinates.
use native.Mathlib.Decide.{dec_lt}
use native.Mathlib.Nat.{mul-le-mul_right, add-mul}
use cornerstone_octree.Base.{
  ℕ, zero, suc, ◌+◌, ◌-◌, ◌*◌, ◌^◌, ◌≤◌, ◌<◌, ◌≡◌, refl, ap, ◌∙◌, arith, ◌↔◌, ◌⊎◌, inl, inr, Bool,
  true, false, ◌&&◌, ◌||◌, Bool-cases,
}
use cornerstone_octree.Base.Int.{
  ℤ, pos, negsuc, ◌+ℤ◌, ◌-ℤ◌, ◌≤ℤ◌, pos_part, neg_part, ltb_ℤ, ≤ℤ_total, +ℤ_parts, -ℤ_parts,
}
use cornerstone_octree.Key.{KeyType, max_tree_level}
use cornerstone_octree.Sfc.Box.{IBox, pbc_adjust}
use cornerstone_octree.Traversal.Boxes.{overlap_two_ints, overlap_range, overlap}

abbrev pub ◌<ℤ◌ : ℤ → ℤ → Type 0
a <ℤ b = suc (pos_part a + neg_part b) ≤ pos_part b + neg_part a

infix 50 ◌<ℤ◌
-- A whole number of periods apart.
abbrev pub SamePlace : ℕ → ℤ → ℤ → Type 0
SamePlace range p q =
    (m : ℕ) × (n : ℕ) × (pos_part p + neg_part q + m * range ≡ pos_part q + neg_part p + n * range)

-- Two ranges hold points in the same place of the periodic coordinate.
abbrev pub Meet : ℤ → ℤ → ℤ → ℤ → ℕ → Type 0
Meet a b c d range =
    (p : ℤ) × (q : ℤ) × (a ≤ℤ p) × (p <ℤ b) × (c ≤ℤ q) × (q <ℤ d) × SamePlace range p q

-- What the code asserts of a range.
pub record InPeriod (range : ℕ) (a b : ℤ) : Type 0 where
  pub above : neg_part a ≤ pos_part a + range
  pub below : pos_part a < range + neg_part a
  pub some : neg_part b < pos_part b
  pub upper : pos_part b ≤ 2 * range + neg_part b
  pub filled : a <ℤ b

abbrev Shared : ℤ → ℤ → ℤ → ℤ → Type 0
Shared a b c d = (p : ℤ) × (a ≤ℤ p) × (p <ℤ b) × (c ≤ℤ p) × (p <ℤ d)

-- `overlapTwoRanges` tells whether two ranges share a point.
two_ints : (a b c d : ℤ) → a <ℤ b → c <ℤ d → (overlap_two_ints a b c d ≡ true) ↔ Shared a b c d
unfolding overlap_two_ints
two_ints a b c d h l = (
  λ o. elim (≤ℤ_total a c) [
    | inl le ↦ (c, le, ground arith, omega arith, l)
    | inr le ↦ (a, omega arith, h, le, ground arith)
  ],
  λ (p, w, x, y, z). ground arith,
)

one_of : (x y z : Bool) → ((x || y || z) ≡ true) → (x ≡ true) ⊎ (y ≡ true) ⊎ (z ≡ true)
one_of true y z h = inl refl
one_of false true z h = inr (inl refl)
one_of false false true h = inr (inr refl)
one_of false false false h = absurd (ground arith)

some_of : (x y z : Bool) → (x ≡ true) ⊎ (y ≡ true) ⊎ (z ≡ true) → (x || y || z) ≡ true
some_of x y z h = ground arith

three : (j range : ℕ) → 3 * range ≤ suc (suc (suc j)) * range
three j range = mul-le-mul_right range (omega arith)

sub_mul : (n m range : ℕ) → m ≤ n → n * range ≡ (n - m) * range + m * range
sub_mul n m range h =
    let whole : n ≡ (n - m) + m = omega arith in
    ap (λ (t : ℕ). t * range) whole ∙ add-mul (n - m) m range

module _ (range : ℕ) (a b c d : ℤ) (first : InPeriod range a b) (second : InPeriod range c d) where
  abbrev shift : ℤ → ℤ
  shift x = x +ℤ pos range

  -- The three tests of `overlapRange`.
  abbrev Tests : Type 0
  Tests = Shared a b c d ⊎ Shared (shift a) (shift b) c d ⊎ Shared a b (shift c) (shift d)

  overlap_range-tests : (overlap_range a b c d range ≡ true) ↔ Tests
  unfolding overlap_range
  overlap_range-tests =
      let here = two_ints a b c d first.filled second.filled in
      let up =
        two_ints (shift a) (shift b) c d
          (omega (arith, +ℤ_parts a (pos range), +ℤ_parts b (pos range), first.filled))
          second.filled in
      let down =
        two_ints a b (shift c) (shift d) first.filled
          (omega (arith, +ℤ_parts c (pos range), +ℤ_parts d (pos range), second.filled)) in
      let x = overlap_two_ints a b c d in
      let y = overlap_two_ints (shift a) (shift b) c d in
      let z = overlap_two_ints a b (shift c) (shift d) in
      (
        λ h. elim (one_of x y z h) [
          | inl p ↦ inl (here.0 p)
          | inr (inl p) ↦ inr (inl (up.0 p))
          | inr (inr p) ↦ inr (inr (down.0 p))
        ],
        λ t. some_of x y z (elim t [
          | inl p ↦ inl (here.1 p)
          | inr (inl p) ↦ inr (inl (up.1 p))
          | inr (inr p) ↦ inr (inr (down.1 p))
        ]),
      )

  -- Points that are `j` periods apart, the first behind or before the second.
  apart_first :
      (j : ℕ) (p q : ℤ)
      → a ≤ℤ p
      → p <ℤ b
      → c ≤ℤ q
      → q <ℤ d
      → pos_part p + neg_part q ≡ pos_part q + neg_part p + j * range
      → Tests
  apart_first zero p q w x y z e = inl (p, w, x, omega arith, omega arith)
  apart_first (suc zero) p q w x y z e =
      inr (
        inr (p, w, x, omega (arith, +ℤ_parts c (pos range)), omega (arith, +ℤ_parts d (pos range))))
  apart_first (suc (suc zero)) p q w x y z e = inr (
      inr (
        pos range,
        omega (arith, first.below),
        omega (arith, second.above),
        omega (arith, second.above, first.upper, +ℤ_parts c (pos range)),
        omega (arith, second.some, +ℤ_parts d (pos range)),
      ))
  apart_first (suc (suc (suc j))) p q w x y z e =
      absurd (omega (arith, first.upper, second.above, three j range))

  apart_second :
      (j : ℕ) (p q : ℤ)
      → a ≤ℤ p
      → p <ℤ b
      → c ≤ℤ q
      → q <ℤ d
      → pos_part q + neg_part p ≡ pos_part p + neg_part q + j * range
      → Tests
  apart_second zero p q w x y z e = inl (p, w, x, omega arith, omega arith)
  apart_second (suc zero) p q w x y z e =
      inr (
        inl (q, omega (arith, +ℤ_parts a (pos range)), omega (arith, +ℤ_parts b (pos range)), y, z))
  apart_second (suc (suc zero)) p q w x y z e = inr (
      inl (
        pos range,
        omega (arith, first.above, second.upper, +ℤ_parts a (pos range)),
        omega (arith, first.some, +ℤ_parts b (pos range)),
        omega (arith, second.below),
        omega (arith, first.above),
      ))
  apart_second (suc (suc (suc j))) p q w x y z e =
      absurd (omega (arith, second.upper, first.above, three j range))

  pub overlap_range_iff : (overlap_range a b c d range ≡ true) ↔ Meet a b c d range
  overlap_range_iff = (
    λ h. elim (overlap_range-tests.0 h) [
      | inl (p, w, x, y, z) ↦ (p, p, w, x, y, z, (0, 0, refl))
      | inr (inl (p, w, x, y, z)) ↦ (
        p -ℤ pos range,
        p,
        omega (arith, +ℤ_parts a (pos range), -ℤ_parts p (pos range)),
        omega (arith, +ℤ_parts b (pos range), -ℤ_parts p (pos range)),
        y,
        z,
        (1, 0, omega (arith, -ℤ_parts p (pos range))),
      )
      | inr (inr (p, w, x, y, z)) ↦ (
        p,
        p -ℤ pos range,
        w,
        x,
        omega (arith, +ℤ_parts c (pos range), -ℤ_parts p (pos range)),
        omega (arith, +ℤ_parts d (pos range), -ℤ_parts p (pos range)),
        (0, 1, omega (arith, -ℤ_parts p (pos range))),
      )
    ],
    λ (p, q, w, x, y, z, (m, n, e)). overlap_range-tests.1 (elim (dec_lt m n) [
      | yes lt ↦ apart_first (n - m) p q w x y z (omega (arith, e, sub_mul n m range (omega arith)))
      | no ge ↦ apart_second (m - n) p q w x y z (omega (arith, e, sub_mul m n range (omega arith)))
    ]),
  )

-- The integer boxes of which `overlap` asserts that they are no further than a period from the domain.
pub record IsBoxInPeriod (k : KeyType) (box : IBox) : Type 0 where
  pub in_x : InPeriod (2 ^ max_tree_level k) box.xmin box.xmax
  pub in_y : InPeriod (2 ^ max_tree_level k) box.ymin box.ymax
  pub in_z : InPeriod (2 ^ max_tree_level k) box.zmin box.zmax

all_of : (x y z : Bool) → ((x && y && z) ≡ true) ↔ ((x ≡ true) × (y ≡ true) × (z ≡ true))
all_of x y z = (λ h. (ground arith, ground arith, ground arith), λ (p, q, r). ground arith)

-- `overlap` tells of two integer boxes, that are not empty and at most a period from the domain as the code
-- asserts, whether they hold a point in the same place: in each dimension, two coordinates that are a whole
-- number of periods apart.
pub overlap_iff :
    (k : KeyType) (a b : IBox)
    → IsBoxInPeriod k a
    → IsBoxInPeriod k b
    → (overlap k a b ≡ true) ↔ (
        Meet a.xmin a.xmax b.xmin b.xmax (2 ^ max_tree_level k)
        × Meet a.ymin a.ymax b.ymin b.ymax (2 ^ max_tree_level k)
        × Meet a.zmin a.zmax b.zmin b.zmax (2 ^ max_tree_level k))
unfolding overlap
overlap_iff k a b in_a in_b =
    let n = 2 ^ max_tree_level k in
    let x = overlap_range_iff n a.xmin a.xmax b.xmin b.xmax in_a.in_x in_b.in_x in
    let y = overlap_range_iff n a.ymin a.ymax b.ymin b.ymax in_a.in_y in_b.in_y in
    let z = overlap_range_iff n a.zmin a.zmax b.zmin b.zmax in_a.in_z in_b.in_z in
    let all =
      all_of (overlap_range a.xmin a.xmax b.xmin b.xmax n)
        (overlap_range a.ymin a.ymax b.ymin b.ymax n)
        (overlap_range a.zmin a.zmax b.zmin b.zmax n) in
    (
      λ h. let (p, q, r) = all.0 h in (x.0 p, y.0 q, z.0 r),
      λ (p, q, r). all.1 (x.1 p, y.1 q, z.1 r),
    )

pub not_negative : (x : ℤ) → neg_part x ≤ pos_part x → neg_part x ≡ 0
not_negative (pos n) h = refl
not_negative (negsuc n) h = absurd (omega arith)

-- `pbcAdjust` maps a coordinate from a period below the range to a period above it into [0, range), by a
-- whole number of periods.
pub pbc_adjust_lem :
    (range : ℕ) (x : ℤ)
    → neg_part x ≤ pos_part x + range
    → pos_part x < 2 * range + neg_part x
    → (neg_part (pbc_adjust range x) ≡ 0)
      × (pos_part (pbc_adjust range x) < range)
      × SamePlace range (pbc_adjust range x) x
unfolding pbc_adjust
pbc_adjust_lem range x low high = elim (Bool-cases (ltb_ℤ x (pos 0))) [
  | inl neg ↦
      let up = +ℤ_parts x (pos range) in
      let below : ltb_ℤ (x +ℤ pos range) (pos range) ≡ true = ground (arith, neg, up) in
      rw (neg, below)
        (
          not_negative (x +ℤ pos range) (omega (arith, up, low)),
          ground (arith, up, neg, not_negative (x +ℤ pos range) (omega (arith, up, low))),
          (0, 1, omega (arith, up)),
        )
  | inr not_neg ↦ elim (Bool-cases (ltb_ℤ x (pos range))) [
    | inl below ↦
        rw (not_neg, below) (not_negative x (ground arith), ground arith, (0, 0, omega arith))
    | inr above ↦
        rw (not_neg, above)
          (
            not_negative (x -ℤ pos range) (ground (arith, -ℤ_parts x (pos range))),
            ground (
              arith,
              -ℤ_parts x (pos range),
              not_negative (x -ℤ pos range) (ground (arith, -ℤ_parts x (pos range))),
            ),
            (1, 0, omega (arith, -ℤ_parts x (pos range))),
          )
  ]
]
