-- ===== src/Sfc/Span/Places.antt =====
-- The places between which `spanSfcRange` runs: the last one that is not zero, and the first one that
-- differs.
use native.Mathlib.Nat.{mul_assoc, mul-div_cancel, zero-mul, suc-mul}
use native.Mathlib.Decide.{dec_lt, ℕ_discrete}
use cornerstone_octree.Base.{
  ℕ, zero, suc, ◌+◌, ◌-◌, ◌*◌, ◌/◌, ◌^◌, ◌≤◌, ◌<◌, ◌≡◌, ◌≢◌, refl, ap, sym, ◌∙◌, arith, ◌==◌,
  bit_xor, true, false,
}
use cornerstone_octree.Base.Bits.Differ.{bit_xor-lt_iff}
use cornerstone_octree.Base.Pow.{
  pow2_triple, pow2-suc, pow2_mono, pow8-pos, pow8_lt, pow8_multiple, pow2-add, div_mono,
}
use cornerstone_octree.Key.{
  KeyType, u32, u64, max_tree_level, unused_bits, key_bits, key_bits_split,
}
use cornerstone_octree.Primitives.Clz.{
  count_leading_zeros, count_leading_zeros-pow2, magnitude, trailing_zeros, count_trailing_zeros,
  trailing_zeros-multiple, div_small,
}
use cornerstone_octree.Sfc.Range.{last_nz_place, level_bounds}

multiple_of : (x m p : ℕ) → 1 ≤ p → x ≡ m * p → x ≡ x / p * p
multiple_of x m p pos e =
    let quotient : x / p ≡ m = ap (λ y. y / p) e ∙ mul-div_cancel m pos in rw quotient e

-- A multiple of a power of eight is one of each lesser power.
pub coarser : (x l m : ℕ) → l ≤ m → x ≡ x / 8 ^ m * 8 ^ m → x ≡ x / 8 ^ l * 8 ^ l
coarser x l m le e = multiple_of x (x / 8 ^ m * 8 ^ (m - l)) (8 ^ l) (pow8-pos l) (
    e
    ∙ ap (λ p. x / 8 ^ m * p) (pow8_multiple l m le)
    ∙ sym (mul_assoc (x / 8 ^ m) (8 ^ (m - l)) (8 ^ l)))

level-le : (m l x q : ℕ) → 1 ≤ x → x ≡ q * 8 ^ l → x ≤ 8 ^ m → l ≤ m
level-le m l x zero pos e le = absurd (omega (arith, e, zero-mul (8 ^ l)))
level-le m l x (suc q) pos e le = elim (dec_lt m l) [
  | no ge ↦ omega arith
  | yes lt ↦ absurd (omega (arith, e, le, suc-mul q (8 ^ l), pow8_lt m l lt))
]

-- The last place that is not zero, as a power of eight that divides the key.
pub last_nz_place-multiple :
    (k : KeyType) (x : ℕ)
    → x ≤ 8 ^ max_tree_level k
    → (l : ℕ) × (l ≤ max_tree_level k)
      × (last_nz_place k x ≡ max_tree_level k - l)
      × (x ≡ x / 8 ^ l * 8 ^ l)
unfolding last_nz_place count_trailing_zeros
last_nz_place-multiple k x h = elim (ℕ_discrete x 0) [
  | yes none ↦
      let t : (x == 0) ≡ true = ground arith in (0, omega arith, rw t (omega arith), omega arith)
  | no some ↦
      let t : (x == 0) ≡ false = ground arith in
      let z : ℕ = trailing_zeros (key_bits k) x in
      let split : z ≡ (z - 3 * (z / 3)) + 3 * (z / 3) = omega arith in
      let power : 2 ^ z ≡ 2 ^ (z - 3 * (z / 3)) * 8 ^ (z / 3) =
        ap (λ (n : ℕ). 2 ^ n) split
        ∙ pow2-add (3 * (z / 3)) (z - 3 * (z / 3))
        ∙ ap (λ p. 2 ^ (z - 3 * (z / 3)) * p) (pow2_triple (z / 3)) in
      let multiple : x ≡ x / 2 ^ z * 2 ^ (z - 3 * (z / 3)) * 8 ^ (z / 3) =
        trailing_zeros-multiple (key_bits k) x
        ∙ ap (λ p. x / 2 ^ z * p) power
        ∙ sym (mul_assoc (x / 2 ^ z) (2 ^ (z - 3 * (z / 3))) (8 ^ (z / 3))) in
      (
        z / 3,
        level-le (max_tree_level k) (z / 3) x (x / 2 ^ z * 2 ^ (z - 3 * (z / 3))) (omega arith)
            multiple h,
        rw t refl,
        multiple_of x (x / 2 ^ z * 2 ^ (z - 3 * (z / 3))) (8 ^ (z / 3)) (pow8-pos (z / 3)) multiple,
      )
]

unused-pos : (k : KeyType) → 1 ≤ unused_bits k
unused-pos u32 = omega arith
unused-pos u64 = omega arith

-- The first place at which two keys differ.
pub first_difference :
    (k : KeyType) (a b : ℕ)
    → a < b
    → b ≤ 8 ^ max_tree_level k
    → (d : ℕ) × (d ≤ max_tree_level k)
      × ((count_leading_zeros k (bit_xor a b) + 3 - unused_bits k) / 3 ≡ max_tree_level k - d)
      × (a / 8 ^ d < b / 8 ^ d)
      × (a / 8 ^ suc d ≡ b / 8 ^ suc d)
first_difference k a b lt top =
    let m : ℕ = max_tree_level k in
    let x : ℕ = bit_xor a b in
    let bound : b < 2 ^ suc (3 * m) =
      omega (arith, top, pow2-suc (3 * m), pow2_triple m, pow8-pos m) in
    let inside : x < 2 ^ suc (3 * m) = (bit_xor-lt_iff (suc (3 * m)) a b).1 (
      div_small a (2 ^ suc (3 * m)) (omega (arith, bound))
      ∙ sym (div_small b (2 ^ suc (3 * m)) bound)) in
    let some : 1 ≤ x = elim (dec_lt 0 x) [
      | yes p ↦ p
      | no p ↦ absurd (omega (arith, (bit_xor-lt_iff 0 a b).0 (omega arith)))
    ] in
    let (c, small, lo, hi) = magnitude (suc (3 * m)) x some inside in
    let zeros =
      count_leading_zeros-pow2 k c x (omega (arith, key_bits_split k, level_bounds k, unused-pos k))
        lo hi in
    let d : ℕ = c / 3 in
    let same : a / 8 ^ suc d ≡ b / 8 ^ suc d =
      sym (ap (λ p. a / p) (pow2_triple (suc d)))
      ∙ (bit_xor-lt_iff (3 * suc d) a b).0
          (omega (arith, hi, pow2_mono (suc c) (3 * suc d) (omega arith)))
      ∙ ap (λ p. b / p) (pow2_triple (suc d)) in
    let unequal : a / 8 ^ d ≢ b / 8 ^ d = λ e. absurd (
      omega (
        arith,
        lo,
        pow2_mono (3 * d) c (omega arith),
        (bit_xor-lt_iff (3 * d) a b).1 (rw (pow2_triple d) e),
      )) in
    (
      d,
      omega arith,
      omega (arith, zeros, key_bits_split k, unused-pos k),
      omega (arith, unequal, div_mono a b (8 ^ d) (pow8-pos d) (omega arith)),
      same,
    )
