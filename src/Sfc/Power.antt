-- ===== src/Sfc/Power.antt =====
-- `isPowerOf8` and `log8ceil` of include/cstone/sfc/common.hpp against powers of eight.
use native.Mathlib.Nat.{mod_self}
use native.Mathlib.Decide.{dec_lt}
use cornerstone_octree.Base.{
  ℕ, zero, suc, ◌-◌, ◌*◌, ◌/◌, ◌%◌, ◌^◌, ◌≤◌, ◌<◌, ◌≡◌, refl, ap, sym, ◌∙◌, arith, true, false,
  ◌==◌, bit_and, ◌⊎◌, inl, inr, ◌↔◌,
}
use cornerstone_octree.Base.Pow.{pow2_triple, pow2-pos, pow2_mono, pow2-suc, pow8-pos}
use cornerstone_octree.Base.Bits.{bit_and_digit}
use cornerstone_octree.Base.Bits.Laws.{bit_and_mask, bit_and_self}
use cornerstone_octree.Key.{KeyType, max_tree_level, unused_bits, sub_key_exact, key_bits_split}
use cornerstone_octree.Primitives.Clz.{
  magnitude, count_leading_zeros, count_leading_zeros-pow2, count_leading_zeros-zero,
}
use cornerstone_octree.Sfc.Range.{
  sub_unsigned, is_power_of8, log8ceil, range_zeros, range_lt, level_bounds,
}

power_of_two_fuel : (f n : ℕ) → n ≤ f → 1 ≤ n → bit_and n (n - 1) ≡ 0 → (b : ℕ) × (n ≡ 2 ^ b)
power_of_two_fuel zero n h p e = absurd (omega arith)
power_of_two_fuel (suc f) n h p e = elim (dec_lt (n % 2) 1) [
  | yes even ↦
      let half : (n - 1) / 2 ≡ n / 2 - 1 = omega arith in
      let (b, q) =
        power_of_two_fuel f (n / 2) (omega arith) (omega arith)
          (omega (arith, bit_and_digit n (n - 1), ap (λ (t : ℕ). bit_and (n / 2) t) half)) in
      (suc b, omega (arith, q, pow2-suc b))
  | no odd ↦
      let half : (n - 1) / 2 ≡ n / 2 = omega arith in
      (
        0,
        omega (
          arith,
          bit_and_digit n (n - 1),
          ap (λ (t : ℕ). bit_and (n / 2) t) half,
          bit_and_self (n / 2),
        ),
      )
]

-- Only a power of two has no bit in common with its predecessor.
pub power_of_two : (n : ℕ) → 1 ≤ n → bit_and n (n - 1) ≡ 0 → (b : ℕ) × (n ≡ 2 ^ b)
power_of_two n p e = power_of_two_fuel n n (omega arith) p e

pow8_and_pred : (e : ℕ) → bit_and (8 ^ e) (8 ^ e - 1) ≡ 0
pow8_and_pred e =
    ap (λ t. bit_and (8 ^ e) (t - 1)) (sym (pow2_triple e))
    ∙ bit_and_mask (3 * e) (8 ^ e)
    ∙ rw (pow2_triple e) (mod_self (8 ^ e))

pub is_power_of8-pow8 : (k : KeyType) (e : ℕ) → e ≤ max_tree_level k → is_power_of8 k (8 ^ e) ≡ true
unfolding is_power_of8
is_power_of8-pow8 k e h =
    rw (range_zeros k e h, sub_key_exact k (8 ^ e) 1 (pow8-pos e) (range_lt k e h), pow8_and_pred e)
      (ground (arith))

-- The leading zeros of `2 ^ b - 1`, over the unused bits.
pow2_zeros :
    (k : KeyType) (b : ℕ)
    → b ≤ 3 * max_tree_level k
    → sub_unsigned (count_leading_zeros k (2 ^ b - 1)) (unused_bits k) ≡ 3 * max_tree_level k - b
unfolding sub_unsigned
pow2_zeros k zero h =
    rw (count_leading_zeros-zero k, key_bits_split k) (omega (arith, level_bounds k))
pow2_zeros k (suc b) h = omega (
  arith,
  level_bounds k,
  key_bits_split k,
  pow2-suc b,
  pow2-pos b,
  count_leading_zeros-pow2 k b (2 ^ suc b - 1) (omega (arith, key_bits_split k))
      (omega (arith, pow2-suc b, pow2-pos b)) (omega (arith, pow2-pos (suc b))),
)

exponent_bound : (m b : ℕ) → 2 ^ b ≤ 8 ^ m → b ≤ 3 * m
exponent_bound m b h = elim (dec_lt (3 * m) b) [
  | yes p ↦
      absurd
        (omega (arith, pow2_mono (suc (3 * m)) b p, pow2-suc (3 * m), pow2_triple m, pow8-pos m))
  | no p ↦ omega arith
]

is_power_of8→pow8 :
    (k : KeyType) (n : ℕ)
    → 1 ≤ n
    → n ≤ 8 ^ max_tree_level k
    → is_power_of8 k n ≡ true
    → (e : ℕ) × (e ≤ max_tree_level k) × (n ≡ 8 ^ e)
unfolding is_power_of8
is_power_of8→pow8 k n p le t =
    let exact =
      sub_key_exact k n 1 p (omega (arith, le, range_lt k (max_tree_level k) (omega arith))) in
    let parts : (sub_unsigned (count_leading_zeros k (n - 1)) (unused_bits k) % 3 ≡ 0)
        × (bit_and n (n - 1) ≡ 0) =
      ground (arith, exact) in
    let (b, q) = power_of_two n p parts.1 in
    let bound = exponent_bound (max_tree_level k) b (omega arith) in
    let zeros =
      ap (λ t. sub_unsigned (count_leading_zeros k (t - 1)) (unused_bits k)) q
      ∙ pow2_zeros k b bound in
    let third : b ≡ 3 * (b / 3) = omega (arith, parts.0, zeros) in
    (b / 3, omega arith, q ∙ ap (λ t. 2 ^ t) third ∙ pow2_triple (b / 3))

-- In the range of node sizes, `isPowerOf8` accepts the powers of eight and nothing else.
pub is_power_of8_iff :
    (k : KeyType) (n : ℕ)
    → 1 ≤ n
    → n ≤ 8 ^ max_tree_level k
    → (is_power_of8 k n ≡ true) ↔ ((e : ℕ) × (e ≤ max_tree_level k) × (n ≡ 8 ^ e))
is_power_of8_iff k n p le =
    (is_power_of8→pow8 k n p le, λ w. rw (w.2) (is_power_of8-pow8 k w.0 w.1))

pub log8ceil-pow8 : (k : KeyType) (d : ℕ) → d ≤ max_tree_level k → log8ceil k (8 ^ d) ≡ d
unfolding log8ceil
log8ceil-pow8 k d h =
    let positive : (8 ^ d == 0) ≡ false = ground (arith, pow8-pos d) in
    rw (positive, range_zeros k d h) (unfold sub_unsigned in omega (arith, level_bounds k))

-- `log8ceil` is the logarithm to base 8, rounded up: the least power of eight that `n` does not
-- exceed, for `n` from 1 up to the size of the root.
pub log8ceil_lem :
    (k : KeyType) (n : ℕ)
    → 1 ≤ n
    → n ≤ 8 ^ max_tree_level k
    → (n ≤ 8 ^ log8ceil k n) × ((log8ceil k n ≡ 0) ⊎ (8 ^ (log8ceil k n - 1) < n))
log8ceil_lem k n p le = elim (dec_lt 1 n) [
  | no one ↦
      let e : n ≡ 1 = omega arith in
      let z : log8ceil k 1 ≡ 0 = log8ceil-pow8 k 0 (omega arith) in
      rw (e, z) (omega arith, inl refl)
  | yes more ↦
      let exact =
        sub_key_exact k n 1 p (omega (arith, le, range_lt k (max_tree_level k) (omega arith))) in
      let (b, lt, lo, hi) =
        magnitude (3 * max_tree_level k) (n - 1) (omega arith)
          (omega (arith, pow2_triple (max_tree_level k), le)) in
      let zeros = count_leading_zeros-pow2 k b (n - 1) (omega (arith, key_bits_split k)) lo hi in
      let value : log8ceil k n ≡ suc (b / 3) =
        unfold log8ceil sub_unsigned in
        rw exact (ground (arith, zeros, key_bits_split k, level_bounds k)) in
      let top : 2 ^ suc b ≤ 8 ^ suc (b / 3) =
        omega
          (arith, pow2_mono (suc b) (3 * suc (b / 3)) (omega arith), pow2_triple (suc (b / 3))) in
      let low : 8 ^ (b / 3) ≤ 2 ^ b =
        omega (arith, pow2_mono (3 * (b / 3)) b (omega arith), pow2_triple (b / 3)) in
      let pred : suc (b / 3) - 1 ≡ b / 3 = omega arith in
      rw (value, pred) (omega (arith, top, hi), inr (omega (arith, low, lo)))
]
