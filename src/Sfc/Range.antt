-- ===== src/Sfc/Range.antt =====
-- include/cstone/sfc/common.hpp: the key range of a node and the octal digits of a key.
use native.Mathlib.Nat.{mod-eq_of_lt}
use cornerstone_octree.Base.{
  ℕ, zero, suc, ◌+◌, ◌-◌, ◌*◌, ◌/◌, ◌%◌, ◌^◌, ◌≤◌, ◌<◌, ◌≡◌, refl, ap, ◌∙◌, arith, Bool, ◌&&◌, ◌==◌,
  if◌then◌else◌, bit_and,
}
use cornerstone_octree.Base.Pow.{pow2_triple, pow2-suc, pow8_mono, pow8-pos, pow8-suc}
use cornerstone_octree.Base.Bits.Laws.{bit_and_mask}
use cornerstone_octree.Key.{
  KeyType, u32, u64, max_tree_level, unused_bits, modulus, sub_key, shl_key, sub_key_exact,
  remove_key-eq-pow8, remove_key-lt-modulus, key_bits_split,
}
use cornerstone_octree.Primitives.Clz.{
  count_leading_zeros, count_trailing_zeros, count_leading_zeros-pow2, count_leading_zeros-zero,
}

-- Subtraction of `unsigned`, which wraps at 2 ^ 32.
unfoldable pub sub_unsigned : ℕ → ℕ → ℕ
sub_unsigned a b = (a + 0x1_0000_0000 - b) % 0x1_0000_0000

-- `nodeRange`; the source asserts that `level` is at most `maxTreeLevel`.
unfoldable pub node_range : KeyType → ℕ → ℕ
node_range k level = 2 ^ (3 * (max_tree_level k - level)) % modulus k

-- `log8ceil`.
unfoldable pub log8ceil : KeyType → ℕ → ℕ
log8ceil k n =
    if n == 0
    then 0
    else (let lz = count_leading_zeros k (sub_key k n 1) in
        sub_unsigned (max_tree_level k) (sub_unsigned lz (unused_bits k) / 3))

-- `isPowerOf8`.
unfoldable pub is_power_of8 : KeyType → ℕ → Bool
is_power_of8 k n =
    let lz = sub_unsigned (count_leading_zeros k (sub_key k n 1)) (unused_bits k) in
    lz % 3 == 0 && bit_and n (sub_key k n 1) == 0

-- `treeLevel`.
unfoldable pub tree_level : KeyType → ℕ → ℕ
tree_level k code_range =
    sub_unsigned (count_leading_zeros k (sub_key k code_range 1)) (unused_bits k) / 3

-- `octalDigit`, for a place of at most `maxTreeLevel`.
unfoldable pub octal_digit : KeyType → ℕ → ℕ → ℕ
octal_digit k code position = bit_and (code / 2 ^ (3 * (max_tree_level k - position))) 7

-- `octalPower`.
unfoldable pub octal_power : KeyType → ℕ → ℕ
octal_power k pos = shl_key k 1 (3 * (max_tree_level k - pos))

-- `enclosingBoxCode`: `~mask` in the key type is the modulus less one less the mask.
unfoldable pub enclosing_box_code : KeyType → ℕ → ℕ → ℕ
enclosing_box_code k key level =
    let mask = sub_key k (node_range k level) 1 in bit_and key (modulus k - 1 - mask)

-- `lastNzPlace`.
unfoldable pub last_nz_place : KeyType → ℕ → ℕ
last_nz_place k x =
    if x == 0 then max_tree_level k else max_tree_level k - count_trailing_zeros k x / 3

pub pow8_level_lt : (k : KeyType) (e : ℕ) → e ≤ max_tree_level k → 8 ^ e * 2 ≤ modulus k
pow8_level_lt k e h =
    omega (arith, remove_key-lt-modulus k, remove_key-eq-pow8 k, pow8_mono e (max_tree_level k) h)

-- The node range in the terms of the proofs: eight to the levels left.
pub node_range-pow8 :
    (k : KeyType) (level : ℕ) → node_range k level ≡ 8 ^ (max_tree_level k - level)
unfolding node_range
node_range-pow8 k level = rw (pow2_triple (max_tree_level k - level)) (
    mod-eq_of_lt (
      omega (
        arith,
        pow8_level_lt k (max_tree_level k - level) (omega arith),
        pow8-pos (max_tree_level k - level),
      )))

pub node_range_root : (k : KeyType) → node_range k 0 ≡ 8 ^ max_tree_level k
unfolding node_range
node_range_root u32 = refl
node_range_root u64 = refl

pub octal_digit-div :
    (k : KeyType) (code pos : ℕ) → octal_digit k code pos ≡ code / 8 ^ (max_tree_level k - pos) % 8
unfolding octal_digit
octal_digit-div k code pos =
    bit_and_mask 3 _ ∙ ap (λ t. code / t % 8) (pow2_triple (max_tree_level k - pos))

one_lt : (k : KeyType) → 1 < modulus k
one_lt u32 = omega arith
one_lt u64 = omega arith

pub level_bounds : (k : KeyType) → (max_tree_level k ≤ 21) × (unused_bits k ≤ 2)
level_bounds u32 = omega arith
level_bounds u64 = omega arith

pub range_lt : (k : KeyType) (e : ℕ) → e ≤ max_tree_level k → 8 ^ e < modulus k
range_lt k e h = omega (arith, pow8_level_lt k e h, pow8-pos e)

pow2_plus_two : (e : ℕ) → 2 ^ (3 * e + 2) ≡ 8 ^ e * 4
pow2_plus_two e =
    let n : 3 * e + 2 ≡ suc (suc (3 * e)) = omega arith in
    rw n (omega (arith, pow2-suc (suc (3 * e)), pow2-suc (3 * e), pow2_triple e))

pow2_plus_three : (e : ℕ) → 2 ^ suc (3 * e + 2) ≡ 8 ^ e * 8
pow2_plus_three e = omega (arith, pow2-suc (3 * e + 2), pow2_plus_two e)

-- The leading zeros of a range less one, over the unused bits, are three for each level above it.
pub range_zeros :
    (k : KeyType) (e : ℕ)
    → e ≤ max_tree_level k
    → sub_unsigned (count_leading_zeros k (sub_key k (8 ^ e) 1)) (unused_bits k)
      ≡ 3 * (max_tree_level k - e)
unfolding sub_unsigned
range_zeros k zero h =
    let none : sub_key k 1 1 ≡ 0 = sub_key_exact k 1 1 (omega arith) (one_lt k) in
    rw (none, count_leading_zeros-zero k, key_bits_split k) (omega (arith, level_bounds k))
range_zeros k (suc e) h =
    rw (sub_key_exact k (8 ^ suc e) 1 (pow8-pos (suc e)) (range_lt k (suc e) h)) (
      omega (
        arith,
        level_bounds k,
        key_bits_split k,
        count_leading_zeros-pow2 k (3 * e + 2) (8 ^ suc e - 1) (omega (arith, key_bits_split k))
            (omega (arith, pow2_plus_two e, pow8-suc e, pow8-pos e))
            (omega (arith, pow2_plus_three e, pow8-suc e, pow8-pos e)),
      ))

-- `treeLevel` of a node's size is its level: a size of 8 ^ e stands e levels above the deepest one.
pub tree_level-pow8 :
    (k : KeyType) (e : ℕ) → e ≤ max_tree_level k → tree_level k (8 ^ e) ≡ max_tree_level k - e
unfolding tree_level
tree_level-pow8 k e h = rw (range_zeros k e h) (omega arith)
