-- ===== src/Sfc/Morton/Decode.antt =====
-- That include/cstone/sfc/morton.hpp decodes the coordinates it has encoded, and the digits of its keys.
use Prim.Native.Nat.{bit_xor}
use native.Mathlib.Nat.{mod-eq_of_lt, div-div-eq-div-mul}
use cornerstone_octree.Base.{
  ℕ, zero, suc, ◌+◌, ◌-◌, ◌*◌, ◌/◌, ◌%◌, ◌^◌, ◌≤◌, ◌<◌, ◌≡◌, refl, ap, sym, ◌∙◌, arith,
}
use cornerstone_octree.Base.Pow.{pow2-suc, pow8-suc}
use cornerstone_octree.Base.Bits.{bit_xor_fields}
use cornerstone_octree.Base.Bits.Laws.{bit_xor-zero}
use cornerstone_octree.Base.Bits.Homs.{xor_bits}
use cornerstone_octree.Key.{KeyType, u32, u64, max_tree_level, modulus}
use cornerstone_octree.Sfc.Range.{octal_digit, octal_digit-div}
use cornerstone_octree.Sfc.Morton.{
  compact_bits, i_morton, decode_morton, idecode_morton_x, idecode_morton_y, idecode_morton_z,
}
use cornerstone_octree.Sfc.Morton.Spread.{spread, expand_bits-spread}
use cornerstone_octree.Sfc.Morton.Parts.{read, part, chosen, read-IsHom, part_value}

-- The bits of three coordinates do not meet.
digit_sum :
    (a b c : ℕ)
    → a < 2
    → b < 2
    → c < 2
    → (bit_xor (bit_xor (a * 4) (b * 2)) c ≡ a * 4 + b * 2 + c) × (bit_xor (a * 4) (b * 2) < 8)
digit_sum zero zero zero p q r = (refl, omega arith)
digit_sum zero zero (suc zero) p q r = (refl, omega arith)
digit_sum zero (suc zero) zero p q r = (refl, omega arith)
digit_sum zero (suc zero) (suc zero) p q r = (refl, omega arith)
digit_sum (suc zero) zero zero p q r = (refl, omega arith)
digit_sum (suc zero) zero (suc zero) p q r = (refl, omega arith)
digit_sum (suc zero) (suc zero) zero p q r = (refl, omega arith)
digit_sum (suc zero) (suc zero) (suc zero) p q r = (refl, omega arith)
digit_sum (suc (suc a)) b c p q r = absurd (omega arith)
digit_sum a (suc (suc b)) c p q r = absurd (omega arith)
digit_sum a b (suc (suc c)) p q r = absurd (omega arith)

spread_sum :
    (n x y z : ℕ)
    → bit_xor (bit_xor (spread n x * 4) (spread n y * 2)) (spread n z)
      ≡ spread n x * 4 + spread n y * 2 + spread n z
unfolding spread
spread_sum zero x y z = refl
spread_sum (suc n) x y z =
    let a = spread n (x / 2) in
    let b = spread n (y / 2) in
    let c = spread n (z / 2) in
    let (sum, small) =
      digit_sum (x % 2) (y % 2) (z % 2) (omega arith) (omega arith) (omega arith) in
    let ea : (a * 8 + x % 2) * 4 ≡ a * 4 * 2 ^ 3 + x % 2 * 4 = omega arith in
    let eb : (b * 8 + y % 2) * 2 ≡ b * 2 * 2 ^ 3 + y % 2 * 2 = omega arith in
    ap (λ (t : ℕ). bit_xor (bit_xor t ((b * 8 + y % 2) * 2)) (c * 8 + z % 2)) ea
    ∙ ap (λ (t : ℕ). bit_xor (bit_xor (a * 4 * 2 ^ 3 + x % 2 * 4) t) (c * 8 + z % 2)) eb
    ∙ ap (λ (t : ℕ). bit_xor t (c * 8 + z % 2))
        (bit_xor_fields 3 (a * 4) (x % 2 * 4) (b * 2) (y % 2 * 2) (omega arith) (omega arith))
    ∙ bit_xor_fields 3 (bit_xor (a * 4) (b * 2)) (bit_xor (x % 2 * 4) (y % 2 * 2)) c (z % 2)
        (omega (arith, small)) (omega arith)
    ∙ omega (arith, sum, spread_sum n (x / 2) (y / 2) (z / 2))

pub spread-lt : (n v : ℕ) → 7 * spread n v < 8 ^ n
unfolding spread
spread-lt zero v = omega arith
spread-lt (suc n) v = omega (arith, spread-lt n (v / 2), pow8-suc n)

spread_digit :
    (n j x y z : ℕ)
    → j < n
    → (spread n x * 4 + spread n y * 2 + spread n z) / 8 ^ j % 8
      ≡ 4 * (x / 2 ^ j % 2) + 2 * (y / 2 ^ j % 2) + z / 2 ^ j % 2
unfolding spread
spread_digit zero j x y z h = absurd (omega arith)
spread_digit (suc n) zero x y z h = omega arith
spread_digit (suc n) (suc j) x y z h =
    let a = spread n (x / 2) in
    let b = spread n (y / 2) in
    let c = spread n (z / 2) in
    let sum = (a * 8 + x % 2) * 4 + (b * 8 + y % 2) * 2 + (c * 8 + z % 2) in
    let step =
      λ (v : ℕ). ap (λ (t : ℕ). v / t) (pow2-suc j) ∙ sym (div-div-eq-div-mul v 2 (2 ^ j)) in
    let eighth : sum / 8 ≡ a * 4 + b * 2 + c = omega arith in
    omega (
      arith,
      ap (λ (t : ℕ). sum / t) (pow8-suc j)
          ∙ sym (div-div-eq-div-mul sum 8 (8 ^ j))
          ∙ ap (λ (t : ℕ). t / 8 ^ j) eighth,
      spread_digit n j (x / 2) (y / 2) (z / 2) (omega arith),
      step x,
      step y,
      step z,
    )

pow8-lt-modulus : (k : KeyType) → 8 ^ max_tree_level k < modulus k
pow8-lt-modulus u32 = omega arith
pow8-lt-modulus u64 = omega arith

module _ (k : KeyType) (ix iy iz : ℕ) (fits_x : ix < 2 ^ max_tree_level k)
    (fits_y : iy < 2 ^ max_tree_level k) (fits_z : iz < 2 ^ max_tree_level k) where
  abbrev pub spread_key : ℕ
  spread_key =
      spread (max_tree_level k) ix * 4
      + spread (max_tree_level k) iy * 2
      + spread (max_tree_level k) iz

  pub i_morton-sum : i_morton k ix iy iz ≡ spread_key
  unfolding i_morton
  i_morton-sum =
      rw
        (
          expand_bits-spread k ix fits_x,
          expand_bits-spread k iy fits_y,
          expand_bits-spread k iz fits_z,
        )
        (mod-eq_of_lt (
          omega (
            arith,
            spread-lt (max_tree_level k) ix,
            spread-lt (max_tree_level k) iy,
            spread-lt (max_tree_level k) iz,
            pow8-lt-modulus k,
          )))

  read_key :
      (s : ℕ)
      → s < 3
      → read k s (i_morton k ix iy iz)
        ≡ bit_xor (bit_xor (chosen s 2 ix) (chosen s 1 iy)) (chosen s 0 iz)
  unfolding part
  read_key s h =
      let n = max_tree_level k in
      let whole : spread n iz * 2 ^ 0 ≡ spread n iz = omega arith in
      ap (read k s) (i_morton-sum ∙ sym (spread_sum n ix iy iz))
      ∙ read-IsHom k s (bit_xor (spread n ix * 4) (spread n iy * 2)) (spread n iz)
      ∙ ap (λ (t : ℕ). bit_xor t (read k s (spread n iz)))
          (read-IsHom k s (spread n ix * 4) (spread n iy * 2)
            ∙ ap (λ (t : ℕ). bit_xor t (read k s (spread n iy * 2)))
                (part_value k s 2 h (omega arith) ix fits_x)
            ∙ ap (bit_xor (chosen s 2 ix)) (part_value k s 1 h (omega arith) iy fits_y))
      ∙ ap (bit_xor (bit_xor (chosen s 2 ix) (chosen s 1 iy)))
          (ap (read k s) (sym whole) ∙ part_value k s 0 h (omega arith) iz fits_z)

  -- `decodeMorton` gives back the coordinates of an `iMorton` key, that are below 2 to the `maxTreeLevel`.
  pub decode_morton-i_morton : decode_morton k (i_morton k ix iy iz) ≡ (ix, iy, iz)
  unfolding decode_morton idecode_morton_x idecode_morton_y idecode_morton_z read
  decode_morton-i_morton =
      let key = i_morton k ix iy iz in
      let same : key / 1 ≡ key = omega arith in
      let x : read k 2 key ≡ ix =
        read_key 2 (omega arith) ∙ bit_xor-zero (bit_xor ix 0) ∙ bit_xor-zero ix in
      let y : read k 1 key ≡ iy =
        read_key 1 (omega arith) ∙ bit_xor-zero (bit_xor 0 iy) ∙ xor_bits.unit iy in
      let z : compact_bits k key % 0x1_0000_0000 ≡ iz =
        ap (λ (t : ℕ). compact_bits k t % 0x1_0000_0000) (sym same)
        ∙ read_key 0 (omega arith)
        ∙ xor_bits.unit iz in
      ap (λ (t : ℕ). (t, read k 1 key, compact_bits k key % 0x1_0000_0000)) x
      ∙ ap (λ (t : ℕ). (ix, t, compact_bits k key % 0x1_0000_0000)) y
      ∙ ap (λ (t : ℕ). (ix, iy, t)) z

  -- A digit of an `iMorton` key is made of the bits of the three coordinates at its level.
  pub i_morton-octal_digit :
      (level : ℕ)
      → 1 ≤ level
      → level ≤ max_tree_level k
      → octal_digit k (i_morton k ix iy iz) level
        ≡ 4 * (ix / 2 ^ (max_tree_level k - level) % 2)
          + 2 * (iy / 2 ^ (max_tree_level k - level) % 2)
          + iz / 2 ^ (max_tree_level k - level) % 2
  i_morton-octal_digit level some h =
      octal_digit-div k (i_morton k ix iy iz) level
      ∙ ap (λ (t : ℕ). t / 8 ^ (max_tree_level k - level) % 8) i_morton-sum
      ∙ spread_digit (max_tree_level k) (max_tree_level k - level) ix iy iz (omega arith)
