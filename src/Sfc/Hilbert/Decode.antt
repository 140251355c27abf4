-- ===== src/Sfc/Hilbert/Decode.antt =====
-- That `decodeHilbert` of include/cstone/sfc/hilbert.hpp inverts `iHilbert`.
use native.Mathlib.Nat.{
  mod-eq_of_lt, mod-lt, div-add-mod', mul_assoc, add-mul, mul-add-mod_self_right, add-mul-div_right,
  div-eq_of_lt,
}
use cornerstone_octree.Base.{
  ℕ, zero, suc, ◌+◌, ◌*◌, ◌/◌, ◌%◌, ◌^◌, ◌≤◌, ◌<◌, ◌≡◌, ap, ◌∙◌, arith, bit_and, ◌==◌,
}
use cornerstone_octree.Base.Pow.{pow2-pos, pow2_triple, pow8-suc, pow8-pos}
use cornerstone_octree.Base.Bits.Laws.{bit_and_mask}
use cornerstone_octree.Key.{KeyType, u32, u64, max_tree_level, modulus}
use cornerstone_octree.Sfc.Hilbert.{bit, has_bit, unturn, i_hilbert, decode_levels, decode_hilbert}
use cornerstone_octree.Sfc.Hilbert.Turns.{low_turn, digit_of, low_turn-lt, unturn-low_turn, triple}
use cornerstone_octree.Sfc.Hilbert.Encode.{
  low_key, digit_of-lt, low_key-lt, low_split, hilbert_loop-low_key,
}

-- The digit of a key at a level, and what is below it.
digit_parts :
    (n key d e : ℕ)
    → d < 8
    → e < 8 ^ n
    → key % 8 ^ suc n ≡ d * 8 ^ n + e
    → (key % 8 ^ n ≡ e) × (key / 8 ^ n % 8 ≡ d)
digit_parts n key d e small low h =
    let q : ℕ = key / 8 ^ suc n in
    let whole : key ≡ (q * 8 + d) * 8 ^ n + e = omega (
      arith,
      h,
      div-add-mod' key (8 ^ suc n),
      ap (λ (t : ℕ). q * t) (pow8-suc n),
      add-mul (q * 8) d (8 ^ n),
      mul_assoc q 8 (8 ^ n),
    ) in
    let top : ((q * 8 + d) * 8 ^ n + e) / 8 ^ n ≡ q * 8 + d =
      ap (λ (t : ℕ). t / 8 ^ n) swap
      ∙ add-mul-div_right e (q * 8 + d) (pow8-pos n)
      ∙ omega (arith, div-eq_of_lt low) in
    (
      ap (λ (t : ℕ). t % 8 ^ n) whole
          ∙ mul-add-mod_self_right (q * 8 + d) (8 ^ n) e
          ∙ mod-eq_of_lt low,
      ap (λ (t : ℕ). t % 8) (ap (λ (t : ℕ). t / 8 ^ n) whole ∙ top) ∙ omega arith,
    )
  where
    swap : (key / 8 ^ suc n * 8 + d) * 8 ^ n + e ≡ e + (key / 8 ^ suc n * 8 + d) * 8 ^ n
    swap = omega arith

-- A coordinate of its top bit and those below.
pub put_together : (n v : ℕ) → v < 2 ^ suc n → v % 2 ^ n + bit (has_bit v n) * 2 ^ n ≡ v
put_together n v small =
    omega (arith, low_split n v, mod-eq_of_lt small, ap (λ (t : ℕ). t * 2 ^ n) (bit_of (v / 2 ^ n)))
  where
    bit_of : (w : ℕ) → bit (w % 2 == 1) ≡ w % 2
    bit_of w = ground arith

octant_digit : (n key : ℕ) → bit_and (key / 2 ^ (3 * n)) 7 ≡ key / 8 ^ n % 8
octant_digit n key =
    bit_and_mask 3 (key / 2 ^ (3 * n)) ∙ ap (λ (t : ℕ). key / t % 8) (pow2_triple n)

pub decode_levels-low_key :
    (n x y z key : ℕ)
    → n ≤ 32
    → x < 2 ^ n
    → y < 2 ^ n
    → z < 2 ^ n
    → key % 8 ^ n ≡ low_key n x y z
    → decode_levels key n ≡ (x, y, z)
unfolding decode_levels low_key
decode_levels-low_key zero x y z key h p q r e = triple (omega arith) (omega arith) (omega arith)
decode_levels-low_key (suc n) x y z key h p q r e =
    let xi = has_bit x n in
    let yi = has_bit y n in
    let zi = has_bit z n in
    let (lx, ly, lz) =
      low_turn-lt xi yi zi n (x % 2 ^ n) (y % 2 ^ n) (z % 2 ^ n) (mod-lt x (pow2-pos n))
        (mod-lt y (pow2-pos n)) (mod-lt z (pow2-pos n)) in
    let turned = low_turn n xi yi zi (x % 2 ^ n) (y % 2 ^ n) (z % 2 ^ n) in
    let (below, digit) =
      digit_parts n key (digit_of xi yi zi) (low_key n turned.0 turned.1 turned.2)
        (digit_of-lt xi yi zi) (low_key-lt n turned.0 turned.1 turned.2) e in
    let inner =
      decode_levels-low_key n turned.0 turned.1 turned.2 key (omega arith) lx ly lz below in
    let octant = octant_digit n key ∙ digit in
    (λ i.
      unturn (octant i / 4 == 1) (octant i / 2 % 2 == 1) (octant i % 2 == 1) n (inner i).0
        (inner i).1 (inner i).2)
    ∙ unturn-low_turn xi yi zi n (x % 2 ^ n) (y % 2 ^ n) (z % 2 ^ n) (omega arith)
        (mod-lt x (pow2-pos n)) (mod-lt y (pow2-pos n)) (mod-lt z (pow2-pos n))
    ∙ triple (put_together n x p) (put_together n y q) (put_together n z r)

level_fits : (k : KeyType) → max_tree_level k ≤ 32
level_fits u32 = omega arith
level_fits u64 = omega arith

key_fits : (k : KeyType) → 1 * 8 ^ max_tree_level k ≤ modulus k
key_fits u32 = omega arith
key_fits u64 = omega arith

module _ (k : KeyType) (px py pz : ℕ) (fits_x : px < 2 ^ max_tree_level k)
    (fits_y : py < 2 ^ max_tree_level k) (fits_z : pz < 2 ^ max_tree_level k) where
  pub i_hilbert-low_key : i_hilbert k px py pz ≡ low_key (max_tree_level k) px py pz
  unfolding i_hilbert
  i_hilbert-low_key =
      hilbert_loop-low_key k (max_tree_level k) 0 px py pz (level_fits k) (key_fits k)
      ∙ omega arith
      ∙ (λ i.
          low_key (max_tree_level k) (mod-eq_of_lt fits_x i) (mod-eq_of_lt fits_y i)
            (mod-eq_of_lt fits_z i))

  -- `decodeHilbert` gives back the coordinates of an `iHilbert` key, that are below 2 to the `maxTreeLevel`.
  pub decode_hilbert-i_hilbert : decode_hilbert k (i_hilbert k px py pz) ≡ (px, py, pz)
  unfolding decode_hilbert
  decode_hilbert-i_hilbert =
      decode_levels-low_key (max_tree_level k) px py pz (i_hilbert k px py pz) (level_fits k) fits_x
        fits_y fits_z
        (ap (λ (t : ℕ). t % 8 ^ max_tree_level k) i_hilbert-low_key
          ∙ mod-eq_of_lt (low_key-lt (max_tree_level k) px py pz))
