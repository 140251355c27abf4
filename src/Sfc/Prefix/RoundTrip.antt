-- ===== src/Sfc/Prefix/RoundTrip.antt =====
-- What encodes a node or a key, and what decodes it.
use native.Mathlib.Nat.{mod-eq_of_lt, suc-mul, mul-le-mul_right, div-add-mod', div-lt_iff_lt-mul}
use cornerstone_octree.Base.{
  ℕ, suc, ◌+◌, ◌-◌, ◌*◌, ◌/◌, ◌%◌, ◌^◌, ◌≤◌, ◌<◌, ◌≡◌, refl, ap, sym, ◌∙◌, arith,
}
use cornerstone_octree.Base.Pow.{pow2_triple, pow2-pos, pow2_mono, pow2-suc, pow2-add, pow8_mono}
use cornerstone_octree.Base.Bits.Laws.{bit_or_top, bit_xor_top}
use cornerstone_octree.Key.{
  KeyType, u32, u64, max_tree_level, key_bits, modulus, sub_key, shl_key, sub_key_exact,
  add_key_exact,
}
use cornerstone_octree.Primitives.Clz.{count_leading_zeros-pow2}
use cornerstone_octree.Sfc.Range.{range_zeros, pow8_level_lt}
use cornerstone_octree.Sfc.Prefix.{
  encode_placeholder_bit, encode_placeholder_bit_2k, decode_prefix_length, decode_placeholder_bit,
  decode_placeholder_bit_2k,
}

pub modulus-pow2 : (k : KeyType) → modulus k ≡ 2 ^ key_bits k
modulus-pow2 u32 = refl
modulus-pow2 u64 = refl

used_bits : (k : KeyType) → 3 * max_tree_level k < key_bits k
used_bits u32 = omega arith
used_bits u64 = omega arith

shl_key-exact : (k : KeyType) (a n : ℕ) → a * 2 ^ n < modulus k → shl_key k a n ≡ a * 2 ^ n
unfolding shl_key
shl_key-exact k a n h = mod-eq_of_lt h

shl_key-one : (k : KeyType) (n : ℕ) → n < key_bits k → shl_key k 1 n ≡ 2 ^ n
shl_key-one k n h =
    shl_key-exact k 1 n
      (omega (arith, modulus-pow2 k, pow2-suc n, pow2-pos n, pow2_mono (suc n) (key_bits k) h))
    ∙ omega arith

-- The bits of a key are those of the prefix and those behind it.
bits_split :
    (k : KeyType) (l : ℕ)
    → l ≤ 3 * max_tree_level k
    → 2 ^ l * 2 ^ (3 * max_tree_level k - l) ≡ 8 ^ max_tree_level k
bits_split k l fits =
    let whole : l + (3 * max_tree_level k - l) ≡ 3 * max_tree_level k = omega arith in
    sym (pow2-add (3 * max_tree_level k - l) l)
    ∙ ap (λ (n : ℕ). 2 ^ n) whole
    ∙ pow2_triple (max_tree_level k)

-- A code that `l` digit bits follow, as the encoding has it.
module _ (k : KeyType) (l r : ℕ) (fits : l ≤ 3 * max_tree_level k) (small : r < 2 ^ l) where
  pub decode_prefix_length-top : decode_prefix_length k (2 ^ l + r) ≡ l
  unfolding decode_prefix_length
  decode_prefix_length-top = omega (
    arith,
    count_leading_zeros-pow2 k l (2 ^ l + r) (omega (arith, used_bits k)) (omega arith)
        (omega (arith, pow2-suc l)),
  )

  shifted-lt : r * 2 ^ (3 * max_tree_level k - l) < 8 ^ max_tree_level k
  shifted-lt = omega (
    arith,
    bits_split k l fits,
    pow2-pos (3 * max_tree_level k - l),
    suc-mul r (2 ^ (3 * max_tree_level k - l)),
    mul-le-mul_right (2 ^ (3 * max_tree_level k - l)) small,
  )

  pub decode_placeholder_bit-top :
      decode_placeholder_bit k (2 ^ l + r) ≡ r * 2 ^ (3 * max_tree_level k - l)
  unfolding decode_placeholder_bit
  decode_placeholder_bit-top =
      rw
        (
          decode_prefix_length-top,
          shl_key-one k l (omega (arith, used_bits k)),
          bit_xor_top l r small,
        )
        (shl_key-exact k r (3 * max_tree_level k - l)
          (omega (arith, shifted-lt, pow8_level_lt k (max_tree_level k) (omega arith))))

pub encode_placeholder_bit-top :
    (k : KeyType) (code l : ℕ)
    → l ≤ 3 * max_tree_level k
    → code < 8 ^ max_tree_level k
    → (code / 2 ^ (3 * max_tree_level k - l) < 2 ^ l)
      × (encode_placeholder_bit k code l ≡ 2 ^ l + code / 2 ^ (3 * max_tree_level k - l))
unfolding encode_placeholder_bit
encode_placeholder_bit-top k code l fits inside =
    let parts = bits_split k l fits in
    let digits : code / 2 ^ (3 * max_tree_level k - l) < 2 ^ l =
      (div-lt_iff_lt-mul (pow2-pos (3 * max_tree_level k - l))).1 (omega (arith, parts, inside)) in
    (
      digits,
      rw (shl_key-one k l (omega (arith, used_bits k)))
          (bit_or_top l (code / 2 ^ (3 * max_tree_level k - l)) digits),
    )

-- `decodePlaceholderBit` inverts `encodePlaceholderBit` on a key inside the key range that is zero behind
-- the prefix, and `decodePrefixLength` gives the length of the prefix.
pub decode-encode_placeholder_bit :
    (k : KeyType) (code l : ℕ)
    → l ≤ 3 * max_tree_level k
    → code < 8 ^ max_tree_level k
    → code % 2 ^ (3 * max_tree_level k - l) ≡ 0
    → (decode_placeholder_bit k (encode_placeholder_bit k code l) ≡ code)
      × (decode_prefix_length k (encode_placeholder_bit k code l) ≡ l)
decode-encode_placeholder_bit k code l fits inside aligned =
    let (digits, encoded) = encode_placeholder_bit-top k code l fits inside in
    let r : ℕ = code / 2 ^ (3 * max_tree_level k - l) in
    (
      ap (decode_placeholder_bit k) encoded
          ∙ decode_placeholder_bit-top k l r fits digits
          ∙ omega (arith, div-add-mod' code (2 ^ (3 * max_tree_level k - l)), aligned),
      ap (decode_prefix_length k) encoded ∙ decode_prefix_length-top k l r fits digits,
    )

-- `decodePlaceholderBit2K` inverts `encodePlaceholderBit2K` on the range of a node: a key that is a
-- multiple of the node's size 8 ^ e, and the end of the node.
pub decode-encode_placeholder_bit_2k :
    (k : KeyType) (a e : ℕ)
    → e ≤ max_tree_level k
    → a < 8 ^ max_tree_level k
    → a % 8 ^ e ≡ 0
    → decode_placeholder_bit_2k k (encode_placeholder_bit_2k k a (a + 8 ^ e)) ≡ (a, a + 8 ^ e)
unfolding decode_placeholder_bit_2k encode_placeholder_bit_2k
decode-encode_placeholder_bit_2k k a e small inside aligned =
    let l : ℕ = 3 * (max_tree_level k - e) in
    let room = pow8_level_lt k (max_tree_level k) (omega arith) in
    let size : sub_key k (a + 8 ^ e) a ≡ 8 ^ e =
      sub_key_exact k (a + 8 ^ e) a (omega arith)
        (omega (arith, inside, room, pow8_mono e (max_tree_level k) small))
      ∙ omega arith in
    let behind : 2 ^ (3 * max_tree_level k - l) ≡ 8 ^ e =
      (let three : 3 * max_tree_level k - l ≡ 3 * e = omega arith in
        ap (λ (n : ℕ). 2 ^ n) three ∙ pow2_triple e) in
    let (digits, encoded) = encode_placeholder_bit-top k a l (omega arith) inside in
    let r : ℕ = a / 2 ^ (3 * max_tree_level k - l) in
    let start : shl_key k r (3 * max_tree_level k - l) ≡ a =
      shl_key-exact k r (3 * max_tree_level k - l)
        (omega (arith, shifted-lt k l r (omega arith) digits, room))
      ∙ rw behind (omega (arith, div-add-mod' a (8 ^ e), aligned)) in
    let one : shl_key k 1 (3 * max_tree_level k - l) ≡ 8 ^ e =
      shl_key-one k (3 * max_tree_level k - l) (omega (arith, used_bits k)) ∙ behind in
    rw
      (
        size,
        range_zeros k e small,
        encoded,
        decode_prefix_length-top k l r (omega arith) digits,
        shl_key-one k l (omega (arith, used_bits k)),
        bit_xor_top l r digits,
        start,
        one,
      )
      (ap (λ b. (a, b))
        (add_key_exact k a (8 ^ e)
          (omega (arith, inside, room, pow8_mono e (max_tree_level k) small))))
