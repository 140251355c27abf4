-- ===== src/Sfc/Prefix/Box.antt =====
-- The octree node that a key stands in, the smallest one that two keys stand in, and masked keys.
use native.Mathlib.Nat.{div-add-mod', zero-mul, mod-eq_of_lt, add-mod_left}
use native.Mathlib.Decide.{dec_lt, ℕ_discrete}
use mathlib.Core.Path.{ap₂}
use cornerstone_octree.Base.{
  ℕ, suc, ◌+◌, ◌-◌, ◌*◌, ◌/◌, ◌%◌, ◌^◌, ◌≤◌, ◌<◌, ◌≡◌, ◌≢◌, refl, ap, sym, ◌∙◌, arith, ltb, ◌&&◌,
  bit_and, bit_or, bit_xor, ◌⊎◌, inl, inr,
}
use cornerstone_octree.Base.Int.{pos_part, sub_ℕ}
use cornerstone_octree.Base.Pow.{pow2_triple, pow2-pos, pow8-pos, pow8_mono}
use cornerstone_octree.Base.Bits.{bit_or_fields}
use cornerstone_octree.Base.Bits.Laws.{bit_and_clear, bit_and_mask, bit_or-zero, bit_xor_self}
use cornerstone_octree.Base.Bits.Differ.{bit_xor_comm}
use cornerstone_octree.Key.{
  KeyType, max_tree_level, unused_bits, key_bits, modulus, sub_key, sub_key_exact, add_key_exact,
  key_bits_split,
}
use cornerstone_octree.Primitives.Clz.{count_leading_zeros, count_leading_zeros-zero, div_small}
use cornerstone_octree.Sfc.Range.{
  node_range, node_range-pow8, node_range_root, enclosing_box_code, range_lt, pow8_level_lt,
}
use cornerstone_octree.Sfc.Prefix.{
  common_prefix, smallest_common_box, mask_key, unmask_key, is_masked,
}
use cornerstone_octree.Sfc.Prefix.RoundTrip.{modulus-pow2}
use cornerstone_octree.Sfc.Span.Places.{first_difference}

-- `enclosingBoxCode` at the level of nodes of size 8 ^ e gives the start of the node that the key stands in.
pub enclosing_box_code-div :
    (k : KeyType) (key e : ℕ)
    → e ≤ max_tree_level k
    → key < modulus k
    → enclosing_box_code k key (max_tree_level k - e) ≡ key / 8 ^ e * 8 ^ e
unfolding enclosing_box_code
enclosing_box_code-div k key e small inside =
    let level : max_tree_level k - (max_tree_level k - e) ≡ e = omega arith in
    let range : node_range k (max_tree_level k - e) ≡ 8 ^ e =
      node_range-pow8 k (max_tree_level k - e) ∙ ap (λ (j : ℕ). 8 ^ j) level in
    let high : key_bits k - 3 * e + 3 * e ≡ key_bits k = omega (arith, key_bits_split k) in
    let whole : 2 ^ (key_bits k - 3 * e + 3 * e) ≡ modulus k =
      ap (λ (j : ℕ). 2 ^ j) high ∙ sym (modulus-pow2 k) in
    let clear : modulus k - 1 - (8 ^ e - 1) ≡ 2 ^ (key_bits k - 3 * e + 3 * e) - 2 ^ (3 * e) =
      omega (arith, whole, pow2_triple e, pow8-pos e, range_lt k e small) in
    rw (range, sub_key_exact k (8 ^ e) 1 (pow8-pos e) (range_lt k e small), clear)
      (bit_and_clear (3 * e) (key_bits k - 3 * e) key (omega (arith, inside, whole))
        ∙ ap (λ (p : ℕ). key / p * p) (pow2_triple e))

-- The level at which two keys part.
common_level :
    (k : KeyType) (a b : ℕ)
    → a < 8 ^ max_tree_level k
    → b < 8 ^ max_tree_level k
    → (e : ℕ) × (e ≤ max_tree_level k)
      × (pos_part (common_prefix k a b) / 3 ≡ max_tree_level k - e)
      × (a / 8 ^ e ≡ b / 8 ^ e)
      × ((e ≡ 0) ⊎ (a / 8 ^ (e - 1) ≢ b / 8 ^ (e - 1)))
unfolding common_prefix
common_level k a b ha hb = elim (dec_lt a b) [
  | yes lt ↦ parted a b lt ha hb
  | no ge ↦ elim (dec_lt b a) [
    | yes gt ↦
        let (e, small, level, same, apart) = parted b a gt hb ha in
        (e, small, rw (bit_xor_comm a b) level, sym same, flip e apart)
    | no le ↦
        let equal : b ≡ a = omega arith in
        (
          0,
          omega arith,
          rw (equal, bit_xor_self a, count_leading_zeros-zero k, key_bits_split k) (ground arith),
          ap (λ x. x / 1) (sym equal),
          inl refl,
        )
  ]
]
  where
    flip :
        (e : ℕ)
        → (e ≡ 0) ⊎ (b / 8 ^ (e - 1) ≢ a / 8 ^ (e - 1))
        → (e ≡ 0) ⊎ (a / 8 ^ (e - 1) ≢ b / 8 ^ (e - 1))
    flip e (inl z) = inl z
    flip e (inr n) = inr (λ p. n (sym p))

    parted :
        (a b : ℕ)
        → a < b
        → a < 8 ^ max_tree_level k
        → b < 8 ^ max_tree_level k
        → (e : ℕ) × (e ≤ max_tree_level k)
          × (pos_part (sub_ℕ (count_leading_zeros k (bit_xor a b)) (unused_bits k)) / 3
              ≡ max_tree_level k - e)
          × (a / 8 ^ e ≡ b / 8 ^ e)
          × ((e ≡ 0) ⊎ (a / 8 ^ (e - 1) ≢ b / 8 ^ (e - 1)))
    parted a b lt ha hb =
        let (d, deep, place, below, same) = first_difference k a b lt (omega (arith, hb)) in
        let strict : d < max_tree_level k = elim (dec_lt d (max_tree_level k)) [
          | yes p ↦ p
          | no p ↦
              let top : d ≡ max_tree_level k = omega arith in
              absurd (
                omega (
                  arith,
                  below,
                  ap (λ (j : ℕ). b / 8 ^ j) top,
                  div_small b (8 ^ max_tree_level k) hb,
                ))
        ] in
        let back : suc d - 1 ≡ d = omega arith in
        (
          suc d,
          strict,
          ground (arith, place),
          same,
          inr (rw back (λ e. absurd (omega (arith, below, e)))),
        )

-- `smallestCommonBox` of two keys inside the key range gives the node of size 8 ^ e that both keys stand
-- in, and no node of the next smaller size holds both.
pub smallest_common_box-div :
    (k : KeyType) (a b : ℕ)
    → a < 8 ^ max_tree_level k
    → b < 8 ^ max_tree_level k
    → (e : ℕ) × (smallest_common_box k a b ≡ (a / 8 ^ e * 8 ^ e, a / 8 ^ e * 8 ^ e + 8 ^ e))
      × (a / 8 ^ e ≡ b / 8 ^ e)
      × ((e ≡ 0) ⊎ (a / 8 ^ (e - 1) ≢ b / 8 ^ (e - 1)))
unfolding smallest_common_box
smallest_common_box-div k a b ha hb =
    let (e, small, level, same, apart) = common_level k a b ha hb in
    let room = pow8_level_lt k (max_tree_level k) (omega arith) in
    let back : max_tree_level k - (max_tree_level k - e) ≡ e = omega arith in
    let start = enclosing_box_code-div k a e small (omega (arith, ha, room)) in
    let range : node_range k (max_tree_level k - e) ≡ 8 ^ e =
      node_range-pow8 k (max_tree_level k - e) ∙ ap (λ (j : ℕ). 8 ^ j) back in
    let end =
      add_key_exact k (a / 8 ^ e * 8 ^ e) (8 ^ e)
        (omega (arith, ha, room, pow8_mono e (max_tree_level k) small, div-add-mod' a (8 ^ e))) in
    (e, rw (level, start, range, end) refl, same, apart)

-- A mask puts the bit of the end of the key range before the key.
mask-bits :
    (k : KeyType) (key : ℕ)
    → key < 8 ^ max_tree_level k
    → bit_or key (8 ^ max_tree_level k) ≡ 8 ^ max_tree_level k + key
mask-bits k key inside =
    let m : ℕ = 3 * max_tree_level k in
    let power : 2 ^ m ≡ 8 ^ max_tree_level k = pow2_triple (max_tree_level k) in
    let low : key ≡ 0 * 2 ^ m + key = omega (arith, zero-mul (2 ^ m)) in
    let top : 8 ^ max_tree_level k ≡ 1 * 2 ^ m + 0 = omega (arith, power) in
    ap₂ bit_or low top
    ∙ bit_or_fields m 0 key 1 0 (omega (arith, power, inside)) (pow2-pos m)
    ∙ omega (arith, bit_or-zero key, power)

-- The bits below the end of the key range.
and_low :
    (k : KeyType) (key : ℕ)
    → key < 8 ^ max_tree_level k
    → (bit_and key (sub_key k (8 ^ max_tree_level k) 1) ≡ key)
      × (bit_and (8 ^ max_tree_level k + key) (sub_key k (8 ^ max_tree_level k) 1) ≡ key)
and_low k key inside =
    let m : ℕ = 3 * max_tree_level k in
    let top : ℕ = 8 ^ max_tree_level k in
    let power : 2 ^ m ≡ top = pow2_triple (max_tree_level k) in
    let exact =
      sub_key_exact k top 1 (pow8-pos (max_tree_level k))
        (range_lt k (max_tree_level k) (omega arith)) in
    let mask : sub_key k top 1 ≡ 2 ^ m - 1 = exact ∙ ap (λ (x : ℕ). x - 1) (sym power) in
    (
      rw mask (bit_and_mask m key ∙ mod-eq_of_lt (omega (arith, power, inside))),
      rw mask (
          bit_and_mask m (top + key)
          ∙ ap (λ (x : ℕ). (x + key) % 2 ^ m) (sym power)
          ∙ add-mod_left (2 ^ m) key
          ∙ mod-eq_of_lt (omega (arith, power, inside))),
    )

-- `unmaskKey` inverts `maskKey` on the keys up to the end of the key range, and `isMasked` tells a masked
-- key from the others: the keys 0 and the end of the range are not masked.
pub unmask_key-mask_key :
    (k : KeyType) (key : ℕ)
    → key ≤ 8 ^ max_tree_level k
    → (unmask_key k (mask_key k key) ≡ key)
      × (is_masked k (mask_key k key) ≡ (ltb 0 key && ltb key (8 ^ max_tree_level k)))
unfolding unmask_key mask_key is_masked
unmask_key-mask_key k key h = elim (ℕ_discrete key 0) [
  | yes none ↦
      let low : bit_and 0 (sub_key k (8 ^ max_tree_level k) 1) ≡ 0 =
        (and_low k 0 (pow8-pos (max_tree_level k))).0 in
      rw (none, node_range_root k, low) (ground (arith, pow8-pos (max_tree_level k), low))
  | no some ↦ elim (ℕ_discrete key (8 ^ max_tree_level k)) [
    | yes end ↦ rw (end, node_range_root k) (ground (arith, pow8-pos (max_tree_level k)))
    | no inside ↦
        let lt : key < 8 ^ max_tree_level k = omega arith in
        rw (node_range_root k)
          (ground (arith, mask-bits k key lt, (and_low k key lt).1, pow8-pos (max_tree_level k)))
  ]
]
