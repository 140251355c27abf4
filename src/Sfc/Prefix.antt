-- ===== src/Sfc/Prefix.antt =====
-- include/cstone/sfc/common.hpp: prefixes of keys, and keys in the placeholder-bit format of Warren and
-- Salmon, in which a 1 stands before the digits of a node.
pub mod RoundTrip
pub mod Box
use cornerstone_octree.Base.{
  ℕ, zero, suc, ◌+◌, ◌-◌, ◌*◌, ◌/◌, ◌^◌, ◌≤◌, ◌<◌, Bool, true, false, ◌&&◌, ◌==◌, ltb, leb,
  if◌then◌else◌, bit_and, bit_or, bit_xor, max, List, ◌!◌,
}
use cornerstone_octree.Base.Int.{ℤ, pos_part, sub_ℕ}
use cornerstone_octree.Key.{
  KeyType, max_tree_level, unused_bits, key_bits, modulus, add_key, sub_key, shl_key,
}
use cornerstone_octree.Primitives.Clz.{count_leading_zeros}
use cornerstone_octree.Primitives.Search.{lower_bound}
use cornerstone_octree.Sfc.Range.{node_range, sub_unsigned, enclosing_box_code, last_nz_place}

-- `pad`, for at most as many bits as a key uses.
unfoldable pub pad : KeyType → ℕ → ℕ → ℕ
pad k prefix length = shl_key k prefix (3 * max_tree_level k - length)

-- `commonPrefix`, negative where the keys differ in the unused bits.
unfoldable pub common_prefix : KeyType → ℕ → ℕ → ℤ
common_prefix k key1 key2 = sub_ℕ (count_leading_zeros k (bit_xor key1 key2)) (unused_bits k)

-- `encodePlaceholderBit`, for a prefix of at most as many bits as a key uses.
unfoldable pub encode_placeholder_bit : KeyType → ℕ → ℕ → ℕ
encode_placeholder_bit k code prefix_length =
    let n_shifts = 3 * max_tree_level k - prefix_length in
    let ret = code / 2 ^ n_shifts in
    let place_holder_mask = shl_key k 1 prefix_length in bit_or place_holder_mask ret

-- `encodePlaceholderBit2K`.
unfoldable pub encode_placeholder_bit_2k : KeyType → ℕ → ℕ → ℕ
unfolding encode_placeholder_bit
encode_placeholder_bit_2k k k1 k2 =
    let prefix_length =
      sub_unsigned (count_leading_zeros k (sub_key k (sub_key k k2 k1) 1)) (unused_bits k) in
    encode_placeholder_bit k k1 prefix_length

-- `decodePrefixLength`, of a code that is not 0.
unfoldable pub decode_prefix_length : KeyType → ℕ → ℕ
decode_prefix_length k code = key_bits k - 1 - count_leading_zeros k code

-- `decodePlaceholderBit`.
unfoldable pub decode_placeholder_bit : KeyType → ℕ → ℕ
unfolding decode_prefix_length
decode_placeholder_bit k code =
    let prefix_length = decode_prefix_length k code in
    let place_holder_mask = shl_key k 1 prefix_length in
    let ret = bit_xor code place_holder_mask in shl_key k ret (3 * max_tree_level k - prefix_length)

-- `decodePlaceholderBit2K`.
unfoldable pub decode_placeholder_bit_2k : KeyType → ℕ → ℕ × ℕ
unfolding decode_prefix_length
decode_placeholder_bit_2k k code =
    let prefix_length = decode_prefix_length k code in
    let place_holder_mask = shl_key k 1 prefix_length in
    let ret = bit_xor code place_holder_mask in
    let n_shifts = 3 * max_tree_level k - prefix_length in
    let k1 = shl_key k ret n_shifts in (k1, add_key k k1 (shl_key k 1 n_shifts))

-- `locateNode` with a key in the placeholder-bit format; the number of nodes if there is none.
unfoldable pub locate_node : KeyType → ℕ → List ℕ → List ℕ → ℕ
unfolding decode_prefix_length
locate_node k node_key prefixes level_range =
    let num_nodes = level_range ! (max_tree_level k + 1) in
    let level = decode_prefix_length k node_key / 3 in
    let it = lower_bound prefixes (level_range ! level) (level_range ! (level + 1)) node_key in
    if it == num_nodes then num_nodes else if prefixes ! it == node_key then it else num_nodes

-- `locateNode` with the range of a node.
unfoldable pub locate_node_range : KeyType → ℕ → ℕ → List ℕ → List ℕ → ℕ
unfolding encode_placeholder_bit locate_node
locate_node_range k start_key end_key prefixes level_range =
    let prefix_length =
      sub_unsigned (count_leading_zeros k (sub_key k (sub_key k end_key start_key) 1))
        (unused_bits k) in
    locate_node k (encode_placeholder_bit k start_key prefix_length) prefixes level_range

-- `maskKey`, `unmaskKey` and `isMasked`.
unfoldable pub mask_key : KeyType → ℕ → ℕ
mask_key k key =
    if key == 0 then key else if key == node_range k 0 then key else bit_or key (node_range k 0)

unfoldable pub unmask_key : KeyType → ℕ → ℕ
unmask_key k key = if key == node_range k 0 then key else bit_and key (sub_key k (node_range k 0) 1)

unfoldable pub is_masked : KeyType → ℕ → Bool
is_masked k key = ltb (node_range k 0) key

-- `isAncestor`.
unfoldable pub is_ancestor : KeyType → ℕ → ℕ → Bool
unfolding decode_prefix_length
is_ancestor k a b =
    let alen = decode_prefix_length k a in
    let blen = decode_prefix_length k b in
    let common_bits = count_leading_zeros k (bit_xor (shl_key k a (blen - alen)) b) in
    leb (1 + count_leading_zeros k b + (alen - 3)) common_bits

-- `smallestCommonBox`; the quotient of a negative prefix length is 0.
unfoldable pub smallest_common_box : KeyType → ℕ → ℕ → ℕ × ℕ
unfolding common_prefix
smallest_common_box k first_key second_key =
    let common_level = pos_part (common_prefix k first_key second_key) / 3 in
    let node_start = enclosing_box_code k first_key common_level in
    (node_start, add_key k node_start (node_range k common_level))

-- `zeroLowBits`: `~mask` in the key type is the modulus less one less the mask.
unfoldable pub zero_low_bits : KeyType → ℕ → ℕ → ℕ
zero_low_bits k code n_bits =
    let n_lower_bits = 3 * max_tree_level k - n_bits in
    let mask = sub_key k (shl_key k 1 n_lower_bits) 1 in bit_and code (modulus k - 1 - mask)

-- `makePrefix`.
unfoldable pub make_prefix : KeyType → ℕ → ℕ
unfolding encode_placeholder_bit
make_prefix k a = if a == 0 then 1 else encode_placeholder_bit k a (3 * last_nz_place k a)
