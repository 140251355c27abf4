-- ===== src/Sfc/Hilbert.antt =====
-- include/cstone/sfc/hilbert.hpp: the keys of points along the Hilbert curve in three dimensions.
pub mod Turns
pub mod Encode
pub mod Decode
pub mod Places
pub mod Cells
use Prim.Native.Nat.{bit_or, bit_xor}
use cornerstone_octree.Base.{
  ℕ, zero, suc, ◌+◌, ◌-◌, ◌*◌, ◌/◌, ◌%◌, ◌^◌, bit_and, Bool, true, false, not, ◌&&◌, ◌||◌, ◌==◌,
  if◌then◌else◌, List, [], ◌∷◌, ◌!◌,
}
use cornerstone_octree.Base.Int.{pos}
use cornerstone_octree.Key.{KeyType, max_tree_level, modulus, sub_key}
use cornerstone_octree.Sfc.Range.{tree_level}
use cornerstone_octree.Sfc.Box.{IBox}

-- A bit of an `unsigned`, as a condition.
abbrev pub has_bit : ℕ → ℕ → Bool
has_bit p level = p / 2 ^ level % 2 == 1

-- A condition as a number, and its negative as an `unsigned`.
abbrev pub bit : Bool → ℕ
bit true = 1
bit false = 0

abbrev pub ones : Bool → ℕ
ones true = 0xFFFF_FFFF
ones false = 0

-- `mortonToHilbert`.
abbrev pub morton_to_hilbert : List ℕ
morton_to_hilbert = 0 ∷ 1 ∷ 3 ∷ 2 ∷ 7 ∷ 6 ∷ 4 ∷ 5 ∷ []

-- Exclusive or of conditions.
abbrev pub xor_bit : Bool → Bool → Bool
xor_bit true b = not b
xor_bit false b = b

-- The cyclic rotation and the swap of a round of `iHilbert`.
abbrev pub rotate : Bool → Bool → ℕ → ℕ → ℕ → ℕ × ℕ × ℕ
rotate yi true px py pz = (py, pz, px)
rotate false false px py pz = (pz, py, px)
rotate true false px py pz = (px, py, pz)

-- The turn of the coordinates in a round of `iHilbert`.
unfoldable pub turn : Bool → Bool → Bool → ℕ → ℕ → ℕ → ℕ × ℕ × ℕ
turn xi yi zi px py pz =
    let tx = bit_xor px (ones (xi && (not yi || zi))) in
    let ty = bit_xor py (ones ((xi && (yi || zi)) || (yi && not zi))) in
    let tz = bit_xor pz (ones ((xi && not yi && not zi) || (yi && not zi))) in rotate yi zi tx ty tz

-- The loop of `iHilbert` over the levels below `level`.
unfoldable pub hilbert_loop : KeyType → ℕ → ℕ → ℕ → ℕ → ℕ → ℕ
unfolding turn
hilbert_loop k zero key px py pz = key
hilbert_loop k (suc level) key px py pz =
    let xi = has_bit px level in
    let yi = has_bit py level in
    let zi = has_bit pz level in
    let octant = bit xi * 4 + bit yi * 2 + bit zi in
    let turned = turn xi yi zi px py pz in
    hilbert_loop k level ((key * 8 + morton_to_hilbert ! octant) % modulus k) turned.0 turned.1
      turned.2

-- `iHilbert`.
unfoldable pub i_hilbert : KeyType → ℕ → ℕ → ℕ → ℕ
unfolding hilbert_loop
i_hilbert k px py pz = hilbert_loop k (max_tree_level k) 0 px py pz

-- A round of `decodeHilbert` on the digit of bits `xi`, `yi` and `zi`.
unfoldable pub unturn : Bool → Bool → Bool → ℕ → ℕ → ℕ → ℕ → ℕ × ℕ × ℕ
unturn xi yi zi level px py pz =
    let (rx, ry, rz) =
      if xor_bit yi zi
      then (pz, px, py)
      else if (not xi && not yi && not zi) || (xi && yi && zi)
      then (pz, py, px)
      else (px, py, pz) in
    let mask = 2 ^ level - 1 in
    let tx = bit_xor rx (bit_and mask (ones (xi && (yi || zi)))) in
    let ty =
      bit_xor ry (bit_and mask (ones ((xi && (not yi || not zi)) || (not xi && yi && zi)))) in
    let tz = bit_xor rz (bit_and mask (ones ((xi && not yi && not zi) || (yi && zi)))) in
    (
      bit_or tx (bit xi * 2 ^ level),
      bit_or ty (bit (xor_bit xi yi) * 2 ^ level),
      bit_or tz (bit (xor_bit yi zi) * 2 ^ level),
    )

-- The coordinates of `decodeHilbert` after the levels below a number.
unfoldable pub decode_levels : ℕ → ℕ → ℕ × ℕ × ℕ
unfolding unturn
decode_levels key zero = (0, 0, 0)
decode_levels key (suc level) =
    let octant = bit_and (key / 2 ^ (3 * level)) 7 in
    let (px, py, pz) = decode_levels key level in
    unturn (octant / 4 == 1) (octant / 2 % 2 == 1) (octant % 2 == 1) level px py pz

-- `decodeHilbert`.
unfoldable pub decode_hilbert : KeyType → ℕ → ℕ × ℕ × ℕ
unfolding decode_levels
decode_hilbert k key = decode_levels key (max_tree_level k)

-- `hilbertIBox`; `~(cubeLength - 1)` is 2 ^ 32 less the length.
unfoldable pub hilbert_ibox : KeyType → ℕ → ℕ → IBox
unfolding decode_hilbert
hilbert_ibox k key_start level =
    let cube_length = 2 ^ max_tree_level k / 2 ^ level in
    let mask = 0x1_0000_0000 - cube_length in
    let (ix, iy, iz) = decode_hilbert k key_start in
    record {
      xmin = pos (bit_and ix mask);
      xmax = pos (bit_and ix mask + cube_length);
      ymin = pos (bit_and iy mask);
      ymax = pos (bit_and iy mask + cube_length);
      zmin = pos (bit_and iz mask);
      zmax = pos (bit_and iz mask + cube_length);
    }

-- `hilbertIBoxKeys`.
unfoldable pub hilbert_ibox_keys : KeyType → ℕ → ℕ → IBox
unfolding hilbert_ibox
hilbert_ibox_keys k key_start key_end =
    hilbert_ibox k key_start (tree_level k (sub_key k key_end key_start))
