-- ===== src/Tree/Linked/Search.antt =====
-- The key of a first child, and the test of `linkTreeCpu` of include/cstone/tree/octree.hpp for one.
use native.Mathlib.Nat.{suc-mul, mul-le-mul_right, mul_comm, mul_assoc, mul-div_cancel}
use cornerstone_octree.Base.{
  ℕ, suc, ◌+◌, ◌-◌, ◌*◌, ◌/◌, ◌^◌, ◌≤◌, ◌<◌, ◌≡◌, ap, sym, ◌∙◌, arith, List, ◌!◌, ◌==◌, ◌&&◌, not,
  Bool, true,
}
use cornerstone_octree.Base.Pow.{pow2_triple, pow8-suc, pow8-pos, pow8-add}
use cornerstone_octree.Key.{KeyType, max_tree_level}
use cornerstone_octree.Primitives.Search.{lower_bound}
use cornerstone_octree.Sfc.Prefix.{
  encode_placeholder_bit, decode_prefix_length, decode_placeholder_bit,
}
use cornerstone_octree.Sfc.Prefix.RoundTrip.{encode_placeholder_bit-top}
use cornerstone_octree.Tree.Linked.Levels.{IsNodeKey}
use cornerstone_octree.Tree.Linked.Containing.{HasLevel, HasLevel-length, HasLevel-key}

-- What the loop computes for the node `idx`: where it finds the first child, and whether that is one.
abbrev pub search_end : KeyType → List ℕ → List ℕ → ℕ → ℕ
search_end k prefixes level_range idx =
    level_range ! (decode_prefix_length k (prefixes ! idx) / 3 + 2)

abbrev pub child_prefix : KeyType → List ℕ → ℕ → ℕ
child_prefix k prefixes idx =
    encode_placeholder_bit k (decode_placeholder_bit k (prefixes ! idx))
      (decode_prefix_length k (prefixes ! idx) + 3)

abbrev pub found_child : KeyType → List ℕ → List ℕ → ℕ → ℕ
found_child k prefixes level_range idx =
    lower_bound prefixes (level_range ! (decode_prefix_length k (prefixes ! idx) / 3 + 1))
      (search_end k prefixes level_range idx) (child_prefix k prefixes idx)

abbrev pub has_child : KeyType → List ℕ → List ℕ → ℕ → Bool
has_child k prefixes level_range idx =
    not (found_child k prefixes level_range idx == search_end k prefixes level_range idx)
    && child_prefix k prefixes idx == prefixes ! found_child k prefixes level_range idx

pub IsNodeKey-HasLevel : (k : KeyType) (p : ℕ) (node : IsNodeKey k p) → HasLevel p node.level
IsNodeKey-HasLevel k p node =
    let l = node.level in
    let (digits, encoded) =
      encode_placeholder_bit-top k node.code (3 * l) (omega (arith, node.fits)) node.inside in
    rw (node.is ∙ encoded)
      (omega (arith, digits, pow2_triple l), omega (arith, digits, pow2_triple l))

-- The key of a node's first child is 8 times the node's.
pub child_prefix-eight :
    (k : KeyType) (prefixes : List ℕ) (idx level : ℕ)
    → level < max_tree_level k
    → HasLevel (prefixes ! idx) level
    → child_prefix k prefixes idx ≡ 8 * (prefixes ! idx)
child_prefix-eight k prefixes idx level inner key =
    let q : ℕ = prefixes ! idx in
    let r : ℕ = q - 8 ^ level in
    let behind : ℕ = max_tree_level k - level in
    let place : 3 * max_tree_level k - (3 * level + 3) ≡ 3 * (behind - 1) = omega arith in
    let size : 2 ^ (3 * max_tree_level k - (3 * level + 3)) ≡ 8 ^ (behind - 1) =
      ap (λ (t : ℕ). 2 ^ t) place ∙ pow2_triple (behind - 1) in
    let tail : 8 ^ behind ≡ 8 * 8 ^ (behind - 1) =
      ap (λ (t : ℕ). 8 ^ t) (omega arith) ∙ pow8-suc (behind - 1) in
    let code_is : decode_placeholder_bit k q ≡ r * 8 ^ behind =
      HasLevel-key k q level (omega arith) key in
    let top : 8 ^ max_tree_level k ≡ 8 ^ level * 8 ^ behind =
      ap (λ (t : ℕ). 8 ^ t) (omega arith) ∙ pow8-add behind level in
    let small : suc r ≤ 8 ^ level = omega arith in
    let inside : r * 8 ^ behind < 8 ^ max_tree_level k =
      omega (
        arith,
        suc-mul r (8 ^ behind),
        mul-le-mul_right (8 ^ behind) small,
        top,
        pow8-pos behind,
      ) in
    let quotient : r * 8 ^ behind / 8 ^ (behind - 1) ≡ 8 * r =
      ap (λ (t : ℕ). r * t / 8 ^ (behind - 1)) tail
      ∙ ap (λ (t : ℕ). t / 8 ^ (behind - 1))
          (sym (mul_assoc r 8 (8 ^ (behind - 1)))
            ∙ ap (λ (t : ℕ). t * 8 ^ (behind - 1)) (mul_comm r 8))
      ∙ mul-div_cancel (8 * r) (pow8-pos (behind - 1)) in
    let len : decode_prefix_length k q + 3 ≡ 3 * level + 3 =
      ap (λ (t : ℕ). t + 3) (HasLevel-length k q level (omega arith) key) in
    let whole : 2 ^ (3 * level + 3) ≡ 8 * 8 ^ level =
      ap (λ (t : ℕ). 2 ^ t) (omega arith) ∙ pow2_triple (suc level) ∙ pow8-suc level in
    ap (encode_placeholder_bit k (decode_placeholder_bit k q)) len
    ∙ ap (λ (t : ℕ). encode_placeholder_bit k t (3 * level + 3)) code_is
    ∙ (encode_placeholder_bit-top k (r * 8 ^ behind) (3 * level + 3) (omega arith) inside).1
    ∙ ap (λ (t : ℕ). 2 ^ (3 * level + 3) + r * 8 ^ behind / t) size
    ∙ omega (arith, quotient, whole)

-- The test of the loop, whose numbers are known to be others.
pub passes :
    (prefixes : List ℕ) {r end end' c child : ℕ} (key : ℕ)
    → r ≡ c
    → c < end'
    → end ≡ end'
    → child ≡ key
    → prefixes ! c ≡ key
    → (not (r == end) && child == prefixes ! r) ≡ true
passes prefixes key same to ends is found = rw (same, ends, is) (ground arith)

pub passed :
    (prefixes : List ℕ) {r end end' child n : ℕ} (key : ℕ)
    → r ≤ end'
    → end' ≤ n
    → end ≡ end'
    → child ≡ key
    → (not (r == end) && child == prefixes ! r) ≡ true
    → (r < n) × (prefixes ! r ≡ key)
passed prefixes key to within ends is test = ground (arith, to, within, ends, is, test)
