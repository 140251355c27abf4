-- ===== src/Tree/Linked/Containing.antt =====
-- That `containingNode` of include/cstone/tree/octree.hpp finds the smallest node around a key.
use native.Mathlib.Nat.{div-div-eq-div-mul, mul-div-mul_right, mul_comm, div-eq_of_lt-le}
use cornerstone_octree.Base.{
  ℕ, zero, suc, ◌+◌, ◌-◌, ◌*◌, ◌/◌, ◌%◌, ◌^◌, ◌≤◌, ◌<◌, ◌≡◌, ◌≢◌, ap, sym, ◌∙◌, arith, List, ◌!◌,
  ◌⊎◌, inl, inr, ◌==◌, ◌||◌, Bool-cases,
}
use cornerstone_octree.Base.Pow.{
  pow2_triple, pow8-suc, pow8-pos, pow8-add, pow8_multiple, div-add_multiple,
}
use cornerstone_octree.Key.{KeyType, max_tree_level}
use cornerstone_octree.Sfc.Range.{octal_digit, octal_digit-div}
use cornerstone_octree.Sfc.Prefix.{decode_prefix_length, decode_placeholder_bit}
use cornerstone_octree.Sfc.Prefix.RoundTrip.{decode_prefix_length-top, decode_placeholder_bit-top}
use cornerstone_octree.Tree.Linked.{descend_to, containing_node}

-- A key in the placeholder-bit format of a node of level `l`: a 1 before the digits. The key of its parent is
-- an eighth of it.
abbrev pub HasLevel : ℕ → ℕ → Type 0
HasLevel q l = (8 ^ l ≤ q) × (q < 2 * 8 ^ l)

-- A node that is not a leaf has its eight children in a row.
abbrev pub HasChildren : List ℕ → List ℕ → Type 0
HasChildren prefixes child_offsets =
    (node octant : ℕ)
    → child_offsets ! node ≢ 0
    → octant < 8
    → prefixes ! (child_offsets ! node + octant) ≡ 8 * prefixes ! node + octant

module _ (k : KeyType) (q level : ℕ) (fits : level ≤ max_tree_level k)
    (key : HasLevel q level) where
  split_key : q ≡ 2 ^ (3 * level) + (q - 8 ^ level)
  split_key = omega (arith, pow2_triple level)

  digits_small : q - 8 ^ level < 2 ^ (3 * level)
  digits_small = omega (arith, pow2_triple level)

  pub HasLevel-length : decode_prefix_length k q ≡ 3 * level
  HasLevel-length =
      ap (decode_prefix_length k) split_key
      ∙ decode_prefix_length-top k (3 * level) (q - 8 ^ level) (omega arith) digits_small

  pub HasLevel-key : decode_placeholder_bit k q ≡ (q - 8 ^ level) * 8 ^ (max_tree_level k - level)
  HasLevel-key =
      let place : 3 * max_tree_level k - 3 * level ≡ 3 * (max_tree_level k - level) = omega arith in
      ap (decode_placeholder_bit k) split_key
      ∙ decode_placeholder_bit-top k (3 * level) (q - 8 ^ level) (omega arith) digits_small
      ∙ ap (λ (t : ℕ). (q - 8 ^ level) * t)
          (ap (λ (t : ℕ). 2 ^ t) place ∙ pow2_triple (max_tree_level k - level))

  -- The digit of the key at a place above the node's is a digit of its prefix.
  HasLevel-digit :
      (i : ℕ)
      → 1 ≤ i
      → i ≤ level
      → octal_digit k (decode_placeholder_bit k q) i ≡ q / 8 ^ (level - i) % 8
  HasLevel-digit i from to =
      let r : ℕ = q - 8 ^ level in
      let behind : ℕ = max_tree_level k - level in
      let split : max_tree_level k - i ≡ (level - i) + behind = omega arith in
      let places : 8 ^ (max_tree_level k - i) ≡ 8 ^ (level - i) * 8 ^ behind =
        ap (λ (t : ℕ). 8 ^ t) split ∙ pow8-add behind (level - i) in
      let top : 8 ^ level ≡ 8 ^ (level - (level - i)) * 8 ^ (level - i) =
        pow8_multiple (level - i) level (omega arith) in
      let back : level - (level - i) ≡ suc (i - 1) = omega arith in
      let top' : 8 ^ level ≡ 8 ^ suc (i - 1) * 8 ^ (level - i) =
        top ∙ ap (λ (t : ℕ). 8 ^ t * 8 ^ (level - i)) back in
      let whole : q ≡ r + 8 ^ suc (i - 1) * 8 ^ (level - i) = omega (arith, top') in
      octal_digit-div k (decode_placeholder_bit k q) i
      ∙ ap (λ (t : ℕ). t / 8 ^ (max_tree_level k - i) % 8) HasLevel-key
      ∙ ap (λ (t : ℕ). r * 8 ^ behind / t % 8) places
      ∙ ap (λ (t : ℕ). t % 8) (mul-div-mul_right r (8 ^ (level - i)) (pow8-pos behind))
      ∙ omega (
        arith,
        ap (λ (t : ℕ). t / 8 ^ (level - i)) whole,
        div-add_multiple r (level - i) (8 ^ suc (i - 1)),
        pow8-suc (i - 1),
      )

  -- The prefixes of a node's ancestors, one level after another.
  ancestor_step :
      (i : ℕ)
      → 1 ≤ i
      → i ≤ level
      → q / 8 ^ (level - i) ≡ 8 * (q / 8 ^ (level - (i - 1))) + q / 8 ^ (level - i) % 8
  ancestor_step i from to =
      let up : level - (i - 1) ≡ suc (level - i) = omega arith in
      let eighth : q / 8 ^ (level - (i - 1)) ≡ q / 8 ^ (level - i) / 8 =
        ap (λ (t : ℕ). q / 8 ^ t) up
        ∙ ap (λ (t : ℕ). q / t) (pow8-suc (level - i) ∙ mul_comm 8 (8 ^ (level - i)))
        ∙ sym (div-div-eq-div-mul q (8 ^ (level - i)) 8) in
      omega (arith, eighth)

  module _ (prefixes child_offsets : List ℕ) (linked : HasChildren prefixes child_offsets) where
    -- A node around the key's, that is a leaf or the key's own.
    abbrev pub IsClosest : ℕ → Type 0
    IsClosest node =
        (l : ℕ) × (l ≤ level)
        × (prefixes ! node ≡ q / 8 ^ (level - l))
        × ((child_offsets ! node ≡ 0) ⊎ (prefixes ! node ≡ q))

    descend_to-IsClosest :
        (left i ret : ℕ)
        → 1 ≤ i
        → i + left ≡ level + 1
        → prefixes ! ret ≡ q / 8 ^ (level - (i - 1))
        → IsClosest (descend_to k q (decode_placeholder_bit k q) prefixes child_offsets left i ret)
    unfolding descend_to
    descend_to-IsClosest zero i ret from all here =
        let none : level - (i - 1) ≡ 0 = omega arith in
        (i - 1, omega arith, here, inr (here ∙ ap (λ (t : ℕ). q / 8 ^ t) none ∙ omega arith))
    descend_to-IsClosest (suc left) i ret from all here =
        elim (Bool-cases (child_offsets ! ret == 0 || q == prefixes ! ret)) [
          | inl stop ↦ rw (stop, descend_to) (i - 1, omega arith, here, ground arith)
          | inr go ↦
              let inner : child_offsets ! ret ≢ 0 = ground arith in
              let digit = HasLevel-digit i from (omega arith) in
              let small : octal_digit k (decode_placeholder_bit k q) i < 8 = omega (arith, digit) in
              let child : prefixes
                    ! (child_offsets ! ret + octal_digit k (decode_placeholder_bit k q) i)
                  ≡ q / 8 ^ (level - i) =
                linked ret (octal_digit k (decode_placeholder_bit k q) i) inner small
                ∙ omega (arith, digit, here, ancestor_step i from (omega arith)) in
              let again : i + 1 - 1 ≡ i = omega arith in
              rw (go, descend_to)
                (descend_to-IsClosest left (i + 1)
                  (child_offsets ! ret + octal_digit k (decode_placeholder_bit k q) i) (omega arith)
                  (omega arith) (child ∙ ap (λ (t : ℕ). q / 8 ^ (level - t)) (sym again)))
        ]

    -- In a tree whose inner nodes have their eight children in a row, `containingNode` gives a node whose prefix is
    -- that of the given node's ancestor or its own, and which is a leaf or the given node: the smallest that
    -- contains it.
    pub containing_node-IsClosest :
        prefixes ! 0 ≡ 1 → IsClosest (containing_node k q prefixes child_offsets)
    unfolding containing_node
    containing_node-IsClosest root =
        let levels : decode_prefix_length k q / 3 ≡ level = omega (arith, HasLevel-length) in
        let none : level - (1 - 1) ≡ level = omega arith in
        let top : q / 8 ^ level ≡ 1 = div-eq_of_lt-le (8 ^ level) (omega arith) (omega arith) in
        let first : prefixes ! 0 ≡ q / 8 ^ (level - (1 - 1)) =
          root ∙ sym (ap (λ (t : ℕ). q / 8 ^ t) none ∙ top) in
        let loop = descend_to-IsClosest level 1 0 (omega arith) (omega arith) first in
        rw (levels, containing_node) loop
