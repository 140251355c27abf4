-- ===== src/Tree/Linked/Levels.antt =====
-- What `getLevelRangeCpu` of include/cstone/tree/octree.hpp finds in sorted node keys.
use native.Mathlib.Decide.{dec_lt, dec_le}
use cornerstone_octree.Base.{
  ℕ, suc, ◌+◌, ◌-◌, ◌*◌, ◌/◌, ◌^◌, ◌≤◌, ◌<◌, ◌≡◌, ap, sym, ◌∙◌, arith, List, length, ◌!◌, ◌↔◌,
  get_or-set_self, get_or-set_ne,
}
use cornerstone_octree.Base.Loops.{fill, length-fill, get_or-fill}
use cornerstone_octree.Base.Pow.{pow2_triple, pow8-suc, pow8-pos, pow8_mono}
use cornerstone_octree.Key.{KeyType, max_tree_level}
use cornerstone_octree.Primitives.Search.{lower_bound}
use cornerstone_octree.Primitives.Search.Splits.{IsSortedIn, lower_bound-Splits}
use cornerstone_octree.Sfc.Prefix.{encode_placeholder_bit, decode_prefix_length}
use cornerstone_octree.Sfc.Prefix.RoundTrip.{encode_placeholder_bit-top, decode_prefix_length-top}
use cornerstone_octree.Tree.Linked.{get_level_range}

-- A key in the placeholder-bit format of the node of level `level` at the key `code`.
pub record IsNodeKey (k : KeyType) (prefix : ℕ) : Type 0 where
  pub level : ℕ
  pub code : ℕ
  pub fits : level ≤ max_tree_level k
  pub inside : code < 8 ^ max_tree_level k
  pub is : prefix ≡ encode_placeholder_bit k code (3 * level)

-- The first key that a node of a level can have.
first_key :
    (k : KeyType) (l : ℕ) → l ≤ max_tree_level k → encode_placeholder_bit k 0 (3 * l) ≡ 8 ^ l
first_key k l fits =
    (encode_placeholder_bit-top k 0 (3 * l) (omega arith) (pow8-pos (max_tree_level k))).1
    ∙ omega (arith, pow2_triple l)

module _ (k : KeyType) (prefix : ℕ) (node : IsNodeKey k prefix) where
  pub IsNodeKey-bounds : (8 ^ node.level ≤ prefix) × (prefix < 8 ^ suc node.level)
  IsNodeKey-bounds =
      let l = node.level in
      let (digits, encoded) =
        encode_placeholder_bit-top k node.code (3 * l) (omega (arith, node.fits)) node.inside in
      rw (node.is ∙ encoded) (
        omega (arith, digits, pow2_triple l, pow8-suc l),
        omega (arith, digits, pow2_triple l, pow8-suc l, pow8-pos l),
      )

  IsNodeKey-length : decode_prefix_length k prefix ≡ 3 * node.level
  IsNodeKey-length =
      let l = node.level in
      let (digits, encoded) =
        encode_placeholder_bit-top k node.code (3 * l) (omega (arith, node.fits)) node.inside in
      ap (decode_prefix_length k) (node.is ∙ encoded)
      ∙ decode_prefix_length-top k (3 * l) (node.code / 2 ^ (3 * max_tree_level k - 3 * l))
          (omega (arith, node.fits)) digits

-- A number between two powers of 8 determines them.
octave_unique : (a b p : ℕ) → 8 ^ a ≤ p → p < 8 ^ suc a → 8 ^ b ≤ p → p < 8 ^ suc b → a ≡ b
octave_unique a b p la ua lb ub = elim (dec_lt a b) [
  | yes lt ↦ absurd (omega (arith, pow8_mono (suc a) b lt))
  | no ge ↦ elim (dec_lt b a) [
    | yes lt ↦ absurd (omega (arith, pow8_mono (suc b) a lt))
    | no le ↦ omega arith
  ]
]

module _ (k : KeyType) (node_keys : List ℕ) (num_nodes : ℕ) (level_range : List ℕ)
    (room : length level_range ≡ max_tree_level k + 2) (sorted : IsSortedIn node_keys 0 num_nodes)
    (nodes : (i : ℕ) → i < num_nodes → IsNodeKey k (node_keys ! i)) where
  -- The entry of a level is the search for the first key of the level.
  pub get_level_range-entry :
      (l : ℕ)
      → l ≤ max_tree_level k
      → get_level_range k node_keys num_nodes level_range ! l
        ≡ lower_bound node_keys 0 num_nodes (8 ^ l)
  unfolding get_level_range
  get_level_range-entry l fits =
      let starts =
        λ (level : ℕ). lower_bound node_keys 0 num_nodes (encode_placeholder_bit k 0 (3 * level)) in
      get_or-set_ne (fill (max_tree_level k + 1) 0 starts level_range) (max_tree_level k + 1) l
        num_nodes 0 (omega arith)
      ∙ get_or-fill (max_tree_level k + 1) 0 starts level_range l 0 (omega arith) (omega arith)
          (omega (arith, room))
      ∙ ap (lower_bound node_keys 0 num_nodes) (first_key k l fits)

  pub get_level_range-end :
      get_level_range k node_keys num_nodes level_range ! (max_tree_level k + 1) ≡ num_nodes
  unfolding get_level_range
  get_level_range-end =
      let starts =
        λ (level : ℕ). lower_bound node_keys 0 num_nodes (encode_placeholder_bit k 0 (3 * level)) in
      get_or-set_self (fill (max_tree_level k + 1) 0 starts level_range) (max_tree_level k + 1)
        num_nodes 0 (omega (arith, room, length-fill (max_tree_level k + 1) 0 starts level_range))

  -- The nodes from the entry of a level on are those with a key of at least the first one.
  pub get_level_range-splits :
      (l i : ℕ)
      → l ≤ max_tree_level k + 1
      → i < num_nodes
      → (get_level_range k node_keys num_nodes level_range ! l ≤ i) ↔ (8 ^ l ≤ node_keys ! i)
  get_level_range-splits l i fits here = elim (dec_le l (max_tree_level k)) [
    | yes p ↦
        let s = lower_bound-Splits node_keys 0 num_nodes (8 ^ l) (omega arith) sorted in
        rw (get_level_range-entry l p) (
          (λ h. s.above i h here),
          λ h. elim (dec_le (lower_bound node_keys 0 num_nodes (8 ^ l)) i) [
            | yes q ↦ q
            | no q ↦ absurd (omega (arith, s.below i (omega arith) (omega arith)))
          ],
        )
    | no p ↦
        let last : l ≡ max_tree_level k + 1 = omega arith in
        let node = nodes i here in
        rw (last, get_level_range-end)
          (
            (λ h. absurd (omega arith)),
            λ h. absurd (
                omega (
                  arith,
                  (IsNodeKey-bounds k (node_keys ! i) node).1,
                  pow8_mono (suc node.level) (max_tree_level k + 1) (omega (arith, node.fits)),
                )),
          )
  ]

  -- On sorted keys of nodes in the placeholder-bit format, `getLevelRangeCpu` gives the boundaries of the
  -- levels: a node stands between the entries of a level and the next one exactly if it is of that level,
  -- which is a third of what `decodePrefixLength` gives. The array of boundaries has `maxTreeLevel` + 2
  -- entries.
  pub get_level_range-levels :
      (l i : ℕ)
      → l ≤ max_tree_level k
      → i < num_nodes
      → ((get_level_range k node_keys num_nodes level_range ! l ≤ i)
          × (i < get_level_range k node_keys num_nodes level_range ! (l + 1)))
        ↔ (decode_prefix_length k (node_keys ! i) ≡ 3 * l)
  get_level_range-levels l i fits here =
      let p = node_keys ! i in
      let node = nodes i here in
      let (lo, hi) = IsNodeKey-bounds k p node in
      let digits = IsNodeKey-length k p node in
      let power : 8 ^ (l + 1) ≡ 8 ^ suc l = ap (λ (n : ℕ). 8 ^ n) (omega arith) in
      let this = get_level_range-splits l i (omega arith) here in
      let next = get_level_range-splits (l + 1) i (omega arith) here in
      (
        λ (from, to).
            let below : p < 8 ^ suc l = elim (dec_lt p (8 ^ suc l)) [
              | yes q ↦ q
              | no q ↦ absurd (omega (arith, power, next.1 (omega (arith, power))))
            ] in
            digits ∙ ap (λ (n : ℕ). 3 * n) (octave_unique node.level l p lo hi (this.0 from) below),
        λ h.
            let same : node.level ≡ l = omega (arith, h, digits) in
            let lower : 8 ^ l ≤ p = rw (sym same) lo in
            let upper : p < 8 ^ suc l = rw (sym same) hi in
            (
              this.1 lower,
              elim (dec_lt i (get_level_range k node_keys num_nodes level_range ! (l + 1))) [
                | yes q ↦ q
                | no q ↦ absurd (omega (arith, power, next.0 (omega arith), upper))
              ],
            ),
      )
