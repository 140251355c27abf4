-- ===== src/Tree/Csarray/Decision.antt =====
-- The decisions of `calculateNodeOp` on an array in the cornerstone format: what each opcode says,
-- and that the eight siblings of a merge decide together.
use cornerstone_octree.Base.{
  ℕ, zero, suc, ◌+◌, ◌-◌, ◌*◌, ◌^◌, ◌≤◌, ◌<◌, ◌≡◌, ◌≢◌, refl, ◌∙◌, arith, true, ltb, leb→le, ◌&&◌,
  List, ◌!◌, Option, none, some, inl, inr, Bool-cases,
}
use cornerstone_octree.Key.{KeyType, u32, max_tree_level, mul_key, mul_key_exact, n_nodes}
use cornerstone_octree.Tree.Leaves.{IsOctree}
use cornerstone_octree.Tree.Csarray.{
  sibling_and_level, parent_count, merges, split_op, calculate_node_op,
}
use cornerstone_octree.Tree.Csarray.Groups.{InGroup, level_found, sibling_found, member_found}

-- The opcodes that split are powers of eight that the levels below the node can hold.
split_op-pow8 :
    (k : KeyType) (level count bucket : ℕ)
    → level ≤ max_tree_level k
    → (d : ℕ) × (split_op k level count bucket ≡ 8 ^ d) × (d ≤ 4) × (level + d ≤ max_tree_level k)
unfolding split_op
split_op-pow8 k level count bucket h =
    elim (Bool-cases (ltb (mul_key u32 bucket 512) count && ltb (level + 3) (max_tree_level k))) [
      | inl a ↦ (4, rw a, omega arith, ground arith)
      | inr a ↦
          elim (Bool-cases
            (ltb (mul_key u32 bucket 64) count && ltb (level + 2) (max_tree_level k))) [
              | inl b ↦ (3, rw (a, b), omega arith, ground arith)
              | inr b ↦
                  elim (Bool-cases
                    (ltb (mul_key u32 bucket 8) count && ltb (level + 1) (max_tree_level k))) [
                      | inl c ↦ (2, rw (a, b, c), omega arith, ground arith)
                      | inr c ↦
                          elim (Bool-cases (ltb bucket count && ltb level (max_tree_level k))) [
                            | inl d ↦ (1, rw (a, b, c, d), omega arith, ground arith)
                            | inr d ↦ (0, rw (a, b, c, d), omega arith, ground arith)
                          ]
                    ]
            ]
    ]

-- A node within the bucket is not split, if the products of the bucket do not wrap.
pub split_op-fits :
    (k : KeyType) (level count bucket : ℕ)
    → bucket * 512 < 2 ^ 32
    → count ≤ bucket
    → split_op k level count bucket ≡ 1
unfolding split_op
split_op-fits k level count bucket small fits = ground (
  arith,
  mul_key_exact u32 bucket 512 small,
  mul_key_exact u32 bucket 64,
  mul_key_exact u32 bucket 8,
)

-- A node over the bucket is split, unless it stands at the deepest level.
pub split_op-over :
    (k : KeyType) (level count bucket : ℕ)
    → bucket < count
    → level < max_tree_level k
    → 8 ≤ split_op k level count bucket
unfolding split_op
split_op-over k level count bucket over deep = ground arith

split_op-pos : (k : KeyType) (level count bucket : ℕ) → 1 ≤ split_op k level count bucket
unfolding split_op
split_op-pos k level count bucket = ground arith

merges-true :
    (sibling : Option ℕ) (i : ℕ) (counts : List ℕ) (bucket : ℕ)
    → merges sibling i counts bucket ≡ true
    → (s : ℕ) × (sibling ≡ some (suc s)) × (parent_count counts (i - suc s) ≤ bucket)
unfolding merges
merges-true none i counts bucket t = cc
merges-true (some zero) i counts bucket t = cc
merges-true (some (suc s)) i counts bucket t = (s, refl, leb→le _ _ t)

module _ {k : KeyType} {tree : List ℕ} (o : IsOctree k tree) (counts : List ℕ) (bucket : ℕ) where
  abbrev n : ℕ
  n = n_nodes tree

  abbrev op : ℕ → ℕ
  op i = calculate_node_op k tree i counts bucket

  op-merge :
      (i : ℕ)
      → op i ≡ 0
      → (s : ℕ) × ((sibling_and_level k tree i).0 ≡ some (suc s))
        × (parent_count counts (i - suc s) ≤ bucket)
  unfolding calculate_node_op
  op-merge i zero_op =
      merges-true (sibling_and_level k tree i).0 i counts bucket
        (ground (arith, split_op-pos k (sibling_and_level k tree i).1 (counts ! i) bucket))

  pub op-split :
      (i : ℕ) → op i ≢ 0 → op i ≡ split_op k (sibling_and_level k tree i).1 (counts ! i) bucket
  unfolding calculate_node_op
  op-split i ne = ground arith

  -- A node with opcode 0 stands in a group, behind its first node, whose counts fit the bucket.
  pub merge_found :
      (i : ℕ)
      → i < n
      → op i ≡ 0
      → (s : ℕ) × (e : ℕ) × InGroup k tree i (suc s) e × (parent_count counts (i - suc s) ≤ bucket)
  merge_found i h zero_op =
      let (s, found, fits) = op-merge i zero_op in
      let (e, small, step) = o.steps i h in
      (s, e, sibling_found o i (suc s) e h small step found, fits)

  -- The other members of the group behind the first have opcode 0 as well.
  pub merge_rest :
      (i s e t : ℕ)
      → i < n
      → InGroup k tree i s e
      → parent_count counts (i - s) ≤ bucket
      → suc t < 8
      → op (i - s + suc t) ≡ 0
  unfolding calculate_node_op merges
  merge_rest i s e t h group fits p =
      let (member, found) = member_found o i s e (suc t) h group p in
      let first : i - s + suc t - suc t ≡ i - s = omega arith in rw (found, first) (ground arith)

  -- The first is kept.
  pub merge_first :
      (i s e : ℕ)
      → bucket * 512 < 2 ^ 32
      → i < n
      → InGroup k tree i s e
      → parent_count counts (i - s) ≤ bucket
      → op (i - s) ≡ 1
  unfolding calculate_node_op merges
  merge_first i s e small h group fits =
      let (member, found) = member_found o i s e 0 h group (omega arith) in
      let first : i - s + 0 ≡ i - s = omega arith in
      let found' : sibling_and_level k tree (i - s) ≡ (some 0, max_tree_level k - e) =
        rw first at found in
      rw found' (
        split_op-fits k (max_tree_level k - e) (counts ! (i - s)) bucket small
          (unfold parent_count in omega arith))

  -- Any other opcode is a power of eight that divides the node's size.
  pub split_found :
      (i : ℕ)
      → i < n
      → op i ≢ 0
      → (d : ℕ) × (e : ℕ) × (op i ≡ 8 ^ d)
        × (d ≤ 4)
        × (d ≤ e)
        × (e ≤ max_tree_level k)
        × (tree ! suc i ≡ tree ! i + 8 ^ e)
  split_found i h ne =
      let (e, small, step) = o.steps i h in
      let level = level_found o i e h small step in
      let (d, power, few, room) =
        split_op-pow8 k (sibling_and_level k tree i).1 (counts ! i) bucket (omega (arith, level)) in
      (d, e, op-split i ne ∙ power, few, omega (arith, level), small, step)
