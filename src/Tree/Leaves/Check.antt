-- ===== src/Tree/Leaves/Check.antt =====
-- `checkOctreeInvariants` decides the format, for keys inside the key range.
use native.Mathlib.Decide.{dec_lt}
use cornerstone_octree.Base.{
  ℕ, zero, suc, ◌+◌, ◌^◌, ◌≤◌, ◌<◌, ◌≡◌, ◌≢◌, refl, ap, ◌∙◌, arith, true, List, ◌!◌, ◌↔◌,
}
use cornerstone_octree.Base.Pow.{pow8-pos}
use cornerstone_octree.Key.{KeyType, max_tree_level, modulus, sub_key, n_nodes, sub_key_exact}
use cornerstone_octree.Sfc.Range.{node_range, is_power_of8, node_range_root, range_lt}
use cornerstone_octree.Sfc.Power.{is_power_of8_iff, is_power_of8-pow8}
use cornerstone_octree.Tree.Leaves.{check_nodes, check_octree_invariants, IsOctree}

le_lt_trans : (a b c : ℕ) → a ≤ b → b < c → a < c
le_lt_trans a b c h p = omega arith

module _ (k : KeyType) (tree : List ℕ) (n : ℕ) (last : tree ! n ≡ 8 ^ max_tree_level k) where
  abbrev IsStep : ℕ → Type 0
  IsStep i = (e : ℕ) × (e ≤ max_tree_level k) × (tree ! suc i ≡ tree ! i + 8 ^ e)

  top_lt : 8 ^ max_tree_level k < modulus k
  top_lt = range_lt k (max_tree_level k) (omega arith)

  module _ (in_range : (i : ℕ) → i ≤ n → tree ! i ≤ 8 ^ max_tree_level k) where
    -- One round of the loop that does not return.
    round_IsStep :
        (left i : ℕ)
        → i < n
        → check_nodes k tree n (suc left) i ≡ true
        → IsStep i × (check_nodes k tree n left (suc i) ≡ true)
    unfolding check_nodes
    round_IsStep left i h t =
        let next : i + 1 ≡ suc i = omega arith in
        let at_end = λ (p : suc i ≡ n). ap (λ j. tree ! j) p ∙ last in
        let parts : ((suc i < n → tree ! i < tree ! suc i))
            × (sub_key k (tree ! suc i) (tree ! i) ≢ 0)
            × (is_power_of8 k (sub_key k (tree ! suc i) (tree ! i)) ≡ true)
            × (check_nodes k tree n left (suc i) ≡ true) =
          (λ p. ground arith, ground arith, ground arith, ground arith) in
        let le : tree ! i ≤ tree ! suc i = elim (dec_lt (suc i) n) [
          | yes p ↦ omega (arith, parts.0 p)
          | no p ↦ rw (at_end (omega arith)) (in_range i (omega arith))
        ] in
        let bound = in_range (suc i) h in
        let exact = sub_key_exact k (tree ! suc i) (tree ! i) le (omega (arith, top_lt)) in
        let (e, small, power) =
          (is_power_of8_iff k (sub_key k (tree ! suc i) (tree ! i)) (omega (arith, parts.1))
              (omega (arith, exact))).0
            parts.2 in
        ((e, small, omega (arith, exact, power)), parts.3)

    loop_IsStep :
        (left i : ℕ)
        → i + left ≡ n
        → check_nodes k tree n left i ≡ true
        → (j : ℕ) → i ≤ j
        → j < n
        → IsStep j
    loop_IsStep zero i e t j lo hi = absurd (omega arith)
    loop_IsStep (suc left) i e t j lo hi =
        let (here, later) = round_IsStep left i (omega arith) t in
        elim (dec_lt i j) [
          | yes p ↦ loop_IsStep left (suc i) (omega arith) later j p hi
          | no p ↦ let same : i ≡ j = omega arith in rw same at here
        ]

  IsStep-round :
      (left i : ℕ)
      → i < n
      → tree ! suc i < modulus k
      → IsStep i
      → check_nodes k tree n (suc left) i ≡ check_nodes k tree n left (suc i)
  unfolding check_nodes
  IsStep-round left i h b (e, small, step) =
      let next : i + 1 ≡ suc i = omega arith in
      let exact = sub_key_exact k (tree ! suc i) (tree ! i) (omega arith) b in
      let range : sub_key k (tree ! suc i) (tree ! i) ≡ 8 ^ e = omega (arith, exact) in
      ground (arith, range, pow8-pos e, is_power_of8-pow8 k e small, next)

  IsStep-loop :
      ((i : ℕ) → i < n → tree ! suc i < modulus k)
      → ((i : ℕ) → i < n → IsStep i)
      → (left i : ℕ) → i + left ≡ n
      → check_nodes k tree n left i ≡ true
  IsStep-loop b steps zero i e = unfold check_nodes in refl
  IsStep-loop b steps (suc left) i e =
      IsStep-round left i (omega arith) (b i (omega arith)) (steps i (omega arith))
      ∙ IsStep-loop b steps left (suc i) (omega arith)

module _ (k : KeyType) (tree : List ℕ) where
  check→IsOctree :
      ((i : ℕ) → i ≤ n_nodes tree → tree ! i ≤ 8 ^ max_tree_level k)
      → check_octree_invariants k tree (n_nodes tree) ≡ true
      → IsOctree k tree
  unfolding check_octree_invariants
  check→IsOctree in_range t =
      let parts : (1 ≤ n_nodes tree)
          × (tree ! 0 ≡ 0)
          × (tree ! n_nodes tree ≡ node_range k 0)
          × (check_nodes k tree (n_nodes tree) (n_nodes tree) 0 ≡ true) =
        (ground arith, ground arith, ground arith, ground arith) in
      let last = parts.2 ∙ node_range_root k in
      record {
        some_node = unfold n_nodes in omega (arith, parts.0);
        first = parts.1;
        last = last;
        steps = λ i h.
            loop_IsStep k tree (n_nodes tree) last in_range (n_nodes tree) 0 (omega arith) parts.3 i
              (omega arith) h;
      }

  IsOctree→check :
      ((i : ℕ) → i ≤ n_nodes tree → tree ! i ≤ 8 ^ max_tree_level k)
      → IsOctree k tree
      → check_octree_invariants k tree (n_nodes tree) ≡ true
  unfolding check_octree_invariants
  IsOctree→check in_range o =
      let some : 1 ≤ n_nodes tree = unfold n_nodes in omega (arith, o.some_node) in
      let bound = λ (i : ℕ) (h : i < n_nodes tree).
        let small = in_range (suc i) h in
        le_lt_trans (tree ! suc i) (8 ^ max_tree_level k) (modulus k) small
          (top_lt k tree (n_nodes tree) o.last) in
      ground (
        arith,
        o.first,
        o.last,
        node_range_root k,
        IsStep-loop k tree (n_nodes tree) o.last bound o.steps (n_nodes tree) 0 (omega arith),
      )

-- For keys inside the key range, `checkOctreeInvariants` accepts an array exactly when it is in the
-- cornerstone format.
pub check_octree_invariants_iff :
    (k : KeyType) (tree : List ℕ)
    → ((i : ℕ) → i ≤ n_nodes tree → tree ! i ≤ 8 ^ max_tree_level k)
    → (check_octree_invariants k tree (n_nodes tree) ≡ true) ↔ IsOctree k tree
check_octree_invariants_iff k tree in_range =
    (check→IsOctree k tree in_range, IsOctree→check k tree in_range)
