-- ===== src/Tree/Csarray/Valid.antt =====
-- A rebalance step keeps the cornerstone format.
use native.Mathlib.Nat.{add-zero, zero-add, suc-mul, mul-div_cancel, zero-mul, mul_comm}
use mathlib.Core.Path.{subst, subst₂}
use native.Mathlib.Decide.{dec_lt, ℕ_discrete}
use cornerstone_octree.Base.{
  ℕ, zero, suc, ◌+◌, ◌-◌, ◌*◌, ◌/◌, ◌^◌, ◌≤◌, ◌<◌, ◌≡◌, ◌≢◌, refl, ap, sym, ◌∙◌, arith, List, ◌!◌,
}
use cornerstone_octree.Base.Pow.{pow8-pos, pow8_multiple}
use cornerstone_octree.Key.{KeyType, max_tree_level, n_nodes}
use cornerstone_octree.Tree.Leaves.{IsOctree}
use cornerstone_octree.Tree.Leaves.Chain.{Chain, Chain-append}
use cornerstone_octree.Tree.Csarray.{calculate_node_op, parent_count}
use cornerstone_octree.Tree.Csarray.Siblings.{group_sizes}
use cornerstone_octree.Tree.Csarray.Groups.{InGroup}
use cornerstone_octree.Tree.Csarray.Decision.{merge_found, merge_rest, merge_first, split_found}
use cornerstone_octree.Tree.Csarray.Pieces.{ramp, split_node}
use cornerstone_octree.Tree.Csarray.Rebalance.{refine_nodes}

module _ (k : KeyType) (Q : ℕ → ℕ → Type 0) where
  ramp-Chain :
      (a x left s : ℕ)
      → x ≤ max_tree_level k
      → ((t : ℕ) → t < s + left → Q (a + t * 8 ^ x) x)
      → Chain k Q (a + s * 8 ^ x) (ramp a (8 ^ x) left s) (a + (s + left) * 8 ^ x)
  unfolding ramp
  ramp-Chain a x zero s small facts = rw add-zero refl
  ramp-Chain a x (suc left) s small facts =
      let there : s + suc left ≡ suc s + left = omega arith in
      let here : a + s * 8 ^ x + 8 ^ x ≡ a + suc s * 8 ^ x = omega (arith, suc-mul s (8 ^ x)) in
      (
        refl,
        x,
        small,
        facts s (omega arith),
        rw (here, there) (ramp-Chain a x left (suc s) small (λ t p. facts t (omega arith))),
      )

  -- The pieces of one node fill it.
  split_node-Chain :
      (a b d e : ℕ)
      → d ≤ e
      → e ≤ max_tree_level k
      → b ≡ a + 8 ^ e
      → ((t : ℕ) → t < 8 ^ d → Q (a + t * 8 ^ (e - d)) (e - d))
      → Chain k Q a (split_node a b (8 ^ d)) b
  unfolding split_node
  split_node-Chain a b d e de small size facts =
      let whole = pow8_multiple d e de in
      let span : b - a ≡ 8 ^ (e - d) * 8 ^ d = omega (arith, whole) in
      let piece : (b - a) / 8 ^ d ≡ 8 ^ (e - d) =
        ap (λ t. t / 8 ^ d) span ∙ mul-div_cancel (8 ^ (e - d)) (pow8-pos d) in
      let start : a + 0 * 8 ^ (e - d) ≡ a = omega (arith, zero-mul (8 ^ (e - d))) in
      let end : a + (0 + 8 ^ d) * 8 ^ (e - d) ≡ b =
        rw zero-add (omega (arith, whole, mul_comm (8 ^ (e - d)) (8 ^ d))) in
      subst₂ (λ u v. Chain k Q u (split_node a b (8 ^ d)) v) start end
        (rw piece (ramp-Chain a (e - d) (8 ^ d) 0 (omega arith) (λ t p. facts t (omega arith))))

module _ {k : KeyType} {tree : List ℕ} (o : IsOctree k tree) (counts : List ℕ) (bucket : ℕ)
    (no_wrap : bucket * 512 < 2 ^ 32) where
  abbrev n : ℕ
  n = n_nodes tree

  abbrev op : ℕ → ℕ
  op i = calculate_node_op k tree i counts bucket

  -- What is shown of each new node from the decision that makes it.
  module _ (Q : ℕ → ℕ → Type 0)
      (on_merge : (i e : ℕ)
        → i + 8 ≤ n
        → e < max_tree_level k
        → ((t : ℕ) → t < 8 → tree ! suc (i + t) ≡ tree ! (i + t) + 8 ^ e)
        → tree ! (i + 8) ≡ tree ! i + 8 ^ suc e
        → parent_count counts i ≤ bucket
        → Q (tree ! i) (suc e))
      (on_split : (i d e t : ℕ)
        → i < n
        → op i ≡ 8 ^ d
        → d ≤ e
        → tree ! suc i ≡ tree ! i + 8 ^ e
        → t < 8 ^ d
        → Q (tree ! i + t * 8 ^ (e - d)) (e - d))
      (ops : List ℕ) (decided : (i : ℕ) → i < n → ops ! i ≡ op i) where
    -- Nodes with opcode 0 leave nothing.
    skip_merged :
        (m left j : ℕ)
        → ((t : ℕ) → t < m → ops ! (j + t) ≡ 0)
        → refine_nodes tree ops (m + left) j ≡ refine_nodes tree ops left (j + m)
    unfolding refine_nodes split_node ramp
    skip_merged zero left j none = rw (zero-add left, add-zero j) refl
    skip_merged (suc m) left j none =
        let count : suc m + left ≡ suc (m + left) = omega arith in
        let next : j + suc m ≡ suc j + m = omega arith in
        let here : ops ! j ≡ 0 = let e : j ≡ j + 0 = omega arith in rw e (none 0 (omega arith)) in
        rw (count, next, here)
          (skip_merged m left (suc j) λ t p.
            let there : suc j + t ≡ j + suc t = omega arith in
            rw there (none (suc t) (omega arith)))

    -- A node behind a start that is merged is its next sibling: the start is the group's first.
    behind_first :
        (i s e : ℕ)
        → suc i < n
        → op i ≢ 0
        → InGroup k tree (suc i) (suc s) e
        → parent_count counts (suc i - suc s) ≤ bucket
        → s ≡ 0
    behind_first i zero e h start group fits = refl
    behind_first i (suc s) e h start group fits =
        let rest =
          merge_rest o counts bucket (suc i) (suc (suc s)) e s h group fits
            (omega (arith, group.number)) in
        let there : suc i - suc (suc s) + suc s ≡ i = omega (arith, group.before) in
        absurd (start (ap op (sym there) ∙ rest))

    merge_behind :
        (i : ℕ)
        → suc i < n
        → op i ≢ 0
        → op (suc i) ≡ 0
        → (e : ℕ) × InGroup k tree (suc i) 1 e × (parent_count counts (suc i - 1) ≤ bucket)
    merge_behind i h start merged =
        let (s, e, group, fits) = merge_found o counts bucket (suc i) h merged in
        let first = behind_first i s e h start group fits in
        (
          e,
          subst (λ x. InGroup k tree (suc i) (suc x) e) first group,
          subst (λ x. parent_count counts (suc i - suc x) ≤ bucket) first fits,
        )

    -- The node behind a merged group is not merged itself.
    after_group :
        (i e : ℕ)
        → suc i < n
        → InGroup k tree (suc i) 1 e
        → parent_count counts (suc i - 1) ≤ bucket
        → i + 8 < n
        → op (i + 8) ≢ 0
    after_group i e h group fits room merged =
        let (s, x, next, next_fits) = merge_found o counts bucket (i + 8) room merged in
        let kept = merge_first o counts bucket (i + 8) (suc s) x no_wrap room next next_fits in
        let gone = merge_rest o counts bucket (suc i) 1 e (6 - s) h group fits (omega arith) in
        let there : i + 8 - suc s ≡ suc i - 1 + suc (6 - s) = omega (arith, next.number) in
        omega (arith, kept, gone, ap op there)

    refine_one :
        (i left e : ℕ)
        → i < n
        → op i ≡ 1
        → e ≤ max_tree_level k
        → Q (tree ! i) e
        → Chain k Q (tree ! i + 8 ^ e) (refine_nodes tree ops left (suc i)) (tree ! n)
        → Chain k Q (tree ! i) (refine_nodes tree ops (suc left) i) (tree ! n)
    unfolding refine_nodes split_node ramp
    refine_one i left e h one small fact rest =
        rw (decided i h ∙ one)
          (omega (arith, zero-mul ((tree ! suc i - tree ! i) / 1)), e, small, fact, rest)

    refine_merged :
        (i left rest e : ℕ)
        → suc i < n
        → left ≡ 7 + rest
        → InGroup k tree (suc i) 1 e
        → parent_count counts (suc i - 1) ≤ bucket
        → Chain k Q (tree ! (i + 8)) (refine_nodes tree ops rest (i + 8)) (tree ! n)
        → Chain k Q (tree ! i) (refine_nodes tree ops (suc left) i) (tree ! n)
    refine_merged i left rest e h count group fits chain =
        let first : suc i - 1 ≡ i = omega arith in
        let kept : op i ≡ 1 =
          rw first at (merge_first o counts bucket (suc i) 1 e no_wrap h group fits) in
        let end : tree ! (i + 8) ≡ tree ! i + 8 ^ suc e = rw first at group.total in
        let inside : i + 8 ≤ n = rw first at group.inside in
        let seven : suc i + 7 ≡ i + 8 = omega arith in
        refine_one i left (suc e) (omega arith) kept group.deep
          (on_merge i e inside group.deep (sizes first inside end) end
            (subst (λ x. parent_count counts x ≤ bucket) first fits))
          (rw (count, skip_merged 7 rest (suc i) (λ t p. gone t p first inside), seven, ← end)
            chain)
      where
        sizes :
            suc i - 1 ≡ i
            → i + 8 ≤ n
            → tree ! (i + 8) ≡ tree ! i + 8 ^ suc e
            → (t : ℕ) → t < 8
            → tree ! suc (i + t) ≡ tree ! (i + t) + 8 ^ e
        sizes first inside end = group_sizes o i e inside end

        gone : (t : ℕ) → t < 7 → suc i - 1 ≡ i → i + 8 ≤ n → ops ! (suc i + t) ≡ 0
        gone t p first inside =
            let there : suc i + t ≡ suc i - 1 + suc t = omega arith in
            decided (suc i + t) (omega arith)
            ∙ ap op there
            ∙ merge_rest o counts bucket (suc i) 1 e t h group fits (omega arith)

    refine_split :
        (i left : ℕ)
        → i < n
        → op i ≢ 0
        → Chain k Q (tree ! suc i) (refine_nodes tree ops left (suc i)) (tree ! n)
        → Chain k Q (tree ! i) (refine_nodes tree ops (suc left) i) (tree ! n)
    unfolding refine_nodes
    refine_split i left h start rest =
        let (d, e, power, few, de, small, size) = split_found o counts bucket i h start in
        rw (decided i h ∙ power) (
          Chain-append k Q (tree ! i) (tree ! suc i) (tree ! n)
            (split_node (tree ! i) (tree ! suc i) (8 ^ d)) (refine_nodes tree ops left (suc i))
            (split_node-Chain k Q (tree ! i) (tree ! suc i) d e de small size
              (λ t p. on_split i d e t h power de size p))
            rest)

    -- From a start on, the refined nodes follow one another up to the end.
    pub refine-Chain :
        (fuel left i : ℕ)
        → left ≤ fuel
        → i + left ≡ n
        → (0 < left → op i ≢ 0)
        → Chain k Q (tree ! i) (refine_nodes tree ops left i) (tree ! n)
    refine-Chain fuel zero i f e start =
        let same : i ≡ n = omega arith in unfold refine_nodes in ap (λ j. tree ! j) same
    refine-Chain zero (suc left) i f e start = absurd (omega arith)
    refine-Chain (suc fuel) (suc left) i f e start = elim (dec_lt (suc i) n) [
      | no last ↦
          refine_split i left (omega arith) (start (omega arith))
            (refine-Chain fuel left (suc i) (omega arith) (omega arith) (λ p. absurd (omega arith)))
      | yes more ↦ elim (ℕ_discrete (op (suc i)) 0) [
        | no next ↦
            refine_split i left (omega arith) (start (omega arith))
              (refine-Chain fuel left (suc i) (omega arith) (omega arith) (λ p. next))
        | yes merged ↦
            let (x, group, fits) = merge_behind i more (start (omega arith)) merged in
            let inside : i + 8 ≤ n = omega (arith, group.inside) in
            refine_merged i left (left - 7) x more (omega arith) group fits (
              refine-Chain fuel (left - 7) (i + 8) (omega arith) (omega arith)
                (λ p. after_group i x more group fits (omega arith)))
      ]
    ]
