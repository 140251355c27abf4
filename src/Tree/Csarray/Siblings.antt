-- ===== src/Tree/Csarray/Siblings.antt =====
-- `siblingAndLevel` on an array in the cornerstone format: it reads inside the array, and a
-- sibling group that it finds is eight nodes of one size.
use native.Mathlib.Nat.{zero-div, mul-div_cancel, add-zero, suc-mul}
use native.Mathlib.Decide.{dec_lt}
use cornerstone_octree.Base.{
  ℕ, zero, suc, ◌+◌, ◌-◌, ◌*◌, ◌/◌, ◌%◌, ◌^◌, ◌≤◌, ◌<◌, ◌≡◌, refl, ap, ◌∙◌, arith, List, [], ◌∷◌,
  length, ◌!◌, ◌⊎◌,
}
use cornerstone_octree.Base.Pow.{pow8-pos, pow8-suc, octal_step, pow8_multiple}
use cornerstone_octree.Base.EqualPowers.{pow8_sum, equal_powers}
use cornerstone_octree.Key.{KeyType, max_tree_level, n_nodes}
use cornerstone_octree.Tree.Leaves.{IsOctree}

module _ {k : KeyType} {tree : List ℕ} (o : IsOctree k tree) where
  abbrev n : ℕ
  n = n_nodes tree

  -- The exponent of a node's size.
  abbrev size : (i : ℕ) → i < n → ℕ
  size i h = (o.steps i h).0

  pub le-last : (left i : ℕ) → i + left ≡ n → tree ! i ≤ 8 ^ max_tree_level k
  le-last zero i e = let same : i ≡ n = omega arith in rw same (omega (arith, o.last))
  le-last (suc left) i e =
      let (x, small, step) = o.steps i (omega arith) in
      omega (arith, le-last left (suc i) (omega arith), step)

  pub key-le : (i : ℕ) → i ≤ n → tree ! i ≤ 8 ^ max_tree_level k
  key-le i h = le-last (n - i) i (omega arith)

  -- The octal digit of a key at the place of size 8 ^ l.
  abbrev digit : ℕ → ℕ → ℕ
  digit l i = tree ! i / 8 ^ l % 8

  digit_next :
      (l i : ℕ) → i < n → (digit l (suc i) ≡ digit l i) ⊎ (digit l (suc i) ≡ (digit l i + 1) % 8)
  digit_next l i h = let (e, small, step) = o.steps i h in rw step (octal_step (tree ! i) e l)

  -- As many nodes stand before a node as its digit says, at the least.
  pub digit-le : (l i : ℕ) → i ≤ n → digit l i ≤ i
  digit-le l zero h = omega (arith, ap (λ (t : ℕ). t / 8 ^ l % 8) o.first, zero-div (8 ^ l))
  digit-le l (suc i) h = omega (arith, digit_next l i h, digit-le l i (omega arith))

  last_digit : (l : ℕ) → l < max_tree_level k → digit l n ≡ 0
  last_digit l h =
      let levels : max_tree_level k - l ≡ suc (max_tree_level k - l - 1) = omega arith in
      ap (λ (t : ℕ). t / 8 ^ l % 8) (o.last ∙ pow8_multiple l (max_tree_level k) (omega arith))
      ∙ ap (λ (t : ℕ). t % 8) (mul-div_cancel (8 ^ (max_tree_level k - l)) (pow8-pos l))
      ∙ rw levels (omega (arith, pow8-suc (max_tree_level k - l - 1)))

  -- And after it, as many as are missing to eight.
  pub digit_room :
      (l left i : ℕ) → l < max_tree_level k → i + left ≡ n → 0 < digit l i → 8 ≤ digit l i + left
  digit_room l zero i h e p =
      let same : i ≡ n = omega arith in
      absurd (omega (arith, last_digit l h, ap (λ (t : ℕ). digit l t) same))
  digit_room l (suc left) i h e p = elim (dec_lt 0 (digit l (suc i))) [
    | yes q ↦
        omega (arith, digit_next l i (omega arith), digit_room l left (suc i) h (omega arith) q)
    | no q ↦ omega (arith, digit_next l i (omega arith))
  ]

  -- The sizes of the nodes from `i` on, and what they add up to.
  sizes_from :
      (left i : ℕ)
      → i + left ≤ n
      → (es : List ℕ) × (length es ≡ left)
        × (tree ! (i + left) ≡ tree ! i + pow8_sum es)
        × ((j : ℕ) → j < left → tree ! suc (i + j) ≡ tree ! (i + j) + 8 ^ (es ! j))
  unfolding pow8_sum
  sizes_from zero i h = ([], refl, rw add-zero (omega arith), λ j p. absurd (omega arith))
  sizes_from (suc left) i h =
      let (e, small, step) = o.steps i (omega arith) in
      let (es, len, total, each) = sizes_from left (suc i) (omega arith) in
      let same : i + suc left ≡ suc i + left = omega arith in
      (
        e ∷ es,
        ap suc len,
        rw same (omega (arith, total, step)),
        elim [
          | zero ↦ λ p. rw add-zero step
          | suc j ↦ λ p.
              let there : i + suc j ≡ suc i + j = omega arith in rw there (each j (omega arith))
        ],
      )

  -- Eight neighbours that add up to the next power of eight are of one size.
  pub group_sizes :
      (g e : ℕ)
      → g + 8 ≤ n
      → tree ! (g + 8) ≡ tree ! g + 8 ^ suc e
      → (t : ℕ) → t < 8
      → tree ! suc (g + t) ≡ tree ! (g + t) + 8 ^ e
  group_sizes g e h total t p =
      let (es, len, sum, each) = sizes_from 8 g h in
      each t p
      ∙ ap (λ x. tree ! (g + t) + 8 ^ x) (equal_powers e es len (omega (arith, total, sum)) t p)

  pub group_starts :
      (g e : ℕ)
      → g + 8 ≤ n
      → tree ! (g + 8) ≡ tree ! g + 8 ^ suc e
      → (t : ℕ) → t ≤ 8
      → tree ! (g + t) ≡ tree ! g + t * 8 ^ e
  group_starts g e h total zero p = rw add-zero (omega arith)
  group_starts g e h total (suc t) p =
      let there : g + suc t ≡ suc (g + t) = omega arith in
      rw there (
        omega (
          arith,
          group_sizes g e h total t p,
          group_starts g e h total t (omega arith),
          suc-mul t (8 ^ e),
        ))
