-- ===== src/Tree/Csarray/Pieces.antt =====
-- `processNode` against its specification: a node with opcode n is replaced by n equal pieces.
use native.Mathlib.Nat.{mul-div_cancel, suc-mul, add-mul, mul_comm, zero-add}
use mathlib.Core.List.{append_assoc, append-nil}
use cornerstone_octree.Base.{
  ℕ, zero, suc, ◌+◌, ◌-◌, ◌*◌, ◌/◌, ◌^◌, ◌≤◌, ◌<◌, ◌≡◌, refl, ap, ◌∙◌, arith, ◌==◌, ltb,
  if◌then◌else◌, List, [], ◌∷◌, ◌++◌, length, ◌!◌, set, drop, ◌⊎◌, inl, inr, set_behind,
  length-append,
}
use cornerstone_octree.Base.Pow.{pow8-pos, pow8-suc, pow8_multiple}
use cornerstone_octree.Key.{
  KeyType, u32, max_tree_level, add_key, sub_key, mul_key, n_nodes, add_key_exact, mul_key_exact,
}
use cornerstone_octree.Sfc.Range.{node_range, node_range-pow8, tree_level, range_lt}
use cornerstone_octree.Sfc.Power.{log8ceil-pow8}
use cornerstone_octree.Sfc.Range.{log8ceil}
use cornerstone_octree.Tree.Leaves.{IsOctree}
use cornerstone_octree.Tree.Csarray.{write_siblings, process_node}
use cornerstone_octree.Tree.Csarray.Siblings.{key-le}
use cornerstone_octree.Tree.Csarray.Groups.{node_level}

-- The keys a, a + step, ..., from number `s` on.
unfoldable pub ramp : ℕ → ℕ → ℕ → ℕ → List ℕ
ramp a step zero s = []
ramp a step (suc left) s = (a + s * step) ∷ ramp a step left (suc s)

-- The node [a, b) in `n` equal pieces.
unfoldable pub split_node : ℕ → ℕ → ℕ → List ℕ
unfolding ramp
split_node a b n = ramp a ((b - a) / n) n 0

pub length-ramp : (a step left s : ℕ) → length (ramp a step left s) ≡ left
unfolding ramp
length-ramp a step zero s = refl
length-ramp a step (suc left) s = ap suc (length-ramp a step left (suc s))

pub length-split_node : (a b n : ℕ) → length (split_node a b n) ≡ n
unfolding split_node
length-split_node a b n = length-ramp a ((b - a) / n) n 0

-- The writes of `processNode` fill the free slots behind `done`, without wrapping.
write_siblings-ramp :
    (k : KeyType) (a step left s i : ℕ) (done rest : List ℕ)
    → a + (s + left) * step ≤ 8 ^ max_tree_level k
    → length done ≡ i + s
    → left ≤ length rest
    → write_siblings k a step left s i (done ++ rest)
      ≡ (done ++ ramp a step left s) ++ drop left rest
unfolding write_siblings ramp
write_siblings-ramp k a step zero s i done rest small len fits = rw append-nil refl
write_siblings-ramp k a step (suc left) s i done [] small len fits = absurd (omega arith)
write_siblings-ramp k a step (suc left) s i done (x ∷ rest) small len fits =
    let one_less : s + suc left ≡ suc s + left = omega arith in
    let total : a + (suc s + left) * step ≤ 8 ^ max_tree_level k = rw one_less at small in
    let fit : a + s * step ≤ 8 ^ max_tree_level k =
      omega (arith, total, add-mul (suc s) left step, suc-mul s step) in
    let top = range_lt k (max_tree_level k) (omega arith) in
    let exact : add_key k a (mul_key k s step) ≡ a + s * step =
      ap (add_key k a) (mul_key_exact k s step (omega arith))
      ∙ add_key_exact k a (s * step) (omega arith) in
    let next : s + 1 ≡ suc s = omega arith in
    rw (exact, set_behind done x rest (i + s) (a + s * step) len, next)
      (write_siblings-ramp k a step left (suc s) i (done ++ (a + s * step) ∷ []) rest total
          (omega (arith, length-append {0} done ((a + s * step) ∷ []))) (omega arith)
        ∙ ap (λ t. t ++ drop left rest)
            (append_assoc done ((a + s * step) ∷ []) (ramp a step left (suc s))))

-- `processNode` once its level and its opcode are known.
process_node-code :
    (k : KeyType) (tree offsets new_tree : List ℕ) (i code level : ℕ)
    → offsets ! (i + 1) - offsets ! i ≡ code
    → tree_level k (sub_key k (tree ! (i + 1)) (tree ! i)) ≡ level
    → process_node k i tree offsets new_tree ≡ (
        if code == 1
        then set new_tree (offsets ! i) (tree ! i)
        else if code == 8
        then write_siblings k (tree ! i) (node_range k (level + 1)) 8 0 (offsets ! i) new_tree
        else if ltb 8 code
        then write_siblings k
            (tree ! i)
            (node_range k (level + log8ceil u32 code))
            code
            0
            (offsets ! i)
            new_tree
        else new_tree)
unfolding process_node
process_node-code k tree offsets new_tree i code level c l = rw (l, c) refl

set_front :
    (done rest : List ℕ) (i v : ℕ)
    → length done ≡ i
    → 1 ≤ length rest
    → set (done ++ rest) i v ≡ (done ++ v ∷ []) ++ drop 1 rest
set_front done [] i v len fits = absurd (omega arith)
set_front done (x ∷ rest) i v len fits = set_behind done x rest i v len

-- The two writing branches of `processNode` are one: the pieces are as many levels down as the
-- opcode is a power of eight.
split_branch :
    (k : KeyType) (level d a i : ℕ) (new_tree : List ℕ)
    → suc d ≤ 4
    → (if 8 ^ suc d == 1
        then set new_tree i a
        else if 8 ^ suc d == 8
        then write_siblings k a (node_range k (level + 1)) 8 0 i new_tree
        else if ltb 8 (8 ^ suc d)
        then write_siblings k a
            (node_range k (level + log8ceil u32 (8 ^ suc d)))
            (8 ^ suc d)
            0
            i
            new_tree
        else new_tree)
      ≡ write_siblings k a (node_range k (level + suc d)) (8 ^ suc d) 0 i new_tree
split_branch k level zero a i new_tree few = refl
split_branch k level (suc d) a i new_tree few =
    rw (log8ceil-pow8 u32 (suc (suc d)) (omega arith))
      (ground (arith, pow8-suc (suc d), pow8-suc d, pow8-pos d))

-- One node of the old tree, with its scanned opcode.
module _ {k : KeyType} {tree : List ℕ} (o : IsOctree k tree) (offsets : List ℕ) (i e : ℕ)
    (h : i < n_nodes tree) (small : e ≤ max_tree_level k)
    (step : tree ! suc i ≡ tree ! i + 8 ^ e) where
  abbrev level : ℕ
  level = max_tree_level k - e

  module _ (done rest : List ℕ) (len : length done ≡ offsets ! i) where
    process_none :
        offsets ! (i + 1) ≡ offsets ! i + 0
        → process_node k i tree offsets (done ++ rest)
          ≡ (done ++ split_node (tree ! i) (tree ! suc i) 0) ++ drop 0 rest
    unfolding split_node
    process_none scan =
        process_node-code k tree offsets (done ++ rest) i 0 level (omega arith)
          (node_level o i e h small step)
        ∙ rw append-nil refl

    process_keep :
        offsets ! (i + 1) ≡ offsets ! i + 1
        → 1 ≤ length rest
        → process_node k i tree offsets (done ++ rest)
          ≡ (done ++ split_node (tree ! i) (tree ! suc i) 1) ++ drop 1 rest
    unfolding split_node
    process_keep scan fits =
        process_node-code k tree offsets (done ++ rest) i 1 level (omega arith)
          (node_level o i e h small step)
        ∙ set_front done rest (offsets ! i) (tree ! i) len fits
        ∙ ap (λ t. (done ++ t ∷ []) ++ drop 1 rest) (omega arith)

    process_split :
        (d : ℕ)
        → offsets ! (i + 1) ≡ offsets ! i + 8 ^ suc d
        → suc d ≤ 4
        → suc d ≤ e
        → 8 ^ suc d ≤ length rest
        → process_node k i tree offsets (done ++ rest)
          ≡ (done ++ split_node (tree ! i) (tree ! suc i) (8 ^ suc d)) ++ drop (8 ^ suc d) rest
    process_split d scan few de fits =
        process_node-code k tree offsets (done ++ rest) i (8 ^ suc d) level (omega arith)
          (node_level o i e h small step)
        ∙ split_branch k level d (tree ! i) (offsets ! i) (done ++ rest) few
        ∙ ap (λ t. write_siblings k (tree ! i) t (8 ^ suc d) 0 (offsets ! i) (done ++ rest))
            (node_range-pow8 k (level + suc d) ∙ ap (λ t. 8 ^ t) (omega arith))
        ∙ writes (suc d) de fits
      where
        writes :
            (c : ℕ)
            → c ≤ e
            → 8 ^ c ≤ length rest
            → write_siblings k (tree ! i) (8 ^ (e - c)) (8 ^ c) 0 (offsets ! i) (done ++ rest)
              ≡ (done ++ split_node (tree ! i) (tree ! suc i) (8 ^ c)) ++ drop (8 ^ c) rest
        writes c ce room =
            unfold split_node in
            let whole = pow8_multiple c e ce in
            let size : tree ! suc i - tree ! i ≡ 8 ^ (e - c) * 8 ^ c = omega (arith, whole) in
            let piece : (tree ! suc i - tree ! i) / 8 ^ c ≡ 8 ^ (e - c) =
              ap (λ t. t / 8 ^ c) size ∙ mul-div_cancel (8 ^ (e - c)) (pow8-pos c) in
            rw piece (
              write_siblings-ramp k (tree ! i) (8 ^ (e - c)) (8 ^ c) 0 (offsets ! i) done rest
                (omega (
                  arith,
                  key-le o (suc i) h,
                  whole,
                  mul_comm (8 ^ (e - c)) (8 ^ c),
                  zero-add (8 ^ c),
                  ap (λ (t : ℕ). t * 8 ^ (e - c)) (zero-add (8 ^ c)),
                ))
                (omega arith) room)

  -- Whatever the opcode, the node's pieces go behind what is done.
  pub process_node-split :
      (n d : ℕ) (done rest : List ℕ)
      → (n ≡ 0) ⊎ (n ≡ 8 ^ d)
      → d ≤ 4
      → d ≤ e
      → offsets ! (i + 1) ≡ offsets ! i + n
      → length done ≡ offsets ! i
      → n ≤ length rest
      → process_node k i tree offsets (done ++ rest)
        ≡ (done ++ split_node (tree ! i) (tree ! suc i) n) ++ drop n rest
  process_node-split n d done rest (inl none) few de scan len fits =
      rw none (process_none done rest len (omega arith))
  process_node-split n zero done rest (inr one) few de scan len fits =
      rw one (process_keep done rest len (omega arith) (omega arith))
  process_node-split n (suc d) done rest (inr power) few de scan len fits =
      rw power (process_split done rest len d (omega arith) few de (omega arith))
