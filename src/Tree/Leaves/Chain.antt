-- ===== src/Tree/Leaves/Chain.antt =====
-- Runs of nodes as lists: the form in which the cornerstone format is built up piece by piece.
use cornerstone_octree.Base.{
  ℕ, zero, suc, ◌+◌, ◌^◌, ◌≤◌, ◌<◌, ◌≡◌, refl, sym, arith, List, [], ◌∷◌, ◌++◌, length, ◌!◌,
  length-append,
}
use cornerstone_octree.Base.Pow.{pow8-pos}
use cornerstone_octree.Key.{KeyType, max_tree_level, n_nodes}
use cornerstone_octree.Tree.Leaves.{IsOctree}

-- `xs` are the starts of nodes that follow one another from key `a` up to key `b`; `Q` holds of each
-- start and size 8 ^ e.
abbrev pub Chain : KeyType → (ℕ → ℕ → Type 0) → ℕ → List ℕ → ℕ → Type 0
Chain k Q a [] b = a ≡ b
Chain k Q a (x ∷ xs) b =
    (x ≡ a) × (e : ℕ) × (e ≤ max_tree_level k) × Q a e × Chain k Q (a + 8 ^ e) xs b

pub Chain-append :
    (k : KeyType) (Q : ℕ → ℕ → Type 0) (a b c : ℕ) (xs ys : List ℕ)
    → Chain k Q a xs b
    → Chain k Q b ys c
    → Chain k Q a (xs ++ ys) c
Chain-append k Q a b c [] ys p q = rw p q
Chain-append k Q a b c (x ∷ xs) ys (start, e, small, fact, rest) q =
    (start, e, small, fact, Chain-append k Q (a + 8 ^ e) b c xs ys rest q)

pub Chain-first :
    (k : KeyType) (Q : ℕ → ℕ → Type 0) (a b : ℕ) (xs : List ℕ)
    → Chain k Q a xs b
    → (xs ++ b ∷ []) ! 0 ≡ a
Chain-first k Q a b [] p = sym p
Chain-first k Q a b (x ∷ xs) (start, e, small, fact, rest) = start

closed_last : (b : ℕ) (xs : List ℕ) → (xs ++ b ∷ []) ! length xs ≡ b
closed_last b [] = refl
closed_last b (x ∷ xs) = closed_last b xs

pub Chain-step :
    (k : KeyType) (Q : ℕ → ℕ → Type 0) (a b : ℕ) (xs : List ℕ) (i : ℕ)
    → Chain k Q a xs b
    → i < length xs
    → (e : ℕ) × (e ≤ max_tree_level k)
      × ((xs ++ b ∷ []) ! suc i ≡ (xs ++ b ∷ []) ! i + 8 ^ e)
      × Q ((xs ++ b ∷ []) ! i) e
Chain-step k Q a b [] i p h = absurd (omega arith)
Chain-step k Q a b (x ∷ xs) zero (start, e, small, fact, rest) h =
    (e, small, omega (arith, start, Chain-first k Q (a + 8 ^ e) b xs rest), rw start fact)
Chain-step k Q a b (x ∷ xs) (suc i) (start, e, small, fact, rest) h =
    Chain-step k Q (a + 8 ^ e) b xs i rest (omega arith)

some_node :
    (k : KeyType) (Q : ℕ → ℕ → Type 0) (a b : ℕ) (xs : List ℕ)
    → Chain k Q a xs b
    → a < b
    → 1 ≤ length xs
some_node k Q a b [] p h = absurd (omega arith)
some_node k Q a b (x ∷ xs) p h = omega arith

-- A chain over the whole key range, closed by its end, is in the cornerstone format.
pub Chain→IsOctree :
    (k : KeyType) (Q : ℕ → ℕ → Type 0) (xs : List ℕ)
    → Chain k Q 0 xs (8 ^ max_tree_level k)
    → IsOctree k (xs ++ (8 ^ max_tree_level k) ∷ [])
Chain→IsOctree k Q xs chain =
    let b : ℕ = 8 ^ max_tree_level k in
    let size = length-append {0} xs (b ∷ []) in
    let count : n_nodes (xs ++ b ∷ []) ≡ length xs = unfold n_nodes in omega (arith, size) in
    record {
      some_node = omega (arith, size, some_node k Q 0 b xs chain (pow8-pos (max_tree_level k)));
      first = Chain-first k Q 0 b xs chain;
      last = rw count (closed_last b xs);
      steps = λ i h.
          let (e, small, step, fact) = Chain-step k Q 0 b xs i chain (omega (arith, count)) in
          (e, small, step);
    }
