-- ===== src/Tree/Csarray/Rebalance.antt =====
-- `rebalanceTree` against its specification: the scan hands every node the slots that its pieces
-- need, and the last key is carried over.
use mathlib.Core.List.{append_assoc, append-nil}
use cornerstone_octree.Base.{
  ℕ, zero, suc, ◌+◌, ◌-◌, ◌^◌, ◌≤◌, ◌<◌, ◌≡◌, refl, ap, sym, ◌∙◌, arith, List, [], ◌∷◌, ◌++◌,
  length, ◌!◌, set, drop, resize, ◌⊎◌, set_behind, length-append, length-drop, length-resize,
}
use cornerstone_octree.Base.Loops.{exclusive_scan, exclusive_scan-zero, exclusive_scan-suc}
use cornerstone_octree.Key.{KeyType, max_tree_level, n_nodes}
use cornerstone_octree.Tree.Leaves.{IsOctree}
use cornerstone_octree.Tree.Csarray.{process_nodes, rebalance_tree}
use cornerstone_octree.Tree.Csarray.Pieces.{split_node, length-split_node, process_node-split}

-- The specification: every node from `i` on in as many equal pieces as its opcode says.
unfoldable pub refine_nodes : List ℕ → List ℕ → ℕ → ℕ → List ℕ
refine_nodes tree ops zero i = []
refine_nodes tree ops (suc left) i =
    split_node (tree ! i) (tree ! suc i) (ops ! i) ++ refine_nodes tree ops left (suc i)

-- An opcode that `rebalanceTree` can carry out at a node of size `8 ^ e`.
pub record IsOp (k : KeyType) (tree ops : List ℕ) (i : ℕ) : Type 0 where
  pub d : ℕ
  pub e : ℕ
  pub code : (ops ! i ≡ 0) ⊎ (ops ! i ≡ 8 ^ d)
  pub few : d ≤ 4
  pub fits : d ≤ e
  pub small : e ≤ max_tree_level k
  pub size : tree ! suc i ≡ tree ! i + 8 ^ e

pub set_last :
    (done rest : List ℕ) (v : ℕ)
    → length rest ≡ 1
    → set (done ++ rest) (length (done ++ rest) - 1) v ≡ done ++ v ∷ []
set_last done [] v len = absurd (omega arith)
set_last done (x ∷ []) v len =
    let there : length (done ++ x ∷ []) - 1 ≡ length done =
      omega (arith, length-append {0} done (x ∷ [])) in
    rw there (set_behind done x [] (length done) v refl ∙ append-nil (done ++ v ∷ []))
set_last done (x ∷ y ∷ rest) v len = absurd (omega arith)

module _ {k : KeyType} {tree : List ℕ} (o : IsOctree k tree) (ops : List ℕ)
    (plan : (i : ℕ) → i < n_nodes tree → IsOp k tree ops i) where
  abbrev n : ℕ
  n = n_nodes tree

  abbrev refined : ℕ → ℕ → List ℕ
  refined left i = refine_nodes tree ops left i

  module _ (offsets : List ℕ)
      (scan : (i : ℕ) → i < n → offsets ! suc i ≡ offsets ! i + ops ! i) where
    offsets_total :
        (left i : ℕ) → i + left ≡ n → offsets ! n ≡ offsets ! i + length (refined left i)
    unfolding refine_nodes
    offsets_total zero i e = let same : n ≡ i = omega arith in rw same (omega arith)
    offsets_total (suc left) i e = omega (
      arith,
      scan i (omega arith),
      offsets_total left (suc i) (omega arith),
      length-append {0} (split_node (tree ! i) (tree ! suc i) (ops ! i)) (refined left (suc i)),
      length-split_node (tree ! i) (tree ! suc i) (ops ! i),
    )

    process_nodes-refine :
        (left i : ℕ) (done rest : List ℕ)
        → i + left ≡ n
        → length done ≡ offsets ! i
        → length (refined left i) ≤ length rest
        → (free : List ℕ) × (length free + length (refined left i) ≡ length rest)
          × (process_nodes k left i tree offsets (done ++ rest) ≡ (done ++ refined left i) ++ free)
    unfolding process_nodes refine_nodes
    process_nodes-refine zero i done rest e len fits = (rest, omega arith, rw append-nil refl)
    process_nodes-refine (suc left) i done rest e len fits =
        let pieces : List ℕ = split_node (tree ! i) (tree ! suc i) (ops ! i) in
        let p = plan i (omega arith) in
        let next : i + 1 ≡ suc i = omega arith in
        let count = length-split_node (tree ! i) (tree ! suc i) (ops ! i) in
        let parts = length-append {0} pieces (refined left (suc i)) in
        let here =
          process_node-split o offsets i p.e (omega arith) p.small p.size (ops ! i) p.d done rest
            p.code p.few p.fits (ap (λ j. offsets ! j) next ∙ scan i (omega arith)) len
            (omega (arith, parts, count)) in
        let (free, room, rest_done) =
          process_nodes-refine left (suc i) (done ++ pieces) (drop (ops ! i) rest) (omega arith)
            (omega (arith, length-append {0} done pieces, count, len, scan i (omega arith)))
            (omega (arith, length-drop {0} (ops ! i) rest, parts, count)) in
        (
          free,
          omega (arith, room, length-drop {0} (ops ! i) rest, parts, count),
          rw (here, next)
              (rest_done ∙ ap (λ t. t ++ free) (append_assoc done pieces (refined left (suc i)))),
        )

-- `rebalanceTree` replaces every node by as many equal pieces as its opcode says, in order, and
-- keeps the end of the key range.
pub rebalance_tree-refine :
    {k : KeyType} {tree : List ℕ} (o : IsOctree k tree) (new_tree ops : List ℕ)
    → length ops ≡ length tree
    → ((i : ℕ) → i < n_nodes tree → IsOp k tree ops i)
    → (rebalance_tree k tree new_tree ops).0
      ≡ refine_nodes tree ops (n_nodes tree) 0 ++ (tree ! n_nodes tree) ∷ []
unfolding rebalance_tree n_nodes
rebalance_tree-refine {k} {tree} o new_tree ops len plan =
    rw done
      (set_last (refine_nodes tree ops n 0) free (tree ! n) (omega (arith, room, total, size)))
  where
    n : ℕ
    n = n_nodes tree

    offsets : List ℕ
    offsets = exclusive_scan 0 ops

    enough : n < length ops
    enough = omega (arith, len, o.some_node)

    scan : (i : ℕ) → i < n → offsets ! suc i ≡ offsets ! i + ops ! i
    scan i h = exclusive_scan-suc 0 ops i (omega (arith, enough))

    first : offsets ! 0 ≡ 0
    first = exclusive_scan-zero 0 ops (omega (arith, enough))

    total : offsets ! n ≡ length (refine_nodes tree ops n 0)
    total = omega (arith, first, offsets_total o ops plan offsets scan n 0 (omega arith))

    sized : List ℕ
    sized = resize new_tree (offsets ! n + 1) 0

    size : length sized ≡ offsets ! n + 1
    size = length-resize new_tree (offsets ! n + 1) 0

    written :
        (free : List ℕ) × (length free + length (refine_nodes tree ops n 0) ≡ length sized)
        × (process_nodes k n 0 tree offsets sized ≡ refine_nodes tree ops n 0 ++ free)
    written =
        process_nodes-refine o ops plan offsets scan n 0 [] sized (omega arith) (sym first)
          (omega (arith, total, size))

    free : List ℕ
    free = written.0

    room : length free + length (refine_nodes tree ops n 0) ≡ length sized
    room = written.1

    done : process_nodes k n 0 tree offsets sized ≡ refine_nodes tree ops n 0 ++ free
    done = written.2
