-- ===== src/Tree/Linked/Rounds.antt =====
-- The rounds of `linkTreeCpu` of include/cstone/tree/octree.hpp and what stays in the arrays.
use native.Mathlib.Decide.{dec_lt}
use cornerstone_octree.Base.{
  ℕ, zero, suc, ◌+◌, ◌-◌, ◌/◌, ◌≤◌, ◌<◌, ◌≡◌, ◌≢◌, refl, sym, ◌∙◌, arith, List, ◌!◌, inl, inr,
  Bool-cases, true, false, length, set, length-set, get_or-set_self, get_or-set_ne,
}
use cornerstone_octree.Key.{KeyType}
use cornerstone_octree.Tree.Linked.{link_nodes}
use cornerstone_octree.Tree.Linked.Search.{found_child, has_child}

module _ (k : KeyType) (prefixes leaf_to_internal level_range : List ℕ) where
  -- The node that the loop comes to in round `j`, its first child and where that child's parent is stored.
  abbrev pub node_at : ℕ → ℕ
  node_at j = leaf_to_internal ! j

  abbrev pub child_at : ℕ → ℕ
  child_at j = found_child k prefixes level_range (node_at j)

  abbrev pub IsInner : ℕ → Type 0
  IsInner j = has_child k prefixes level_range (node_at j) ≡ true

  abbrev pub links : ℕ → ℕ → List ℕ → List ℕ → List ℕ × List ℕ
  links left i offsets parents =
      link_nodes k prefixes leaf_to_internal level_range left i (offsets, parents)

  -- A property of the state that each round keeps holds at the end.
  pub links_keep :
      (Keeps : List ℕ × List ℕ → Type 0) (left i : ℕ)
      → ((j : ℕ) (offsets parents : List ℕ)
          → i ≤ j
          → j < i + left
          → IsInner j
          → Keeps (offsets, parents)
          → Keeps (
            set offsets (node_at j) (child_at j),
            set parents ((child_at j - 1) / 8) (node_at j),
          ))
      → (offsets parents : List ℕ) → Keeps (offsets, parents)
      → Keeps (links left i offsets parents)
  unfolding link_nodes
  links_keep Keeps zero i keep offsets parents h = h
  links_keep Keeps (suc left) i keep offsets parents h =
      let rest = λ (j : ℕ) (o p : List ℕ) (from : i + 1 ≤ j) (to : j < i + 1 + left).
        keep j o p (omega arith) (omega arith) in
      elim (Bool-cases (has_child k prefixes level_range (node_at i))) [
        | inl inner ↦ rw inner (
            links_keep Keeps left (i + 1) rest (set offsets (node_at i) (child_at i))
              (set parents ((child_at i - 1) / 8) (node_at i))
              (keep i offsets parents (omega arith) (omega arith) inner h))
        | inr leaf ↦ rw leaf (links_keep Keeps left (i + 1) rest offsets parents h)
      ]

  links_inner :
      (left i : ℕ) (offsets parents : List ℕ)
      → IsInner i
      → links (suc left) i offsets parents
        ≡ links left
            (i + 1)
            (set offsets (node_at i) (child_at i))
            (set parents ((child_at i - 1) / 8) (node_at i))
  unfolding link_nodes
  links_inner left i offsets parents inner = rw inner refl

  links_leaf :
      (left i : ℕ) (offsets parents : List ℕ)
      → has_child k prefixes level_range (node_at i) ≡ false
      → links (suc left) i offsets parents ≡ links left (i + 1) offsets parents
  unfolding link_nodes
  links_leaf left i offsets parents leaf = rw leaf refl

  -- What round `j` stores stays, if no later round writes at its places.
  pub links_stored :
      (left i : ℕ)
      → ((j m : ℕ)
          → j < m
          → m < i + left
          → IsInner j
          → IsInner m
          → (node_at j ≢ node_at m) × ((child_at j - 1) / 8 ≢ (child_at m - 1) / 8))
      → (j : ℕ) → i ≤ j
      → j < i + left
      → IsInner j
      → (offsets parents : List ℕ) → node_at j < length offsets
      → (child_at j - 1) / 8 < length parents
      → ((links left i offsets parents).0 ! node_at j ≡ child_at j)
        × ((links left i offsets parents).1 ! ((child_at j - 1) / 8) ≡ node_at j)
  links_stored zero i apart j from to inner offsets parents room slots = absurd (omega arith)
  links_stored (suc left) i apart j from to inner offsets parents room slots = elim (dec_lt i j) [
    | yes p ↦
        let later = λ (a m : ℕ) (lt : a < m) (end : m < i + 1 + left). apart a m lt (omega arith) in
        elim (Bool-cases (has_child k prefixes level_range (node_at i))) [
          | inl here ↦ rw (links_inner left i offsets parents here) (
              links_stored left (i + 1) later j (omega arith) (omega arith) inner
                (set offsets (node_at i) (child_at i))
                (set parents ((child_at i - 1) / 8) (node_at i))
                (omega (arith, length-set offsets (node_at i) (child_at i)))
                (omega (arith, length-set parents ((child_at i - 1) / 8) (node_at i))))
          | inr leaf ↦ rw (links_leaf left i offsets parents leaf) (
              links_stored left (i + 1) later j (omega arith) (omega arith) inner offsets parents
                room slots)
        ]
    | no p ↦
        let same : j ≡ i = omega arith in
        let here : IsInner i = rw (sym same) inner in
        rw (links_inner left i offsets parents here) (
          links_keep
            (λ s. (s.0 ! node_at j ≡ child_at j) × (s.1 ! ((child_at j - 1) / 8) ≡ node_at j)) left
            (i + 1)
            (λ m o q from' to' inner' (first, second).
              let (nodes, places) = apart j m (omega arith) (omega arith) inner inner' in
              (
                get_or-set_ne o (node_at m) (node_at j) (child_at m) 0 (λ e. nodes (sym e)) ∙ first,
                get_or-set_ne q ((child_at m - 1) / 8) ((child_at j - 1) / 8) (node_at m) 0
                      (λ e. places (sym e))
                    ∙ second,
              ))
            (set offsets (node_at i) (child_at i)) (set parents ((child_at i - 1) / 8) (node_at i))
            (rw (sym same) (
              get_or-set_self offsets (node_at j) (child_at j) 0 room,
              get_or-set_self parents ((child_at j - 1) / 8) (node_at j) 0 slots,
            )))
  ]
