-- ===== src/Tree/Linked/Links.antt =====
-- What `linkTreeCpu` of include/cstone/tree/octree.hpp stores: each node's first child and each group's parent.
use native.Mathlib.Decide.{dec_lt}
use cornerstone_octree.Base.{
  ℕ, zero, suc, ◌+◌, ◌-◌, ◌*◌, ◌/◌, ◌%◌, ◌≤◌, ◌<◌, ◌≡◌, ◌≢◌, ap, sym, ◌∙◌, arith, List, ◌!◌, ◌⊎◌,
  inl, inr, length, set, length-set, get_or-set_self, get_or-set_ne,
}
use cornerstone_octree.Key.{KeyType, max_tree_level}
use cornerstone_octree.Tree.Linked.{link_tree, get_level_range}
use cornerstone_octree.Tree.Linked.Containing.{HasChildren}
use cornerstone_octree.Tree.Linked.Children.{
  AreNodes, AreNodes-same, has_child_complete, has_child_sound,
}
use cornerstone_octree.Tree.Linked.Rounds.{child_at, IsInner, links_keep, links_stored}
use cornerstone_octree.Tree.Linked.Siblings.{HasSiblings, sibling_next, sibling_place}

dec_same : (a b : ℕ) → (a ≡ b) ⊎ (a ≢ b)
dec_same a b = elim (dec_lt a b) [
  | yes p ↦ inr (omega arith)
  | no p ↦ elim (dec_lt b a) [ yes q ↦ inr (omega arith) | no q ↦ inl (omega arith) ]
]

module _ (k : KeyType) (prefixes : List ℕ) (n : ℕ) (nodes : AreNodes k prefixes n)
    (whole : HasSiblings prefixes n) (level_range : List ℕ)
    (room : length level_range ≡ max_tree_level k + 2) (leaf_to_internal : List ℕ)
    (num_internal : ℕ)
    (internal : (j : ℕ)
      → j < num_internal
      → (here : leaf_to_internal ! j < n) × ((nodes.node (leaf_to_internal ! j) here).level
          < max_tree_level k))
    (child_offsets parents : List ℕ) (offsets_room : n ≤ length child_offsets) where
  abbrev range : List ℕ
  range = get_level_range k prefixes n level_range

  abbrev linked : List ℕ × List ℕ
  linked = link_tree k prefixes num_internal leaf_to_internal range child_offsets parents

  -- The first child that the loop finds is behind the root, and the first of a group of siblings.
  found_place :
      (j : ℕ)
      → j < num_internal
      → IsInner k prefixes leaf_to_internal range j
      → (child_at k prefixes leaf_to_internal range j < n)
        × (prefixes ! child_at k prefixes leaf_to_internal range j
            ≡ 8 * (prefixes ! (leaf_to_internal ! j)))
        × (0 < child_at k prefixes leaf_to_internal range j)
        × ((child_at k prefixes leaf_to_internal range j - 1) % 8 ≡ 0)
  found_place j h inner =
      let (here, level) = internal j h in
      let (within, is) =
        has_child_sound k prefixes n nodes level_range room (leaf_to_internal ! j) here level
          inner in
      let c = child_at k prefixes leaf_to_internal range j in
      let some : 0 < c = elim (dec_lt 0 c) [
        | yes p ↦ p
        | no p ↦
            let none : c ≡ 0 = omega arith in
            absurd (omega (arith, is, whole.root, ap (λ (t : ℕ). prefixes ! t) none))
      ] in
      (within, is, some, omega (arith, is, sibling_place k prefixes n nodes whole c some within))

  -- The entry of a node is none or its first child's.
  abbrev KeepsChildren : List ℕ × List ℕ → Type 0
  KeepsChildren s =
      (n ≤ length s.0)
      × ((i : ℕ)
          → s.0 ! i ≢ 0
          → (s.0 ! i < n) × (prefixes ! (s.0 ! i) ≡ 8 * (prefixes ! i)) × (0 < s.0 ! i))

  keeps_children :
      (j : ℕ) (o p : List ℕ)
      → j < num_internal
      → IsInner k prefixes leaf_to_internal range j
      → KeepsChildren (o, p)
      → KeepsChildren (
        set o (leaf_to_internal ! j) (child_at k prefixes leaf_to_internal range j),
        set p ((child_at k prefixes leaf_to_internal range j - 1) / 8) (leaf_to_internal ! j),
      )
  keeps_children j o p h inner (space, keep) =
      let idx : ℕ = leaf_to_internal ! j in
      let c : ℕ = child_at k prefixes leaf_to_internal range j in
      let (within, is, some, first) = found_place j h inner in
      (
        omega (arith, space, length-set o idx c),
        λ i entry. elim (dec_same idx i) [
          | inl same ↦
              let stored : set o idx c ! i ≡ c =
                ap (λ (t : ℕ). set o idx c ! t) (sym same)
                ∙ get_or-set_self o idx c 0 (omega (arith, space, (internal j h).0)) in
              (
                omega (arith, stored, within),
                ap (λ (t : ℕ). prefixes ! t) stored ∙ is ∙ ap (λ (t : ℕ). 8 * (prefixes ! t)) same,
                omega (arith, stored, some),
              )
          | inr other ↦
              let stays : set o idx c ! i ≡ o ! i = get_or-set_ne o idx i c 0 other in
              let (w, e, b) = keep i (λ e. entry (stays ∙ e)) in
              (
                omega (arith, stays, w),
                ap (λ (t : ℕ). prefixes ! t) stays ∙ e,
                omega (arith, stays, b),
              )
        ],
      )

  in_row :
      (c p octant : ℕ)
      → 0 < c
      → c < n
      → octant < 8
      → prefixes ! c ≡ 8 * p
      → (c + octant < n) × (prefixes ! (c + octant) ≡ 8 * p + octant)
  in_row c p zero some within small is =
      let same : c + 0 ≡ c = omega arith in
      (omega arith, ap (λ (t : ℕ). prefixes ! t) same ∙ omega (arith, is))
  in_row c p (suc octant) some within small is =
      let (w, e) = in_row c p octant some within (omega arith) is in
      let (w', e') =
        sibling_next k prefixes n nodes whole (c + octant) (omega arith) w (omega (arith, e)) in
      let next : c + suc octant ≡ suc (c + octant) = omega arith in
      (omega (arith, w'), ap (λ (t : ℕ). prefixes ! t) next ∙ omega (arith, e, e'))

  -- On the sorted keys of an octree's nodes, where each node but the root has its seven siblings, and an array of
  -- zeros for the child offsets, `linkTreeCpu` stores only offsets at which a node's eight children stand in a
  -- row. The indices of the internal nodes are those of nodes above the last level.
  pub link_tree-HasChildren : ((i : ℕ) → child_offsets ! i ≡ 0) → HasChildren prefixes linked.0
  unfolding link_tree
  link_tree-HasChildren zeros node octant inner small =
      let (space, keep) =
        links_keep k prefixes leaf_to_internal range KeepsChildren num_internal 0
          (λ j o p from to. keeps_children j o p (omega arith)) child_offsets parents
          (offsets_room, λ i entry. absurd (entry (zeros i))) in
      let (within, is, some) = keep node inner in
      (in_row (linked.0 ! node) (prefixes ! node) octant some within small is).1

  -- On the sorted keys of an octree's nodes, where each node but the root has its seven siblings, `linkTreeCpu`
  -- stores the first child that an internal node has among the nodes as the node's child offset, and the node
  -- as the parent of the child's group of 8. The indices of the internal nodes differ and are those of nodes
  -- above the last level, and there are parents for all groups.
  pub link_tree_children :
      ((i j : ℕ) → i < j → j < num_internal → leaf_to_internal ! i ≢ leaf_to_internal ! j)
      → n ≤ 8 * length parents + 1
      → (j c : ℕ) → j < num_internal
      → c < n
      → prefixes ! c ≡ 8 * (prefixes ! (leaf_to_internal ! j))
      → (linked.0 ! (leaf_to_internal ! j) ≡ c) × (linked.1 ! ((c - 1) / 8) ≡ leaf_to_internal ! j)
  unfolding link_tree
  link_tree_children apart groups j c h within is =
      let (here, level) = internal j h in
      let (inner, found) =
        has_child_complete k prefixes n nodes level_range room (leaf_to_internal ! j) here level c
          within is in
      let (offset, parent) =
        links_stored k prefixes leaf_to_internal range num_internal 0
          (λ a b lt end inner_a inner_b.
            (apart a b lt (omega arith), slots a b lt (omega arith) inner_a inner_b))
          j (omega arith) (omega arith) inner child_offsets parents
          (omega (arith, here, offsets_room))
          (omega (arith, found, within, groups, (found_place j h inner).2)) in
      (offset ∙ found, ap (λ (t : ℕ). linked.1 ! ((t - 1) / 8)) (sym found) ∙ parent)
    where
      slots :
          (a b : ℕ)
          → a < b
          → b < num_internal
          → IsInner k prefixes leaf_to_internal range a
          → IsInner k prefixes leaf_to_internal range b
          → (child_at k prefixes leaf_to_internal range a - 1) / 8
            ≢ (child_at k prefixes leaf_to_internal range b - 1) / 8
      slots a b lt end inner_a inner_b e =
          let (wa, ia, sa, fa) = found_place a (omega arith) inner_a in
          let (wb, ib, sb, fb) = found_place b end inner_b in
          let same : child_at k prefixes leaf_to_internal range a
              ≡ child_at k prefixes leaf_to_internal range b =
            omega (arith, sa, sb, fa, fb, e) in
          apart a b lt end (
            AreNodes-same k prefixes n nodes (leaf_to_internal ! a) (leaf_to_internal ! b)
              (internal a (omega arith)).0 (internal b end).0
              (omega (arith, ia, ib, ap (λ (t : ℕ). prefixes ! t) same)))
