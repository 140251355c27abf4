-- ===== src/Focus/Rebalance/Interleaving.antt =====
-- The loop of `protectAncestors` in include/cstone/focus/rebalance.hpp overwrites the operations that it reads,
-- in the order in which its threads come to the nodes. The order makes no difference.
use native.Mathlib.Decide.{ℕ_discrete}
use cornerstone_octree.Base.{
  ℕ, ◌+◌, ◌<◌, ◌≡◌, ◌≢◌, refl, ap, sym, ◌∙◌, arith, Bool, true, false, ◌||◌, ◌==◌, ◌&&◌, ltb,
  ltb→lt, if◌then◌else◌, List, [], ◌∷◌, length, length-set, set, get_or-set_self, get_or-set_ne,
  ◌!◌, ◌⊎◌, inl, inr,
}
use cornerstone_octree.Key.{KeyType}
use cornerstone_octree.Focus.Rebalance.{nz_ancestor_op, protect_loop, protect_ancestors}
use cornerstone_octree.Focus.Rebalance.Protect.{
  Nearest, here, up, Nearest-unique, ParentsBelow, start_key, nz_ancestor_op-Nearest,
}

-- Whether an order comes to a node.
abbrev pub visits : List ℕ → ℕ → Bool
visits [] i = false
visits (j ∷ order) i = j == i || visits order i

-- All nodes of an order are decided to stay as they are.
abbrev pub all_one : (ℕ → ℕ) → List ℕ → Bool
all_one decision [] = true
all_one decision (i ∷ order) = decision i == 1 && all_one decision order

module _ (k : KeyType) (prefixes parents ops : List ℕ) (n : ℕ) (below : ParentsBelow parents n)
    (root : ops ! 0 ≢ 0) where
  abbrev decided : ℕ → ℕ
  decided i = nz_ancestor_op k i prefixes parents ops

  -- Operations of which some have been overwritten by their decisions.
  abbrev IsPartial : List ℕ → Type 0
  IsPartial ops' = (i : ℕ) → i < n → (ops' ! i ≡ ops ! i) ⊎ (ops' ! i ≡ decided i)

  decided_keeps : (i : ℕ) → i < n → ops ! i ≢ 0 → decided i ≡ ops ! i
  decided_keeps i h some =
      let (a, near, nonzero, value) =
        nz_ancestor_op-Nearest k prefixes parents n below ops i root h in
      let self : a ≡ i = Nearest-unique near (here some) in value ∙ rw self (ground arith)

  partial_keeps :
      (ops' : List ℕ) (i : ℕ) → IsPartial ops' → i < n → ops ! i ≢ 0 → ops' ! i ≡ ops ! i
  partial_keeps ops' i part h some = elim (part i h) [
    | inl same ↦ same
    | inr done ↦ done ∙ decided_keeps i h some
  ]

  -- In such operations the closest ancestor is the old one, or it stands at the same key with its operation.
  partial-Nearest :
      (ops' : List ℕ)
      → IsPartial ops'
      → {i a : ℕ} → i < n
      → Nearest parents ops i a
      → (b : ℕ) × Nearest parents ops' i b
        × (start_key k prefixes b ≡ start_key k prefixes a)
        × (ops' ! b ≡ ops ! a)
  partial-Nearest ops' part {i = i} h (here some) =
      let same = partial_keeps ops' i part h some in
      (i, here (λ e. some (sym same ∙ e)), refl, same)
  partial-Nearest ops' part {i = i} {a = a} h (up none above) =
      let inner : i ≢ 0 = λ e. root (ap (λ (j : ℕ). ops ! j) (sym e) ∙ none) in
      let lower = below i (omega arith) h in
      let (b, near, key, value) = partial-Nearest ops' part (omega arith) above in
      elim (ℕ_discrete (ops' ! i) 0) [
        | yes z ↦ (b, up z near, key, value)
        | no nz ↦ elim (part i h) [
          | inl same ↦ absurd (nz (same ∙ none))
          | inr done ↦
              let (a', near', nonzero, decision) =
                nz_ancestor_op-Nearest k prefixes parents n below ops i root h in
              let self : a' ≡ a = Nearest-unique near' (up none above) in
              let e : ops' ! i
                  ≡ (if start_key k prefixes i == start_key k prefixes a then ops ! a else 0) =
                done
                ∙ decision
                ∙ ap
                    (λ (j : ℕ).
                      if start_key k prefixes i == start_key k prefixes j then ops ! j else 0)
                    self in
              (i, here nz, ground arith, ground arith)
        ]
      ]

  -- So the decision on a node does not depend on which operations have been overwritten.
  partial_decision :
      (ops' : List ℕ) (i : ℕ)
      → IsPartial ops'
      → i < n
      → nz_ancestor_op k i prefixes parents ops' ≡ decided i
  partial_decision ops' i part h =
      let root' : ops' ! 0 ≢ 0 =
        λ e. root (sym (partial_keeps ops' 0 part (omega arith) root) ∙ e) in
      let (a, near, nonzero, value) =
        nz_ancestor_op-Nearest k prefixes parents n below ops i root h in
      let (b, near', key, same) = partial-Nearest ops' part h near in
      let (b', near'', nonzero', value') =
        nz_ancestor_op-Nearest k prefixes parents n below ops' i root' h in
      let self : b' ≡ b = Nearest-unique near'' near' in
      value'
      ∙ ap (λ (j : ℕ). if start_key k prefixes i == start_key k prefixes j then ops' ! j else 0)
          self
      ∙ rw (key, same) (sym value)

  overwrite :
      (ops' : List ℕ) (i v j : ℕ)
      → i < length ops'
      → set ops' i v ! j ≡ (if i == j then v else ops' ! j)
  overwrite ops' i v j h = elim (ℕ_discrete i j) [
    | yes e ↦ rw (← e) (get_or-set_self ops' i v 0 h ∙ ground arith)
    | no ne ↦ get_or-set_ne ops' i j v 0 ne ∙ ground arith
  ]

  overwrite-IsPartial :
      (ops' : List ℕ) (i v : ℕ)
      → i < length ops'
      → v ≡ decided i
      → IsPartial ops'
      → IsPartial (set ops' i v)
  overwrite-IsPartial ops' i v h e part j hj = elim (ℕ_discrete i j) [
    | yes same ↦ inr (rw (← same) (get_or-set_self ops' i v 0 h ∙ e))
    | no ne ↦ elim (part j hj) [
      | inl old ↦ inl (get_or-set_ne ops' i j v 0 ne ∙ old)
      | inr new ↦ inr (get_or-set_ne ops' i j v 0 ne ∙ new)
    ]
  ]

  protect_loop-decided :
      (order ops' : List ℕ) (c j : ℕ)
      → IsPartial ops'
      → length ops' ≡ n
      → ((i : ℕ) → visits order i ≡ true → i < n)
      → j < n
      → ((protect_loop k prefixes parents order (ops', c)).0 ! j
          ≡ (if visits order j then decided j else ops' ! j))
        × (((protect_loop k prefixes parents order (ops', c)).1 == 0)
            ≡ (c == 0 && all_one decided order))
  unfolding protect_loop
  protect_loop-decided [] ops' c j part size inside h = (refl, ground arith)
  protect_loop-decided (i ∷ order) ops' c j part size inside h =
      let now : i < n = inside i (ground arith) in
      let v : ℕ = nz_ancestor_op k i prefixes parents ops' in
      let e : v ≡ decided i = partial_decision ops' i part now in
      let c' : ℕ = if v == 1 then c else c + 1 in
      let (values, count) =
        protect_loop-decided order (set ops' i v) c' j
          (overwrite-IsPartial ops' i v (omega arith) e part) (length-set ops' i v ∙ size)
          (λ m visited. inside m (ground arith)) h in
      (values ∙ ground (arith, overwrite ops' i v j (omega arith)), count ∙ ground arith)

  -- Whatever the order in which `protectAncestors` comes to the nodes, if it comes to all of them, each gets
  -- the decision of `nzAncestorOp` on the operations before the loop, and the result is whether these
  -- decisions leave all nodes as they are. This is for a root whose operation is not 0, a tree whose
  -- parents stand before their children, and an operation for each node.
  pub protect_ancestors-decided :
      (order : List ℕ) (j : ℕ)
      → length ops ≡ n
      → ((i : ℕ) → visits order i ≡ ltb i n)
      → j < n
      → ((protect_ancestors k prefixes parents order ops).0 ! j ≡ decided j)
        × ((protect_ancestors k prefixes parents order ops).1 ≡ all_one decided order)
  unfolding protect_ancestors
  protect_ancestors-decided order j size all h =
      let (values, count) =
        protect_loop-decided order ops 0 j (λ i hi. inl refl) size
          (λ i visited. ltb→lt i n (sym (all i) ∙ visited)) h in
      (values ∙ ground (arith, all j), count)
