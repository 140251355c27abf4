-- ===== src/Focus/Enforce/Keys.antt =====
-- What `enforceKeySingle` and `enforceKeys` of include/cstone/focus/rebalance.hpp do for the keys.
use native.Mathlib.Decide.{ℕ_discrete}
use cornerstone_octree.Base.{
  ℕ, zero, suc, ◌+◌, ◌-◌, ◌/◌, ◌≤◌, ◌<◌, ◌≡◌, ◌≢◌, refl, ap, sym, ◌∙◌, arith, Bool, true, false,
  not, ◌&&◌, ◌||◌, ◌==◌, ltb, List, [], ◌∷◌, length, ◌!◌, ◌⊎◌, inl, inr,
}
use cornerstone_octree.Base.Int.{pos, sub_ℕ}
use cornerstone_octree.Key.{KeyType, max_tree_level}
use cornerstone_octree.Sfc.Range.{node_range, last_nz_place}
use cornerstone_octree.Sfc.Prefix.{decode_prefix_length, make_prefix}
use cornerstone_octree.Tree.Linked.{containing_node}
use cornerstone_octree.Focus.Rebalance.Protect.{ParentsBelow}
use cornerstone_octree.Focus.Enforce.{
  ResolutionStatus, converged, status_value, max_status, enforce_at, enforce_key_single,
  enforce_loop, enforce_keys,
}
use cornerstone_octree.Focus.Enforce.Ancestors.{Ancestor}
use cornerstone_octree.Focus.Enforce.Status.{
  enforce_at-converged, enforce_at-splits, enforce_at-children,
}

-- A key that is not an end of the curve.
abbrev pub IsInner : KeyType → ℕ → Type 0
IsInner k key = (key ≢ 0) × (key ≢ node_range k 0)

module _ (k : KeyType) (key : ℕ) (node_keys child_offsets : List ℕ) where
  -- The smallest node that contains the key's own node, and its level.
  abbrev pub closest : ℕ
  closest = containing_node k (make_prefix k key) node_keys child_offsets

  abbrev pub closest_level : ℕ
  closest_level = decode_prefix_length k (node_keys ! closest) / 3

  -- It is not the key's own node and may be split.
  abbrev pub IsMissing : Type 0
  IsMissing = (node_keys ! closest ≢ make_prefix k key) × (closest_level < max_tree_level k)

  abbrev try_split : Bool
  try_split = not (node_keys ! closest == make_prefix k key) && ltb closest_level (max_tree_level k)

  module _ (parents ops : List ℕ) (inner : IsInner k key) where
    enforce_key_single-at :
        enforce_key_single k key node_keys child_offsets parents ops
        ≡ enforce_at child_offsets parents closest try_split
            (sub_ℕ (last_nz_place k key) closest_level)
            ops
    unfolding enforce_key_single
    enforce_key_single-at =
        let guard : (key == 0 || key == node_range k 0) ≡ false = ground arith in rw guard refl

    -- If the closest node to a key inside the curve is not the key's own node, is not at the finest level and
    -- is above the key's level, `enforceKeySingle` has it split.
    pub enforce_key_single-splits :
        closest < length ops
        → closest_level < last_nz_place k key
        → IsMissing
        → 8 ≤ (enforce_key_single k key node_keys child_offsets parents ops).1 ! closest
    enforce_key_single-splits h above missing =
        let wants : try_split ≡ true = ground arith in
        let levels : sub_ℕ (last_nz_place k key) closest_level
            ≡ pos (suc (last_nz_place k key - closest_level - 1)) =
          ground arith in
        let all : enforce_key_single k key node_keys child_offsets parents ops
            ≡ enforce_at child_offsets parents closest true
                (sub_ℕ (last_nz_place k key) closest_level) ops =
          enforce_key_single-at
          ∙ ap
              (λ (b : Bool).
                enforce_at child_offsets parents closest b
                  (sub_ℕ (last_nz_place k key) closest_level) ops)
              wants in
        rw all (
          enforce_at-splits child_offsets parents closest
            (sub_ℕ (last_nz_place k key) closest_level) ops
            (last_nz_place k key - closest_level - 1) levels h)

    -- If the closest node to a key inside the curve is to be merged, or is not the key's own and may be split, then after
    -- `enforceKeySingle` no child of any of its ancestors is merged, in a tree whose parents stand before
    -- their children.
    pub enforce_key_single-children :
        (n octant p : ℕ)
        → ParentsBelow parents n
        → Ancestor parents closest p
        → (ops ! closest ≡ 0) ⊎ IsMissing
        → closest < n
        → octant < 8
        → child_offsets ! p + octant < length ops
        → (enforce_key_single k key node_keys child_offsets parents ops).1
            ! (child_offsets ! p + octant)
          ≢ 0
    enforce_key_single-children n octant p below a cause h o inside = rw enforce_key_single-at (
        enforce_at-children child_offsets parents closest
          (sub_ℕ (last_nz_place k key) closest_level) ops try_split n octant below a (ground arith)
          h o inside)

    enforce_key_single-converged :
        (enforce_key_single k key node_keys child_offsets parents ops).0 ≡ converged
        → ((enforce_key_single k key node_keys child_offsets parents ops).1 ≡ ops)
          × ((node_keys ! closest ≡ make_prefix k key) ⊎ (max_tree_level k ≤ closest_level))
          × ((ops ! closest ≢ 0) ⊎ (closest ≡ 0))
    enforce_key_single-converged h =
        let (same, present, alive) =
          enforce_at-converged child_offsets parents closest
            (sub_ℕ (last_nz_place k key) closest_level) ops try_split
            (rw enforce_key_single-at at h) in
        (rw enforce_key_single-at same, ground arith, alive)

module _ (k : KeyType) (node_keys child_offsets parents ops : List ℕ) where
  -- A key is an end of the curve, or its closest node is its own or at the finest level and is not merged.
  abbrev pub IsSettled : ℕ → Type 0
  IsSettled key =
      ((key ≡ 0) ⊎ (key ≡ node_range k 0))
      ⊎ (((node_keys ! closest k key node_keys child_offsets ≡ make_prefix k key)
            ⊎ (max_tree_level k ≤ closest_level k key node_keys child_offsets))
          × ((ops ! closest k key node_keys child_offsets ≢ 0)
              ⊎ (closest k key node_keys child_offsets ≡ 0)))

  single-IsSettled :
      (key : ℕ)
      → (enforce_key_single k key node_keys child_offsets parents ops).0 ≡ converged
      → ((enforce_key_single k key node_keys child_offsets parents ops).1 ≡ ops) × IsSettled key
  unfolding enforce_key_single
  single-IsSettled key h = elim (ℕ_discrete key 0) [
    | yes e ↦ (rw e (ground arith), inl (inl e))
    | no start ↦ elim (ℕ_discrete key (node_range k 0)) [
      | yes e ↦
          let guard : (key == 0 || key == node_range k 0) ≡ true = ground arith in
          (rw guard refl, inl (inr e))
      | no end ↦
          let (same, present, alive) =
            enforce_key_single-converged k key node_keys child_offsets parents ops (start, end) h in
          (same, inr (present, alive))
    ]
  ]

  enforce_loop-le :
      (keys ops' : List ℕ) (status : ResolutionStatus)
      → status_value status
        ≤ status_value (enforce_loop k node_keys child_offsets parents keys (status, ops')).0
  unfolding enforce_loop max_status
  enforce_loop-le [] ops' status = omega arith
  enforce_loop-le (key ∷ keys) ops' status =
      let (single, ops'') = enforce_key_single k key node_keys child_offsets parents ops' in
      ground (arith, enforce_loop-le keys ops'' (max_status single status))

  both_converged :
      (a b : ResolutionStatus)
      → status_value (max_status a b) ≤ 0
      → (a ≡ converged) × (b ≡ converged)
  unfolding max_status
  both_converged a b h = ground arith

  enforce_loop-converged :
      (keys : List ℕ) (status : ResolutionStatus)
      → (enforce_loop k node_keys child_offsets parents keys (status, ops)).0 ≡ converged
      → (status ≡ converged)
        × ((enforce_loop k node_keys child_offsets parents keys (status, ops)).1 ≡ ops)
        × ((j : ℕ) → j < length keys → IsSettled (keys ! j))
  unfolding enforce_loop
  enforce_loop-converged [] status h = (h, refl, λ j hj. absurd (omega arith))
  enforce_loop-converged (key ∷ keys) status h =
      let single = (enforce_key_single k key node_keys child_offsets parents ops).0 in
      let ops' = (enforce_key_single k key node_keys child_offsets parents ops).1 in
      let low : status_value (max_status single status) ≤ 0 =
        omega (arith, enforce_loop-le keys ops' (max_status single status), ap status_value h) in
      let (done, old) = both_converged single status low in
      let (same, settled) = single-IsSettled key done in
      let loop = λ (o : List ℕ).
        enforce_loop k node_keys child_offsets parents keys (max_status single status, o) in
      let (_, ops_same, rest) =
        enforce_loop-converged keys (max_status single status)
          (ap (λ (o : List ℕ). (loop o).0) (sym same) ∙ h) in
      (
        old,
        ap (λ (o : List ℕ). (loop o).1) same ∙ ops_same,
        λ j hj. settled_at key keys settled rest j hj,
      )
    where
      settled_at :
          (key : ℕ) (keys : List ℕ)
          → IsSettled key
          → ((j : ℕ) → j < length keys → IsSettled (keys ! j))
          → (j : ℕ) → j < suc (length keys)
          → IsSettled ((key ∷ keys) ! j)
      settled_at key keys first rest zero hj = first
      settled_at key keys first rest (suc j) hj = rest j (omega arith)

  -- If `enforceKeys` reports convergence, it has changed no operation, and each key is an end of the curve or its
  -- closest node is its own or at the finest level, and this node is not to be merged or is the root.
  pub enforce_keys-converged :
      (keys : List ℕ) (j : ℕ)
      → (enforce_keys k keys node_keys child_offsets parents ops).0 ≡ converged
      → j < length keys
      → ((enforce_keys k keys node_keys child_offsets parents ops).1 ≡ ops) × IsSettled (keys ! j)
  unfolding enforce_keys
  enforce_keys-converged keys j h hj =
      let (_, same, settled) = enforce_loop-converged keys converged h in (same, settled j hj)
