-- ===== src/Focus/Enforce/Status.antt =====
-- The status that `enforceKeySingle` and `enforceKeys` of include/cstone/focus/rebalance.hpp report, and the
-- operations that go with it.
use native.Mathlib.Decide.{ℕ_discrete, dec_lt}
use cornerstone_octree.Base.{
  ℕ, suc, ◌+◌, ◌*◌, ◌^◌, ◌≤◌, ◌<◌, ◌≡◌, ◌≢◌, refl, ap, arith, Bool, true, false, ◌&&◌, ◌||◌, ◌==◌,
  ltb, if◌then◌else◌, List, length, set, get_or-set_self, get_or-set_ne, set_past, ◌!◌, ◌⊎◌, max,
}
use cornerstone_octree.Base.Int.{ℤ, pos, pos_part, min_ℤ}
use cornerstone_octree.Focus.Rebalance.Protect.{ParentsBelow}
use cornerstone_octree.Focus.Enforce.{converged, keep_ancestors, enforce_at}
use cornerstone_octree.Focus.Enforce.Ancestors.{
  Ancestor, Ancestor-inner, keep_ancestors-IsKept, keep_ancestors-children,
}

-- An entry that is set to a value of at least its own does not fall.
set-le : (xs : List ℕ) (i v j : ℕ) → xs ! i ≤ v → xs ! j ≤ set xs i v ! j
set-le xs i v j h = elim (ℕ_discrete i j) [
  | no ne ↦ omega (arith, get_or-set_ne xs i j v 0 ne)
  | yes e ↦ elim (dec_lt i (length xs)) [
    | yes inside ↦ rw (← e) (omega (arith, get_or-set_self xs i v 0 inside))
    | no past ↦ rw (set_past xs i v (omega arith)) (omega arith)
  ]
]

module _ (child_offsets parents : List ℕ) (i : ℕ) (level_diff : ℤ) (ops : List ℕ) where
  pub enforce_at-converged :
      (try_split : Bool)
      → (enforce_at child_offsets parents i try_split level_diff ops).0 ≡ converged
      → ((enforce_at child_offsets parents i try_split level_diff ops).1 ≡ ops)
        × (try_split ≡ false)
        × ((ops ! i ≢ 0) ⊎ (i ≡ 0))
  unfolding enforce_at
  enforce_at-converged try_split h = ground arith

  -- The operations before the split.
  abbrev kept : Bool → List ℕ
  kept try_split =
      if (ops ! i == 0 || try_split) && ltb 0 i
      then keep_ancestors child_offsets parents i i ops
      else ops

  abbrev pieces : ℕ
  pieces = 2 ^ (3 * pos_part (min_ℤ level_diff (pos 1)))

  enforce_at-ops :
      (try_split : Bool)
      → (enforce_at child_offsets parents i try_split level_diff ops).1 ≡ (
          if try_split
          then set (kept try_split) i (max (kept try_split ! i) pieces)
          else kept try_split)
  unfolding enforce_at
  enforce_at-ops true = refl
  enforce_at-ops false = refl

  kept-le :
      (try_split : Bool) (j : ℕ)
      → (length (kept try_split) ≡ length ops) × (ops ! j ≤ kept try_split ! j)
  kept-le try_split j =
      let (size, h) = keep_ancestors-IsKept child_offsets parents i i ops in ground (arith, h j)

  -- An operation does not fall.
  enforce_at-le :
      (try_split : Bool) (j : ℕ)
      → kept try_split ! j ≤ (enforce_at child_offsets parents i try_split level_diff ops).1 ! j
  enforce_at-le true j =
      rw (enforce_at-ops true) (set-le (kept true) i (max (kept true ! i) pieces) j (omega arith))
  enforce_at-le false j = rw (enforce_at-ops false) (omega arith)

  pub enforce_at-splits :
      (d : ℕ)
      → level_diff ≡ pos (suc d)
      → i < length ops
      → 8 ≤ (enforce_at child_offsets parents i true level_diff ops).1 ! i
  unfolding min_ℤ
  enforce_at-splits d e h =
      let one : pos_part (min_ℤ level_diff (pos 1)) ≡ 1 = rw e (ground arith) in
      rw
        (
          enforce_at-ops true,
          get_or-set_self (kept true) i (max (kept true ! i) pieces) 0
              (omega (arith, (kept-le true 0).0)),
          one,
        )
        (omega arith)

  -- The children of all ancestors of a node that is to be kept or split are kept.
  pub enforce_at-children :
      (try_split : Bool) (n octant : ℕ) {p : ℕ}
      → ParentsBelow parents n
      → Ancestor parents i p
      → (ops ! i ≡ 0) ⊎ (try_split ≡ true)
      → i < n
      → octant < 8
      → child_offsets ! p + octant < length ops
      → (enforce_at child_offsets parents i try_split level_diff ops).1
          ! (child_offsets ! p + octant)
        ≢ 0
  enforce_at-children try_split n octant {p = p} below a cause h o inside =
      let taken : kept try_split ≡ keep_ancestors child_offsets parents i i ops =
        ground (arith, Ancestor-inner a) in
      let some =
        keep_ancestors-children child_offsets parents n below i ops octant a h (omega arith) o
          inside in
      omega (
        arith,
        enforce_at-le try_split (child_offsets ! p + octant),
        ap (λ (xs : List ℕ). xs ! (child_offsets ! p + octant)) taken,
        some,
      )
