-- ===== src/Focus/Rebalance/Protect.antt =====
-- The protection of ancestors in include/cstone/focus/rebalance.hpp: the search for the closest ancestor with
-- an operation that is not 0, and the loop that overwrites the operations which it reads.
use native.Mathlib.Decide.{ℕ_discrete}
use cornerstone_octree.Base.{
  ℕ, zero, suc, ◌-◌, ◌/◌, ◌≤◌, ◌<◌, ◌≡◌, ◌≢◌, refl, ap, sym, ◌∙◌, arith, ◌==◌, ==_iff, Bool-cases,
  if◌then◌else◌, List, ◌!◌, inl, inr,
}
use cornerstone_octree.Key.{KeyType}
use cornerstone_octree.Sfc.Prefix.{decode_placeholder_bit}
use cornerstone_octree.Focus.Rebalance.{closest_non_zero, nz_ancestor_op}

abbrev pub parent_of : List ℕ → ℕ → ℕ
parent_of parents i = parents ! ((i - 1) / 8)

-- `a` is the closest of a node and its ancestors with an operation that is not 0.
pub data Nearest (parents node_ops : List ℕ) : ℕ → ℕ → Type 0 where
  here : {i : ℕ} → node_ops ! i ≢ 0 → Nearest parents node_ops i i
  up :
      {i a : ℕ}
      → node_ops ! i ≡ 0
      → Nearest parents node_ops (parent_of parents i) a
      → Nearest parents node_ops i a

Nearest-non_zero : {parents ops : List ℕ} {i a : ℕ} → Nearest parents ops i a → ops ! a ≢ 0
Nearest-non_zero (here h) = h
Nearest-non_zero (up e r) = Nearest-non_zero r

pub Nearest-unique :
    {parents ops : List ℕ} {i a b : ℕ} → Nearest parents ops i a → Nearest parents ops i b → a ≡ b
Nearest-unique (here h) (here h') = refl
Nearest-unique (here h) (up e r) = absurd (h e)
Nearest-unique (up e r) (here h) = absurd (h e)
Nearest-unique (up e r) (up e' r') = Nearest-unique r r'

-- Parents stand before their children.
abbrev pub ParentsBelow : List ℕ → ℕ → Type 0
ParentsBelow parents n = (i : ℕ) → 0 < i → i < n → parent_of parents i < i

module _ (parents : List ℕ) (n : ℕ) (below : ParentsBelow parents n) where
  closest_non_zero-Nearest :
      (ops : List ℕ) (fuel i : ℕ)
      → ops ! 0 ≢ 0
      → i < n
      → i ≤ fuel
      → Nearest parents ops i (closest_non_zero parents ops fuel i)
  unfolding closest_non_zero
  closest_non_zero-Nearest ops zero i root h enough =
      let none : i ≡ 0 = omega arith in rw none (here root)
  closest_non_zero-Nearest ops (suc fuel) i root h enough = elim (Bool-cases (ops ! i == 0)) [
    | inr more ↦ rw (more, closest_non_zero) (here (ground arith))
    | inl none ↦
        let zero_op : ops ! i ≡ 0 = (==_iff (ops ! i) 0).0 none in
        elim (ℕ_discrete i 0) [
          | yes e ↦ absurd (root (ap (λ (j : ℕ). ops ! j) (sym e) ∙ zero_op))
          | no ne ↦
              let lower = below i (omega arith) h in
              rw (none, closest_non_zero)
                (up zero_op (
                  closest_non_zero-Nearest ops fuel (parent_of parents i) root (omega arith)
                    (omega arith)))
        ]
  ]

-- The first key of a node.
abbrev pub start_key : KeyType → List ℕ → ℕ → ℕ
start_key k prefixes i = decode_placeholder_bit k (prefixes ! i)

module _ (k : KeyType) (prefixes parents : List ℕ) (n : ℕ) (below : ParentsBelow parents n) where
  -- With an operation of the root that is not 0, the loop of `nzAncestorOp` ends at the closest ancestor with
  -- such an operation. The result is its operation where the node starts at the same key, and else 0.
  pub nz_ancestor_op-Nearest :
      (ops : List ℕ) (i : ℕ)
      → ops ! 0 ≢ 0
      → i < n
      → (a : ℕ) × Nearest parents ops i a
        × (ops ! a ≢ 0)
        × (nz_ancestor_op k i prefixes parents ops
            ≡ (if start_key k prefixes i == start_key k prefixes a then ops ! a else 0))
  unfolding nz_ancestor_op
  nz_ancestor_op-Nearest ops i root h = elim (Bool-cases (i == 0)) [
    | inl first ↦
        let none : i ≡ 0 = (==_iff i 0).0 first in rw none (0, here root, root, ground arith)
    | inr other ↦
        let closest = closest_non_zero parents ops i i in
        let near = closest_non_zero-Nearest parents n below ops i i root h (omega arith) in
        rw (other) (closest, near, Nearest-non_zero near, refl)
  ]
