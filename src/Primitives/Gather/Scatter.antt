-- ===== src/Primitives/Gather/Scatter.antt =====
-- That the `gather` of include/cstone/primitives/gather.hpp undoes its `scatter`.
use cornerstone_octree.Base.{
  ℕ, zero, suc, ◌+◌, ◌≤◌, ◌<◌, ◌≡◌, ◌≢◌, refl, sym, ◌∙◌, arith, List, length, length-set, set, ◌!◌,
  get_or-set_self, get_or-set_ne,
}
use cornerstone_octree.Base.Loops.{get_or-fill}
use cornerstone_octree.Primitives.Gather.{gather, scatter_loop, scatter}
use native.Mathlib.Decide.{dec_lt}

scatter_loop-outside :
    (ordering source : List ℕ) (left i : ℕ) (destination : List ℕ) (p : ℕ)
    → ((j : ℕ) → i ≤ j → j < i + left → ordering ! j ≢ p)
    → scatter_loop ordering source left i destination ! p ≡ destination ! p
unfolding scatter_loop
scatter_loop-outside ordering source zero i destination p apart = refl
scatter_loop-outside ordering source (suc left) i destination p apart =
    scatter_loop-outside ordering source left (i + 1) (set destination (ordering ! i) (source ! i))
      p (λ j from to. apart j (omega arith) (omega arith))
    ∙ get_or-set_ne destination (ordering ! i) p (source ! i) 0
        (apart i (omega arith) (omega arith))

-- No two places of the ordering hold one index.
abbrev pub IsInjective : List ℕ → Type 0
IsInjective ordering = (i j : ℕ) → i < j → j < length ordering → ordering ! i ≢ ordering ! j

module _ (ordering source : List ℕ) (apart : IsInjective ordering) where
  scatter_loop-at :
      (left i : ℕ) (destination : List ℕ) (j : ℕ)
      → i + left ≡ length ordering
      → ordering ! j < length destination
      → i ≤ j
      → j < i + left
      → scatter_loop ordering source left i destination ! (ordering ! j) ≡ source ! j
  unfolding scatter_loop
  scatter_loop-at zero i destination j all inside from to = absurd (omega arith)
  scatter_loop-at (suc left) i destination j all inside from to = elim (dec_lt i j) [
    | yes p ↦
        scatter_loop-at left (i + 1) (set destination (ordering ! i) (source ! i)) j (omega arith)
          (omega (arith, length-set destination (ordering ! i) (source ! i))) (omega arith)
          (omega arith)
    | no p ↦
        let here : i ≡ j = omega arith in
        scatter_loop-outside ordering source left (i + 1)
          (set destination (ordering ! i) (source ! i)) (ordering ! j)
          (λ m from' to' e. apart j m (omega arith) (omega arith) (sym e))
        ∙ rw here (get_or-set_self destination (ordering ! j) (source ! j) 0 inside)
  ]

  -- `gather` through an ordering gives back what `scatter` through it has spread, if the ordering holds no
  -- index twice and each within the array between.
  pub gather-scatter :
      (between out : List ℕ) (i : ℕ)
      → i < length ordering
      → length out ≡ length ordering
      → ordering ! i < length between
      → gather ordering (scatter ordering source between) out ! i ≡ source ! i
  unfolding gather scatter
  gather-scatter between out i h same inside =
      get_or-fill (length ordering) 0
        (λ j. scatter_loop ordering source (length ordering) 0 between ! (ordering ! j)) out i 0
        (omega arith) (omega arith) (omega arith)
      ∙ scatter_loop-at (length ordering) 0 between i (omega arith) inside (omega arith)
          (omega arith)
