-- ===== src/Focus/Enforce/Ancestors.antt =====
-- The merges that `enforceKeySingle` of include/cstone/focus/rebalance.hpp takes back.
use native.Mathlib.Decide.{ℕ_discrete, dec_lt}
use cornerstone_octree.Base.{
  ℕ, zero, suc, ◌+◌, ◌≤◌, ◌<◌, ◌≡◌, ◌≢◌, refl, ◌∙◌, arith, ◌==◌, ==_iff, Bool-cases, if◌then◌else◌,
  List, length, length-set, set, get_or-set_self, get_or-set_ne, set_past, ◌!◌, ◌⊎◌, inl, inr,
}
use cornerstone_octree.Focus.Rebalance.Protect.{parent_of, ParentsBelow}
use cornerstone_octree.Focus.Enforce.{keep_siblings, keep_ancestors}

abbrev keep_one : List ℕ → ℕ → List ℕ
keep_one ops i = if ops ! i == 0 then set ops i 1 else ops

length-keep_one : (ops : List ℕ) (i : ℕ) → length (keep_one ops i) ≡ length ops
length-keep_one ops i = elim (Bool-cases (ops ! i == 0)) [
  | inl e ↦ rw e (length-set ops i 1)
  | inr e ↦ rw e refl
]

-- An operation changes only from 0 to 1.
abbrev pub IsKept : List ℕ → List ℕ → Type 0
IsKept ops ops' =
    (length ops' ≡ length ops) × ((j : ℕ) → (ops' ! j ≡ ops ! j) ⊎ ((ops ! j ≡ 0) × (ops' ! j ≡ 1)))

IsKept-trans : (a b c : List ℕ) → IsKept a b → IsKept b c → IsKept a c
IsKept-trans a b c (p, h) (q, g) = (q ∙ p, λ j. ground (arith, h j, g j))

keep_one-IsKept : (ops : List ℕ) (i : ℕ) → IsKept ops (keep_one ops i)
keep_one-IsKept ops i = (
  length-keep_one ops i,
  λ j. elim (Bool-cases (ops ! i == 0)) [
    | inr some ↦ rw some (inl refl)
    | inl none ↦ elim (ℕ_discrete i j) [
      | no ne ↦ rw none (inl (get_or-set_ne ops i j 1 0 ne))
      | yes e ↦ elim (dec_lt i (length ops)) [
        | yes h ↦ rw (none, ← e) (inr ((==_iff (ops ! i) 0).0 none, get_or-set_self ops i 1 0 h))
        | no h ↦ rw (none, set_past ops i 1 (omega arith)) (inl refl)
      ]
    ]
  ],
)

keep_siblings-IsKept : (left i : ℕ) (ops : List ℕ) → IsKept ops (keep_siblings left i ops)
unfolding keep_siblings
keep_siblings-IsKept zero i ops = (refl, λ j. inl refl)
keep_siblings-IsKept (suc left) i ops =
    IsKept-trans ops (keep_one ops i) (keep_siblings left (i + 1) (keep_one ops i))
      (keep_one-IsKept ops i) (keep_siblings-IsKept left (i + 1) (keep_one ops i))

IsKept-nonzero : (ops ops' : List ℕ) (j : ℕ) → IsKept ops ops' → ops ! j ≢ 0 → ops' ! j ≢ 0
IsKept-nonzero ops ops' j (size, h) some = ground (arith, h j)

keep_one-at : (ops : List ℕ) (i : ℕ) → i < length ops → keep_one ops i ! i ≢ 0
keep_one-at ops i h = elim (Bool-cases (ops ! i == 0)) [
  | inl none ↦ rw (none, get_or-set_self ops i 1 0 h) (λ e. cc e)
  | inr some ↦ rw some (ground arith)
]

keep_siblings-at :
    (left i j : ℕ) (ops : List ℕ)
    → i ≤ j
    → j < i + left
    → j < length ops
    → keep_siblings left i ops ! j ≢ 0
unfolding keep_siblings
keep_siblings-at zero i j ops from to h = absurd (omega arith)
keep_siblings-at (suc left) i j ops from to h = elim (dec_lt i j) [
  | yes p ↦
      keep_siblings-at left (i + 1) j (keep_one ops i) (omega arith) (omega arith)
        (omega (arith, length-keep_one ops i))
  | no p ↦
      let here : i ≡ j = omega arith in
      rw (← here) (
        IsKept-nonzero _ _ i (keep_siblings-IsKept left (i + 1) (keep_one ops i))
          (keep_one-at ops i (omega arith)))
]

-- `p` is the parent of a node that is not the root, or an ancestor of its parent.
pub data Ancestor (parents : List ℕ) : ℕ → ℕ → Type 0 where
  direct : {i : ℕ} → 0 < i → Ancestor parents i (parent_of parents i)
  above : {i p : ℕ} → 0 < i → Ancestor parents (parent_of parents i) p → Ancestor parents i p

pub Ancestor-inner : {parents : List ℕ} {i p : ℕ} → Ancestor parents i p → 0 < i
Ancestor-inner (direct h) = h
Ancestor-inner (above h r) = h

module _ (child_offsets parents : List ℕ) where
  pub keep_ancestors-IsKept :
      (fuel i : ℕ) (ops : List ℕ) → IsKept ops (keep_ancestors child_offsets parents fuel i ops)
  unfolding keep_ancestors
  keep_ancestors-IsKept zero i ops = (refl, λ j. inl refl)
  keep_ancestors-IsKept (suc fuel) i ops =
      let p = parent_of parents i in
      let first = keep_siblings-IsKept 8 (child_offsets ! p) ops in
      elim (Bool-cases (p == 0)) [
        | inl root ↦ rw (root, keep_ancestors) first
        | inr more ↦
            rw (more, keep_ancestors)
              (IsKept-trans ops (keep_siblings 8 (child_offsets ! p) ops)
                (keep_ancestors child_offsets parents fuel p
                  (keep_siblings 8 (child_offsets ! p) ops))
                first (keep_ancestors-IsKept fuel p (keep_siblings 8 (child_offsets ! p) ops)))
      ]

  module _ (n : ℕ) (below : ParentsBelow parents n) where
    -- The loop over the ancestors leaves none of their children to be merged.
    pub keep_ancestors-children :
        (fuel : ℕ) (ops : List ℕ) {i p : ℕ} (octant : ℕ)
        → Ancestor parents i p
        → i < n
        → i ≤ fuel
        → octant < 8
        → child_offsets ! p + octant < length ops
        → keep_ancestors child_offsets parents fuel i ops ! (child_offsets ! p + octant) ≢ 0
    unfolding keep_ancestors
    keep_ancestors-children zero ops octant a h enough o inside =
        absurd (omega (arith, Ancestor-inner a))
    keep_ancestors-children (suc fuel) ops {i = i} octant (direct some) h enough o inside =
        let p = parent_of parents i in
        let ops' = keep_siblings 8 (child_offsets ! p) ops in
        let at =
          keep_siblings-at 8 (child_offsets ! p) (child_offsets ! p + octant) ops (omega arith)
            (omega arith) inside in
        elim (Bool-cases (p == 0)) [
          | inl root ↦ rw (root, keep_ancestors) at
          | inr more ↦
              rw (more, keep_ancestors)
                (IsKept-nonzero _ _ (child_offsets ! p + octant) (keep_ancestors-IsKept fuel p ops')
                  at)
        ]
    keep_ancestors-children (suc fuel) ops {i = i} {p = p} octant (above some r) h enough o inside =
        let q = parent_of parents i in
        let ops' = keep_siblings 8 (child_offsets ! q) ops in
        let lower = below i some h in
        elim (Bool-cases (q == 0)) [
          | inl root ↦ absurd (omega (arith, Ancestor-inner r, (==_iff q 0).0 root))
          | inr more ↦
              rw (more, keep_ancestors)
                (keep_ancestors-children fuel ops' octant r (omega arith) (omega arith) o
                  (omega (arith, (keep_siblings-IsKept 8 (child_offsets ! q) ops).0)))
        ]
