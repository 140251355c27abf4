-- ===== src/Tree/Linked/Upsweep.antt =====
-- `upsweep` of include/cstone/tree/octree.hpp, which combines the quantities of children from the last level up.
pub mod Combined
use native.Mathlib.Decide.{dec_lt}
use cornerstone_octree.Base.{
  ℕ, zero, suc, ◌+◌, ◌-◌, ◌%◌, ◌^◌, ◌≤◌, ◌<◌, ◌≡◌, ◌≢◌, refl, ap, sym, ◌∙◌, arith, min, List,
  length, set, ◌!◌, if◌then◌else◌, ◌==◌, Bool-cases, inl, inr, ◌⊎◌, length-set, get_or-set_self,
  get_or-set_ne, true, false, ==_iff,
}

-- What combines the quantities of the children, the first of which is given, for a node.
abbrev pub Combination : Type 0
Combination = ℕ → ℕ → List ℕ → ℕ

-- `NodeCount`, whose sum is of 64 bits.
unfoldable pub node_count : Combination
node_count node c q = min 0xFFFF_FFFF (
    (q ! c
      + q ! (c + 1)
      + q ! (c + 2)
      + q ! (c + 3)
      + q ! (c + 4)
      + q ! (c + 5)
      + q ! (c + 6)
      + q ! (c + 7))
    % 2 ^ 64)

-- The loop over the nodes of a level, from node `i` on.
unfoldable pub upsweep_level : Combination → List ℕ → ℕ → ℕ → List ℕ → List ℕ
upsweep_level combine child_offsets zero i quantities = quantities
upsweep_level combine child_offsets (suc left) i quantities =
    let first_child = child_offsets ! i in
    upsweep_level combine child_offsets left (i + 1)
      (if first_child == 0 then quantities else set quantities i (combine i first_child quantities))

-- The loop over the levels below `level`, from the last one.
unfoldable pub upsweep_levels : Combination → List ℕ → List ℕ → ℕ → List ℕ → List ℕ
unfolding upsweep_level
upsweep_levels combine level_offset child_offsets zero quantities = quantities
upsweep_levels combine level_offset child_offsets (suc level) quantities =
    let start = level_offset ! level in
    let end = level_offset ! (level + 1) in
    upsweep_levels combine level_offset child_offsets level
      (upsweep_level combine child_offsets (end - start) start quantities)

-- `upsweep`.
unfoldable pub upsweep : Combination → List ℕ → List ℕ → List ℕ → List ℕ
unfolding upsweep_levels
upsweep combine level_offset child_offsets quantities =
    upsweep_levels combine level_offset child_offsets (length level_offset - 1) quantities

-- A combination reads the eight children only.
abbrev pub IsLocal : Combination → Type 0
IsLocal combine =
    (node c : ℕ) (p q : List ℕ)
    → ((octant : ℕ) → octant < 8 → p ! (c + octant) ≡ q ! (c + octant))
    → combine node c p ≡ combine node c q

pub node_count-IsLocal : IsLocal node_count
unfolding node_count
node_count-IsLocal node c p q same =
    let first : c + 0 ≡ c = omega arith in
    omega (
      arith,
      ap (λ (t : ℕ). p ! t) (sym first) ∙ same 0 (omega arith) ∙ ap (λ (t : ℕ). q ! t) first,
      same 1 (omega arith),
      same 2 (omega arith),
      same 3 (omega arith),
      same 4 (omega arith),
      same 5 (omega arith),
      same 6 (omega arith),
      same 7 (omega arith),
    )

module _ (combine : Combination) (child_offsets : List ℕ) where
  -- A round for a node.
  abbrev round : ℕ → List ℕ → List ℕ
  round i q = if child_offsets ! i == 0 then q else set q i (combine i (child_offsets ! i) q)

  round-ne : (i p : ℕ) (q : List ℕ) → i ≢ p → round i q ! p ≡ q ! p
  round-ne i p q ne = elim (Bool-cases (child_offsets ! i == 0)) [
    | inl leaf ↦ rw leaf refl
    | inr inner ↦ rw inner (get_or-set_ne q i p (combine i (child_offsets ! i) q) 0 ne)
  ]

  length-round : (i : ℕ) (q : List ℕ) → length (round i q) ≡ length q
  length-round i q = elim (Bool-cases (child_offsets ! i == 0)) [
    | inl leaf ↦ rw leaf refl
    | inr inner ↦ rw inner (length-set q i (combine i (child_offsets ! i) q))
  ]

  pub level-outside :
      (left i : ℕ) (q : List ℕ) (p : ℕ)
      → (p < i) ⊎ (i + left ≤ p)
      → upsweep_level combine child_offsets left i q ! p ≡ q ! p
  unfolding upsweep_level
  level-outside zero i q p out = refl
  level-outside (suc left) i q p out =
      level-outside left (i + 1) (round i q) p (omega arith) ∙ round-ne i p q (omega arith)

  pub length-level :
      (left i : ℕ) (q : List ℕ) → length (upsweep_level combine child_offsets left i q) ≡ length q
  unfolding upsweep_level
  length-level zero i q = refl
  length-level (suc left) i q = length-level left (i + 1) (round i q) ∙ length-round i q

  module _ (reads : IsLocal combine) where
    -- A node of the level gets what its children, that stand behind the level, combine to.
    pub level-at :
        (left i : ℕ) (q : List ℕ) (j : ℕ)
        → i ≤ j
        → j < i + left
        → j < length q
        → child_offsets ! j ≢ 0
        → i + left ≤ child_offsets ! j
        → upsweep_level combine child_offsets left i q ! j ≡ combine j (child_offsets ! j) q
    unfolding upsweep_level
    level-at zero i q j from to inside inner behind = absurd (omega arith)
    level-at (suc left) i q j from to inside inner behind = elim (dec_lt i j) [
      | yes lt ↦
          level-at left (i + 1) (round i q) j (omega arith) (omega arith)
            (omega (arith, length-round i q)) inner (omega arith)
          ∙ reads j (child_offsets ! j) (round i q) q
              (λ octant small. round-ne i (child_offsets ! j + octant) q (omega arith))
      | no ge ↦
          let here : i ≡ j = omega arith in
          let has : (child_offsets ! j == 0) ≡ false = ground arith in
          level-outside left (i + 1) (round i q) j (omega arith)
          ∙ rw (here, has) (get_or-set_self q j (combine j (child_offsets ! j) q) 0 inside)
    ]

    pub level-leaf :
        (left i : ℕ) (q : List ℕ) (j : ℕ)
        → child_offsets ! j ≡ 0
        → upsweep_level combine child_offsets left i q ! j ≡ q ! j
    unfolding upsweep_level
    level-leaf zero i q j leaf = refl
    level-leaf (suc left) i q j leaf = level-leaf left (i + 1) (round i q) j leaf ∙ unchanged
      where
        unchanged : round i q ! j ≡ q ! j
        unchanged = elim (dec_lt i j) [
          | yes lt ↦ round-ne i j q (omega arith)
          | no ge ↦ elim (dec_lt j i) [
            | yes lt ↦ round-ne i j q (omega arith)
            | no le ↦
                let here : i ≡ j = omega arith in
                let none : (child_offsets ! j == 0) ≡ true =
                  (==_iff (child_offsets ! j) 0).1 leaf in
                rw (here, none) refl
          ]
        ]
