-- ===== src/Tree/Linked/Upsweep/Combined.antt =====
-- What `upsweep` of include/cstone/tree/octree.hpp leaves in the nodes of all levels.
use native.Mathlib.Decide.{dec_lt}
use cornerstone_octree.Base.{
  ℕ, zero, suc, ◌+◌, ◌-◌, ◌≤◌, ◌<◌, ◌≡◌, ◌≢◌, refl, ap, sym, ◌∙◌, arith, List, length, ◌!◌, inl,
  inr, ◌⊎◌,
}
use cornerstone_octree.Tree.Linked.Upsweep.{
  Combination, IsLocal, upsweep_level, upsweep_levels, upsweep, level-outside, length-level,
  level-at, level-leaf,
}

-- The levels of an octree, whose inner nodes have their children behind their level.
pub record HasLevels (level_offset child_offsets : List ℕ) : Type 0 where
  pub first : level_offset ! 0 ≡ 0
  pub ascend : (l : ℕ) → l < length level_offset - 1 → level_offset ! l ≤ level_offset ! (l + 1)
  pub behind :
      (l j : ℕ)
      → l < length level_offset - 1
      → level_offset ! l ≤ j
      → j < level_offset ! (l + 1)
      → child_offsets ! j ≢ 0
      → level_offset ! (l + 1) ≤ child_offsets ! j

module _ (combine : Combination) (level_offset child_offsets : List ℕ) (reads : IsLocal combine)
    (levels : HasLevels level_offset child_offsets) where
  abbrev after : ℕ → List ℕ → List ℕ
  after n q = upsweep_levels combine level_offset child_offsets n q

  abbrev level_after : ℕ → List ℕ → List ℕ
  level_after n q =
      upsweep_level combine child_offsets (level_offset ! (n + 1) - level_offset ! n)
        (level_offset ! n) q

  step : (n : ℕ) → n + 1 ≡ suc n
  step n = omega arith

  -- The levels before one leave it as it is.
  levels-outside :
      (n : ℕ) (q : List ℕ) (p : ℕ)
      → n ≤ length level_offset - 1
      → level_offset ! n ≤ p
      → after n q ! p ≡ q ! p
  unfolding upsweep_levels
  levels-outside zero q p fits from = refl
  levels-outside (suc n) q p fits from =
      let up = levels.ascend n (omega arith) in
      let next : level_offset ! (n + 1) ≡ level_offset ! suc n =
        ap (λ (t : ℕ). level_offset ! t) (step n) in
      levels-outside n (level_after n q) p (omega arith) (omega (arith, up, next))
      ∙ level-outside combine child_offsets (level_offset ! (n + 1) - level_offset ! n)
          (level_offset ! n) q p (inr (omega (arith, up, next)))

  levels_combined :
      (n : ℕ) (q : List ℕ) (j : ℕ)
      → n ≤ length level_offset - 1
      → j < level_offset ! n
      → j < length q
      → (child_offsets ! j ≡ 0 → after n q ! j ≡ q ! j)
        × (child_offsets ! j ≢ 0 → after n q ! j ≡ combine j (child_offsets ! j) (after n q))
  unfolding upsweep_levels
  levels_combined zero q j fits here inside = absurd (omega (arith, levels.first))
  levels_combined (suc n) q j fits here inside =
      let up = levels.ascend n (omega arith) in
      let next : level_offset ! (n + 1) ≡ level_offset ! suc n =
        ap (λ (t : ℕ). level_offset ! t) (step n) in
      let size : ℕ = level_offset ! (n + 1) - level_offset ! n in
      let start : ℕ = level_offset ! n in
      let room : length (level_after n q) ≡ length q =
        length-level combine child_offsets size start q in
      elim (dec_lt j start) [
        | yes lt ↦
            let (leaf, inner) =
              levels_combined n (level_after n q) j (omega arith) lt (omega (arith, room)) in
            (λ none. leaf none ∙ level-outside combine child_offsets size start q j (inl lt), inner)
        | no ge ↦
            let settled = levels-outside n (level_after n q) j (omega arith) (omega arith) in
            (
              λ none. settled ∙ level-leaf combine child_offsets reads size start q j none,
              λ has.
                  let behind =
                    levels.behind n j (omega arith) (omega arith) (omega (arith, next)) has in
                  settled
                  ∙ level-at combine child_offsets reads size start q j (omega arith)
                      (omega (arith, next, up)) inside has (omega (arith, behind, up))
                  ∙ reads j (child_offsets ! j) q (after n (level_after n q)) (λ octant small. sym (
                      levels-outside n (level_after n q) (child_offsets ! j + octant) (omega arith)
                        (omega (arith, behind, up))
                      ∙ level-outside combine child_offsets size start q
                          (child_offsets ! j + octant) (inr (omega (arith, behind, up))))),
            )
      ]

  -- `upsweep` leaves the quantity of a leaf as it is, and gives each inner node what its combination makes of the final
  -- quantities of its children, if the children stand in levels behind the node and the combination reads nothing else.
  pub upsweep_combined :
      (quantities : List ℕ) (j : ℕ)
      → j < level_offset ! (length level_offset - 1)
      → j < length quantities
      → ((child_offsets ! j ≡ 0)
          × (upsweep combine level_offset child_offsets quantities ! j ≡ quantities ! j))
        ⊎ ((child_offsets ! j ≢ 0)
            × (upsweep combine level_offset child_offsets quantities ! j
                ≡ combine j
                    (child_offsets ! j)
                    (upsweep combine level_offset child_offsets quantities)))
  unfolding upsweep
  upsweep_combined quantities j here inside =
      let (leaf, inner) =
        levels_combined (length level_offset - 1) quantities j (omega arith) here inside in
      elim (dec_lt 0 (child_offsets ! j)) [
        | yes p ↦ let has : child_offsets ! j ≢ 0 = omega arith in inr (has, inner has)
        | no p ↦ let none : child_offsets ! j ≡ 0 = omega arith in inl (none, leaf none)
      ]
