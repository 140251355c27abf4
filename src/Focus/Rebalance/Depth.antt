-- ===== src/Focus/Rebalance/Depth.antt =====
-- By how many levels `mergeCountAndMacOp` of include/cstone/focus/rebalance.hpp splits a leaf.
use cornerstone_octree.Base.{
  ℕ, zero, suc, ◌+◌, ◌*◌, ◌%◌, ◌^◌, ◌≤◌, ◌<◌, ◌≡◌, refl, arith, ◌&&◌, ltb, leb, if◌then◌else◌,
  Bool-cases, ◌⊎◌, inl, inr,
}
use cornerstone_octree.Key.{KeyType, max_tree_level, mul_key}
use cornerstone_octree.Focus.Rebalance.{refine_op}

-- The number of buckets that a leaf has to exceed to be split over `d` levels at once.
abbrev pub buckets : ℕ → ℕ
buckets d = if leb d 1 then 1 else 8 ^ d

module _ (k : KeyType) (level count bucket : ℕ) where
  -- The levels exist and the count is over the buckets.
  abbrev pub IsWorth : ℕ → Type 0
  IsWorth d = (level + d ≤ max_tree_level k) × (buckets d * bucket < count)

  abbrev pub IsNot : ℕ → Type 0
  IsNot d = (max_tree_level k < level + d) ⊎ (count ≤ buckets d * bucket)

  -- `d` is the greatest number of levels up to four that is worth a split, or 0 if none is.
  pub record IsDeepest (d : ℕ) : Type 0 where
    pub most : d ≤ 4
    pub worth : (d ≡ 0) ⊎ IsWorth d
    pub greatest : (e : ℕ) → d < e → e ≤ 4 → IsNot e

  IsDeepest-of :
      (d : ℕ)
      → d ≤ 4
      → (d ≡ 0) ⊎ IsWorth d
      → (d < 1 → IsNot 1)
      → (d < 2 → IsNot 2)
      → (d < 3 → IsNot 3)
      → (d < 4 → IsNot 4)
      → IsDeepest d
  IsDeepest-of d most worth no1 no2 no3 no4 = record { most = most; worth = worth; greatest = go }
    where
      go : (e : ℕ) → d < e → e ≤ 4 → IsNot e
      go zero lt le = absurd (omega arith)
      go (suc zero) lt le = no1 lt
      go (suc (suc zero)) lt le = no2 lt
      go (suc (suc (suc zero))) lt le = no3 lt
      go (suc (suc (suc (suc zero)))) lt le = no4 lt
      go (suc (suc (suc (suc (suc e))))) lt le = absurd (omega arith)

  pub refine_op-IsDeepest :
      bucket * 4096 < 2 ^ 32 → (d : ℕ) × IsDeepest d × (refine_op k level count bucket ≡ 8 ^ d)
  unfolding refine_op mul_key
  refine_op-IsDeepest small =
      elim (Bool-cases (ltb (level + 3) (max_tree_level k) && ltb (4096 * bucket % 2 ^ 32) count)) [
        | inl a ↦ (
          4,
          IsDeepest-of 4 (omega arith) (inr (ground arith, ground arith))
              (λ l. absurd (omega arith)) (λ l. absurd (omega arith)) (λ l. absurd (omega arith))
              (λ l. absurd (omega arith)),
          ground arith,
        )
        | inr a ↦
            elim (Bool-cases
              (ltb (level + 2) (max_tree_level k) && ltb (512 * bucket % 2 ^ 32) count)) [
                | inl b ↦ (
                  3,
                  IsDeepest-of 3 (omega arith) (inr (ground arith, ground arith))
                      (λ l. absurd (omega arith)) (λ l. absurd (omega arith))
                      (λ l. absurd (omega arith)) (λ l. ground arith),
                  ground arith,
                )
                | inr b ↦
                    elim (Bool-cases
                      (ltb (level + 1) (max_tree_level k) && ltb (64 * bucket % 2 ^ 32) count)) [
                        | inl c ↦ (
                          2,
                          IsDeepest-of 2 (omega arith) (inr (ground arith, ground arith))
                              (λ l. absurd (omega arith)) (λ l. absurd (omega arith))
                              (λ l. ground arith) (λ l. ground arith),
                          ground arith,
                        )
                        | inr c ↦
                            elim (Bool-cases (ltb level (max_tree_level k) && ltb bucket count)) [
                              | inl d ↦ (
                                1,
                                IsDeepest-of 1 (omega arith) (inr (ground arith, ground arith))
                                    (λ l. absurd (omega arith)) (λ l. ground arith)
                                    (λ l. ground arith) (λ l. ground arith),
                                ground arith,
                              )
                              | inr d ↦ (
                                0,
                                IsDeepest-of 0 (omega arith) (inl refl) (λ l. ground arith)
                                    (λ l. ground arith) (λ l. ground arith) (λ l. ground arith),
                                ground arith,
                              )
                            ]
                      ]
              ]
      ]
