-- ===== src/Domain/Decomposition/Sums.antt =====
-- The sums of counts that `uniformBins` of include/cstone/domain/domaindecomp.hpp searches.
use cornerstone_octree.Base.{
  ℕ, zero, suc, ◌+◌, ◌%◌, ◌^◌, ◌≤◌, ◌<◌, ◌≡◌, refl, ap, ◌∙◌, arith, List, [], ◌∷◌, length, ◌!◌,
}
use cornerstone_octree.Primitives.Search.Splits.{IsSortedIn}
use cornerstone_octree.Domain.Decomposition.{inclusive_scan, count_scan}

-- The sum of the first counts.
abbrev pub sum_first : List ℕ → ℕ → ℕ
sum_first xs zero = 0
sum_first [] (suc n) = 0
sum_first (x ∷ xs) (suc n) = x + sum_first xs n

pub sum_first_mono : (xs : List ℕ) (i j : ℕ) → i ≤ j → sum_first xs i ≤ sum_first xs j
sum_first_mono xs zero j h = omega arith
sum_first_mono xs (suc i) zero h = absurd (omega arith)
sum_first_mono [] (suc i) (suc j) h = omega arith
sum_first_mono (x ∷ xs) (suc i) (suc j) h = omega (arith, sum_first_mono xs i j (omega arith))

length-inclusive_scan : (acc : ℕ) (xs : List ℕ) → length (inclusive_scan acc xs) ≡ length xs
unfolding inclusive_scan
length-inclusive_scan acc [] = refl
length-inclusive_scan acc (x ∷ xs) = ap suc (length-inclusive_scan ((acc + x) % 2 ^ 64) xs)

inclusive_scan-sum :
    (acc : ℕ) (xs : List ℕ) (i : ℕ)
    → acc + sum_first xs (length xs) < 2 ^ 64
    → i < length xs
    → inclusive_scan acc xs ! i ≡ acc + sum_first xs (suc i)
unfolding inclusive_scan
inclusive_scan-sum acc [] i small h = absurd (omega arith)
inclusive_scan-sum acc (x ∷ xs) zero small h = omega arith
inclusive_scan-sum acc (x ∷ xs) (suc i) small h =
    let fits : (acc + x) % 2 ^ 64 ≡ acc + x = omega arith in
    rw fits (inclusive_scan-sum (acc + x) xs i (omega arith) (omega arith) ∙ omega arith)

module _ (counts : List ℕ) (small : sum_first counts (length counts) < 2 ^ 64) where
  pub length-count_scan : length (count_scan counts) ≡ length counts + 1
  unfolding count_scan
  length-count_scan = omega (arith, length-inclusive_scan 0 counts)

  pub count_scan-sum : (i : ℕ) → i ≤ length counts → count_scan counts ! i ≡ sum_first counts i
  unfolding count_scan
  count_scan-sum zero h = refl
  count_scan-sum (suc i) h = inclusive_scan-sum 0 counts i (omega arith) (omega arith) ∙ omega arith

  pub count_scan-IsSortedIn : IsSortedIn (count_scan counts) 0 (length (count_scan counts))
  count_scan-IsSortedIn i j from up to = omega (
    arith,
    length-count_scan,
    count_scan-sum i (omega (arith, length-count_scan)),
    count_scan-sum j (omega (arith, length-count_scan)),
    sum_first_mono counts i j up,
  )
