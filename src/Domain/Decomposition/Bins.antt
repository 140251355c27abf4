-- ===== src/Domain/Decomposition/Bins.antt =====
-- The bins of `uniformBins` in include/cstone/domain/domaindecomp.hpp: runs of nodes with about the same count.
use native.Mathlib.Decide.{dec_lt}
use cornerstone_octree.Base.{
  ℕ, zero, suc, ◌+◌, ◌-◌, ◌%◌, ◌^◌, ◌≤◌, ◌<◌, ◌≡◌, ap, sym, ◌∙◌, arith, List, length, length-set,
  set, get_or-set_self, get_or-set_ne, ◌!◌, ◌↔◌,
}
use cornerstone_octree.Base.Loops.{fill, length-fill, get_or-fill, get_or-fill_outside}
use cornerstone_octree.Primitives.Search.{lower_bound}
use cornerstone_octree.Primitives.Search.Splits.{Splits, lower_bound-Splits, Splits-le}
use cornerstone_octree.Domain.Decomposition.{count_scan, uniform_bins}
use cornerstone_octree.Domain.Decomposition.Sums.{
  sum_first, sum_first_mono, count_scan-sum, count_scan-IsSortedIn, length-count_scan,
}

-- The shares of a total in equal parts: none is more than the total, and they ascend.
pub record AreShares (share : ℕ → ℕ → ℕ → ℕ) (total n : ℕ) : Type 0 where
  pub bounded : (i : ℕ) → i < n → share total n i ≤ total
  pub ascending : (i j : ℕ) → i ≤ j → share total n i ≤ share total n j

module _ (share : ℕ → ℕ → ℕ → ℕ) (counts bins bin_counts : List ℕ) (n : ℕ) (some_bin : 0 < n)
    (places : length bins ≡ n + 1) (small : sum_first counts (length counts) < 2 ^ 64)
    (shares : AreShares share (sum_first counts (length counts)) n) where
  abbrev total : ℕ
  total = sum_first counts (length counts)

  abbrev bin : ℕ → ℕ
  bin r = (uniform_bins share counts bins bin_counts).0 ! r

  start_bins : length (set (set bins 0 0) n (length counts)) ≡ n + 1
  start_bins = length-set (set bins 0 0) n (length counts) ∙ length-set bins 0 0 ∙ places

  pub uniform_bins-first : bin 0 ≡ 0
  unfolding uniform_bins
  uniform_bins-first =
      let whole : length bins - 1 ≡ n = omega arith in
      rw whole (
        get_or-fill_outside (n - 1) 1 _ (set (set bins 0 0) n (length counts)) 0 0 (omega arith)
        ∙ get_or-set_ne (set bins 0 0) n 0 (length counts) 0 (omega arith)
        ∙ get_or-set_self bins 0 0 0 (omega arith))

  pub uniform_bins-last : bin n ≡ length counts
  unfolding uniform_bins
  uniform_bins-last =
      let whole : length bins - 1 ≡ n = omega arith in
      rw whole (
        get_or-fill_outside (n - 1) 1 _ (set (set bins 0 0) n (length counts)) n 0 (omega arith)
        ∙ get_or-set_self (set bins 0 0) n (length counts) 0 (omega (arith, length-set bins 0 0)))

  uniform_bins-entry :
      (i : ℕ)
      → 0 < i
      → i < n
      → Splits (count_scan counts) 0 (length (count_scan counts)) (share total n i) (bin i)
  unfolding uniform_bins
  uniform_bins-entry i from to =
      let whole : length bins - 1 ≡ n = omega arith in
      let scan = count_scan counts in
      let all = count_scan-sum counts small (length counts) (omega arith) in
      let entry =
        get_or-fill (n - 1) 1
          (λ j. lower_bound scan 0 (length scan) (share (scan ! length counts) n j))
          (set (set bins 0 0) n (length counts)) i 0 (omega arith) (omega arith)
          (omega (arith, start_bins)) in
      rw (whole, entry, all)
        (lower_bound-Splits scan 0 (length scan) (share total n i) (omega arith)
          (count_scan-IsSortedIn counts small))

  -- A bin starts at most at the end of the nodes.
  pub bin_within : (r : ℕ) → r ≤ n → bin r ≤ length counts
  bin_within r h = elim (dec_lt 0 r) [
    | no p ↦ let zero_bin : r ≡ 0 = omega arith in rw zero_bin (omega (arith, uniform_bins-first))
    | yes p ↦ elim (dec_lt r n) [
      | no q ↦ let last_bin : r ≡ n = omega arith in rw last_bin (omega (arith, uniform_bins-last))
      | yes q ↦
          (Splits-le (uniform_bins-entry r p q) (length counts) (omega arith)
              (omega (arith, length-count_scan counts small))).1
            (omega (
              arith,
              count_scan-sum counts small (length counts) (omega arith),
              shares.bounded r q,
            ))
    ]
  ]

  bin_ascending : (r : ℕ) → r < n → bin r ≤ bin (r + 1)
  bin_ascending r h = elim (dec_lt 0 r) [
    | no p ↦ let zero_bin : r ≡ 0 = omega arith in rw zero_bin (omega (arith, uniform_bins-first))
    | yes p ↦ elim (dec_lt (r + 1) n) [
      | no q ↦
          let last_bin : r + 1 ≡ n = omega arith in
          rw last_bin (omega (arith, bin_within r (omega arith), uniform_bins-last))
      | yes q ↦
          let here = bin_within (r + 1) (omega arith) in
          (Splits-le (uniform_bins-entry r p (omega arith)) (bin (r + 1)) (omega arith)
              (omega (arith, length-count_scan counts small))).1
            (omega (
              arith,
              shares.ascending r (r + 1) (omega arith),
              (Splits-le (uniform_bins-entry (r + 1) (omega arith) q) (bin (r + 1)) (omega arith)
                    (omega (arith, length-count_scan counts small))).0
                  (omega arith),
            ))
    ]
  ]

  pub bin_mono : (i d : ℕ) → i + d ≤ n → bin i ≤ bin (i + d)
  bin_mono i zero h = let none : i + 0 ≡ i = omega arith in rw none (omega arith)
  bin_mono i (suc d) h =
      let next : i + suc d ≡ i + d + 1 = omega arith in
      rw next (omega (arith, bin_mono i d (omega arith), bin_ascending (i + d) (omega arith)))

  pub length-uniform_bins : length (uniform_bins share counts bins bin_counts).0 ≡ n + 1
  unfolding uniform_bins
  length-uniform_bins =
      length-fill (length bins - 1 - 1) 1 _ (set (set bins 0 0) (length bins - 1) (length counts))
      ∙ length-set (set bins 0 0) (length bins - 1) (length counts)
      ∙ length-set bins 0 0
      ∙ places

  entry_count : ℕ → ℕ
  entry_count r = (count_scan counts ! bin (r + 1) + 2 ^ 64 - count_scan counts ! bin r) % 2 ^ 32

  bin_count_before :
      (r : ℕ)
      → r + 1 < n
      → length bin_counts ≡ n
      → (uniform_bins share counts bins bin_counts).1 ! r ≡ entry_count r
  unfolding uniform_bins entry_count
  bin_count_before r h fits =
      get_or-set_ne _ (length bin_counts - 1) r _ 0 (omega arith)
      ∙ get_or-fill (length bins - 1 - 1) 0 _ bin_counts r 0 (omega arith) (omega arith)
          (omega arith)

  bin_count_back :
      length bin_counts ≡ n
      → (uniform_bins share counts bins bin_counts).1 ! (length bin_counts - 1)
        ≡ (count_scan counts ! length counts
            + 2 ^ 64
            - count_scan counts ! bin (length bins - 1 - 1))
          % 2 ^ 32
  unfolding uniform_bins
  bin_count_back fits =
      get_or-set_self (fill (length bins - 1 - 1) 0 _ bin_counts) (length bin_counts - 1) _ 0
        (omega (arith, length-fill (length bins - 1 - 1) 0 _ bin_counts))

  bin_count_last :
      (r : ℕ)
      → r + 1 ≡ n
      → length bin_counts ≡ n
      → (uniform_bins share counts bins bin_counts).1 ! r ≡ entry_count r
  unfolding entry_count
  bin_count_last r h fits =
      let place : r ≡ length bin_counts - 1 = omega arith in
      let before : length bins - 1 - 1 ≡ r = omega arith in
      let end : length counts ≡ bin (r + 1) = sym uniform_bins-last ∙ ap bin (sym h) in
      let scan = count_scan counts in
      ap (λ (j : ℕ). (uniform_bins share counts bins bin_counts).1 ! j) place
      ∙ bin_count_back fits
      ∙ ap (λ (j : ℕ). (scan ! length counts + 2 ^ 64 - scan ! bin j) % 2 ^ 32) before
      ∙ ap (λ (j : ℕ). (scan ! j + 2 ^ 64 - scan ! bin r) % 2 ^ 32) end

  -- The bins of `uniformBins` follow one another from the first node to the last, and the count of each is
  -- the sum of the counts of its nodes modulo 2 ^ 32, for at least one bin, a sum that 64 bits hold and
  -- shares of the total that ascend and are not more than it.
  pub uniform_bins-count :
      (r : ℕ)
      → r < n
      → length bin_counts ≡ n
      → (bin 0 ≡ 0)
        × (bin n ≡ length counts)
        × (bin r ≤ bin (r + 1))
        × (bin (r + 1) ≤ length counts)
        × ((uniform_bins share counts bins bin_counts).1 ! r
            ≡ (sum_first counts (bin (r + 1)) - sum_first counts (bin r)) % 2 ^ 32)
  unfolding entry_count
  uniform_bins-count r h fits =
      let up = bin_ascending r h in
      let inside = bin_within (r + 1) (omega arith) in
      let entry : (uniform_bins share counts bins bin_counts).1 ! r ≡ entry_count r =
        elim (dec_lt (r + 1) n) [
          | yes p ↦ bin_count_before r p fits
          | no p ↦ bin_count_last r (omega arith) fits
        ] in
      (
        uniform_bins-first,
        uniform_bins-last,
        up,
        inside,
        entry
            ∙ omega (
              arith,
              count_scan-sum counts small (bin (r + 1)) inside,
              count_scan-sum counts small (bin r) (omega arith),
              sum_first_mono counts (bin r) (bin (r + 1)) up,
            ),
      )

  -- A bin of `uniformBins` but the first starts at the first node up to which the counts reach the share
  -- of the bins before it, under the same conditions.
  pub uniform_bins-share :
      (r i : ℕ)
      → 0 < r
      → r < n
      → i ≤ length counts
      → (bin r ≤ i) ↔ (share total n r ≤ sum_first counts i)
  uniform_bins-share r i some h inside = rw (sym (count_scan-sum counts small i inside)) (
      Splits-le (uniform_bins-entry r some h) i (omega arith)
        (omega (arith, length-count_scan counts small)))
