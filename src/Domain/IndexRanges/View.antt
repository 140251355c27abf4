-- ===== src/Domain/IndexRanges/View.antt =====
-- `IndexRanges` as the list of its ranges, and `ExchangeLog` as the first entry of each rank.
use native.Mathlib.Decide.{ℕ_discrete}
use cornerstone_octree.Base.{
  ℕ, zero, suc, ◌+◌, ◌-◌, ◌%◌, ◌^◌, ◌≤◌, ◌<◌, ◌≡◌, refl, ap, ◌∙◌, arith, true, false, ◌==◌,
  if◌then◌else◌, List, [], ◌∷◌, ◌++◌, length, ◌!◌, length-append, get_or-append_left,
  get_or-append_right, none, some,
}
use cornerstone_octree.Sfc.Range.{sub_unsigned}
use cornerstone_octree.Domain.IndexRanges.{
  IndexRanges, empty_ranges, add_range, range_start, count, range_end, n_ranges, add_exchange,
  lookup,
}

-- The scan has one element more than there are ranges, and its last one is the total.
pub record IsRanges (r : IndexRanges) : Type 0 where
  pub one_more : length r.scan ≡ suc (n_ranges r)
  pub last : r.scan ! n_ranges r ≡ r.total_count % 2 ^ 32

-- The first `n` ranges.
unfoldable pub ranges_to : IndexRanges → ℕ → List (ℕ × ℕ)
ranges_to r zero = []
ranges_to r (suc n) = ranges_to r n ++ (range_start r n, range_end r n) ∷ []

-- The ranges from first to last.
unfoldable pub ranges : IndexRanges → List (ℕ × ℕ)
ranges r = ranges_to r (n_ranges r)

pub empty_ranges-IsRanges : IsRanges empty_ranges
unfolding n_ranges
empty_ranges-IsRanges = record { one_more = refl; last = refl }

module _ (r : IndexRanges) (w : IsRanges r) (lower upper : ℕ) (less : lower < upper) where
  abbrev grown : IndexRanges
  grown = record {
    total_count = r.total_count + (upper - lower);
    offsets = r.offsets ++ lower ∷ [];
    scan = r.scan ++ ((r.total_count + (upper - lower)) % 2 ^ 32) ∷ [];
  }

  add_range-grown : add_range r lower upper ≡ grown
  unfolding add_range
  add_range-grown = let t : (lower == upper) ≡ false = ground arith in rw t refl

  grown-IsRanges : IsRanges grown
  unfolding n_ranges
  grown-IsRanges =
      let size = length-append {0} r.offsets (lower ∷ []) in
      let one_more = w.one_more in
      let place : length (r.offsets ++ lower ∷ []) ≡ length r.scan + 0 =
        omega (arith, size, one_more) in
      record {
        one_more = omega (
          arith,
          size,
          one_more,
          length-append {0} r.scan (((r.total_count + (upper - lower)) % 2 ^ 32) ∷ []),
        );
        last = ap (λ j. grown.scan ! j) place ∙ get_or-append_right r.scan _ 0 0;
      }

  old_start : (i : ℕ) → i < n_ranges r → range_start grown i ≡ range_start r i
  unfolding range_start n_ranges
  old_start i h = get_or-append_left r.offsets (lower ∷ []) i 0 h

  old_end : (i : ℕ) → i < n_ranges r → range_end grown i ≡ range_end r i
  unfolding range_end range_start count n_ranges
  old_end i h =
      let one_more = w.one_more in
      rw
        (
          get_or-append_left r.offsets (lower ∷ []) i 0 h,
          get_or-append_left r.scan (((r.total_count + (upper - lower)) % 2 ^ 32) ∷ []) i 0
              (omega (arith, one_more, h)),
          get_or-append_left r.scan (((r.total_count + (upper - lower)) % 2 ^ 32) ∷ []) (i + 1) 0
              (omega (arith, one_more, h)),
        )
        refl

  old_ranges : (n : ℕ) → n ≤ n_ranges r → ranges_to grown n ≡ ranges_to r n
  unfolding ranges_to
  old_ranges zero h = refl
  old_ranges (suc n) h =
      rw (old_ranges n (omega arith), old_start n (omega arith), old_end n (omega arith)) refl

  new_start : range_start grown (n_ranges r) ≡ lower
  unfolding range_start n_ranges
  new_start =
      let place : length r.offsets ≡ length r.offsets + 0 = omega arith in
      ap (λ j. grown.offsets ! j) place ∙ get_or-append_right r.offsets (lower ∷ []) 0 0

  new_end : upper < 2 ^ 32 → range_end grown (n_ranges r) ≡ upper
  unfolding range_end count sub_unsigned
  new_end small =
      let one_more = w.one_more in
      let last = grown-IsRanges.last in
      let before : grown.scan ! n_ranges r ≡ r.total_count % 2 ^ 32 =
        get_or-append_left r.scan (((r.total_count + (upper - lower)) % 2 ^ 32) ∷ []) (n_ranges r) 0
          (omega (arith, one_more))
        ∙ w.last in
      let next : n_ranges r + 1 ≡ n_ranges grown =
        unfold n_ranges in omega (arith, length-append {0} r.offsets (lower ∷ [])) in
      let behind : grown.scan ! (n_ranges r + 1) ≡ (r.total_count + (upper - lower)) % 2 ^ 32 =
        ap (λ j. grown.scan ! j) next ∙ last in
      rw (new_start, before, behind) (omega (arith, less, small))

-- `addRange` appends the range to the ranges that can be read back, and an empty range nothing, whether or
-- not the total exceeds what an index holds; and the scan keeps its form. The range must lie below 2 ^ 32.
pub add_range-ranges :
    (r : IndexRanges) (lower upper : ℕ)
    → IsRanges r
    → lower ≤ upper
    → upper < 2 ^ 32
    → IsRanges (add_range r lower upper)
      × (ranges (add_range r lower upper)
          ≡ (if lower == upper then ranges r else ranges r ++ (lower, upper) ∷ []))
unfolding ranges
add_range-ranges r lower upper w le small = elim (ℕ_discrete lower upper) [
  | yes same ↦
      let t : (lower == upper) ≡ true = ground arith in
      let kept : add_range r lower upper ≡ r = unfold add_range in rw t refl in
      rw (kept, t) (w, refl)
  | no ne ↦
      let less : lower < upper = omega arith in
      let t : (lower == upper) ≡ false = ground arith in
      let count : n_ranges (grown r w lower upper less) ≡ suc (n_ranges r) =
        unfold n_ranges in omega (arith, length-append {0} r.offsets (lower ∷ [])) in
      rw (add_range-grown r w lower upper less, t)
        (
          grown-IsRanges r w lower upper less,
          rw count (
              unfold ranges_to in
              rw
                (
                  old_ranges r w lower upper less (n_ranges r) (omega arith),
                  new_start r w lower upper less,
                  new_end r w lower upper less small,
                )
                refl),
        )
]

-- `lookup` gives the location of the first message to a rank, and later messages to it change nothing.
pub lookup-add_exchange :
    (log : List (ℕ × ℕ)) (rank location other : ℕ)
    → lookup (add_exchange log rank location) other ≡ elim (lookup log other) [
      | some old ↦ some old
      | none ↦ if rank == other then some location else none
    ]
unfolding lookup add_exchange
lookup-add_exchange [] rank location other = refl
lookup-add_exchange (e ∷ log) rank location other = elim (ℕ_discrete e.0 other) [
  | yes same ↦ let t : (e.0 == other) ≡ true = ground arith in rw t refl
  | no ne ↦
      let t : (e.0 == other) ≡ false = ground arith in
      rw t (lookup-add_exchange log rank location other)
]
