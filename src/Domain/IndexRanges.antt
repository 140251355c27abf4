-- ===== src/Domain/IndexRanges.antt =====
-- include/cstone/domain/index_ranges.hpp, with `LocalIndex` as the index type: sums of indices are cut to
-- 32 bits where the code stores them in an index.
pub mod View
use cornerstone_octree.Base.{
  ℕ, zero, suc, ◌+◌, ◌-◌, ◌%◌, ◌^◌, Bool, true, false, ◌==◌, leb, if◌then◌else◌, List, [], ◌∷◌,
  ◌++◌, length, ◌!◌, max, Option, none, some, set, get_or,
}
use cornerstone_octree.Sfc.Range.{sub_unsigned}

-- `IndexRanges`: the private members.
pub record IndexRanges : Type 0 where
  pub total_count : ℕ
  pub offsets : List ℕ
  pub scan : List ℕ

-- `IndexRanges()`.
abbrev pub empty_ranges : IndexRanges
empty_ranges = record { total_count = 0; offsets = []; scan = 0 ∷ [] }

-- `addRange`, for `lower` at most `upper`.
unfoldable pub add_range : IndexRanges → ℕ → ℕ → IndexRanges
add_range r lower upper = if lower == upper then r else record {
  total_count = r.total_count + (upper - lower);
  offsets = r.offsets ++ lower ∷ [];
  scan = r.scan ++ ((r.total_count + (upper - lower)) % 2 ^ 32) ∷ [];
}

-- `rangeStart`, `count`, `rangeEnd` and `nRanges`.
unfoldable pub range_start : IndexRanges → ℕ → ℕ
range_start r i = r.offsets ! i

unfoldable pub count : IndexRanges → ℕ → ℕ
count r i = sub_unsigned (r.scan ! (i + 1)) (r.scan ! i)

unfoldable pub range_end : IndexRanges → ℕ → ℕ
unfolding range_start count
range_end r i = (range_start r i + count r i) % 2 ^ 32

unfoldable pub n_ranges : IndexRanges → ℕ
n_ranges r = length r.offsets

-- `SendList::totalCount` and `maxNumRanges`.
unfoldable pub send_list_total : List IndexRanges → ℕ
send_list_total [] = 0
send_list_total (r ∷ rs) = r.total_count + send_list_total rs

unfoldable pub max_num_ranges : List IndexRanges → ℕ → ℕ
max_num_ranges [] ret = ret
max_num_ranges (r ∷ rs) ret = max_num_ranges rs (max ret (length r.offsets))

-- `SendRanges::count`.
unfoldable pub send_ranges_count : List ℕ → ℕ → ℕ
send_ranges_count ranges rank =
    if leb (ranges ! rank) (ranges ! (rank + 1)) then ranges ! (rank + 1) - ranges ! rank else 0

-- `ExchangeLog::addExchange` and `lookup`; the source asserts that the rank is found.
unfoldable pub add_exchange : List (ℕ × ℕ) → ℕ → ℕ → List (ℕ × ℕ)
add_exchange log rank location = log ++ (rank, location) ∷ []

unfoldable pub lookup : List (ℕ × ℕ) → ℕ → Option ℕ
lookup [] rank = none
lookup (e ∷ log) rank = if e.0 == rank then some e.1 else lookup log rank
