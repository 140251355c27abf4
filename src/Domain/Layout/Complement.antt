-- ===== src/Domain/Layout/Complement.antt =====
-- That `invertRanges` of include/cstone/domain/layout.hpp gives the complement of its ranges.
use native.Mathlib.Decide.{dec_lt}
use cornerstone_octree.Base.{
  ℕ, ◌≤◌, ◌<◌, ◌≡◌, refl, ap, ◌∙◌, arith, false, not, ◌&&◌, ◌||◌, ◌==◌, ltb, leb, if◌then◌else◌,
  List, [], ◌∷◌, ◌++◌,
}
use cornerstone_octree.Domain.Layout.{invert_loop, invert_ranges, covers}

-- The non-empty ranges follow one another from `current` on.
pub data AreSortedFrom : ℕ → List (ℕ × ℕ) → Type 0 where
  no_range : {current : ℕ} → AreSortedFrom current []
  empty_range :
      {current start end : ℕ} {ranges : List (ℕ × ℕ)}
      → start ≡ end
      → AreSortedFrom current ranges
      → AreSortedFrom current ((start, end) ∷ ranges)
  next_range :
      {current start end : ℕ} {ranges : List (ℕ × ℕ)}
      → current ≤ start
      → start < end
      → AreSortedFrom end ranges
      → AreSortedFrom current ((start, end) ∷ ranges)

covers-append :
    (xs : List (ℕ × ℕ)) (start end j : ℕ)
    → covers (xs ++ (start, end) ∷ []) j ≡ (covers xs j || (leb start j && ltb j end))
covers-append [] start end j = ground arith
covers-append ((a, b) ∷ xs) start end j = ground (arith, covers-append xs start end j)

covers-before :
    (current : ℕ) (ranges : List (ℕ × ℕ)) (j : ℕ)
    → AreSortedFrom current ranges
    → j < current
    → covers ranges j ≡ false
covers-before current [] j no_range h = refl
covers-before current ((start, end) ∷ ranges) j (empty_range same s) h =
    ground (arith, covers-before current ranges j s h)
covers-before current ((start, end) ∷ ranges) j (next_range from some s) h =
    ground (arith, covers-before end ranges j s (omega arith))

-- The ranges found after a start are those before it and one up to the start.
covers-gap :
    (current start j : ℕ) (inverted : List (ℕ × ℕ))
    → covers (if ltb current start then inverted ++ (current, start) ∷ [] else inverted) j
      ≡ (covers inverted j || (leb current j && ltb j start))
covers-gap current start j inverted = ground (arith, covers-append inverted current start j)

-- What is behind the loop is settled.
invert_loop-before :
    (current : ℕ) (ranges : List (ℕ × ℕ)) (inverted : List (ℕ × ℕ)) (last j : ℕ)
    → AreSortedFrom current ranges
    → j < current
    → covers (invert_loop ranges current inverted last) j ≡ covers inverted j
unfolding invert_loop
invert_loop-before current [] inverted last j no_range h =
    ground (arith, covers-gap current last j inverted)
invert_loop-before current ((start, end) ∷ ranges) inverted last j (empty_range same s) h =
    ground (arith, invert_loop-before current ranges inverted last j s h)
invert_loop-before current ((start, end) ∷ ranges) inverted last j (next_range from some s) h =
    let gap = covers-gap current start j inverted in
    let different : (start == end) ≡ false = ground arith in
    rw (different, invert_loop)
      (invert_loop-before end ranges
          (if ltb current start then inverted ++ (current, start) ∷ [] else inverted) last j s
          (omega arith)
        ∙ gap
        ∙ ground arith)

invert_loop-covers :
    (current : ℕ) (ranges : List (ℕ × ℕ)) (inverted : List (ℕ × ℕ)) (last j : ℕ)
    → AreSortedFrom current ranges
    → current ≤ j
    → j < last
    → covers (invert_loop ranges current inverted last) j
      ≡ (covers inverted j || not (covers ranges j))
unfolding invert_loop
invert_loop-covers current [] inverted last j no_range from inside =
    ground (arith, covers-gap current last j inverted)
invert_loop-covers current ((start, end) ∷ ranges) inverted last j (empty_range same s) from
      inside =
    ground (arith, invert_loop-covers current ranges inverted last j s from inside)
invert_loop-covers current ((start, end) ∷ ranges) inverted last j (next_range up some s) from
      inside =
    let gap = covers-gap current start j inverted in
    let different : (start == end) ≡ false = ground arith in
    let next = if ltb current start then inverted ++ (current, start) ∷ [] else inverted in
    rw (different, invert_loop)
      (elim (dec_lt j end) [
        | yes before ↦
            invert_loop-before end ranges next last j s before
            ∙ gap
            ∙ ground (arith, covers-before end ranges j s before)
        | no behind ↦
            invert_loop-covers end ranges next last j s (omega arith) inside
            ∙ ap (λ b. b || not (covers ranges j)) gap
            ∙ ground arith
      ])

-- `invertRanges` gives the complement of its ranges within [first, last): an index from there is in one
-- of its ranges exactly if it is in none of the given ones, whose non-empty ones are sorted and
-- disjoint.
pub invert_ranges-covers :
    (first : ℕ) (ranges : List (ℕ × ℕ)) (last j : ℕ)
    → AreSortedFrom first ranges
    → first ≤ j
    → j < last
    → covers (invert_ranges first ranges last) j ≡ not (covers ranges j)
unfolding invert_ranges
invert_ranges-covers first ranges last j sorted from inside =
    invert_loop-covers first ranges [] last j sorted from inside
