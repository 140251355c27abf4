-- ===== src/Primitives/Search/Splits.antt =====
-- What the binary searches promise on a sorted part of an array, and that it determines them.
use native.Mathlib.Decide.{dec_lt}
use cornerstone_octree.Base.{
  ℕ, zero, suc, ◌+◌, ◌-◌, ◌/◌, ◌≤◌, ◌<◌, ◌≡◌, refl, arith, false, ltb, ltb→lt, List, inl, inr, ◌!◌,
  Bool-cases, ◌↔◌,
}
use cornerstone_octree.Primitives.Search.{
  lower_bound_loop, lower_bound, upper_bound_loop, upper_bound,
}

-- Sorted in [first, last).
abbrev pub IsSortedIn : List ℕ → ℕ → ℕ → Type 0
IsSortedIn xs first last = (i j : ℕ) → first ≤ i → i ≤ j → j < last → xs ! i ≤ xs ! j

-- `r` splits [first, last) at `value`: below it all is less, from it on nothing is.
pub record Splits (xs : List ℕ) (first last value r : ℕ) : Type 0 where
  pub from : first ≤ r
  pub to : r ≤ last
  pub below : (j : ℕ) → first ≤ j → j < r → xs ! j < value
  pub above : (j : ℕ) → r ≤ j → j < last → value ≤ xs ! j

pub Splits-unique :
    {xs : List ℕ} {first last value r s : ℕ}
    → Splits xs first last value r
    → Splits xs first last value s
    → r ≡ s
Splits-unique {r = r} {s = s} p q = elim (dec_lt r s) [
  | yes lt ↦
      absurd (omega (arith, q.below r p.from lt, p.above r (omega arith) (omega (arith, q.to))))
  | no ge ↦ elim (dec_lt s r) [
    | yes lt ↦
        absurd (omega (arith, p.below s q.from lt, q.above s (omega arith) (omega (arith, p.to))))
    | no le ↦ omega arith
  ]
]

module _ (xs : List ℕ) (value lo hi : ℕ) (sorted : IsSortedIn xs lo hi) where
  lower_bound_loop-Splits :
      (fuel first count : ℕ)
      → count ≤ fuel
      → lo ≤ first
      → first + count ≤ hi
      → ((j : ℕ) → lo ≤ j → j < first → xs ! j < value)
      → ((j : ℕ) → first + count ≤ j → j < hi → value ≤ xs ! j)
      → Splits xs lo hi value (lower_bound_loop xs value fuel first count)
  unfolding lower_bound_loop
  lower_bound_loop-Splits zero first count f l h below above =
      let none : count ≡ 0 = omega arith in
      record { from = l; to = omega arith; below = below; above = λ j p q. above j (omega arith) q }
  lower_bound_loop-Splits (suc fuel) first count f l h below above =
      elim (Bool-cases (ltb 0 count)) [
        | inr none ↦
            rw (none, lower_bound_loop)
              (record {
                from = l;
                to = omega arith;
                below = below;
                above = λ j p q. above j (ground arith) q;
              })
        | inl more ↦
            let some : 0 < count = ltb→lt 0 count more in
            let mid : ℕ = first + count / 2 in
            let inside : mid < hi = omega arith in
            elim (Bool-cases (ltb (xs ! mid) value)) [
              | inl less ↦
                  rw (more, less, lower_bound_loop)
                    (lower_bound_loop-Splits fuel (mid + 1) (count - (count / 2 + 1)) (omega arith)
                      (omega arith) (omega arith)
                      (λ j p q.
                        omega (
                          arith,
                          sorted j mid p (omega arith) inside,
                          ltb→lt (xs ! mid) value less,
                        ))
                      (λ j p q. above j (omega arith) q))
              | inr not_less ↦
                  rw (more, not_less, lower_bound_loop)
                    (lower_bound_loop-Splits fuel first (count / 2) (omega arith) l (omega arith)
                      below
                      (λ j p q. at_least j (xs ! mid) (sorted mid j (omega arith) p q) not_less))
            ]
      ]
    where
      at_least : (j v : ℕ) → v ≤ xs ! j → ltb v value ≡ false → value ≤ xs ! j
      at_least j v p q = ground arith

-- `lower_bound` splits a sorted part of the array at the value.
pub lower_bound-Splits :
    (xs : List ℕ) (first last value : ℕ)
    → first ≤ last
    → IsSortedIn xs first last
    → Splits xs first last value (lower_bound xs first last value)
unfolding lower_bound
lower_bound-Splits xs first last value h sorted =
    lower_bound_loop-Splits xs value first last sorted (last - first) first (last - first)
      (omega arith) (omega arith) (omega arith) (λ j p q. absurd (omega arith))
      (λ j p q. absurd (omega arith))

-- What the split says of one element.
pub Splits-le :
    {xs : List ℕ} {first last value r : ℕ}
    → Splits xs first last value r
    → (i : ℕ) → first ≤ i
    → i < last
    → (r ≤ i) ↔ (value ≤ xs ! i)
Splits-le {r = r} s i from to = (
  λ h. s.above i h to,
  λ h. elim (dec_lt i r) [
    | yes lt ↦ absurd (omega (arith, s.below i from lt))
    | no ge ↦ omega arith
  ],
)

-- `r` splits [first, last) behind `value`: below it nothing is greater, from it on all is.
pub record SplitsBehind (xs : List ℕ) (first last value r : ℕ) : Type 0 where
  pub from : first ≤ r
  pub to : r ≤ last
  pub below : (j : ℕ) → first ≤ j → j < r → xs ! j ≤ value
  pub above : (j : ℕ) → r ≤ j → j < last → value < xs ! j

module _ (xs : List ℕ) (value lo hi : ℕ) (sorted : IsSortedIn xs lo hi) where
  -- A search for what is greater is one for what is not less than the next value.
  upper_bound_loop-lower :
      (fuel first count : ℕ)
      → upper_bound_loop xs value fuel first count
        ≡ lower_bound_loop xs (suc value) fuel first count
  unfolding upper_bound_loop lower_bound_loop
  upper_bound_loop-lower zero first count = refl
  upper_bound_loop-lower (suc fuel) first count = ground (
    arith,
    upper_bound_loop-lower fuel (first + count / 2 + 1) (count - (count / 2 + 1)),
    upper_bound_loop-lower fuel first (count / 2),
  )

-- `upper_bound` splits a sorted part of the array behind the value.
pub upper_bound-SplitsBehind :
    (xs : List ℕ) (first last value : ℕ)
    → first ≤ last
    → IsSortedIn xs first last
    → SplitsBehind xs first last value (upper_bound xs first last value)
unfolding upper_bound
upper_bound-SplitsBehind xs first last value h sorted =
    let same =
      upper_bound_loop-lower xs value first last sorted (last - first) first (last - first) in
    let s = lower_bound-Splits xs first last (suc value) h sorted in
    rw same (record {
      from = unfold lower_bound in s.from;
      to = unfold lower_bound in s.to;
      below = unfold lower_bound in λ j p q. omega (arith, s.below j p q);
      above = unfold lower_bound in s.above;
    })

pub SplitsBehind-le :
    {xs : List ℕ} {first last value r : ℕ}
    → SplitsBehind xs first last value r
    → (i : ℕ) → first ≤ i
    → i < last
    → (r ≤ i) ↔ (value < xs ! i)
SplitsBehind-le {r = r} s i from to = (
  λ h. s.above i h to,
  λ h. elim (dec_lt i r) [
    | yes lt ↦ absurd (omega (arith, s.below i from lt))
    | no ge ↦ omega arith
  ],
)
