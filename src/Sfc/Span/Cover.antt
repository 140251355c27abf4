-- ===== src/Sfc/Span/Cover.antt =====
-- `spanSfcRange` covers its range with nodes.
use native.Mathlib.Nat.{div-add-mod', mod-lt, suc-mul, mul-le-mul_right}
use native.Mathlib.Decide.{dec_lt}
use cornerstone_octree.Base.{
  ℕ, suc, ◌+◌, ◌-◌, ◌*◌, ◌/◌, ◌^◌, ◌≤◌, ◌<◌, ◌≡◌, refl, ap, sym, ◌∙◌, arith, length-append, bit_xor,
}
use cornerstone_octree.Base.Pow.{pow8-pos}
use cornerstone_octree.Key.{KeyType, max_tree_level, unused_bits, key_bits_split}
use cornerstone_octree.Primitives.Clz.{count_leading_zeros, count_leading_zeros-zero}
use cornerstone_octree.Sfc.Span.{span_up, span_down, span_sfc_range}
use cornerstone_octree.Sfc.Span.Loops.{IsRun, span_up-IsRun, span_down-IsRun, div_eighth}
use cornerstone_octree.Tree.Leaves.Chain.{Chain-append}
use cornerstone_octree.Base.Bits.Laws.{bit_xor_self}
use cornerstone_octree.Sfc.Span.Places.{coarser, last_nz_place-multiple, first_difference}

quotient-le : (x u p : ℕ) → 1 ≤ p → x * p ≤ u * p → x ≤ u
quotient-le x u p pos h = elim (dec_lt u x) [
  | no ge ↦ omega arith
  | yes lt ↦ absurd (omega (arith, h, suc-mul u p, mul-le-mul_right p lt))
]

-- The way up: to a multiple of the size at which the keys differ, at most that of `b`.
climb :
    (k : KeyType) (la d u a : ℕ)
    → la ≤ max_tree_level k
    → d ≤ max_tree_level k
    → a ≡ a / 8 ^ la * 8 ^ la
    → a ≤ u * 8 ^ d
    → u * 8 ^ d ≤ 8 ^ max_tree_level k
    → let r =
        span_up k (max_tree_level k - la - (max_tree_level k - d)) (max_tree_level k - la) a in
      IsRun k a r × (a ≤ r.2) × (r.2 ≤ u * 8 ^ d) × (x : ℕ) × (r.2 ≡ x * 8 ^ d)
climb k la d u a small deep multiple bound top = elim (dec_lt d la) [
  | yes past ↦
      let none : max_tree_level k - la - (max_tree_level k - d) ≡ 0 = omega arith in
      rw none (
        unfold span_up in
        (
          record { number = refl; chain = refl },
          omega arith,
          bound,
          a / 8 ^ d,
          coarser a d la (omega arith) multiple,
        ))
  | no under ↦
      let count : max_tree_level k - la - (max_tree_level k - d) ≡ d - la = omega arith in
      let level : la + (d - la) ≡ d = omega arith in
      let scaled : u * 8 ^ (la + (d - la)) ≡ u * 8 ^ d = ap (λ (j : ℕ). u * 8 ^ j) level in
      let (run, low, high, x, end) =
        span_up-IsRun k (d - la) (max_tree_level k - la) la (a / 8 ^ la) u a (omega arith)
          (omega arith) multiple (omega (arith, bound, scaled)) (omega (arith, top, scaled)) in
      rw count (run, low, omega (arith, high, scaled), x, end ∙ ap (λ (j : ℕ). x * 8 ^ j) level)
]

-- The way down from there to `b`.
descend :
    (k : KeyType) (lb d x a b : ℕ)
    → a < b
    → b ≤ 8 ^ max_tree_level k
    → lb ≤ max_tree_level k
    → d ≤ max_tree_level k
    → b ≡ b / 8 ^ lb * 8 ^ lb
    → a / 8 ^ suc d ≡ b / 8 ^ suc d
    → a ≤ x * 8 ^ d
    → x ≤ b / 8 ^ d
    → let r =
        span_down k b
          (max_tree_level k - lb + 1 - (max_tree_level k - d))
          (max_tree_level k - d)
          (x * 8 ^ d) in
      IsRun k (x * 8 ^ d) r × (r.2 ≡ b)
descend k lb d x a b lt top small deep multiple same low high =
    let ends : lb ≤ d = elim (dec_lt d lb) [
      | no ge ↦ omega arith
      | yes past ↦ absurd (
          omega (
            arith,
            coarser b (suc d) lb past multiple,
            div-add-mod' a (8 ^ suc d),
            ap (λ (y : ℕ). y * 8 ^ suc d) same,
          ))
    ] in
    let count : max_tree_level k - lb + 1 - (max_tree_level k - d) ≡ suc (d - lb) = omega arith in
    let start : a / 8 ^ d ≤ x =
      quotient-le (a / 8 ^ d) x (8 ^ d) (pow8-pos d) (omega (arith, low, div-add-mod' a (8 ^ d))) in
    let (run, end) =
      span_down-IsRun k b (d - lb) (max_tree_level k - d) d x (x * 8 ^ d) (omega arith)
        (omega arith) top refl high
        (omega (arith, start, high, div_eighth a d, div_eighth b d, same)) in
    let level : d - (d - lb) ≡ lb = omega arith in
    rw count (run, end ∙ ap (λ (j : ℕ). b / 8 ^ j * 8 ^ j) level ∙ sym multiple)

span_sfc_range_below :
    (k : KeyType) (a b : ℕ)
    → a < b
    → b ≤ 8 ^ max_tree_level k
    → IsRun k a (span_sfc_range k a b) × ((span_sfc_range k a b).2 ≡ b)
unfolding span_sfc_range
span_sfc_range_below k a b lt top =
    let (la, small_a, place_a, multiple_a) = last_nz_place-multiple k a (omega (arith, lt, top)) in
    let (lb, small_b, place_b, multiple_b) = last_nz_place-multiple k b top in
    let (d, deep, place, below, same) = first_difference k a b lt top in
    let u : ℕ = b / 8 ^ d in
    let bound : a ≤ u * 8 ^ d = omega (
      arith,
      div-add-mod' a (8 ^ d),
      mod-lt a (pow8-pos d),
      suc-mul (a / 8 ^ d) (8 ^ d),
      mul-le-mul_right (8 ^ d) below,
    ) in
    let (up, low, high, x, turn) =
      climb k la d u a small_a deep multiple_a bound (omega (arith, top, div-add-mod' b (8 ^ d))) in
    let (down, end) =
      descend k lb d x a b lt top small_b deep multiple_b same (omega (arith, low, turn))
        (quotient-le x u (8 ^ d) (pow8-pos d) (omega (arith, high, turn))) in
    rw (place_a, place_b, place, turn)
      (
        record {
          number = omega (arith, length-append {0} _ _, up.number, down.number);
          chain =
              Chain-append k (λ y e. 0 ≤ y) a (x * 8 ^ d) _ _ _ (rw turn at up.chain) down.chain;
        },
        end,
      )

-- An empty range.
span_sfc_range_empty :
    (k : KeyType) (a : ℕ)
    → a ≤ 8 ^ max_tree_level k
    → IsRun k a (span_sfc_range k a a) × ((span_sfc_range k a a).2 ≡ a)
unfolding span_sfc_range span_up span_down
span_sfc_range_empty k a top =
    let (l, small, place, multiple) = last_nz_place-multiple k a top in
    let first : (count_leading_zeros k (bit_xor a a) + 3 - unused_bits k) / 3
        ≡ max_tree_level k + 1 =
      rw (bit_xor_self a, count_leading_zeros-zero k, key_bits_split k) (omega arith) in
    let up : max_tree_level k - l - (max_tree_level k + 1) ≡ 0 = omega arith in
    let down : max_tree_level k - l + 1 - (max_tree_level k + 1) ≡ 0 = omega arith in
    rw (first, place, up, down) (record { number = refl; chain = refl }, refl)

-- `spanSfcRange` of a range [a, b) gives `numValues` nodes of the octree that follow one another from `a` up
-- to `b`, for `a` at most `b` and `b` at most the end of the key range.
pub span_sfc_range-IsRun :
    (k : KeyType) (a b : ℕ)
    → a ≤ b
    → b ≤ 8 ^ max_tree_level k
    → IsRun k a (span_sfc_range k a b) × ((span_sfc_range k a b).2 ≡ b)
span_sfc_range-IsRun k a b le top = elim (dec_lt a b) [
  | yes lt ↦ span_sfc_range_below k a b lt top
  | no ge ↦ let same : a ≡ b = omega arith in rw (← same) (span_sfc_range_empty k a (omega arith))
]
