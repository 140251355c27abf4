-- ===== src/Primitives/Clz.antt =====
-- include/cstone/primitives/clz.hpp. The branch for GCC and clang is modelled: the builtins count
-- zeros from the top or the bottom, and the caller handles an input of 0 for leading zeros.
use native.Mathlib.Nat.{div-eq_of_lt, le-div_iff_mul-le, div-div-eq-div-mul, mul_comm, mul_assoc}
use native.Mathlib.Decide.{dec_lt, ℕ_discrete}
use cornerstone_octree.Base.{
  true, false, ℕ, zero, suc, ◌+◌, ◌-◌, ◌*◌, ◌/◌, ◌%◌, ◌^◌, ◌≤◌, ◌<◌, ◌≡◌, refl, ap, sym, ◌∙◌, arith,
  ◌==◌, if◌then◌else◌,
}
use cornerstone_octree.Base.Pow.{pow2-suc, pow2-pos, pow2_mono}
use cornerstone_octree.Key.{KeyType, key_bits}

-- The zeros above the highest set bit of a number of `w` bits: `w` for 0, as LZCNT has it.
unfoldable pub leading_zeros : ℕ → ℕ → ℕ
leading_zeros zero x = 0
leading_zeros (suc w) x = if x / 2 ^ w == 0 then suc (leading_zeros w x) else 0

-- `countLeadingZeros`.
unfoldable pub count_leading_zeros : KeyType → ℕ → ℕ
count_leading_zeros k x = if x == 0 then key_bits k else leading_zeros (key_bits k) x

-- The zeros below the lowest set bit, `__builtin_ctz`; the builtin leaves an input of 0 open, and
-- here it gives the width.
pub trailing_zeros : ℕ → ℕ → ℕ
trailing_zeros zero x = 0
trailing_zeros (suc w) x = if x % 2 == 0 then suc (trailing_zeros w (x / 2)) else 0

-- `countTrailingZeros`.
unfoldable pub count_trailing_zeros : KeyType → ℕ → ℕ
unfolding trailing_zeros
count_trailing_zeros k x = trailing_zeros (key_bits k) x

pub div_small : (x y : ℕ) → x < y → x / y ≡ 0
div_small x y h = div-eq_of_lt h

pub leading_zeros-zero : (w : ℕ) → leading_zeros w 0 ≡ w
unfolding leading_zeros
leading_zeros-zero zero = refl
leading_zeros-zero (suc w) = ground (arith, leading_zeros-zero w, pow2-pos w, div_small 0 (2 ^ w))

pow2_large : (x w : ℕ) → 2 ^ w ≤ x → 1 ≤ x / 2 ^ w
pow2_large x w h = (le-div_iff_mul-le (pow2-pos w)).1 (omega arith)

-- The count is determined by the two powers of two around the number.
pub leading_zeros-pow2 :
    (w b x : ℕ) → b < w → 2 ^ b ≤ x → x < 2 ^ suc b → leading_zeros w x + suc b ≡ w
unfolding leading_zeros
leading_zeros-pow2 zero b x h lo hi = absurd (omega arith)
leading_zeros-pow2 (suc w) b x h lo hi = elim (dec_lt b w) [
  | yes p ↦ ground (arith, div_small x (2 ^ w), pow2_mono (suc b) w, leading_zeros-pow2 w b x)
  | no p ↦ let e : b ≡ w = omega arith in ground (arith, pow2_large x w, e)
]

-- So is it from the number: the count names the powers of two around it.
pub leading_zeros-lt : (w x : ℕ) → x < 2 ^ w → x < 2 ^ (w - leading_zeros w x)
unfolding leading_zeros
leading_zeros-lt zero x h = omega arith
leading_zeros-lt (suc w) x h = elim (dec_lt x (2 ^ w)) [
  | yes p ↦ ground (arith, div_small x (2 ^ w), leading_zeros-lt w x)
  | no p ↦ ground (arith, pow2_large x w)
]

pub count_leading_zeros_lem :
    (k : KeyType) (x : ℕ) → count_leading_zeros k x ≡ leading_zeros (key_bits k) x
unfolding count_leading_zeros
count_leading_zeros_lem k x = ground (arith, leading_zeros-zero (key_bits k))

pub count_leading_zeros-zero : (k : KeyType) → count_leading_zeros k 0 ≡ key_bits k
unfolding count_leading_zeros
count_leading_zeros-zero k = refl

pub count_leading_zeros-pow2 :
    (k : KeyType) (b x : ℕ)
    → b < key_bits k
    → 2 ^ b ≤ x
    → x < 2 ^ suc b
    → count_leading_zeros k x + suc b ≡ key_bits k
count_leading_zeros-pow2 k b x h lo hi =
    rw (count_leading_zeros_lem k x) (leading_zeros-pow2 (key_bits k) b x h lo hi)

-- Every positive number stands between two neighbouring powers of two.
pub magnitude : (w x : ℕ) → 1 ≤ x → x < 2 ^ w → (b : ℕ) × (b < w) × (2 ^ b ≤ x) × (x < 2 ^ suc b)
magnitude zero x p h = absurd (omega arith)
magnitude (suc w) x p h = elim (dec_lt x (2 ^ w)) [
  | yes small ↦ let (b, lt, lo, hi) = magnitude w x p small in (b, omega arith, lo, hi)
  | no large ↦ (w, omega arith, omega arith, h)
]

-- A number is a multiple of the power of two that its trailing zeros name.
pub trailing_zeros-multiple : (w x : ℕ) → x ≡ x / 2 ^ trailing_zeros w x * 2 ^ trailing_zeros w x
unfolding trailing_zeros
trailing_zeros-multiple zero x = omega arith
trailing_zeros-multiple (suc w) x = elim (ℕ_discrete (x % 2) 0) [
  | no odd ↦ let t : (x % 2 == 0) ≡ false = ground arith in rw t (omega arith)
  | yes even ↦
      let t : (x % 2 == 0) ≡ true = ground arith in
      let z : ℕ = trailing_zeros w (x / 2) in
      let power : 2 ^ suc z ≡ 2 * 2 ^ z = pow2-suc z in
      let half = trailing_zeros-multiple w (x / 2) in
      let quotient : x / 2 ^ suc z ≡ x / 2 / 2 ^ z =
        ap (λ p. x / p) power ∙ sym (div-div-eq-div-mul x 2 (2 ^ z)) in
      let swap : x / 2 / 2 ^ z * (2 * 2 ^ z) ≡ x / 2 / 2 ^ z * 2 ^ z * 2 =
        ap (λ p. x / 2 / 2 ^ z * p) (mul_comm 2 (2 ^ z))
        ∙ sym (mul_assoc (x / 2 / 2 ^ z) (2 ^ z) 2) in
      rw (t, quotient, power, swap) (omega (arith, half, even))
]
