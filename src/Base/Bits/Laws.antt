-- ===== src/Base/Bits/Laws.antt =====
-- What `&`, `|` and `^` do with masks and single bits, as arithmetic.
use Prim.Native.Nat.{bit_or, bit_xor, differ, bit_or-bitwise}
use native.Mathlib.Nat.{div-add-mod', mod-lt, div-lt_iff_lt-mul, suc-mul}
use native.Mathlib.Decide.{dec_lt}
use cornerstone_octree.Base.{
  ℕ, zero, suc, ◌+◌, ◌-◌, ◌*◌, ◌/◌, ◌%◌, ◌^◌, ◌≤◌, ◌<◌, ◌≡◌, refl, ap, sym, ◌∙◌, arith, bit_and,
}
use cornerstone_octree.Base.Pow.{pow2-suc, pow2-pos, pow2-add}
use cornerstone_octree.Base.Bits.{
  bit_and_digit, bit_or_digit, bit_xor_digit, bit_and_fields, bit_or_fields, bit_xor_fields,
}

and_zero_fuel : (n a : ℕ) → a ≤ n → bit_and a 0 ≡ 0
and_zero_fuel zero a h = let e : a ≡ 0 = omega arith in rw e
and_zero_fuel (suc n) a h = elim (dec_lt a 1) [
  | yes p ↦ let e : a ≡ 0 = omega arith in rw e
  | no p ↦ omega (arith, bit_and_digit a 0, and_zero_fuel n (a / 2) (omega arith))
]

pub bit_and-zero : (a : ℕ) → bit_and a 0 ≡ 0
bit_and-zero a = and_zero_fuel a a (omega arith)

or_zero_fuel : (n a : ℕ) → a ≤ n → bit_or a 0 ≡ a
or_zero_fuel zero a h = let e : a ≡ 0 = omega arith in rw e
or_zero_fuel (suc n) a h = elim (dec_lt a 1) [
  | yes p ↦ let e : a ≡ 0 = omega arith in rw e
  | no p ↦ omega (arith, bit_or_digit a 0, or_zero_fuel n (a / 2) (omega arith))
]

pub bit_or-zero : (a : ℕ) → bit_or a 0 ≡ a
bit_or-zero a = or_zero_fuel a a (omega arith)

differ-zero : (x : ℕ) → differ x 0 ≡ x
differ-zero zero = refl
differ-zero (suc x) = refl

differ_self : (x : ℕ) → differ x x ≡ 0
differ_self zero = refl
differ_self (suc x) = differ_self x

xor_zero_fuel : (n a : ℕ) → a ≤ n → bit_xor a 0 ≡ a
xor_zero_fuel zero a h = let e : a ≡ 0 = omega arith in rw e
xor_zero_fuel (suc n) a h = elim (dec_lt a 1) [
  | yes p ↦ let e : a ≡ 0 = omega arith in rw e
  | no p ↦
      omega (arith, bit_xor_digit a 0, differ-zero (a % 2), xor_zero_fuel n (a / 2) (omega arith))
]

pub bit_xor-zero : (a : ℕ) → bit_xor a 0 ≡ a
bit_xor-zero a = xor_zero_fuel a a (omega arith)

xor_self_fuel : (n a : ℕ) → a ≤ n → bit_xor a a ≡ 0
xor_self_fuel zero a h = let e : a ≡ 0 = omega arith in rw e
xor_self_fuel (suc n) a h = elim (dec_lt a 1) [
  | yes p ↦ let e : a ≡ 0 = omega arith in rw e
  | no p ↦
      omega (arith, bit_xor_digit a a, differ_self (a % 2), xor_self_fuel n (a / 2) (omega arith))
]

pub bit_xor_self : (a : ℕ) → bit_xor a a ≡ 0
bit_xor_self a = xor_self_fuel a a (omega arith)

and_self_fuel : (n a : ℕ) → a ≤ n → bit_and a a ≡ a
and_self_fuel zero a h = let e : a ≡ 0 = omega arith in rw e
and_self_fuel (suc n) a h = elim (dec_lt a 1) [
  | yes p ↦ let e : a ≡ 0 = omega arith in rw e
  | no p ↦ omega (arith, bit_and_digit a a, and_self_fuel n (a / 2) (omega arith))
]

pub bit_and_self : (a : ℕ) → bit_and a a ≡ a
bit_and_self a = and_self_fuel a a (omega arith)

and_ones : (m r : ℕ) → r < 2 ^ m → bit_and r (2 ^ m - 1) ≡ r
and_ones zero r h = let e : r ≡ 0 = omega arith in rw e
and_ones (suc m) r h =
    let half : (2 ^ suc m - 1) / 2 ≡ 2 ^ m - 1 = omega (arith, pow2-suc m, pow2-pos m) in
    omega (
      arith,
      bit_and_digit r (2 ^ suc m - 1),
      ap (λ (t : ℕ). bit_and (r / 2) t) half,
      pow2-suc m,
      pow2-pos m,
      and_ones m (r / 2) (omega (arith, pow2-suc m)),
    )

-- `a & ((1 << m) - 1)` is the remainder.
pub bit_and_mask : (m a : ℕ) → bit_and a (2 ^ m - 1) ≡ a % 2 ^ m
bit_and_mask m a =
    let low : a % 2 ^ m < 2 ^ m = mod-lt a (pow2-pos m) in
    ap (λ t. bit_and t (2 ^ m - 1)) (sym (div-add-mod' a (2 ^ m)))
    ∙ ap (λ t. bit_and (a / 2 ^ m * 2 ^ m + a % 2 ^ m) t)
        (let e : 2 ^ m - 1 ≡ 0 * 2 ^ m + (2 ^ m - 1) = omega arith in e)
    ∙ bit_and_fields m (a / 2 ^ m) (a % 2 ^ m) 0 (2 ^ m - 1) low (omega (arith, pow2-pos m))
    ∙ rw (bit_and-zero (a / 2 ^ m)) (omega (arith, and_ones m (a % 2 ^ m) low))

mul_one_less : (x y : ℕ) → 1 ≤ x → x * y ≡ (x - 1) * y + y
mul_one_less zero y h = elim h [ ]
mul_one_less (suc x) y h = let e : suc x - 1 ≡ x = omega arith in rw e (omega (arith, suc-mul x y))

-- `a & ~((1 << m) - 1)` in a word of `m + n` bits clears the low bits.
pub bit_and_clear :
    (m n a : ℕ) → a < 2 ^ (n + m) → bit_and a (2 ^ (n + m) - 2 ^ m) ≡ a / 2 ^ m * 2 ^ m
bit_and_clear m n a h =
    let low : a % 2 ^ m < 2 ^ m = mod-lt a (pow2-pos m) in
    let high : a / 2 ^ m < 2 ^ n = (div-lt_iff_lt-mul (pow2-pos m)).1 (rw (← pow2-add m n) h) in
    let mask : 2 ^ (n + m) - 2 ^ m ≡ (2 ^ n - 1) * 2 ^ m + 0 =
      rw (pow2-add m n) (omega (arith, mul_one_less (2 ^ n) (2 ^ m) (pow2-pos n))) in
    ap (λ t. bit_and t (2 ^ (n + m) - 2 ^ m)) (sym (div-add-mod' a (2 ^ m)))
    ∙ ap (λ t. bit_and (a / 2 ^ m * 2 ^ m + a % 2 ^ m) t) mask
    ∙ bit_and_fields m (a / 2 ^ m) (a % 2 ^ m) (2 ^ n - 1) 0 low (pow2-pos m)
    ∙ rw (and_ones n (a / 2 ^ m) high) (omega (arith, bit_and-zero (a % 2 ^ m)))

-- `(1 << m) | r` is a sum when `r` fits below the bit.
pub bit_or_top : (m r : ℕ) → r < 2 ^ m → bit_or (2 ^ m) r ≡ 2 ^ m + r
bit_or_top m r h =
    let top : 2 ^ m ≡ 1 * 2 ^ m + 0 = omega arith in
    let rest : r ≡ 0 * 2 ^ m + r = omega arith in
    ap (λ t. bit_or t r) top
    ∙ ap (λ t. bit_or (1 * 2 ^ m + 0) t) rest
    ∙ bit_or_fields m 1 0 0 r (pow2-pos m) h
    ∙ omega (arith, bit_or-bitwise 0 r)

-- `^` with the top bit takes it off.
pub bit_xor_top : (m r : ℕ) → r < 2 ^ m → bit_xor (2 ^ m + r) (2 ^ m) ≡ r
bit_xor_top m r h =
    let top : 2 ^ m ≡ 1 * 2 ^ m + 0 = omega arith in
    let whole : 2 ^ m + r ≡ 1 * 2 ^ m + r = omega arith in
    ap (λ t. bit_xor t (2 ^ m)) whole
    ∙ ap (λ t. bit_xor (1 * 2 ^ m + r) t) top
    ∙ bit_xor_fields m 1 r 1 0 h (pow2-pos m)
    ∙ omega (arith, bit_xor-zero r)
