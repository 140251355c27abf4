-- ===== src/Base/Bits.antt =====
-- `&`, `|` and `^` on binary digits: one equation for the lowest digit, and the split of both
-- operands into fields at any place.
pub mod Laws
pub mod Differ
pub mod Homs
use Prim.Native.Nat.{
  bit_or, bit_xor, digits, bit_and-bitwise, bit_or-bitwise, bit_xor-bitwise, differ,
}
use native.Mathlib.Nat.{div-add-mod', mul_assoc, add-mul}
use cornerstone_octree.Base.{
  ℕ, zero, suc, ◌+◌, ◌-◌, ◌*◌, ◌/◌, ◌%◌, ◌^◌, ◌≤◌, ◌<◌, ◌≡◌, refl, ap, sym, ◌∙◌, arith, min, max,
  bit_and,
}
use cornerstone_octree.Base.Pow.{pow2-suc, pow2-pos}

module _ (z : ℕ → ℕ) (f : ℕ → ℕ → ℕ) where
  -- A count that covers the first number is as good as any other.
  fuel_change : (n m a b : ℕ) → a ≤ n → a ≤ m → digits z f n a b ≡ digits z f m a b
  fuel_change zero zero a b p q = refl
  fuel_change zero (suc m) zero b p q = refl
  fuel_change zero (suc m) (suc a) b p q = absurd (omega arith)
  fuel_change (suc n) zero zero b p q = refl
  fuel_change (suc n) zero (suc a) b p q = absurd (omega arith)
  fuel_change (suc n) (suc m) zero b p q = refl
  fuel_change (suc n) (suc m) (suc a) b p q =
      ap (λ t. t * 2 + f (suc a % 2) (b % 2))
        (fuel_change n m (suc a / 2) (b / 2) (omega arith) (omega arith))

  lowest_digit :
      (a b : ℕ)
      → digits z f (suc a) (suc a) b
        ≡ digits z f (suc a / 2) (suc a / 2) (b / 2) * 2 + f (suc a % 2) (b % 2)
  lowest_digit a b =
      ap (λ t. t * 2 + f (suc a % 2) (b % 2))
        (fuel_change a (suc a / 2) (suc a / 2) (b / 2) (omega arith) (omega arith))

pub bit_and_digit : (a b : ℕ) → bit_and a b ≡ bit_and (a / 2) (b / 2) * 2 + min (a % 2) (b % 2)
bit_and_digit zero b = omega (arith, bit_and-bitwise 0 b, bit_and-bitwise 0 (b / 2))
bit_and_digit (suc a) b = simp bit_and-bitwise (lowest_digit (λ _. 0) min a b)

pub bit_or_digit : (a b : ℕ) → bit_or a b ≡ bit_or (a / 2) (b / 2) * 2 + max (a % 2) (b % 2)
bit_or_digit zero b = omega (arith, bit_or-bitwise 0 b, bit_or-bitwise 0 (b / 2))
bit_or_digit (suc a) b = simp bit_or-bitwise (lowest_digit (λ y. y) max a b)

pub bit_xor_digit : (a b : ℕ) → bit_xor a b ≡ bit_xor (a / 2) (b / 2) * 2 + differ (a % 2) (b % 2)
bit_xor_digit zero b = omega (arith, bit_xor-bitwise 0 b, bit_xor-bitwise 0 (b / 2))
bit_xor_digit (suc a) b = simp bit_xor-bitwise (lowest_digit (λ y. y) differ a b)

halve_field : (q r m : ℕ) → (q * 2 ^ suc m + r) / 2 ≡ q * 2 ^ m + r / 2
halve_field q r m = omega (arith, ap (λ (t : ℕ). q * t) (pow2-suc m))

parity_field : (q r m : ℕ) → (q * 2 ^ suc m + r) % 2 ≡ r % 2
parity_field q r m = omega (arith, ap (λ (t : ℕ). q * t) (pow2-suc m))

module _ (op f : ℕ → ℕ → ℕ)
    (digit : (a b : ℕ) → op a b ≡ op (a / 2) (b / 2) * 2 + f (a % 2) (b % 2))
    (none : op 0 0 ≡ 0) where
  -- Above and below place `m` the operation works alone.
  fields :
      (m q r s t : ℕ)
      → r < 2 ^ m
      → t < 2 ^ m
      → op (q * 2 ^ m + r) (s * 2 ^ m + t) ≡ op q s * 2 ^ m + op r t
  fields zero q r s t hr ht =
      let er : r ≡ 0 = omega arith in
      let et : t ≡ 0 = omega arith in
      let eq : q * 1 + r ≡ q = omega arith in
      let es : s * 1 + t ≡ s = omega arith in rw (eq, es, er, et, none) (omega arith)
  fields (suc m) q r s t hr ht = omega (
    arith,
    digit (q * 2 ^ suc m + r) (s * 2 ^ suc m + t),
    digit r t,
    fields m q (r / 2) s (t / 2) (omega (arith, pow2-suc m)) (omega (arith, pow2-suc m)),
    ap (λ (x : ℕ). op q s * x) (pow2-suc m),
    ap (λ (x : ℕ). op x ((s * 2 ^ suc m + t) / 2)) (halve_field q r m),
    ap (λ (x : ℕ). op (q * 2 ^ m + r / 2) x) (halve_field s t m),
    ap (λ (x : ℕ). f x ((s * 2 ^ suc m + t) % 2)) (parity_field q r m),
    ap (λ (x : ℕ). f (r % 2) x) (parity_field s t m),
  )

pub bit_and_fields :
    (m q r s t : ℕ)
    → r < 2 ^ m
    → t < 2 ^ m
    → bit_and (q * 2 ^ m + r) (s * 2 ^ m + t) ≡ bit_and q s * 2 ^ m + bit_and r t
bit_and_fields = fields bit_and min bit_and_digit refl

pub bit_or_fields :
    (m q r s t : ℕ)
    → r < 2 ^ m
    → t < 2 ^ m
    → bit_or (q * 2 ^ m + r) (s * 2 ^ m + t) ≡ bit_or q s * 2 ^ m + bit_or r t
bit_or_fields = fields bit_or max bit_or_digit refl

pub bit_xor_fields :
    (m q r s t : ℕ)
    → r < 2 ^ m
    → t < 2 ^ m
    → bit_xor (q * 2 ^ m + r) (s * 2 ^ m + t) ≡ bit_xor q s * 2 ^ m + bit_xor r t
bit_xor_fields = fields bit_xor differ bit_xor_digit refl
