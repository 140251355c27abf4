-- ===== src/Base/Bits/Differ.antt =====
-- Exclusive or tells from which bit on two numbers agree.
use Prim.Native.Nat.{bit_xor, differ}
use native.Mathlib.Nat.{div-add-mod', mod-lt, zero-mul, suc-mul}
use mathlib.Core.Path.{◌≡◌, refl, ap, sym, ◌∙◌}
use mathlib.Core.Logic.{◌↔◌}
use Prim.Native.Nat.{ℕ, zero, suc, ◌+◌, ◌*◌, ◌/◌, ◌%◌, ◌^◌, ◌≤◌, ◌<◌}
use native.Mathlib.Omega.{arith}
use cornerstone_octree.Base.Pow.{pow2-suc, pow2-pos}
use cornerstone_octree.Base.Bits.{bit_xor_digit, bit_xor_fields}
use cornerstone_octree.Base.Bits.Laws.{bit_xor_self}

differ-le : (x y : ℕ) → x < 2 → y < 2 → differ x y ≤ 1
differ-le zero y h l = omega arith
differ-le (suc zero) zero h l = omega arith
differ-le (suc zero) (suc zero) h l = omega arith
differ-le (suc x) (suc (suc y)) h l = absurd (omega arith)
differ-le (suc (suc x)) y h l = absurd (omega arith)

differ-zero→ : (x y : ℕ) → x < 2 → y < 2 → differ x y ≡ 0 → x ≡ y
differ-zero→ zero zero h l e = refl
differ-zero→ zero (suc y) h l e = absurd (omega arith)
differ-zero→ (suc zero) zero h l e = absurd (omega arith)
differ-zero→ (suc zero) (suc zero) h l e = refl
differ-zero→ (suc x) (suc (suc y)) h l e = absurd (omega arith)
differ-zero→ (suc (suc x)) y h l e = absurd (omega arith)

bit_xor-lt : (m a b : ℕ) → a < 2 ^ m → b < 2 ^ m → bit_xor a b < 2 ^ m
bit_xor-lt zero a b h l =
    let ea : a ≡ 0 = omega arith in let eb : b ≡ 0 = omega arith in rw (ea, eb) (omega arith)
bit_xor-lt (suc m) a b h l = omega (
  arith,
  pow2-suc m,
  bit_xor_digit a b,
  bit_xor-lt m (a / 2) (b / 2) (omega (arith, pow2-suc m)) (omega (arith, pow2-suc m)),
  differ-le (a % 2) (b % 2) (omega arith) (omega arith),
)

xor_zero : (f a b : ℕ) → a ≤ f → b ≤ f → bit_xor a b ≡ 0 → a ≡ b
xor_zero zero a b h l e = omega arith
xor_zero (suc f) a b h l e =
    let rest =
      xor_zero f (a / 2) (b / 2) (omega arith) (omega arith)
        (omega (arith, e, bit_xor_digit a b)) in
    let low =
      differ-zero→ (a % 2) (b % 2) (omega arith) (omega arith)
        (omega (arith, e, bit_xor_digit a b)) in
    omega (arith, rest, low)

-- The exclusive or is below 2 ^ m exactly if the numbers agree above their lowest `m` bits.
pub bit_xor-lt_iff : (m a b : ℕ) → (bit_xor a b < 2 ^ m) ↔ (a / 2 ^ m ≡ b / 2 ^ m)
bit_xor-lt_iff m a b =
    let split : bit_xor a b
        ≡ bit_xor (a / 2 ^ m) (b / 2 ^ m) * 2 ^ m + bit_xor (a % 2 ^ m) (b % 2 ^ m) =
      ap (λ x. bit_xor x b) (sym (div-add-mod' a (2 ^ m)))
      ∙ ap (λ y. bit_xor (a / 2 ^ m * 2 ^ m + a % 2 ^ m) y) (sym (div-add-mod' b (2 ^ m)))
      ∙ bit_xor_fields m (a / 2 ^ m) (a % 2 ^ m) (b / 2 ^ m) (b % 2 ^ m) (mod-lt a (pow2-pos m))
          (mod-lt b (pow2-pos m)) in
    (
      λ h. above (bit_xor (a / 2 ^ m) (b / 2 ^ m)) refl (omega (arith, split, h)),
      λ e.
          let none : bit_xor (a / 2 ^ m) (b / 2 ^ m) ≡ 0 =
            ap (λ x. bit_xor x (b / 2 ^ m)) e ∙ bit_xor_self (b / 2 ^ m) in
          omega (
            arith,
            split,
            ap (λ (x : ℕ). x * 2 ^ m) none,
            zero-mul (2 ^ m),
            bit_xor-lt m (a % 2 ^ m) (b % 2 ^ m) (mod-lt a (pow2-pos m)) (mod-lt b (pow2-pos m)),
          ),
    )
  where
    above :
        (q : ℕ) → bit_xor (a / 2 ^ m) (b / 2 ^ m) ≡ q → q * 2 ^ m < 2 ^ m → a / 2 ^ m ≡ b / 2 ^ m
    above zero e h =
        xor_zero (a / 2 ^ m + b / 2 ^ m) (a / 2 ^ m) (b / 2 ^ m) (omega arith) (omega arith) e
    above (suc q) e h = absurd (omega (arith, h, suc-mul q (2 ^ m)))

differ_comm : (x y : ℕ) → differ x y ≡ differ y x
differ_comm zero zero = refl
differ_comm zero (suc y) = refl
differ_comm (suc x) zero = refl
differ_comm (suc x) (suc y) = differ_comm x y

xor_comm_fuel : (f a b : ℕ) → a ≤ f → b ≤ f → bit_xor a b ≡ bit_xor b a
xor_comm_fuel zero a b h l =
    let ea : a ≡ 0 = omega arith in let eb : b ≡ 0 = omega arith in rw (ea, eb) refl
xor_comm_fuel (suc f) a b h l = omega (
  arith,
  bit_xor_digit a b,
  bit_xor_digit b a,
  differ_comm (a % 2) (b % 2),
  xor_comm_fuel f (a / 2) (b / 2) (omega arith) (omega arith),
)

pub bit_xor_comm : (a b : ℕ) → bit_xor a b ≡ bit_xor b a
bit_xor_comm a b = xor_comm_fuel (a + b) a b (omega arith) (omega arith)
