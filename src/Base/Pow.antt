-- ===== src/Base/Pow.antt =====
-- Powers of two and eight, and the octal digits of sums.
use native.Mathlib.Nat.{
  pow-suc, one-le-pow, pow-le-pow_right, mul_assoc, div-eq_of_lt-le, div-add-mod',
  add-mul-div_right, mod-lt, suc-mul, mul-le-mul_right,
}
use native.Mathlib.Decide.{dec_lt}
use cornerstone_octree.Base.{
  ℕ, zero, suc, ◌+◌, ◌-◌, ◌*◌, ◌/◌, ◌%◌, ◌^◌, ◌≤◌, ◌<◌, ◌≡◌, refl, ap, sym, ◌∙◌, arith, ◌⊎◌, inl,
  inr,
}

pub pow2-suc : (n : ℕ) → 2 ^ suc n ≡ 2 * 2 ^ n
pow2-suc n = omega (arith, pow-suc 2 n)

pub pow8-suc : (n : ℕ) → 8 ^ suc n ≡ 8 * 8 ^ n
pow8-suc n = omega (arith, pow-suc 8 n)

pub pow8-pos : (n : ℕ) → 1 ≤ 8 ^ n
pow8-pos n = one-le-pow n 8 (omega arith)

pub pow2-pos : (n : ℕ) → 1 ≤ 2 ^ n
pow2-pos n = one-le-pow n 2 (omega arith)

-- `1 << 3 e` is the e-th power of eight.
pub pow2_triple : (e : ℕ) → 2 ^ (3 * e) ≡ 8 ^ e
pow2_triple zero = refl
pow2_triple (suc e) =
    let three : 3 * suc e ≡ suc (suc (suc (3 * e))) = omega arith in
    rw three (
      omega (
        arith,
        pow2-suc (suc (suc (3 * e))),
        pow2-suc (suc (3 * e)),
        pow2-suc (3 * e),
        pow8-suc e,
        pow2_triple e,
      ))

pub pow8_mono : (a b : ℕ) → a ≤ b → 8 ^ a ≤ 8 ^ b
pow8_mono a b h = pow-le-pow_right (omega arith) h

pub pow2_mono : (a b : ℕ) → a ≤ b → 2 ^ a ≤ 2 ^ b
pow2_mono a b h = pow-le-pow_right (omega arith) h

pub pow2-add : (a d : ℕ) → 2 ^ (d + a) ≡ 2 ^ d * 2 ^ a
pow2-add a zero = let e : 0 + a ≡ a = omega arith in rw e (omega arith)
pow2-add a (suc d) =
    let e : suc d + a ≡ suc (d + a) = omega arith in
    rw (e, pow2-suc (d + a), pow2-suc d, pow2-add a d) (sym (mul_assoc 2 (2 ^ d) (2 ^ a)))

pub pow8-add : (a d : ℕ) → 8 ^ (d + a) ≡ 8 ^ d * 8 ^ a
pow8-add a zero = let e : 0 + a ≡ a = omega arith in rw e (omega arith)
pow8-add a (suc d) =
    let e : suc d + a ≡ suc (d + a) = omega arith in
    rw (e, pow8-suc (d + a), pow8-suc d, pow8-add a d) (sym (mul_assoc 8 (8 ^ d) (8 ^ a)))

-- A larger power is a multiple of a smaller one.
pub pow8_multiple : (a b : ℕ) → a ≤ b → 8 ^ b ≡ 8 ^ (b - a) * 8 ^ a
pow8_multiple a b h =
    let e : b ≡ (b - a) + a = omega arith in ap (λ t. 8 ^ t) e ∙ pow8-add a (b - a)

pub div-add_small : (x s y : ℕ) → s < y → ((x + s) / y ≡ x / y) ⊎ ((x + s) / y ≡ x / y + 1)
div-add_small x s y h = elim (dec_lt (x % y + s) y) [
  | yes p ↦
      inl (div-eq_of_lt-le y (omega (arith, div-add-mod' x y)) (omega (arith, div-add-mod' x y)))
  | no p ↦
      inr (div-eq_of_lt-le y (omega (arith, div-add-mod' x y)) (omega (arith, div-add-mod' x y)))
]

pub pow8_lt : (a b : ℕ) → a < b → 8 ^ a < 8 ^ b
pow8_lt a b h = omega (arith, pow8-suc a, pow8-pos a, pow8_mono (suc a) b h)

pub pow8_div_mod : (d : ℕ) → (8 ^ d ≡ 1) ⊎ (8 ^ d % 8 ≡ 0)
pow8_div_mod zero = inl refl
pow8_div_mod (suc d) = inr (omega (arith, pow8-suc d))

pub div-add_multiple : (a l z : ℕ) → (a + z * 8 ^ l) / 8 ^ l ≡ a / 8 ^ l + z
div-add_multiple a l z = add-mul-div_right a z (pow8-pos l)

-- Adding a power of eight leaves the octal digit at place `l` alone, or takes it one up.
pub octal_step :
    (a e l : ℕ)
    → ((a + 8 ^ e) / 8 ^ l % 8 ≡ a / 8 ^ l % 8)
      ⊎ ((a + 8 ^ e) / 8 ^ l % 8 ≡ (a / 8 ^ l % 8 + 1) % 8)
octal_step a e l = elim (dec_lt e l) [
  | yes p ↦ elim (div-add_small a (8 ^ e) (8 ^ l) (pow8_lt e l p)) [
    | inl same ↦ inl (omega (arith, same))
    | inr up ↦ inr (omega (arith, up))
  ]
  | no p ↦
      rw (pow8_multiple l e (omega arith))
        (omega (arith, div-add_multiple a l (8 ^ (e - l)), pow8_div_mod (e - l)))
]

pub div_mono : (a b p : ℕ) → 1 ≤ p → a ≤ b → a / p ≤ b / p
div_mono a b p pos le = elim (dec_lt (b / p) (a / p)) [
  | no ge ↦ omega arith
  | yes lt ↦ absurd (
      omega (
        arith,
        le,
        div-add-mod' a p,
        div-add-mod' b p,
        mod-lt b pos,
        suc-mul (b / p) p,
        mul-le-mul_right p lt,
      ))
]
