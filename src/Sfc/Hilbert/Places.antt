-- ===== src/Sfc/Hilbert/Places.antt =====
-- Cells of coordinates, and of those that include/cstone/sfc/hilbert.hpp turns over.
use native.Mathlib.Nat.{
  mod-eq_of_lt, mod-lt, div-add-mod', div-eq_of_lt, add-mul-div_right, mul-add-mod_self_right,
  mul_assoc, add-mul, div-lt_iff_lt-mul, suc-mul,
}
use cornerstone_octree.Base.{
  ℕ, suc, ◌+◌, ◌-◌, ◌*◌, ◌/◌, ◌%◌, ◌^◌, ◌≤◌, ◌<◌, ◌≡◌, refl, ap, sym, ◌∙◌, arith, ◌↔◌, Bool, true,
  false,
}
use cornerstone_octree.Base.Pow.{pow2-pos, pow2-add, pow8-add}
use cornerstone_octree.Sfc.Hilbert.Turns.{flip}

pub quotient_of : (p x y : ℕ) → y < p → (x * p + y) / p ≡ x
quotient_of p x y lt =
    let swap : x * p + y ≡ y + x * p = omega arith in
    ap (λ (t : ℕ). t / p) swap
    ∙ add-mul-div_right y x (omega arith)
    ∙ omega (arith, div-eq_of_lt lt)

-- A quotient and a rest are determined by their sum.
pub unique_parts : (p a b c d : ℕ) → b < p → d < p → a * p + b ≡ c * p + d → (a ≡ c) × (b ≡ d)
unique_parts p a b c d small small' e = (
  sym (quotient_of p a b small) ∙ ap (λ (t : ℕ). t / p) e ∙ quotient_of p c d small',
  sym (mod-eq_of_lt small)
      ∙ sym (mul-add-mod_self_right a p b)
      ∙ ap (λ (t : ℕ). t % p) e
      ∙ mul-add-mod_self_right c p d
      ∙ mod-eq_of_lt small',
)

-- The quotient by a lower power.
pub quotient_above : (p q b r : ℕ) → 1 ≤ p → (b * (q * p) + r) / p ≡ b * q + r / p
quotient_above p q b r some =
    let swap : b * (q * p) + r ≡ r + b * q * p = omega (arith, mul_assoc b q p) in
    ap (λ (t : ℕ). t / p) swap ∙ add-mul-div_right r (b * q) some ∙ omega arith

pub pow2_split : (e n : ℕ) → e ≤ n → 2 ^ n ≡ 2 ^ (n - e) * 2 ^ e
pow2_split e n h =
    let all : n ≡ n - e + e = omega arith in ap (λ (t : ℕ). 2 ^ t) all ∙ pow2-add e (n - e)

pub pow8_split : (e n : ℕ) → e ≤ n → 8 ^ n ≡ 8 ^ (n - e) * 8 ^ e
pow8_split e n h =
    let all : n ≡ n - e + e = omega arith in ap (λ (t : ℕ). 8 ^ t) all ∙ pow8-add e (n - e)

pub cell_small : (e n v : ℕ) → e ≤ n → v < 2 ^ n → v / 2 ^ e < 2 ^ (n - e)
cell_small e n v h small =
    (div-lt_iff_lt-mul (pow2-pos e)).1 (omega (arith, pow2_split e n h, small))

flip_cell :
    (f : Bool) (e n v : ℕ) → e ≤ n → v < 2 ^ n → flip f n v / 2 ^ e ≡ flip f (n - e) (v / 2 ^ e)
flip_cell false e n v h small = refl
flip_cell true e n v h small =
    let p : ℕ = 2 ^ e in
    let q : ℕ = v / p in
    let r : ℕ = v % p in
    let s : ℕ = 2 ^ (n - e) - 1 - q in
    let count : 2 ^ (n - e) ≡ s + suc q = omega (arith, cell_small e n v h small) in
    let whole : 2 ^ n - 1 - v ≡ s * p + (p - 1 - r) = omega (
      arith,
      pow2_split e n h,
      ap (λ (t : ℕ). t * p) count,
      add-mul s (suc q) p,
      suc-mul q p,
      div-add-mod' v p,
      mod-lt v (pow2-pos e),
    ) in
    ap (λ (t : ℕ). t / p) whole ∙ quotient_of p s (p - 1 - r) (omega (arith, pow2-pos e))

-- Two coordinates are in one cell exactly if they are turned over.
pub flip_same :
    (f : Bool) (e n v w : ℕ)
    → e ≤ n
    → v < 2 ^ n
    → w < 2 ^ n
    → (flip f n v / 2 ^ e ≡ flip f n w / 2 ^ e) ↔ (v / 2 ^ e ≡ w / 2 ^ e)
flip_same f e n v w h p q = (
  λ s. back f (sym (flip_cell f e n v h p) ∙ s ∙ flip_cell f e n w h q),
  λ s. flip_cell f e n v h p ∙ ap (flip f (n - e)) s ∙ sym (flip_cell f e n w h q),
)
  where
    back :
        (f : Bool) → flip f (n - e) (v / 2 ^ e) ≡ flip f (n - e) (w / 2 ^ e) → v / 2 ^ e ≡ w / 2 ^ e
    back true s = omega (arith, s, cell_small e n v h p, cell_small e n w h q)
    back false s = s
