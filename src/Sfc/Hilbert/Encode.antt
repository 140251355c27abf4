-- ===== src/Sfc/Hilbert/Encode.antt =====
-- The rounds of `iHilbert` of include/cstone/sfc/hilbert.hpp on the bits below a level.
use native.Mathlib.Nat.{
  mod-eq_of_lt, mod-lt, suc-mul, mul-le-mul_right, div-add-mod', add-mul, mul_assoc,
  mul-add-mod_self_right, add-mul-div_right, div-eq_of_lt, le-mul_of_pos_right,
}
use cornerstone_octree.Base.{
  ℕ, zero, suc, ◌+◌, ◌*◌, ◌/◌, ◌%◌, ◌^◌, ◌≤◌, ◌<◌, ◌≡◌, ap, sym, ◌∙◌, arith, Bool, true, false,
  ◌==◌,
}
use cornerstone_octree.Base.Pow.{pow2-suc, pow2-pos, pow8-suc, pow8-pos}
use cornerstone_octree.Key.{KeyType, modulus}
use cornerstone_octree.Sfc.Hilbert.{has_bit, turn, hilbert_loop}
use cornerstone_octree.Sfc.Hilbert.Turns.{low_turn, digit_of, turn-low_turn}

-- The key of the bits below a level.
unfoldable pub low_key : ℕ → ℕ → ℕ → ℕ → ℕ
unfolding low_turn
low_key zero x y z = 0
low_key (suc n) x y z =
    let turned =
      low_turn n (has_bit x n) (has_bit y n) (has_bit z n) (x % 2 ^ n) (y % 2 ^ n) (z % 2 ^ n) in
    digit_of (has_bit x n) (has_bit y n) (has_bit z n) * 8 ^ n
    + low_key n turned.0 turned.1 turned.2

-- A round with the bits at the level given.
abbrev pub low_step : ℕ → Bool → Bool → Bool → ℕ → ℕ → ℕ → ℕ
low_step n xi yi zi x y z =
    digit_of xi yi zi * 8 ^ n
    + low_key n (low_turn n xi yi zi x y z).0 (low_turn n xi yi zi x y z).1
        (low_turn n xi yi zi x y z).2

pub digit_of-lt : (xi yi zi : Bool) → digit_of xi yi zi < 8
digit_of-lt true true true = omega arith
digit_of-lt true true false = omega arith
digit_of-lt true false true = omega arith
digit_of-lt true false false = omega arith
digit_of-lt false true true = omega arith
digit_of-lt false true false = omega arith
digit_of-lt false false true = omega arith
digit_of-lt false false false = omega arith

pub low_key-lt : (n x y z : ℕ) → low_key n x y z < 8 ^ n
unfolding low_key
low_key-lt zero x y z = omega arith
low_key-lt (suc n) x y z =
    let digit = digit_of-lt (has_bit x n) (has_bit y n) (has_bit z n) in
    omega (
      arith,
      pow8-suc n,
      low_key-lt n _ _ _,
      mul-le-mul_right (8 ^ n) digit,
      suc-mul (digit_of (has_bit x n) (has_bit y n) (has_bit z n)) (8 ^ n),
    )

-- The bits below the next level.
pub low_split : (n p : ℕ) → p % 2 ^ suc n ≡ p / 2 ^ n % 2 * 2 ^ n + p % 2 ^ n
low_split n p =
    let a : ℕ = p / 2 ^ n in
    let b : ℕ = a % 2 in
    let parts : a ≡ a / 2 * 2 + b = omega arith in
    let whole : p ≡ a / 2 * 2 ^ suc n + (b * 2 ^ n + p % 2 ^ n) = omega (
      arith,
      div-add-mod' p (2 ^ n),
      ap (λ (t : ℕ). t * 2 ^ n) parts,
      add-mul (a / 2 * 2) b (2 ^ n),
      mul_assoc (a / 2) 2 (2 ^ n),
      ap (λ (t : ℕ). a / 2 * t) (pow2-suc n),
    ) in
    let small : b * 2 ^ n ≤ 1 * 2 ^ n = mul-le-mul_right (2 ^ n) (omega arith) in
    ap (λ (t : ℕ). t % 2 ^ suc n) whole
    ∙ mul-add-mod_self_right (a / 2) (2 ^ suc n) (b * 2 ^ n + p % 2 ^ n)
    ∙ mod-eq_of_lt (omega (arith, small, pow2-suc n, mod-lt p (pow2-pos n)))

pub low_rest : (n p : ℕ) → p % 2 ^ suc n % 2 ^ n ≡ p % 2 ^ n
low_rest n p =
    ap (λ (t : ℕ). t % 2 ^ n) (low_split n p)
    ∙ mul-add-mod_self_right (p / 2 ^ n % 2) (2 ^ n) (p % 2 ^ n)
    ∙ mod-eq_of_lt (mod-lt p (pow2-pos n))

pub low_bit : (n p : ℕ) → has_bit (p % 2 ^ suc n) n ≡ has_bit p n
low_bit n p =
    let low : p % 2 ^ n < 2 ^ n = mod-lt p (pow2-pos n) in
    let top : (p / 2 ^ n % 2 * 2 ^ n + p % 2 ^ n) / 2 ^ n ≡ p / 2 ^ n % 2 =
      ap (λ (t : ℕ). t / 2 ^ n) (omega arith)
      ∙ add-mul-div_right (p % 2 ^ n) (p / 2 ^ n % 2) (pow2-pos n)
      ∙ omega (arith, div-eq_of_lt low) in
    ap (λ (t : ℕ). t % 2 == 1) (ap (λ (t : ℕ). t / 2 ^ n) (low_split n p) ∙ top)
    ∙ ap (λ (t : ℕ). t == 1) (omega arith)

low_key-step :
    (n px py pz : ℕ)
    → low_key (suc n) (px % 2 ^ suc n) (py % 2 ^ suc n) (pz % 2 ^ suc n)
      ≡ low_step n
          (has_bit px n)
          (has_bit py n)
          (has_bit pz n)
          (px % 2 ^ n)
          (py % 2 ^ n)
          (pz % 2 ^ n)
unfolding low_key
low_key-step n px py pz = λ i.
    low_step n (low_bit n px i) (low_bit n py i) (low_bit n pz i) (low_rest n px i)
      (low_rest n py i) (low_rest n pz i)

pub hilbert_loop-low_key :
    (k : KeyType) (n key px py pz : ℕ)
    → n ≤ 32
    → suc key * 8 ^ n ≤ modulus k
    → hilbert_loop k n key px py pz ≡ key * 8 ^ n + low_key n (px % 2 ^ n) (py % 2 ^ n) (pz % 2 ^ n)
unfolding hilbert_loop low_key
hilbert_loop-low_key k zero key px py pz h room = omega arith
hilbert_loop-low_key k (suc n) key px py pz h room =
    let xi = has_bit px n in
    let yi = has_bit py n in
    let zi = has_bit pz n in
    let d : ℕ = digit_of xi yi zi in
    let small : d < 8 = digit_of-lt xi yi zi in
    let (tx, ty, tz) = turn xi yi zi px py pz in
    let (ex, ey, ez) = turn-low_turn xi yi zi n px py pz (omega arith) in
    let next : suc (key * 8 + d) * 8 ^ n ≤ suc key * 8 ^ suc n = omega (
      arith,
      mul-le-mul_right (8 ^ n) (digit_next key d small),
      mul_assoc (suc key) 8 (8 ^ n),
      ap (λ (t : ℕ). suc key * t) (pow8-suc n),
    ) in
    let fits : key * 8 + d < modulus k = omega (arith, room, next, grows (suc (key * 8 + d)) n) in
    ap
      (λ (t : ℕ).
        hilbert_loop k n t (turn xi yi zi px py pz).0 (turn xi yi zi px py pz).1
          (turn xi yi zi px py pz).2)
      (mod-eq_of_lt fits)
    ∙ hilbert_loop-low_key k n (key * 8 + d) (turn xi yi zi px py pz).0 (turn xi yi zi px py pz).1
        (turn xi yi zi px py pz).2 (omega arith) (omega (arith, next, room))
    ∙ (λ i. (key * 8 + d) * 8 ^ n + low_key n (ex i) (ey i) (ez i))
    ∙ omega (
      arith,
      add-mul (key * 8) d (8 ^ n),
      mul_assoc key 8 (8 ^ n),
      ap (λ (t : ℕ). key * t) (pow8-suc n),
    )
    ∙ ap (λ (t : ℕ). key * 8 ^ suc n + t) (sym (low_key-step n px py pz))
  where
    digit_next : (key d : ℕ) → d < 8 → suc (key * 8 + d) ≤ suc key * 8
    digit_next key d small = omega arith

    grows : (a n : ℕ) → a ≤ a * 8 ^ n
    grows a n = le-mul_of_pos_right a (pow8-pos n)
