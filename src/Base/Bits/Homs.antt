-- ===== src/Base/Bits/Homs.antt =====
-- `|` and `^` are kept by shifts, masks and cuts; what keeps them is known by its values on powers of two.
use Prim.Native.Nat.{bit_or, bit_xor, differ, bit_or-bitwise, bit_xor-bitwise}
use native.Mathlib.Nat.{
  div-add-mod', mod-lt, mod-eq_of_lt, mul-add-mod_self_right, div-div-eq-div-mul,
}
use native.Mathlib.Decide.{dec_lt}
use cornerstone_octree.Base.{
  ℕ, zero, suc, ◌+◌, ◌-◌, ◌*◌, ◌/◌, ◌%◌, ◌^◌, ◌≤◌, ◌<◌, ◌≡◌, refl, ap, sym, ◌∙◌, arith, min, max,
  bit_and,
}
use cornerstone_octree.Base.Pow.{pow2-suc, pow2-pos}
use cornerstone_octree.Base.Bits.{
  bit_and_digit, bit_or_digit, bit_xor_digit, bit_or_fields, bit_xor_fields,
}
use cornerstone_octree.Base.Bits.Laws.{bit_and-zero}

same_digits : (a b : ℕ) → a / 2 ≡ b / 2 → a % 2 ≡ b % 2 → a ≡ b
same_digits a b halves parities = omega arith

and_half : (a m : ℕ) → bit_and a m / 2 ≡ bit_and (a / 2) (m / 2)
and_half a m = omega (arith, bit_and_digit a m)

and_parity : (a m : ℕ) → bit_and a m % 2 ≡ min (a % 2) (m % 2)
and_parity a m = omega (arith, bit_and_digit a m)

-- An operation that works on the binary digits alone.
pub record IsBitwise (op g : ℕ → ℕ → ℕ) : Type 0 where
  pub digit : (a b : ℕ) → op a b ≡ op (a / 2) (b / 2) * 2 + g (a % 2) (b % 2)
  pub none : op 0 0 ≡ 0
  pub unit : (x : ℕ) → op 0 x ≡ x
  pub one : op 1 0 ≡ 1
  pub small : (x y : ℕ) → x < 2 → y < 2 → g x y < 2
  pub masked : (x y z : ℕ) → x < 2 → y < 2 → z < 2 → min (g x y) z ≡ g (min x z) (min y z)
  pub swapped :
      (x y z w : ℕ) → x < 2 → y < 2 → z < 2 → w < 2 → g (g x y) (g z w) ≡ g (g x z) (g y w)
  pub fields :
      (m q r s t : ℕ)
      → r < 2 ^ m
      → t < 2 ^ m
      → op (q * 2 ^ m + r) (s * 2 ^ m + t) ≡ op q s * 2 ^ m + op r t

module _ (op g : ℕ → ℕ → ℕ) (bits : IsBitwise op g) where
  pub half : (a b : ℕ) → op a b / 2 ≡ op (a / 2) (b / 2)
  half a b = omega (arith, bits.digit a b, bits.small (a % 2) (b % 2) (omega arith) (omega arith))

  pub parity : (a b : ℕ) → op a b % 2 ≡ g (a % 2) (b % 2)
  parity a b = omega (arith, bits.digit a b, bits.small (a % 2) (b % 2) (omega arith) (omega arith))

  half_twice :
      (a b c d : ℕ) → op (op a b) (op c d) / 2 ≡ op (op (a / 2) (b / 2)) (op (c / 2) (d / 2))
  half_twice a b c d =
      half (op a b) (op c d)
      ∙ ap (λ (t : ℕ). op t (op c d / 2)) (half a b)
      ∙ ap (op (op (a / 2) (b / 2))) (half c d)

  parity_twice :
      (a b c d : ℕ) → op (op a b) (op c d) % 2 ≡ g (g (a % 2) (b % 2)) (g (c % 2) (d % 2))
  parity_twice a b c d =
      parity (op a b) (op c d)
      ∙ ap (λ (t : ℕ). g t (op c d % 2)) (parity a b)
      ∙ ap (g (g (a % 2) (b % 2))) (parity c d)

  pub op-digits : (x y : ℕ) → x < 2 → y < 2 → op x y ≡ g x y
  op-digits x y p q =
      let ex : x / 2 ≡ 0 = omega arith in
      let ey : y / 2 ≡ 0 = omega arith in
      let mx : x % 2 ≡ x = omega arith in
      let my : y % 2 ≡ y = omega arith in
      bits.digit x y
      ∙ ap (λ (t : ℕ). op t (y / 2) * 2 + g (x % 2) (y % 2)) ex
      ∙ ap (λ (t : ℕ). op 0 t * 2 + g (x % 2) (y % 2)) ey
      ∙ ap (λ (t : ℕ). t * 2 + g (x % 2) (y % 2)) bits.none
      ∙ ap (λ (t : ℕ). 0 * 2 + g t (y % 2)) mx
      ∙ ap (λ (t : ℕ). 0 * 2 + g x t) my
      ∙ omega arith

  pub hom_mask : (m a b : ℕ) → bit_and (op a b) m ≡ op (bit_and a m) (bit_and b m)
  hom_mask m = fuel m m (omega arith)
    where
      nothing : (m a b : ℕ) → m ≡ 0 → bit_and (op a b) m ≡ op (bit_and a m) (bit_and b m)
      nothing m a b e =
          rw (e, bit_and-zero (op a b), bit_and-zero a, bit_and-zero b) (sym bits.none)

      fuel : (f m : ℕ) → m ≤ f → (a b : ℕ) → bit_and (op a b) m ≡ op (bit_and a m) (bit_and b m)
      fuel zero m h a b = nothing m a b (omega arith)
      fuel (suc f) m h a b = elim (dec_lt m 1) [
        | yes p ↦ nothing m a b (omega arith)
        | no p ↦
            same_digits (bit_and (op a b) m) (op (bit_and a m) (bit_and b m))
              (and_half (op a b) m
                ∙ ap (λ (t : ℕ). bit_and t (m / 2)) (half a b)
                ∙ fuel f (m / 2) (omega arith) (a / 2) (b / 2)
                ∙ sym (
                    half (bit_and a m) (bit_and b m)
                    ∙ ap (λ (t : ℕ). op t (bit_and b m / 2)) (and_half a m)
                    ∙ ap (λ (t : ℕ). op (bit_and (a / 2) (m / 2)) t) (and_half b m)))
              (and_parity (op a b) m
                ∙ ap (λ (t : ℕ). min t (m % 2)) (parity a b)
                ∙ bits.masked (a % 2) (b % 2) (m % 2) (omega arith) (omega arith) (omega arith)
                ∙ sym (
                    parity (bit_and a m) (bit_and b m)
                    ∙ ap (λ (t : ℕ). g t (bit_and b m % 2)) (and_parity a m)
                    ∙ ap (λ (t : ℕ). g (min (a % 2) (m % 2)) t) (and_parity b m)))
      ]

  pub op_exchange : (a b c d : ℕ) → op (op a b) (op c d) ≡ op (op a c) (op b d)
  op_exchange a b c d = fuel (a + b + c + d) a b c d (omega arith)
    where
      nothing : (a b c d : ℕ) → a + b + c + d ≡ 0 → op (op a b) (op c d) ≡ op (op a c) (op b d)
      nothing a b c d h =
          let eb : b ≡ 0 = omega arith in
          let ec : c ≡ 0 = omega arith in
          let ea : a ≡ 0 = omega arith in let ed : d ≡ 0 = omega arith in rw (ea, eb, ec, ed) refl

      fuel : (f a b c d : ℕ) → a + b + c + d ≤ f → op (op a b) (op c d) ≡ op (op a c) (op b d)
      fuel zero a b c d h = nothing a b c d (omega arith)
      fuel (suc f) a b c d h = elim (dec_lt (a + b + c + d) 1) [
        | yes p ↦ nothing a b c d (omega arith)
        | no p ↦
            same_digits (op (op a b) (op c d)) (op (op a c) (op b d))
              (half_twice a b c d
                ∙ fuel f (a / 2) (b / 2) (c / 2) (d / 2) (omega arith)
                ∙ sym (half_twice a c b d))
              (parity_twice a b c d
                ∙ bits.swapped (a % 2) (b % 2) (c % 2) (d % 2) (omega arith) (omega arith)
                    (omega arith) (omega arith)
                ∙ sym (parity_twice a c b d))
      ]

  op_small : (n a b : ℕ) → a < 2 ^ n → b < 2 ^ n → op a b < 2 ^ n
  op_small zero a b p q =
      let ea : a ≡ 0 = omega arith in
      let eb : b ≡ 0 = omega arith in rw (ea, eb) (omega (arith, bits.none))
  op_small (suc n) a b p q = omega (
    arith,
    pow2-suc n,
    bits.digit a b,
    bits.small (a % 2) (b % 2) (omega arith) (omega arith),
    op_small n (a / 2) (b / 2) (omega (arith, pow2-suc n)) (omega (arith, pow2-suc n)),
  )

  pub hom_right : (n a b : ℕ) → op a b / 2 ^ n ≡ op (a / 2 ^ n) (b / 2 ^ n)
  hom_right zero a b =
      let ea : a / 1 ≡ a = omega arith in
      let eb : b / 1 ≡ b = omega arith in rw (ea, eb) (omega arith)
  hom_right (suc n) a b =
      let step =
        λ (x : ℕ). ap (λ (t : ℕ). x / t) (pow2-suc n) ∙ sym (div-div-eq-div-mul x 2 (2 ^ n)) in
      step (op a b)
      ∙ ap (λ (t : ℕ). t / 2 ^ n) (half a b)
      ∙ hom_right n (a / 2) (b / 2)
      ∙ sym (ap (λ (t : ℕ). op t (b / 2 ^ suc n)) (step a) ∙ ap (op (a / 2 / 2 ^ n)) (step b))

  pub hom_left : (n a b : ℕ) → op a b * 2 ^ n ≡ op (a * 2 ^ n) (b * 2 ^ n)
  hom_left n a b =
      let ea : a * 2 ^ n + 0 ≡ a * 2 ^ n = omega arith in
      let eb : b * 2 ^ n + 0 ≡ b * 2 ^ n = omega arith in
      let fields = bits.fields n a 0 b 0 (pow2-pos n) (pow2-pos n) in
      omega
        (arith, bits.none, fields, ap (λ (t : ℕ). op t (b * 2 ^ n + 0)) ea, ap (op (a * 2 ^ n)) eb)

  pub hom_cut : (n a b : ℕ) → op a b % 2 ^ n ≡ op (a % 2 ^ n) (b % 2 ^ n)
  hom_cut n a b =
      let q = a / 2 ^ n in
      let s = b / 2 ^ n in
      let r = a % 2 ^ n in
      let t = b % 2 ^ n in
      ap (λ (x : ℕ). op x b % 2 ^ n) (sym (div-add-mod' a (2 ^ n)))
      ∙ ap (λ (x : ℕ). op (q * 2 ^ n + r) x % 2 ^ n) (sym (div-add-mod' b (2 ^ n)))
      ∙ ap (λ (x : ℕ). x % 2 ^ n)
          (bits.fields n q r s t (mod-lt a (pow2-pos n)) (mod-lt b (pow2-pos n)))
      ∙ mul-add-mod_self_right (op q s) (2 ^ n) (op r t)
      ∙ mod-eq_of_lt (op_small n r t (mod-lt a (pow2-pos n)) (mod-lt b (pow2-pos n)))

  pub power : (n r : ℕ) → r < 2 ^ n → op (2 ^ n) r ≡ 2 ^ n + r
  power n r small =
      let ea : 1 * 2 ^ n + 0 ≡ 2 ^ n = omega arith in
      let eb : 0 * 2 ^ n + r ≡ r = omega arith in
      ap (λ (t : ℕ). op t r) (sym ea)
      ∙ ap (op (1 * 2 ^ n + 0)) (sym eb)
      ∙ bits.fields n 1 0 0 r (pow2-pos n) small
      ∙ omega (arith, bits.unit r, ap (λ (t : ℕ). t * 2 ^ n) bits.one)

  -- What two functions that keep the operation share on 0 and the powers of two below 2 ^ n, they share on
  -- all numbers below it.
  abbrev pub IsHom : (ℕ → ℕ) → Type 0
  IsHom f = (a b : ℕ) → f (op a b) ≡ op (f a) (f b)

  pub hom_same :
      (f h : ℕ → ℕ)
      → IsHom f
      → IsHom h
      → f 0 ≡ h 0
      → (n : ℕ) → ((i : ℕ) → i < n → f (2 ^ i) ≡ h (2 ^ i))
      → (v : ℕ) → v < 2 ^ n
      → f v ≡ h v
  hom_same f h keep keep' zeros zero ones v small = let none : v ≡ 0 = omega arith in rw none zeros
  hom_same f h keep keep' zeros (suc n) ones v small =
      let below = hom_same f h keep keep' zeros n (λ i lt. ones i (omega arith)) in
      elim (dec_lt v (2 ^ n)) [
        | yes p ↦ below v p
        | no p ↦
            let rest : ℕ = v - 2 ^ n in
            let rest_small : rest < 2 ^ n = omega (arith, pow2-suc n) in
            let parts : op (2 ^ n) rest ≡ v = power n rest rest_small ∙ omega (arith, pow2-suc n) in
            ap f (sym parts)
            ∙ keep (2 ^ n) rest
            ∙ ap (λ (t : ℕ). op t (f rest)) (ones n (omega arith))
            ∙ ap (op (h (2 ^ n))) (below rest rest_small)
            ∙ sym (keep' (2 ^ n) rest)
            ∙ ap h parts
      ]

  pub IsHom-after : (f h : ℕ → ℕ) → IsHom f → IsHom h → IsHom (λ x. f (h x))
  IsHom-after f h keep keep' a b = ap f (keep' a b) ∙ keep (h a) (h b)

pub or_bits : IsBitwise bit_or max
or_bits = record {
  digit = bit_or_digit;
  none = refl;
  unit = λ x. bit_or-bitwise 0 x;
  one = refl;
  small = λ x y p q. omega arith;
  masked = λ x y z p q r. omega arith;
  swapped = λ x y z w p q r s. omega arith;
  fields = bit_or_fields;
}

pub differ_parity : (x y : ℕ) → x < 2 → y < 2 → differ x y ≡ (x + y) % 2
differ_parity zero zero h l = refl
differ_parity zero (suc zero) h l = refl
differ_parity (suc zero) zero h l = refl
differ_parity (suc zero) (suc zero) h l = refl
differ_parity zero (suc (suc y)) h l = absurd (omega arith)
differ_parity (suc zero) (suc (suc y)) h l = absurd (omega arith)
differ_parity (suc (suc x)) y h l = absurd (omega arith)

pub xor_bits : IsBitwise bit_xor differ
xor_bits = record {
  digit = bit_xor_digit;
  none = refl;
  unit = λ x. bit_xor-bitwise 0 x;
  one = refl;
  small = λ x y p q. omega (arith, differ_parity x y p q);
  masked = λ x y z p q r.
      omega (
        arith,
        differ_parity x y p q,
        differ_parity (min x z) (min y z) (omega arith) (omega arith),
      );
  swapped = λ x y z w p q r s.
      let xy = differ_parity x y p q in
      let zw = differ_parity z w r s in
      let xz = differ_parity x z p r in
      let yw = differ_parity y w q s in
      omega (
        arith,
        xy,
        zw,
        xz,
        yw,
        differ_parity (differ x y) (differ z w) (omega (arith, xy)) (omega (arith, zw)),
        differ_parity (differ x z) (differ y w) (omega (arith, xz)) (omega (arith, yw)),
      );
  fields = bit_xor_fields;
}
