-- ===== src/Sfc/Morton/Spread.antt =====
-- The steps of include/cstone/sfc/morton.hpp against the numbers with each bit in the place of an octal digit.
use Prim.Native.Nat.{bit_or}
use native.Mathlib.Decide.{dec_lt}
use cornerstone_octree.Base.{
  ℕ, zero, suc, ◌+◌, ◌*◌, ◌/◌, ◌%◌, ◌^◌, ◌<◌, ◌≡◌, refl, ap, sym, ◌∙◌, arith, max, bit_and, Bool,
  true, ◌&&◌, ◌==◌, ==_iff,
}
use cornerstone_octree.Base.Bits.Homs.{
  IsBitwise, IsHom, or_bits, half, parity, hom_mask, hom_left, hom_cut, hom_same, IsHom-after,
  op_exchange, op-digits,
}
use cornerstone_octree.Key.{KeyType, u32, u64, max_tree_level, shl_key}
use cornerstone_octree.Sfc.Morton.{or_step, multiply_step, expand_bits}

-- The lowest `n` bits of a number, each as an octal digit.
unfoldable pub spread : ℕ → ℕ → ℕ
spread zero v = 0
spread (suc n) v = spread n (v / 2) * 8 + v % 2

-- Two functions agree below a number.
unfoldable pub agree : (ℕ → ℕ) → (ℕ → ℕ) → ℕ → Bool
agree f h zero = true
agree f h (suc n) = f n == h n && agree f h n

pub agree→ : (f h : ℕ → ℕ) (n : ℕ) → agree f h n ≡ true → (v : ℕ) → v < n → f v ≡ h v
unfolding agree
agree→ f h zero same v small = absurd (omega arith)
agree→ f h (suc n) same v small = elim (dec_lt v n) [
  | yes p ↦ agree→ f h n (ground arith) v p
  | no p ↦
      let here : n ≡ v = omega arith in
      let equal : f n ≡ h n = (==_iff (f n) (h n)).0 (ground arith) in
      ap f (sym here) ∙ equal ∙ ap h here
]

module _ (op g : ℕ → ℕ → ℕ) (bits : IsBitwise op g) where
  pub spread-IsHom : (n : ℕ) → IsHom op g bits (spread n)
  unfolding spread
  spread-IsHom zero a b = sym bits.none
  spread-IsHom (suc n) a b =
      ap (λ (t : ℕ). spread n t * 8 + op a b % 2) (half op g bits a b)
      ∙ ap (λ (t : ℕ). spread n (op (a / 2) (b / 2)) * 8 + t)
          (parity op g bits a b
            ∙ sym (op-digits op g bits (a % 2) (b % 2) (omega arith) (omega arith)))
      ∙ ap (λ (t : ℕ). t * 8 + op (a % 2) (b % 2)) (spread-IsHom n (a / 2) (b / 2))
      ∙ sym (
          bits.fields 3 (spread n (a / 2)) (a % 2) (spread n (b / 2)) (b % 2) (omega arith)
            (omega arith))

  pub step-IsHom :
      (f : ℕ → ℕ) (mask : ℕ) → IsHom op g bits f → IsHom op g bits (λ x. bit_and (op x (f x)) mask)
  step-IsHom f mask keep a b =
      ap (λ (t : ℕ). bit_and (op (op a b) t) mask) (keep a b)
      ∙ ap (λ (t : ℕ). bit_and t mask) (op_exchange op g bits a b (f a) (f b))
      ∙ hom_mask op g bits mask (op a (f a)) (op b (f b))

expand_table_32 : agree (expand_bits u32) (spread 10) 1024 ≡ true
unfolding expand_bits agree spread multiply_step
expand_table_32 = refl

expand_table_64 : agree (λ i. expand_bits u64 (2 ^ i)) (λ i. spread 21 (2 ^ i)) 21 ≡ true
unfolding expand_bits agree spread or_step shl_key
expand_table_64 = refl

shl-IsHom : (n : ℕ) → IsHom bit_or max or_bits (λ x. shl_key u64 x n)
unfolding shl_key
shl-IsHom n a b =
    ap (λ (t : ℕ). t % 2 ^ 64) (hom_left bit_or max or_bits n a b)
    ∙ hom_cut bit_or max or_bits 64 (a * 2 ^ n) (b * 2 ^ n)

or_step-IsHom : (n mask : ℕ) → IsHom bit_or max or_bits (or_step n mask)
unfolding or_step
or_step-IsHom n mask = step-IsHom bit_or max or_bits (λ x. shl_key u64 x n) mask (shl-IsHom n)

expand_bits-IsHom : IsHom bit_or max or_bits (expand_bits u64)
unfolding expand_bits
expand_bits-IsHom = IsHom-after bit_or max or_bits _ _ (or_step-IsHom 2 0x1249_2492_4924_9249) (
    IsHom-after bit_or max or_bits _ _ (or_step-IsHom 4 0x10C3_0C30_C30C_30C3) (
      IsHom-after bit_or max or_bits _ _ (or_step-IsHom 8 0x100F_00F0_0F00_F00F) (
        IsHom-after bit_or max or_bits _ _ (or_step-IsHom 16 0x001F_0000_FF00_00FF) (
          IsHom-after bit_or max or_bits _ _ (or_step-IsHom 32 0x001F_0000_0000_FFFF)
            (hom_mask bit_or max or_bits 0x1F_FFFF)))))

zeros : expand_bits u64 0 ≡ spread 21 0
unfolding expand_bits spread or_step shl_key
zeros = refl

-- `expandBits` puts each bit of a coordinate in the place of an octal digit.
pub expand_bits-spread :
    (k : KeyType) (v : ℕ) → v < 2 ^ max_tree_level k → expand_bits k v ≡ spread (max_tree_level k) v
expand_bits-spread u32 v small = agree→ (expand_bits u32) (spread 10) 1024 expand_table_32 v small
expand_bits-spread u64 v small =
    hom_same bit_or max or_bits (expand_bits u64) (spread 21) expand_bits-IsHom
      (spread-IsHom bit_or max or_bits 21) zeros 21
      (agree→ (λ i. expand_bits u64 (2 ^ i)) (λ i. spread 21 (2 ^ i)) 21 expand_table_64) v small
