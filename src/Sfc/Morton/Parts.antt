-- ===== src/Sfc/Morton/Parts.antt =====
-- What the decoding of include/cstone/sfc/morton.hpp reads of the bits of one coordinate.
use Prim.Native.Nat.{bit_xor, differ}
use cornerstone_octree.Base.{
  ℕ, zero, suc, ◌*◌, ◌/◌, ◌%◌, ◌^◌, ◌<◌, ◌≡◌, refl, sym, ◌∙◌, arith, Bool, true, false, ◌==◌,
  if◌then◌else◌,
}
use cornerstone_octree.Base.Bits.Laws.{bit_xor_self}
use cornerstone_octree.Base.Bits.Homs.{
  IsHom, xor_bits, hom_mask, hom_right, hom_left, hom_cut, hom_same, IsHom-after,
}
use cornerstone_octree.Key.{KeyType, u32, u64, max_tree_level}
use cornerstone_octree.Sfc.Morton.{xor_step, compact_bits}
use cornerstone_octree.Sfc.Morton.Spread.{spread, agree, agree→, spread-IsHom, step-IsHom}

abbrev pub IsXorHom : (ℕ → ℕ) → Type 0
IsXorHom f = IsHom bit_xor differ xor_bits f

compose : (f h : ℕ → ℕ) → IsXorHom f → IsXorHom h → IsXorHom (λ x. f (h x))
compose = IsHom-after bit_xor differ xor_bits

xor_step-IsHom : (n mask : ℕ) → IsXorHom (xor_step n mask)
unfolding xor_step
xor_step-IsHom n mask =
    step-IsHom bit_xor differ xor_bits (λ x. x / 2 ^ n) mask (hom_right bit_xor differ xor_bits n)

compact_bits-IsHom : (k : KeyType) → IsXorHom (compact_bits k)
unfolding compact_bits
compact_bits-IsHom u32 = compose _ _ (xor_step-IsHom 16 0x3FF) (
    compose _ _ (xor_step-IsHom 8 0xFF00_00FF) (
      compose _ _ (xor_step-IsHom 4 0x0300_F00F) (
        compose _ _ (xor_step-IsHom 2 0x030C_30C3) (hom_mask bit_xor differ xor_bits 0x0924_9249))))
compact_bits-IsHom u64 = compose _ _ (xor_step-IsHom 32 0x1F_FFFF) (
    compose _ _ (xor_step-IsHom 16 0x001F_0000_0000_FFFF) (
      compose _ _ (xor_step-IsHom 8 0x001F_0000_FF00_00FF) (
        compose _ _ (xor_step-IsHom 4 0x100F_00F0_0F00_F00F) (
          compose _ _ (xor_step-IsHom 2 0x10C3_0C30_C30C_30C3)
            (hom_mask bit_xor differ xor_bits 0x1249_2492_4924_9249)))))

-- What is decoded of a key that is shifted by `s`, and of the bits of one coordinate that are shifted by `m`.
unfoldable pub read : KeyType → ℕ → ℕ → ℕ
read k s code = compact_bits k (code / 2 ^ s) % 0x1_0000_0000

unfoldable pub part : KeyType → ℕ → ℕ → ℕ → ℕ
part k s m v = read k s (spread (max_tree_level k) v * 2 ^ m)

pub read-IsHom : (k : KeyType) (s : ℕ) → IsXorHom (read k s)
unfolding read
read-IsHom k s =
    compose (λ x. x % 2 ^ 32) _ (hom_cut bit_xor differ xor_bits 32)
      (compose _ _ (compact_bits-IsHom k) (hom_right bit_xor differ xor_bits s))

part-IsHom : (k : KeyType) (s m : ℕ) → IsXorHom (part k s m)
unfolding part
part-IsHom k s m = compose _ _ (read-IsHom k s) (
    compose (λ x. x * 2 ^ m) _ (λ a b. sym (sym (hom_left bit_xor differ xor_bits m a b)))
      (spread-IsHom bit_xor differ xor_bits (max_tree_level k)))

-- Only the coordinate whose bits are shifted as far as the key is read.
abbrev pub chosen : ℕ → ℕ → ℕ → ℕ
chosen s m v = if s == m then v else 0

abbrev PartsAgree : KeyType → ℕ → ℕ → Type 0
PartsAgree k s m =
    agree (λ i. part k s m (2 ^ i)) (λ i. if s == m then 2 ^ i else 0) (max_tree_level k) ≡ true

part_table : (k : KeyType) (s m : ℕ) → s < 3 → m < 3 → PartsAgree k s m
unfolding part read spread agree compact_bits xor_step
part_table u32 zero zero h l = refl
part_table u32 zero (suc zero) h l = refl
part_table u32 zero (suc (suc zero)) h l = refl
part_table u32 (suc zero) zero h l = refl
part_table u32 (suc zero) (suc zero) h l = refl
part_table u32 (suc zero) (suc (suc zero)) h l = refl
part_table u32 (suc (suc zero)) zero h l = refl
part_table u32 (suc (suc zero)) (suc zero) h l = refl
part_table u32 (suc (suc zero)) (suc (suc zero)) h l = refl
part_table u64 zero zero h l = refl
part_table u64 zero (suc zero) h l = refl
part_table u64 zero (suc (suc zero)) h l = refl
part_table u64 (suc zero) zero h l = refl
part_table u64 (suc zero) (suc zero) h l = refl
part_table u64 (suc zero) (suc (suc zero)) h l = refl
part_table u64 (suc (suc zero)) zero h l = refl
part_table u64 (suc (suc zero)) (suc zero) h l = refl
part_table u64 (suc (suc zero)) (suc (suc zero)) h l = refl
part_table k (suc (suc (suc s))) m h l = absurd (omega arith)
part_table k s (suc (suc (suc m))) h l = absurd (omega arith)

-- A part of the key gives its coordinate where it is read in its place, and nothing elsewhere.
pub part_value :
    (k : KeyType) (s m : ℕ)
    → s < 3
    → m < 3
    → (v : ℕ) → v < 2 ^ max_tree_level k
    → part k s m v ≡ chosen s m v
part_value k s m h l =
    hom_same bit_xor differ xor_bits (part k s m) (chosen s m) (part-IsHom k s m) (keeps (s == m))
      (none k) (max_tree_level k)
      (agree→ (λ i. part k s m (2 ^ i)) (λ i. if s == m then 2 ^ i else 0) (max_tree_level k)
        (part_table k s m h l))
  where
    keeps : (b : Bool) → IsXorHom (λ v. if b then v else 0)
    keeps true x y = refl
    keeps false x y = refl

    chosen_none : (b : Bool) → zero ≡ (if b then zero else zero)
    chosen_none true = refl
    chosen_none false = refl

    none : (k : KeyType) → part k s m 0 ≡ chosen s m 0
    none k = part-IsHom k s m 0 0 ∙ bit_xor_self (part k s m 0) ∙ chosen_none (s == m)
