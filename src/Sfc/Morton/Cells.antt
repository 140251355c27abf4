-- ===== src/Sfc/Morton/Cells.antt =====
-- The keys of include/cstone/sfc/morton.hpp go through the cells of the octree.
use native.Mathlib.Nat.{div-div-eq-div-mul}
use cornerstone_octree.Base.{
  ℕ, zero, suc, ◌+◌, ◌*◌, ◌/◌, ◌%◌, ◌^◌, ◌<◌, ◌≡◌, refl, ap, sym, ◌∙◌, arith, ◌↔◌,
}
use cornerstone_octree.Base.Pow.{pow2-suc, pow8-suc}
use cornerstone_octree.Key.{KeyType, max_tree_level}
use cornerstone_octree.Sfc.Curve.{IsPoint, IsCurve}
use cornerstone_octree.Sfc.Morton.{i_morton}
use cornerstone_octree.Sfc.Morton.Spread.{spread}
use cornerstone_octree.Sfc.Morton.Decode.{i_morton-sum, spread-lt}

-- The bits of three coordinates, the lowest `n` of each.
abbrev weave : ℕ → ℕ → ℕ → ℕ → ℕ
weave n x y z = spread n x * 4 + spread n y * 2 + spread n z

weave_step :
    (n x y z : ℕ)
    → (weave (suc n) x y z / 8 ≡ weave n (x / 2) (y / 2) (z / 2))
      × (weave (suc n) x y z % 8 ≡ x % 2 * 4 + y % 2 * 2 + z % 2)
unfolding spread
weave_step n x y z = (omega arith, omega arith)

-- The parts above a place of both sides of a step.
above_step :
    (base step e : ℕ) (v : ℕ)
    → base ^ suc e ≡ step * base ^ e
    → v / base ^ suc e ≡ v / step / base ^ e
above_step base step e v power =
    ap (λ (t : ℕ). v / t) power ∙ sym (div-div-eq-div-mul v step (base ^ e))

abbrev Below : ℕ → ℕ → ℕ → ℕ → Type 0
Below n x y z = (x < 2 ^ n) × (y < 2 ^ n) × (z < 2 ^ n)

abbrev SameCell : ℕ → ℕ → ℕ → ℕ → ℕ → ℕ → ℕ → Type 0
SameCell e x y z u v w = (x / 2 ^ e ≡ u / 2 ^ e) × (y / 2 ^ e ≡ v / 2 ^ e) × (z / 2 ^ e ≡ w / 2 ^ e)

halves : (n x y z : ℕ) → Below (suc n) x y z → Below n (x / 2) (y / 2) (z / 2)
halves n x y z (a, b, c) =
    (omega (arith, pow2-suc n), omega (arith, pow2-suc n), omega (arith, pow2-suc n))

-- Two woven keys agree above a digit exactly if the coordinates agree above its bits.
weave_cells :
    (n e x y z u v w : ℕ)
    → Below n x y z
    → Below n u v w
    → (weave n x y z / 8 ^ e ≡ weave n u v w / 8 ^ e) ↔ SameCell e x y z u v w
unfolding spread
weave_cells zero e x y z u v w (a, b, c) (d, f, g) =
    let ex : x ≡ u = omega arith in
    let ey : y ≡ v = omega arith in
    let ez : z ≡ w = omega arith in
    (
      λ _. (
        ap (λ (t : ℕ). t / 2 ^ e) ex,
        ap (λ (t : ℕ). t / 2 ^ e) ey,
        ap (λ (t : ℕ). t / 2 ^ e) ez,
      ),
      λ _. refl,
    )
weave_cells (suc n) zero x y z u v w p q =
    let (up, digit) = weave_step n x y z in
    let (up', digit') = weave_step n u v w in
    let (there, back) =
      weave_cells n zero (x / 2) (y / 2) (z / 2) (u / 2) (v / 2) (w / 2) (halves n x y z p)
        (halves n u v w q) in
    (
      λ h.
          let (ex, ey, ez) = there (omega (arith, h, up, up')) in
          let digits : x % 2 * 4 + y % 2 * 2 + z % 2 ≡ u % 2 * 4 + v % 2 * 2 + w % 2 =
            omega (arith, h, digit, digit') in
          (omega (arith, ex, digits), omega (arith, ey, digits), omega (arith, ez, digits)),
      λ (ex, ey, ez).
          let above = back (omega (arith, ex), omega (arith, ey), omega (arith, ez)) in
          omega (arith, above, up, up', digit, digit', ex, ey, ez),
    )
weave_cells (suc n) (suc e) x y z u v w p q =
    let (there, back) =
      weave_cells n e (x / 2) (y / 2) (z / 2) (u / 2) (v / 2) (w / 2) (halves n x y z p)
        (halves n u v w q) in
    let key = λ (a b c : ℕ).
      above_step 8 8 e (weave (suc n) a b c) (pow8-suc e)
      ∙ ap (λ (t : ℕ). t / 8 ^ e) (weave_step n a b c).0 in
    let place = λ (v : ℕ). above_step 2 2 e v (pow2-suc e) in
    (
      λ h.
          let (ex, ey, ez) = there (sym (key x y z) ∙ h ∙ key u v w) in
          (
            place x ∙ ex ∙ sym (place u),
            place y ∙ ey ∙ sym (place v),
            place z ∙ ez ∙ sym (place w),
          ),
      λ (ex, ey, ez).
          key x y z
          ∙ back (
            sym (place x) ∙ ex ∙ place u,
            sym (place y) ∙ ey ∙ place v,
            sym (place z) ∙ ez ∙ place w,
          )
          ∙ sym (key u v w),
    )

-- `iMorton` gives keys inside the key range to the points whose coordinates are below 2 to the `maxTreeLevel`, and
-- the keys of two points are in one node of a level exactly if the points are in one cell of the level.
pub i_morton-IsCurve : (k : KeyType) → IsCurve k (i_morton k)
i_morton-IsCurve k = record {
  inside = λ x y z (a, b, c). omega (
    arith,
    i_morton-sum k x y z a b c,
    spread-lt (max_tree_level k) x,
    spread-lt (max_tree_level k) y,
    spread-lt (max_tree_level k) z,
  );
  cells = λ e x y z u v w p q.
      let sum = λ (a b c : ℕ) (h : IsPoint k a b c).
        ap (λ (t : ℕ). t / 8 ^ e) (i_morton-sum k a b c h.0 h.1 h.2) in
      let (there, back) = weave_cells (max_tree_level k) e x y z u v w p q in
      (
        λ h. there (sym (sum x y z p) ∙ h ∙ sum u v w q),
        λ h. sum x y z p ∙ back h ∙ sym (sum u v w q),
      );
}
