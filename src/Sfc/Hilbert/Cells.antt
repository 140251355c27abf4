-- ===== src/Sfc/Hilbert/Cells.antt =====
-- The keys of include/cstone/sfc/hilbert.hpp go through the cells of the octree.
use native.Mathlib.Decide.{dec_le}
use native.Mathlib.Nat.{mod-lt, div-eq_of_lt, div-lt_iff_lt-mul}
use cornerstone_octree.Base.{
  ℕ, zero, suc, ◌+◌, ◌-◌, ◌*◌, ◌/◌, ◌%◌, ◌^◌, ◌≤◌, ◌<◌, ◌≡◌, refl, ap, sym, ◌∙◌, arith, ◌↔◌, Bool,
  true, false, not, ◌==◌, ◌&&◌, ◌||◌,
}
use cornerstone_octree.Base.Pow.{pow2-pos, pow2_mono, pow8-pos, pow8_mono}
use cornerstone_octree.Key.{KeyType, max_tree_level}
use cornerstone_octree.Sfc.Curve.{IsPoint, IsCurve}
use cornerstone_octree.Sfc.Hilbert.{bit, has_bit, xor_bit, rotate, i_hilbert}
use cornerstone_octree.Sfc.Hilbert.Turns.{low_turn, digit_of, low_turn-lt}
use cornerstone_octree.Sfc.Hilbert.Encode.{low_key, low_key-lt}
use cornerstone_octree.Sfc.Hilbert.Decode.{i_hilbert-low_key, put_together}
use cornerstone_octree.Sfc.Hilbert.Places.{
  unique_parts, quotient_above, pow2_split, pow8_split, cell_small, flip_same,
}

abbrev SameCell : ℕ → ℕ × ℕ × ℕ → ℕ × ℕ × ℕ → Type 0
SameCell e p q =
    (p.0 / 2 ^ e ≡ q.0 / 2 ^ e) × (p.1 / 2 ^ e ≡ q.1 / 2 ^ e) × (p.2 / 2 ^ e ≡ q.2 / 2 ^ e)

-- Points are in one cell exactly if they are so after a turn.
turn_same :
    (xi yi zi : Bool) (e n x y z u v w : ℕ)
    → e ≤ n
    → (x < 2 ^ n) × (y < 2 ^ n) × (z < 2 ^ n)
    → (u < 2 ^ n) × (v < 2 ^ n) × (w < 2 ^ n)
    → SameCell e (low_turn n xi yi zi x y z) (low_turn n xi yi zi u v w)
      ↔ SameCell e (x, y, z) (u, v, w)
unfolding low_turn
turn_same xi yi zi e n x y z u v w h (hx, hy, hz) (hu, hv, hw) =
    let fx = flip_same (xi && (not yi || zi)) e n x u h hx hu in
    let fy = flip_same ((xi && (yi || zi)) || (yi && not zi)) e n y v h hy hv in
    let fz = flip_same ((xi && not yi && not zi) || (yi && not zi)) e n z w h hz hw in
    rotated yi zi _ _ _ _ _ _ fx fy fz
  where
    rotated :
        (yi zi : Bool) (a b c d f g : ℕ) {p q r : Type 0}
        → (a / 2 ^ e ≡ d / 2 ^ e) ↔ p
        → (b / 2 ^ e ≡ f / 2 ^ e) ↔ q
        → (c / 2 ^ e ≡ g / 2 ^ e) ↔ r
        → SameCell e (rotate yi zi a b c) (rotate yi zi d f g) ↔ (p × q × r)
    rotated yi true a b c d f g s t o =
        ((λ (i, j, l). (s.0 l, t.0 i, o.0 j)), λ (i, j, l). (t.1 j, o.1 l, s.1 i))
    rotated false false a b c d f g s t o =
        ((λ (i, j, l). (s.0 l, t.0 j, o.0 i)), λ (i, j, l). (o.1 l, t.1 j, s.1 i))
    rotated true false a b c d f g s t o =
        ((λ (i, j, l). (s.0 i, t.0 j, o.0 l)), λ (i, j, l). (s.1 i, t.1 j, o.1 l))

-- A digit tells the octant.
abbrev octant_of : ℕ → Bool × Bool × Bool
octant_of d =
    let xi = d / 4 == 1 in
    let yi = d / 2 % 2 == 1 in let zi = d % 2 == 1 in (xi, xor_bit xi yi, xor_bit yi zi)

octant_back : (xi yi zi : Bool) → octant_of (digit_of xi yi zi) ≡ (xi, yi, zi)
octant_back true true true = refl
octant_back true true false = refl
octant_back true false true = refl
octant_back true false false = refl
octant_back false true true = refl
octant_back false true false = refl
octant_back false false true = refl
octant_back false false false = refl

bit_same : (a b : Bool) → bit a ≡ bit b → a ≡ b
bit_same true true h = refl
bit_same true false h = absurd (omega arith)
bit_same false true h = absurd (omega arith)
bit_same false false h = refl

-- The same for the turns of two octants that are one.
turns_same :
    (a b c a' b' c' : Bool) (e n x y z u v w : ℕ)
    → a ≡ a'
    → b ≡ b'
    → c ≡ c'
    → e ≤ n
    → (x < 2 ^ n) × (y < 2 ^ n) × (z < 2 ^ n)
    → (u < 2 ^ n) × (v < 2 ^ n) × (w < 2 ^ n)
    → SameCell e (low_turn n a b c x y z) (low_turn n a' b' c' u v w)
      ↔ SameCell e (x, y, z) (u, v, w)
turns_same a b c a' b' c' e n x y z u v w p q r h hx hu =
    rw (p, q, r) (turn_same a' b' c' e n x y z u v w h hx hu)

-- The cell of a coordinate by its top bit and those below.
cell_parts :
    (e n v : ℕ)
    → e ≤ n
    → v < 2 ^ suc n
    → v / 2 ^ e ≡ bit (has_bit v n) * 2 ^ (n - e) + v % 2 ^ n / 2 ^ e
cell_parts e n v h small =
    let b : ℕ = bit (has_bit v n) in
    let whole : v ≡ b * (2 ^ (n - e) * 2 ^ e) + v % 2 ^ n =
      omega (arith, put_together n v small, ap (λ (t : ℕ). b * t) (pow2_split e n h)) in
    ap (λ (t : ℕ). t / 2 ^ e) whole
    ∙ quotient_above (2 ^ e) (2 ^ (n - e)) b (v % 2 ^ n) (pow2-pos e)

-- Coordinates are in one cell exactly if they share the top bit and are so below it.
pub cell_same :
    (e n v w : ℕ)
    → e ≤ n
    → v < 2 ^ suc n
    → w < 2 ^ suc n
    → (v / 2 ^ e ≡ w / 2 ^ e)
      ↔ ((has_bit v n ≡ has_bit w n) × (v % 2 ^ n / 2 ^ e ≡ w % 2 ^ n / 2 ^ e))
cell_same e n v w h p q =
    let cv = cell_parts e n v h p in
    let cw = cell_parts e n w h q in
    (
      λ s.
          let (top, rest) =
            unique_parts (2 ^ (n - e)) (bit (has_bit v n)) (v % 2 ^ n / 2 ^ e) (bit (has_bit w n))
              (w % 2 ^ n / 2 ^ e) (cell_small e n (v % 2 ^ n) h (mod-lt v (pow2-pos n)))
              (cell_small e n (w % 2 ^ n) h (mod-lt w (pow2-pos n))) (sym cv ∙ s ∙ cw) in
          (bit_same (has_bit v n) (has_bit w n) top, rest),
      λ (top, rest). cv ∙ (λ i. bit (top i) * 2 ^ (n - e) + rest i) ∙ sym cw,
    )

low_key_small : (e n x y z : ℕ) → e ≤ n → low_key n x y z / 8 ^ e < 8 ^ (n - e)
low_key_small e n x y z h =
    (div-lt_iff_lt-mul (pow8-pos e)).1 (omega (arith, pow8_split e n h, low_key-lt n x y z))

abbrev Below : ℕ → ℕ → ℕ → ℕ → Type 0
Below n x y z = (x < 2 ^ n) × (y < 2 ^ n) × (z < 2 ^ n)

rests : (n x y z : ℕ) → Below n (x % 2 ^ n) (y % 2 ^ n) (z % 2 ^ n)
rests n x y z = (mod-lt x (pow2-pos n), mod-lt y (pow2-pos n), mod-lt z (pow2-pos n))

abbrev turn_at : ℕ → ℕ → ℕ → ℕ → ℕ × ℕ × ℕ
turn_at n x y z =
    low_turn n (has_bit x n) (has_bit y n) (has_bit z n) (x % 2 ^ n) (y % 2 ^ n) (z % 2 ^ n)

abbrev digit_at : ℕ → ℕ → ℕ → ℕ → ℕ
digit_at n x y z = digit_of (has_bit x n) (has_bit y n) (has_bit z n)

key_parts :
    (n e x y z : ℕ)
    → e ≤ n
    → low_key (suc n) x y z / 8 ^ e
      ≡ digit_at n x y z * 8 ^ (n - e)
        + low_key n (turn_at n x y z).0 (turn_at n x y z).1 (turn_at n x y z).2 / 8 ^ e
unfolding low_key
key_parts n e x y z h =
    let rest : ℕ = low_key n (turn_at n x y z).0 (turn_at n x y z).1 (turn_at n x y z).2 in
    ap (λ (t : ℕ). (digit_at n x y z * t + rest) / 8 ^ e) (pow8_split e n h)
    ∙ quotient_above (8 ^ e) (8 ^ (n - e)) (digit_at n x y z) rest (pow8-pos e)

-- The key of the bits below a level goes through the cells.
low_key_cells :
    (n e x y z u v w : ℕ)
    → Below n x y z
    → Below n u v w
    → (low_key n x y z / 8 ^ e ≡ low_key n u v w / 8 ^ e) ↔ SameCell e (x, y, z) (u, v, w)
unfolding low_key
low_key_cells zero e x y z u v w (a, b, c) (d, f, g) =
    let ex : x ≡ u = omega arith in
    let ey : y ≡ v = omega arith in
    let ez : z ≡ w = omega arith in
    (
      λ _. (
        ap (λ (t : ℕ). t / 2 ^ e) ex,
        ap (λ (t : ℕ). t / 2 ^ e) ey,
        ap (λ (t : ℕ). t / 2 ^ e) ez,
      ),
      λ _. refl,
    )
low_key_cells (suc n) e x y z u v w (hx, hy, hz) (hu, hv, hw) = elim (dec_le e n) [
  | no above ↦
      let none : (t : ℕ) → t < 2 ^ suc n → t / 2 ^ e ≡ 0 =
        λ t lt. div-eq_of_lt (omega (arith, lt, pow2_mono (suc n) e (omega arith))) in
      let none_key : (a b c : ℕ) → low_key (suc n) a b c / 8 ^ e ≡ 0 = λ a b c.
        div-eq_of_lt (omega (arith, low_key-lt (suc n) a b c, pow8_mono (suc n) e (omega arith))) in
      (
        λ _.
            (none x hx ∙ sym (none u hu), none y hy ∙ sym (none v hv), none z hz ∙ sym (none w hw)),
        λ _. none_key x y z ∙ sym (none_key u v w),
      )
  | yes h ↦
      let turned = turn_at n x y z in
      let turned' = turn_at n u v w in
      let (tx, ty, tz) =
        low_turn-lt (has_bit x n) (has_bit y n) (has_bit z n) n (x % 2 ^ n) (y % 2 ^ n) (z % 2 ^ n)
          (mod-lt x (pow2-pos n)) (mod-lt y (pow2-pos n)) (mod-lt z (pow2-pos n)) in
      let (tu, tv, tw) =
        low_turn-lt (has_bit u n) (has_bit v n) (has_bit w n) n (u % 2 ^ n) (v % 2 ^ n) (w % 2 ^ n)
          (mod-lt u (pow2-pos n)) (mod-lt v (pow2-pos n)) (mod-lt w (pow2-pos n)) in
      let (there, back) =
        low_key_cells n e turned.0 turned.1 turned.2 turned'.0 turned'.1 turned'.2 (tx, ty, tz)
          (tu, tv, tw) in
      let place =
        λ (a b : ℕ) (la : a < 2 ^ suc n) (lb : b < 2 ^ suc n). cell_same e n a b h la lb in
      let turns =
        λ (p : has_bit x n ≡ has_bit u n) (q : has_bit y n ≡ has_bit v n)
            (r : has_bit z n ≡ has_bit w n).
          turns_same (has_bit x n) (has_bit y n) (has_bit z n) (has_bit u n) (has_bit v n)
            (has_bit w n) e n (x % 2 ^ n) (y % 2 ^ n) (z % 2 ^ n) (u % 2 ^ n) (v % 2 ^ n)
            (w % 2 ^ n) p q r h (rests n x y z) (rests n u v w) in
      let kx = key_parts n e x y z h in
      let ku = key_parts n e u v w h in
      (
        λ s.
            let (digits, below) =
              unique_parts (8 ^ (n - e)) (digit_at n x y z)
                (low_key n turned.0 turned.1 turned.2 / 8 ^ e) (digit_at n u v w)
                (low_key n turned'.0 turned'.1 turned'.2 / 8 ^ e)
                (low_key_small e n turned.0 turned.1 turned.2 h)
                (low_key_small e n turned'.0 turned'.1 turned'.2 h) (sym kx ∙ s ∙ ku) in
            let octants = sym (octant_back _ _ _) ∙ ap octant_of digits ∙ octant_back _ _ _ in
            let p : has_bit x n ≡ has_bit u n = λ i. (octants i).0 in
            let q : has_bit y n ≡ has_bit v n = λ i. (octants i).1 in
            let r : has_bit z n ≡ has_bit w n = λ i. (octants i).2 in
            let (ex, ey, ez) = (turns p q r).0 (there below) in
            ((place x u hx hu).1 (p, ex), (place y v hy hv).1 (q, ey), (place z w hz hw).1 (r, ez)),
        λ (sx, sy, sz).
            let (p, ex) = (place x u hx hu).0 sx in
            let (q, ey) = (place y v hy hv).0 sy in
            let (r, ez) = (place z w hz hw).0 sz in
            let below = back ((turns p q r).1 (ex, ey, ez)) in
            kx ∙ (λ i. digit_of (p i) (q i) (r i) * 8 ^ (n - e) + below i) ∙ sym ku,
      )
]

-- `iHilbert` gives keys inside the key range to the points whose coordinates are below 2 to the `maxTreeLevel`, and
-- the keys of two points are in one node of a level exactly if the points are in one cell of the level.
pub i_hilbert-IsCurve : (k : KeyType) → IsCurve k (i_hilbert k)
i_hilbert-IsCurve k = record {
  inside = λ x y z (a, b, c).
      omega (arith, i_hilbert-low_key k x y z a b c, low_key-lt (max_tree_level k) x y z);
  cells = λ e x y z u v w p q.
      let key = λ (a b c : ℕ) (h : IsPoint k a b c).
        ap (λ (t : ℕ). t / 8 ^ e) (i_hilbert-low_key k a b c h.0 h.1 h.2) in
      let (there, back) = low_key_cells (max_tree_level k) e x y z u v w p q in
      (
        λ h. there (sym (key x y z p) ∙ h ∙ key u v w q),
        λ h. key x y z p ∙ back h ∙ sym (key u v w q),
      );
}
