-- ===== src/Sfc/Hilbert/Turns.antt =====
-- The turns of include/cstone/sfc/hilbert.hpp as arithmetic on the bits below a level.
use Prim.Native.Nat.{bit_or, bit_xor, differ}
use native.Mathlib.Nat.{mod-eq_of_lt, mod-lt, suc-mul, mul-add-mod_self_right}
use cornerstone_octree.Base.{
  ℕ, zero, suc, ◌+◌, ◌-◌, ◌*◌, ◌/◌, ◌%◌, ◌^◌, ◌≤◌, ◌<◌, ◌≡◌, refl, ap, sym, ◌∙◌, arith, bit_and,
  Bool, true, false, not, ◌&&◌, ◌||◌, ◌==◌, ◌!◌,
}
use cornerstone_octree.Base.Pow.{pow2-suc, pow2-pos, pow2-add, pow2_mono}
use cornerstone_octree.Base.Bits.{bit_xor_digit, bit_or_fields}
use cornerstone_octree.Base.Bits.Laws.{bit_xor-zero, bit_or-zero, bit_and-zero, bit_and_mask}
use cornerstone_octree.Base.Bits.Homs.{xor_bits, or_bits, hom_cut, differ_parity}
use cornerstone_octree.Sfc.Hilbert.{bit, ones, rotate, morton_to_hilbert, turn, unturn}

-- The lowest `n` bits of a number, turned over if `b` holds.
abbrev pub flip : Bool → ℕ → ℕ → ℕ
flip true n v = 2 ^ n - 1 - v
flip false n v = v

-- All ones turn a number over.
xor_ones : (n v : ℕ) → v < 2 ^ n → bit_xor v (2 ^ n - 1) ≡ 2 ^ n - 1 - v
xor_ones zero v h = let none : v ≡ 0 = omega arith in rw none refl
xor_ones (suc n) v h =
    let half : (2 ^ suc n - 1) / 2 ≡ 2 ^ n - 1 = omega (arith, pow2-suc n, pow2-pos n) in
    let odd : (2 ^ suc n - 1) % 2 ≡ 1 = omega (arith, pow2-suc n, pow2-pos n) in
    let low : differ (v % 2) ((2 ^ suc n - 1) % 2) ≡ (v % 2 + 1) % 2 =
      ap (differ (v % 2)) odd ∙ differ_parity (v % 2) 1 (omega arith) (omega arith) in
    omega (
      arith,
      pow2-suc n,
      bit_xor_digit v (2 ^ suc n - 1),
      ap (bit_xor (v / 2)) half,
      xor_ones n (v / 2) (omega (arith, pow2-suc n)),
      low,
    )

all_ones : (n : ℕ) → n ≤ 32 → (2 ^ 32 - 1) % 2 ^ n ≡ 2 ^ n - 1
all_ones n h =
    let whole_bits : 32 ≡ 32 - n + n = omega arith in
    let split : 2 ^ 32 ≡ 2 ^ (32 - n) * 2 ^ n =
      ap (λ (t : ℕ). 2 ^ t) whole_bits ∙ pow2-add n (32 - n) in
    let rest : ℕ = 2 ^ (32 - n) - 1 in
    let above : 2 ^ (32 - n) ≡ suc rest = omega (arith, pow2-pos (32 - n)) in
    let whole : 2 ^ 32 - 1 ≡ rest * 2 ^ n + (2 ^ n - 1) =
      omega (arith, split, ap (λ (t : ℕ). t * 2 ^ n) above, suc-mul rest (2 ^ n), pow2-pos n) in
    ap (λ (t : ℕ). t % 2 ^ n) whole
    ∙ mul-add-mod_self_right rest (2 ^ n) (2 ^ n - 1)
    ∙ mod-eq_of_lt (omega (arith, pow2-pos n))

pub ones-flip : (b : Bool) (n v : ℕ) → n ≤ 32 → bit_xor v (ones b) % 2 ^ n ≡ flip b n (v % 2 ^ n)
ones-flip true n v h =
    hom_cut bit_xor differ xor_bits n v (2 ^ 32 - 1)
    ∙ ap (bit_xor (v % 2 ^ n)) (all_ones n h)
    ∙ xor_ones n (v % 2 ^ n) (mod-lt v (pow2-pos n))
ones-flip false n v h = ap (λ (t : ℕ). t % 2 ^ n) (bit_xor-zero v)

pub masked-flip :
    (b : Bool) (n v : ℕ)
    → n ≤ 32
    → v < 2 ^ n
    → bit_xor v (bit_and (2 ^ n - 1) (ones b)) ≡ flip b n v
masked-flip true n v h small =
    let fits : 2 ^ n ≤ 2 ^ 32 = pow2_mono n 32 h in
    ap (bit_xor v) (bit_and_mask 32 (2 ^ n - 1) ∙ mod-eq_of_lt (omega (arith, pow2-pos n, fits)))
    ∙ xor_ones n v small
masked-flip false n v h small = ap (bit_xor v) (bit_and-zero (2 ^ n - 1)) ∙ bit_xor-zero v

pub or_bit : (b : Bool) (n v : ℕ) → v < 2 ^ n → bit_or v (bit b * 2 ^ n) ≡ v + bit b * 2 ^ n
or_bit b n v h =
    let low : 0 * 2 ^ n + v ≡ v = omega arith in
    let high : bit b * 2 ^ n + 0 ≡ bit b * 2 ^ n = omega arith in
    ap (λ (t : ℕ). bit_or t (bit b * 2 ^ n)) (sym low)
    ∙ ap (bit_or (0 * 2 ^ n + v)) (sym high)
    ∙ bit_or_fields n 0 v (bit b) 0 h (pow2-pos n)
    ∙ omega (arith, ap (λ (t : ℕ). t * 2 ^ n) (or_bits.unit (bit b)), bit_or-zero v)

-- A turn of the bits below a level.
unfoldable pub low_turn : ℕ → Bool → Bool → Bool → ℕ → ℕ → ℕ → ℕ × ℕ × ℕ
low_turn n xi yi zi x y z =
    let tx = flip (xi && (not yi || zi)) n x in
    let ty = flip ((xi && (yi || zi)) || (yi && not zi)) n y in
    let tz = flip ((xi && not yi && not zi) || (yi && not zi)) n z in rotate yi zi tx ty tz

-- The bits below a level of what is turned.
pub turn-low_turn :
    (xi yi zi : Bool) (n px py pz : ℕ)
    → n ≤ 32
    → ((turn xi yi zi px py pz).0 % 2 ^ n
        ≡ (low_turn n xi yi zi (px % 2 ^ n) (py % 2 ^ n) (pz % 2 ^ n)).0)
      × ((turn xi yi zi px py pz).1 % 2 ^ n
          ≡ (low_turn n xi yi zi (px % 2 ^ n) (py % 2 ^ n) (pz % 2 ^ n)).1)
      × ((turn xi yi zi px py pz).2 % 2 ^ n
          ≡ (low_turn n xi yi zi (px % 2 ^ n) (py % 2 ^ n) (pz % 2 ^ n)).2)
unfolding turn low_turn
turn-low_turn xi yi zi n px py pz h =
    rotated yi zi _ _ _ _ _ _ (ones-flip (xi && (not yi || zi)) n px h)
      (ones-flip ((xi && (yi || zi)) || (yi && not zi)) n py h)
      (ones-flip ((xi && not yi && not zi) || (yi && not zi)) n pz h)
  where
    rotated :
        (yi zi : Bool) (a b c a' b' c' : ℕ)
        → a % 2 ^ n ≡ a'
        → b % 2 ^ n ≡ b'
        → c % 2 ^ n ≡ c'
        → ((rotate yi zi a b c).0 % 2 ^ n ≡ (rotate yi zi a' b' c').0)
          × ((rotate yi zi a b c).1 % 2 ^ n ≡ (rotate yi zi a' b' c').1)
          × ((rotate yi zi a b c).2 % 2 ^ n ≡ (rotate yi zi a' b' c').2)
    rotated yi true a b c a' b' c' p q r = (q, r, p)
    rotated false false a b c a' b' c' p q r = (r, q, p)
    rotated true false a b c a' b' c' p q r = (p, q, r)

pub flip-lt : (b : Bool) (n v : ℕ) → v < 2 ^ n → flip b n v < 2 ^ n
flip-lt true n v h = omega arith
flip-lt false n v h = h

pub low_turn-lt :
    (xi yi zi : Bool) (n x y z : ℕ)
    → x < 2 ^ n
    → y < 2 ^ n
    → z < 2 ^ n
    → ((low_turn n xi yi zi x y z).0 < 2 ^ n)
      × ((low_turn n xi yi zi x y z).1 < 2 ^ n)
      × ((low_turn n xi yi zi x y z).2 < 2 ^ n)
unfolding low_turn
low_turn-lt xi yi zi n x y z p q r =
    rotated yi zi (flip-lt (xi && (not yi || zi)) n x p)
      (flip-lt ((xi && (yi || zi)) || (yi && not zi)) n y q)
      (flip-lt ((xi && not yi && not zi) || (yi && not zi)) n z r)
  where
    rotated :
        (yi zi : Bool) {a b c : ℕ}
        → a < 2 ^ n
        → b < 2 ^ n
        → c < 2 ^ n
        → ((rotate yi zi a b c).0 < 2 ^ n)
          × ((rotate yi zi a b c).1 < 2 ^ n)
          × ((rotate yi zi a b c).2 < 2 ^ n)
    rotated yi true p q r = (q, r, p)
    rotated false false p q r = (r, q, p)
    rotated true false p q r = (p, q, r)

-- The digit of the Hilbert key for an octant.
abbrev pub digit_of : Bool → Bool → Bool → ℕ
digit_of xi yi zi = morton_to_hilbert ! (bit xi * 4 + bit yi * 2 + bit zi)

-- A coordinate that is turned over, turned back and given its bit.
back :
    (f b : Bool) (n v : ℕ)
    → n ≤ 32
    → v < 2 ^ n
    → bit_or (bit_xor (flip f n v) (bit_and (2 ^ n - 1) (ones f))) (bit b * 2 ^ n)
      ≡ v + bit b * 2 ^ n
back f b n v h small =
    let again : bit_xor (flip f n v) (bit_and (2 ^ n - 1) (ones f)) ≡ v =
      masked-flip f n (flip f n v) h (flip-lt f n v small) ∙ twice f in
    ap (λ (t : ℕ). bit_or t (bit b * 2 ^ n)) again ∙ or_bit b n v small
  where
    twice : (f : Bool) → flip f n (flip f n v) ≡ v
    twice true = omega arith
    twice false = refl

pub triple :
    {a b c a' b' c' : ℕ} → a ≡ a' → b ≡ b' → c ≡ c' → ◌≡◌ {A = ℕ × ℕ × ℕ} (a, b, c) (a', b', c')
triple p q r = λ i. (p i, q i, r i)

-- A round of the decoding takes the turn back.
pub unturn-low_turn :
    (xi yi zi : Bool) (n x y z : ℕ)
    → n ≤ 32
    → x < 2 ^ n
    → y < 2 ^ n
    → z < 2 ^ n
    → unturn
        (digit_of xi yi zi / 4 == 1)
        (digit_of xi yi zi / 2 % 2 == 1)
        (digit_of xi yi zi % 2 == 1)
        n
        (low_turn n xi yi zi x y z).0
        (low_turn n xi yi zi x y z).1
        (low_turn n xi yi zi x y z).2
      ≡ (x + bit xi * 2 ^ n, y + bit yi * 2 ^ n, z + bit zi * 2 ^ n)
unfolding unturn low_turn
unturn-low_turn true true true n x y z h p q r =
    triple (back true true n x h p) (back true true n y h q) (back false true n z h r)
unturn-low_turn true true false n x y z h p q r =
    triple (back false true n x h p) (back true true n y h q) (back true false n z h r)
unturn-low_turn true false true n x y z h p q r =
    triple (back true true n x h p) (back true false n y h q) (back false true n z h r)
unturn-low_turn true false false n x y z h p q r =
    triple (back true true n x h p) (back false false n y h q) (back true false n z h r)
unturn-low_turn false true true n x y z h p q r =
    triple (back false false n x h p) (back false true n y h q) (back false true n z h r)
unturn-low_turn false true false n x y z h p q r =
    triple (back false false n x h p) (back true true n y h q) (back true false n z h r)
unturn-low_turn false false true n x y z h p q r =
    triple (back false false n x h p) (back false false n y h q) (back false true n z h r)
unturn-low_turn false false false n x y z h p q r =
    triple (back false false n x h p) (back false false n y h q) (back false false n z h r)
