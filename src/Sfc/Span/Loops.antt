-- ===== src/Sfc/Span/Loops.antt =====
-- The loops of `spanSfcRange`: what they write are nodes that follow one another.
use native.Mathlib.Nat.{
  div-add-mod', div-div-eq-div-mul, mod-eq_of_lt, zero-mul, suc-mul, add-mul, mul_assoc,
  mul-div_cancel, add-zero, mul-le-mul_right,
}
use native.Mathlib.Decide.{dec_lt}
use cornerstone_octree.Base.{
  ℕ, zero, suc, ◌+◌, ◌-◌, ◌*◌, ◌/◌, ◌%◌, ◌^◌, ◌≤◌, ◌≡◌, refl, ap, sym, ◌∙◌, arith, List, length,
  length-append,
}
use cornerstone_octree.Base.Pow.{pow2_triple, pow8-pos, pow8-suc, pow8-add}
use cornerstone_octree.Key.{KeyType, max_tree_level, modulus, add_key, shl_key, add_key_exact}
use cornerstone_octree.Sfc.Range.{octal_digit, octal_power, octal_digit-div, range_lt}
use cornerstone_octree.Sfc.Span.{span_digits, span_up, span_down}
use cornerstone_octree.Tree.Leaves.Chain.{Chain, Chain-append}

-- A run from `a`: as many nodes as values, which follow one another up to where the run ends.
pub record IsRun (k : KeyType) (a : ℕ) (r : ℕ × List ℕ × ℕ) : Type 0 where
  pub number : length r.1 ≡ r.0
  pub chain : Chain k (λ x e. 0 ≤ x) a r.1 r.2

octal_power-pow8 :
    (k : KeyType) (pos l : ℕ) → pos + l ≡ max_tree_level k → octal_power k pos ≡ 8 ^ l
unfolding octal_power shl_key
octal_power-pow8 k pos l e =
    let level : max_tree_level k - pos ≡ l = omega arith in
    rw (level, pow2_triple l)
      (ap (λ x. x % modulus k) (omega arith) ∙ mod-eq_of_lt (range_lt k l (omega arith)))

digit-multiple :
    (k : KeyType) (pos l q : ℕ) → pos + l ≡ max_tree_level k → octal_digit k (q * 8 ^ l) pos ≡ q % 8
digit-multiple k pos l q e =
    let level : max_tree_level k - pos ≡ l = omega arith in
    octal_digit-div k (q * 8 ^ l) pos ∙ rw level (ap (λ x. x % 8) (mul-div_cancel q (pow8-pos l)))

span_digits-Chain :
    (k : KeyType) (pos l n a : ℕ)
    → pos + l ≡ max_tree_level k
    → a + n * 8 ^ l ≤ 8 ^ max_tree_level k
    → (length (span_digits k pos n a).0 ≡ n)
      × ((span_digits k pos n a).1 ≡ a + n * 8 ^ l)
      × Chain k (λ x e. 0 ≤ x) a (span_digits k pos n a).0 (a + n * 8 ^ l)
unfolding span_digits
span_digits-Chain k pos l zero a e room =
    let none : a + 0 * 8 ^ l ≡ a = omega (arith, zero-mul (8 ^ l)) in (refl, sym none, sym none)
span_digits-Chain k pos l (suc n) a e room =
    let next : add_key k a (octal_power k pos) ≡ a + 8 ^ l =
      ap (add_key k a) (octal_power-pow8 k pos l e)
      ∙ add_key_exact k a (8 ^ l)
          (omega (arith, room, suc-mul n (8 ^ l), range_lt k (max_tree_level k) (omega arith))) in
    let end : a + 8 ^ l + n * 8 ^ l ≡ a + suc n * 8 ^ l = omega (arith, suc-mul n (8 ^ l)) in
    let (len, value, chain) =
      span_digits-Chain k pos l n (a + 8 ^ l) e (omega (arith, room, end)) in
    rw next (ap suc len, value ∙ end, (refl, l, omega arith, omega arith, rw end at chain))

-- The least multiple of eight times `p` that is not below `q` times `p`.
round_up-le : (q u p : ℕ) → 1 ≤ p → q * p ≤ u * (8 * p) → (q + (8 - q % 8) % 8) * p ≤ u * (8 * p)
round_up-le q u p pos h =
    let shape : u * (8 * p) ≡ u * 8 * p = sym (mul_assoc u 8 p) in
    let small : q ≤ u * 8 = elim (dec_lt (u * 8) q) [
      | yes above ↦ absurd (omega (arith, h, shape, suc-mul (u * 8) p, mul-le-mul_right p above))
      | no le ↦ omega arith
    ] in
    rw shape (mul-le-mul_right p (omega (arith, small)))

multiple_shape : (u left l : ℕ) → u * 8 ^ (suc l + left) ≡ u * 8 ^ left * (8 * 8 ^ l)
multiple_shape u left l =
    let swap : suc l + left ≡ left + suc l = omega arith in
    rw (swap, pow8-add (suc l) left, pow8-suc l) (sym (mul_assoc u (8 ^ left) (8 * 8 ^ l)))

-- Upwards: from a multiple of 8 ^ l to one of 8 ^ (l + left), at most a bound that is such a multiple.
pub span_up-IsRun :
    (k : KeyType) (left pos l q u a : ℕ)
    → pos + l ≡ max_tree_level k
    → l + left ≤ max_tree_level k
    → a ≡ q * 8 ^ l
    → a ≤ u * 8 ^ (l + left)
    → u * 8 ^ (l + left) ≤ 8 ^ max_tree_level k
    → IsRun k a (span_up k left pos a)
      × (a ≤ (span_up k left pos a).2)
      × ((span_up k left pos a).2 ≤ u * 8 ^ (l + left))
      × (x : ℕ) × ((span_up k left pos a).2 ≡ x * 8 ^ (l + left))
unfolding span_up
span_up-IsRun k zero pos l q u a e level multiple bound top =
    (record { number = refl; chain = refl }, omega arith, bound, q, rw add-zero multiple)
span_up-IsRun k (suc left) pos l q u a e level multiple bound top =
    let n : ℕ = (8 - q % 8) % 8 in
    let digit : octal_digit k a pos ≡ q % 8 =
      ap (λ x. octal_digit k x pos) multiple ∙ digit-multiple k pos l q e in
    let sum : l + suc left ≡ suc l + left = omega arith in
    let q' : ℕ = (q + n) / 8 in
    let whole : a + n * 8 ^ l ≡ (q + n) * 8 ^ l = omega (arith, multiple, add-mul q n (8 ^ l)) in
    let raised : a + n * 8 ^ l ≡ q' * 8 ^ suc l = whole ∙ eighth (q + n) (omega arith) in
    let shape = multiple_shape u left l in
    let below : a + n * 8 ^ l ≤ u * 8 ^ (suc l + left) = omega (
      arith,
      whole,
      shape,
      round_up-le q (u * 8 ^ left) (8 ^ l) (pow8-pos l)
          (omega (arith, multiple, bound, shape, ap (λ (x : ℕ). u * 8 ^ x) sum)),
    ) in
    let (len, value, chain) =
      span_digits-Chain k pos l n a e (omega (arith, below, top, ap (λ (x : ℕ). u * 8 ^ x) sum)) in
    let (run, low, high, x, end) =
      span_up-IsRun k left (pos - 1) (suc l) q' u (a + n * 8 ^ l) (omega arith) (omega arith) raised
        below (rw (← sum) top) in
    rw (digit, value)
      (
        record {
          number = omega (
            arith,
            length-append {0} (span_digits k pos n a).0
                (span_up k left (pos - 1) (a + n * 8 ^ l)).1,
            len,
            run.number,
          );
          chain =
              Chain-append k (λ x e. 0 ≤ x) a (a + n * 8 ^ l) _ (span_digits k pos n a).0 _ chain
                run.chain;
        },
        omega (arith, low),
        omega (arith, high, ap (λ (j : ℕ). u * 8 ^ j) sum),
        x,
        end ∙ ap (λ (j : ℕ). x * 8 ^ j) (sym sum),
      )
  where
    eighth : (m : ℕ) → m % 8 ≡ 0 → m * 8 ^ l ≡ m / 8 * 8 ^ suc l
    eighth m z =
        let split : m ≡ m / 8 * 8 = omega (arith, z) in
        let power : 8 ^ suc l ≡ 8 * 8 ^ l = pow8-suc l in
        ap (λ x. x * 8 ^ l) split ∙ rw power (mul_assoc (m / 8) 8 (8 ^ l))

-- One place downwards, with what the places behind it come to.
down_step :
    (k : KeyType) (b left pos l x a t : ℕ)
    → pos + l ≡ max_tree_level k
    → b ≤ 8 ^ max_tree_level k
    → a ≡ x * 8 ^ l
    → x ≤ b / 8 ^ l
    → x / 8 ≡ b / 8 ^ l / 8
    → IsRun k (b / 8 ^ l * 8 ^ l) (span_down k b left (pos + 1) (b / 8 ^ l * 8 ^ l))
    → (span_down k b left (pos + 1) (b / 8 ^ l * 8 ^ l)).2 ≡ t
    → IsRun k a (span_down k b (suc left) pos a) × ((span_down k b (suc left) pos a).2 ≡ t)
unfolding span_down
down_step k b left pos l x a t e top multiple low same run end =
    let q : ℕ = b / 8 ^ l in
    let digit : octal_digit k a pos ≡ x % 8 =
      ap (λ y. octal_digit k y pos) multiple ∙ digit-multiple k pos l x e in
    let level : max_tree_level k - pos ≡ l = omega arith in
    let digit_b : octal_digit k b pos ≡ q % 8 =
      octal_digit-div k b pos ∙ ap (λ (j : ℕ). b / 8 ^ j % 8) level in
    let n : ℕ = q % 8 - x % 8 in
    let reach : x + n ≡ q = omega (arith, low, same) in
    let raised : a + n * 8 ^ l ≡ q * 8 ^ l =
      omega (arith, multiple, add-mul x n (8 ^ l), ap (λ (y : ℕ). y * 8 ^ l) reach) in
    let (len, value, chain) =
      span_digits-Chain k pos l n a e (omega (arith, raised, top, div-add-mod' b (8 ^ l))) in
    rw (digit, digit_b, value ∙ raised)
      (
        record {
          number = omega (
            arith,
            length-append {0} (span_digits k pos n a).0
                (span_down k b left (pos + 1) (q * 8 ^ l)).1,
            len,
            run.number,
          );
          chain =
              Chain-append k (λ y e. 0 ≤ y) a (q * 8 ^ l) _ (span_digits k pos n a).0 _
                (rw raised at chain) run.chain;
        },
        end,
      )

pub div_eighth : (b l : ℕ) → b / 8 ^ suc l ≡ b / 8 ^ l / 8
div_eighth b l =
    let power : 8 ^ suc l ≡ 8 ^ l * 8 = omega (arith, pow8-suc l) in
    ap (λ p. b / p) power ∙ sym (div-div-eq-div-mul b (8 ^ l) 8)

-- Downwards: from a key that shares with `b` what stands before the place, and is not above it there, to
-- what `b` has up to the last place.
pub span_down-IsRun :
    (k : KeyType) (b left pos l x a : ℕ)
    → pos + l ≡ max_tree_level k
    → left ≤ l
    → b ≤ 8 ^ max_tree_level k
    → a ≡ x * 8 ^ l
    → x ≤ b / 8 ^ l
    → x / 8 ≡ b / 8 ^ l / 8
    → IsRun k a (span_down k b (suc left) pos a)
      × ((span_down k b (suc left) pos a).2 ≡ b / 8 ^ (l - left) * 8 ^ (l - left))
span_down-IsRun k b zero pos l x a e some top multiple low same =
    let level : l - 0 ≡ l = omega arith in
    down_step k b 0 pos l x a (b / 8 ^ (l - 0) * 8 ^ (l - 0)) e top multiple low same
      (unfold span_down in record { number = refl; chain = refl })
      (unfold span_down in rw level refl)
span_down-IsRun k b (suc left) pos zero x a e some top multiple low same = absurd (omega arith)
span_down-IsRun k b (suc left) pos (suc l) x a e some top multiple low same =
    let eighth = div_eighth b l in
    let power : 8 ^ suc l ≡ 8 * 8 ^ l = pow8-suc l in
    let parts : b / 8 ^ suc l * 8 ^ suc l ≡ b / 8 ^ suc l * 8 * 8 ^ l =
      ap (λ p. b / 8 ^ suc l * p) power ∙ sym (mul_assoc (b / 8 ^ suc l) 8 (8 ^ l)) in
    let (run, end) =
      span_down-IsRun k b left (pos + 1) l (b / 8 ^ suc l * 8) (b / 8 ^ suc l * 8 ^ suc l)
        (omega arith) (omega arith) top parts (omega (arith, eighth)) (omega (arith, eighth)) in
    let level : suc l - suc left ≡ l - left = omega arith in
    down_step k b (suc left) pos (suc l) x a (b / 8 ^ (suc l - suc left) * 8 ^ (suc l - suc left)) e
      top multiple low same run (rw level end)
