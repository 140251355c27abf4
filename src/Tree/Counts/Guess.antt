-- ===== src/Tree/Counts/Guess.antt =====
-- The loop of `findSearchBounds` in both directions, for so few codes that nothing wraps.
use native.Mathlib.Nat.{mul_assoc}
use cornerstone_octree.Base.{
  ℕ, zero, suc, ◌+◌, ◌-◌, ◌*◌, ◌^◌, ◌≤◌, ◌<◌, ◌≡◌, refl, ap, ◌∙◌, arith, List, [], ◌∷◌, length, ◌!◌,
  ◌⊎◌, inl, inr, true, false, ltb, leb, ◌&&◌, if◌then◌else◌, Bool-cases,
}
use cornerstone_octree.Base.Int.{ℤ, pos, negsuc, pos_part, neg_part, sub_ℕ, ◌+ℤ◌, ◌*ℤ◌}
use cornerstone_octree.Base.Pow.{pow2-suc}
use cornerstone_octree.Key.{KeyType, u32, u64, modulus}
use cornerstone_octree.Tree.Counts.{to_signed, wrap_signed, second_index, search_on, search_loop}

pub get_or_out : (xs : List ℕ) (i : ℕ) → length xs ≤ i → xs ! i ≡ 0
get_or_out [] i h = refl
get_or_out (x ∷ xs) zero h = absurd (omega arith)
get_or_out (x ∷ xs) (suc i) h = get_or_out xs i (omega arith)

to_signed-small : (k : KeyType) (x : ℕ) → x * 2 < modulus k → to_signed k x ≡ pos x
unfolding to_signed
to_signed-small k x h = ground arith

-- What the signed type holds is not changed.
pub wrap_signed-fits :
    (k : KeyType) (z : ℤ)
    → pos_part z * 2 < modulus k
    → neg_part z * 2 ≤ modulus k
    → wrap_signed k z ≡ z
unfolding wrap_signed to_signed
wrap_signed-fits u32 z h l = ground arith
wrap_signed-fits u64 z h l = ground arith

-- A code times the direction, on either side.
pub times_up :
    (k : KeyType) (x : ℕ)
    → x * 2 < modulus k
    → (wrap_signed k (pos 1 *ℤ pos x) ≡ pos x) × (wrap_signed k (pos x *ℤ pos 1) ≡ pos x)
unfolding ◌*ℤ◌
times_up k x h = (
  rw (wrap_signed-fits k (pos 1 *ℤ pos x) (ground arith) (ground arith)) (ground arith),
  rw (wrap_signed-fits k (pos x *ℤ pos 1) (ground arith) (ground arith)) (ground arith),
)

pub times_down :
    (k : KeyType) (x : ℕ)
    → x * 2 < modulus k
    → (wrap_signed k (negsuc 0 *ℤ pos x) ≡ sub_ℕ 0 x)
      × (wrap_signed k (pos x *ℤ negsuc 0) ≡ sub_ℕ 0 x)
unfolding ◌*ℤ◌
times_down k x h = (
  rw (wrap_signed-fits k (negsuc 0 *ℤ pos x) (ground arith) (ground arith)) (ground arith),
  rw (wrap_signed-fits k (pos x *ℤ negsuc 0) (ground arith) (ground arith)) (ground arith),
)

range_doubled :
    (k : KeyType) (range : ℕ)
    → range * 4 < modulus k
    → wrap_signed k (pos range *ℤ pos 2) ≡ pos (range * 2)
unfolding ◌*ℤ◌
range_doubled k range h =
    rw (wrap_signed-fits k (pos range *ℤ pos 2) (ground arith) (ground arith)) (ground arith)

doubled : (range fuel : ℕ) → range * 2 * 2 ^ fuel ≡ range * 2 ^ suc fuel
doubled range fuel =
    let shape : 2 ^ suc fuel ≡ 2 * 2 ^ fuel = omega (arith, pow2-suc fuel) in
    rw shape (mul_assoc range 2 (2 ^ fuel))

-- One round of the loop.
loop_next :
    (k : KeyType) (codes : List ℕ) (n d t first : ℤ) (fuel range : ℕ)
    → range * 4 < modulus k
    → search_on k codes n d t (second_index k first (pos range) d) ≡ true
    → search_loop k codes n d t first (suc fuel) (pos range)
      ≡ search_loop k codes n d t first fuel (pos (range * 2))
unfolding search_loop
loop_next k codes n d t first fuel range small on =
    rw (on, search_loop) (ap (search_loop k codes n d t first fuel) (range_doubled k range small))

loop_stop :
    (k : KeyType) (codes : List ℕ) (n d t first : ℤ) (fuel : ℕ) (range : ℤ)
    → search_on k codes n d t (second_index k first range d) ≡ false
    → search_loop k codes n d t first (suc fuel) range ≡ second_index k first range d
unfolding search_loop
loop_stop k codes n d t first fuel range off = rw (off, search_loop) refl

-- Steps from an index upwards and downwards.
step_up :
    (k : KeyType) (first range : ℕ)
    → (first + range) * 2 < modulus k
    → second_index k (pos first) (pos range) (pos 1) ≡ pos (first + range)
unfolding second_index ◌+ℤ◌
step_up k first range h =
    rw ((times_up k range (omega arith)).1) (
      rw (wrap_signed-fits k (pos first +ℤ pos range) (ground arith) (ground arith)) (ground arith))

step_down :
    (k : KeyType) (first range : ℕ)
    → first * 2 < modulus k
    → range * 2 < modulus k
    → second_index k (pos first) (pos range) (negsuc 0)
      ≡ (if leb range first then pos (first - range) else negsuc (range - first - 1))
unfolding second_index ◌+ℤ◌
step_down k first range h l = rw ((times_down k range l).1) (
    rw (wrap_signed-fits k (pos first +ℤ sub_ℕ 0 range) (ground arith) (ground arith))
      (ground arith))

module _ (k : KeyType) (codes : List ℕ) (target : ℕ) (small : (j : ℕ) → codes ! j * 2 < modulus k)
    (small_target : target * 2 < modulus k) (room : length codes * 4 ≤ modulus k) where
  abbrev n : ℕ
  n = length codes

  on_up :
      (s : ℕ)
      → search_on k codes (pos n) (pos 1) (wrap_signed k (pos target *ℤ pos 1)) (pos s)
        ≡ (ltb s n && leb (codes ! s) target)
  unfolding search_on ◌*ℤ◌
  on_up s =
      rw
        (
          to_signed-small k (codes ! s) (small s),
          (times_up k target small_target).1,
          (times_up k (codes ! s) (small s)).0,
        )
        (ground arith)

  on_down :
      (s : ℕ)
      → search_on k codes (pos n) (negsuc 0) (wrap_signed k (pos target *ℤ negsuc 0)) (pos s)
        ≡ (ltb s n && leb target (codes ! s))
  unfolding search_on ◌*ℤ◌
  on_down s =
      rw
        (
          to_signed-small k (codes ! s) (small s),
          (times_down k target small_target).1,
          (times_down k (codes ! s) (small s)).0,
        )
        (ground arith)

  off_down : (s : ℕ) (t : ℤ) → search_on k codes (pos n) (negsuc 0) t (negsuc s) ≡ false
  unfolding search_on
  off_down s t = ground arith

  abbrev t_up : ℤ
  t_up = wrap_signed k (pos target *ℤ pos 1)

  abbrev t_down : ℤ
  t_down = wrap_signed k (pos target *ℤ negsuc 0)

  -- Upwards the loop ends above the start, behind the array or at a greater code.
  pub search_up :
      (first fuel range : ℕ)
      → first < n
      → 1 ≤ range
      → first + range < n * 2
      → n ≤ first + range * 2 ^ fuel
      → (m : ℕ) × (search_loop k codes (pos n) (pos 1) t_up (pos first) fuel (pos range) ≡ pos m)
        × (first < m)
        × ((n ≤ m) ⊎ (target < codes ! m))
  unfolding search_loop
  search_up first zero range h p low enough =
      (first + range, step_up k first range (omega (arith, room)), omega arith, inl (omega arith))
  search_up first (suc fuel) range h p low enough =
      let here = step_up k first range (omega (arith, room)) in
      let at = ap (search_on k codes (pos n) (pos 1) t_up) here ∙ on_up (first + range) in
      elim (Bool-cases (ltb (first + range) n && leb (codes ! (first + range)) target)) [
        | inl more ↦
            let inside : first + range < n = ground arith in
            let (m, value, above, stop) =
              search_up first fuel (range * 2) h (omega arith) (omega (arith, inside))
                (omega (arith, enough, doubled range fuel)) in
            (
              m,
              loop_next k codes (pos n) (pos 1) t_up (pos first) fuel range
                    (omega (arith, room, inside)) (at ∙ more)
                  ∙ value,
              above,
              stop,
            )
        | inr over ↦ (
          first + range,
          loop_stop k codes (pos n) (pos 1) t_up (pos first) fuel (pos range) (at ∙ over) ∙ here,
          omega arith,
          ground arith,
        )
      ]

  -- Downwards it ends below the start, below the array or at a smaller code.
  pub search_down :
      (first fuel range : ℕ)
      → first < n
      → 1 ≤ range
      → range < n * 2
      → n ≤ range * 2 ^ fuel
      → ((m : ℕ) × (search_loop k codes (pos n) (negsuc 0) t_down (pos first) fuel (pos range)
            ≡ pos m)
          × (m < first)
          × (codes ! m < target))
        ⊎ ((m : ℕ) × (search_loop k codes (pos n) (negsuc 0) t_down (pos first) fuel (pos range)
              ≡ negsuc m))
  unfolding search_loop
  search_down first zero range h p low enough =
      let out : leb range first ≡ false = ground arith in
      inr (
        range - first - 1,
        step_down k first range (omega (arith, room)) (omega (arith, room)) ∙ rw out refl,
      )
  search_down first (suc fuel) range h p low enough =
      let step = step_down k first range (omega (arith, room)) (omega (arith, room)) in
      elim (Bool-cases (leb range first)) [
        | inr out ↦
            let here : second_index k (pos first) (pos range) (negsuc 0)
                ≡ negsuc (range - first - 1) =
              step ∙ rw out refl in
            let at =
              ap (search_on k codes (pos n) (negsuc 0) t_down) here
              ∙ off_down (range - first - 1) t_down in
            inr (
              range - first - 1,
              loop_stop k codes (pos n) (negsuc 0) t_down (pos first) fuel (pos range) at ∙ here,
            )
        | inl inside ↦
            let here : second_index k (pos first) (pos range) (negsuc 0) ≡ pos (first - range) =
              step ∙ rw inside refl in
            let at =
              ap (search_on k codes (pos n) (negsuc 0) t_down) here ∙ on_down (first - range) in
            let below : range ≤ first = ground arith in
            elim (Bool-cases (ltb (first - range) n && leb target (codes ! (first - range)))) [
              | inl more ↦
                  let next =
                    loop_next k codes (pos n) (negsuc 0) t_down (pos first) fuel range
                      (omega (arith, room, below)) (at ∙ more) in
                  elim (search_down first fuel (range * 2) h (omega arith) (omega (arith, below))
                    (omega (arith, enough, doubled range fuel))) [
                      | inl w ↦ inl (w.0, next ∙ w.1, w.2, w.3)
                      | inr w ↦ inr (w.0, next ∙ w.1)
                    ]
              | inr over ↦ inl (
                first - range,
                loop_stop k codes (pos n) (negsuc 0) t_down (pos first) fuel (pos range) (at ∙ over)
                    ∙ here,
                ground arith,
                ground arith,
              )
            ]
      ]
