-- ===== src/Base/EqualPowers.antt =====
-- Eight powers of eight whose sum is a power of eight are all the same.
use cornerstone_octree.Base.{
  ℕ, zero, suc, ◌+◌, ◌*◌, ◌^◌, ◌≤◌, ◌<◌, ◌≡◌, ◌≢◌, refl, ap, ◌∙◌, arith, List, [], ◌∷◌, map, length,
  ◌!◌, length-map,
}
use native.Mathlib.Decide.{dec_lt}
use cornerstone_octree.Base.Pow.{pow8-pos, pow8-suc}

unfoldable pub pow8_sum : List ℕ → ℕ
pow8_sum [] = 0
pow8_sum (e ∷ es) = 8 ^ e + pow8_sum es

abbrev zeros : List ℕ → ℕ
zeros [] = 0
zeros (zero ∷ es) = suc (zeros es)
zeros (suc e ∷ es) = zeros es

abbrev lowered : List ℕ → ℕ
lowered [] = 0
lowered (zero ∷ es) = lowered es
lowered (suc e ∷ es) = 8 ^ e + lowered es

abbrev pred : ℕ → ℕ
pred zero = 0
pred (suc e) = e

sum_split : (es : List ℕ) → pow8_sum es ≡ zeros es + 8 * lowered es
unfolding pow8_sum
sum_split [] = refl
sum_split (zero ∷ es) = omega (arith, sum_split es)
sum_split (suc e ∷ es) = omega (arith, sum_split es, pow8-suc e)

counts_cover : (es : List ℕ) → (length es ≤ zeros es + lowered es) × (zeros es ≤ length es)
counts_cover [] = omega arith
counts_cover (zero ∷ es) = omega (arith, counts_cover es)
counts_cover (suc e ∷ es) = omega (arith, counts_cover es, pow8-pos e)

lowered_of_zeros : (es : List ℕ) → zeros es ≡ length es → lowered es ≡ 0
lowered_of_zeros [] h = refl
lowered_of_zeros (zero ∷ es) h = lowered_of_zeros es (omega arith)
lowered_of_zeros (suc e ∷ es) h = absurd (omega (arith, counts_cover es))

element_of_zeros : (es : List ℕ) (j : ℕ) → zeros es ≡ length es → es ! j ≡ 0
element_of_zeros [] j h = refl
element_of_zeros (suc e ∷ es) j h = absurd (omega (arith, counts_cover es))
element_of_zeros (zero ∷ es) zero h = refl
element_of_zeros (zero ∷ es) (suc j) h = element_of_zeros es j (omega arith)

sum_of_positive : (es : List ℕ) → zeros es ≡ 0 → pow8_sum (map pred es) ≡ lowered es
unfolding pow8_sum
sum_of_positive [] h = refl
sum_of_positive (zero ∷ es) h = absurd (omega arith)
sum_of_positive (suc e ∷ es) h = omega (arith, sum_of_positive es h)

element_of_positive :
    (es : List ℕ) (j : ℕ) → zeros es ≡ 0 → j < length es → es ! j ≡ suc (map pred es ! j)
element_of_positive [] j h p = absurd (omega arith)
element_of_positive (zero ∷ es) j h p = absurd (omega arith)
element_of_positive (suc e ∷ es) zero h p = refl
element_of_positive (suc e ∷ es) (suc j) h p = element_of_positive es j h (omega arith)

pub equal_powers :
    (l : ℕ) (es : List ℕ) → length es ≡ 8 → pow8_sum es ≡ 8 ^ suc l → (j : ℕ) → j < 8 → es ! j ≡ l
equal_powers zero es len s j p =
    element_of_zeros es j (omega (arith, sum_split es, counts_cover es))
equal_powers (suc l) es len s j p =
    element_of_positive es j positive (omega arith)
    ∙ ap suc (
        equal_powers l (map pred es) (length-map es pred ∙ len)
          (sum_of_positive es positive ∙ omega (arith, positive, sum_split es, pow8-suc (suc l))) j
          p)
  where
    some_positive : zeros es ≢ 8
    some_positive e = omega (
      arith,
      sum_split es,
      lowered_of_zeros es (omega arith),
      pow8-suc (suc l),
      pow8-suc l,
      pow8-pos l,
    )

    positive : zeros es ≡ 0
    positive = elim (dec_lt (zeros es) 8) [
      | yes few ↦ omega (arith, sum_split es, pow8-suc (suc l), pow8-suc l)
      | no many ↦ absurd (some_positive (omega (arith, counts_cover es)))
    ]
