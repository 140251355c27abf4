-- ===== src/Base/Loops.antt =====
-- Loops over arrays: a loop that writes each element from its index, and the scan of `<numeric>`.
use cornerstone_octree.Base.{
  ℕ, zero, suc, ◌+◌, ◌≤◌, ◌<◌, ◌≡◌, refl, ap, ◌∙◌, arith, List, [], ◌∷◌, length, set, get_or, ◌!◌,
  length-set, get_or-set_self, get_or-set_ne, ◌⊎◌,
}
use native.Mathlib.Decide.{dec_lt}

module _ {ℓ} {A : Type ℓ} where
  -- for (j = i; j < i + n; ++j) xs[j] = f(j), where `f` reads nothing of `xs`.
  unfoldable pub fill : ℕ → ℕ → (ℕ → A) → List A → List A
  fill zero i f xs = xs
  fill (suc n) i f xs = fill n (i + 1) f (set xs i (f i))

  pub length-fill : (n i : ℕ) (f : ℕ → A) (xs : List A) → length (fill n i f xs) ≡ length xs
  unfolding fill
  length-fill zero i f xs = refl
  length-fill (suc n) i f xs = length-fill n (i + 1) f (set xs i (f i)) ∙ length-set xs i (f i)

  pub get_or-fill_outside :
      (n i : ℕ) (f : ℕ → A) (xs : List A) (j : ℕ) (d : A)
      → (j < i) ⊎ (i + n ≤ j)
      → get_or (fill n i f xs) j d ≡ get_or xs j d
  unfolding fill
  get_or-fill_outside zero i f xs j d h = refl
  get_or-fill_outside (suc n) i f xs j d h =
      get_or-fill_outside n (i + 1) f (set xs i (f i)) j d (omega arith)
      ∙ get_or-set_ne xs i j (f i) d (omega arith)

  pub get_or-fill :
      (n i : ℕ) (f : ℕ → A) (xs : List A) (j : ℕ) (d : A)
      → i ≤ j
      → j < i + n
      → j < length xs
      → get_or (fill n i f xs) j d ≡ f j
  unfolding fill
  get_or-fill zero i f xs j d lo hi b = absurd (omega arith)
  get_or-fill (suc n) i f xs j d lo hi b = elim (dec_lt i j) [
    | yes p ↦
        get_or-fill n (i + 1) f (set xs i (f i)) j d (omega arith) (omega arith)
          (rw (length-set xs i (f i)) b)
    | no p ↦
        let e : i ≡ j = omega arith in
        get_or-fill_outside n (i + 1) f (set xs i (f i)) j d (omega arith)
        ∙ rw e (get_or-set_self xs j (f j) d b)
  ]

-- `std::exclusive_scan` with an initial value.
unfoldable pub exclusive_scan : ℕ → List ℕ → List ℕ
exclusive_scan acc [] = []
exclusive_scan acc (x ∷ xs) = acc ∷ exclusive_scan (acc + x) xs

pub length-exclusive_scan : (acc : ℕ) (xs : List ℕ) → length (exclusive_scan acc xs) ≡ length xs
unfolding exclusive_scan
length-exclusive_scan acc [] = refl
length-exclusive_scan acc (x ∷ xs) = ap suc (length-exclusive_scan (acc + x) xs)

pub exclusive_scan-zero : (acc : ℕ) (xs : List ℕ) → 0 < length xs → exclusive_scan acc xs ! 0 ≡ acc
unfolding exclusive_scan
exclusive_scan-zero acc [] h = absurd (omega arith)
exclusive_scan-zero acc (x ∷ xs) h = refl

pub exclusive_scan-suc :
    (acc : ℕ) (xs : List ℕ) (i : ℕ)
    → suc i < length xs
    → exclusive_scan acc xs ! suc i ≡ exclusive_scan acc xs ! i + xs ! i
unfolding exclusive_scan
exclusive_scan-suc acc [] i h = absurd (omega arith)
exclusive_scan-suc acc (x ∷ xs) zero h = exclusive_scan-zero (acc + x) xs (omega arith)
exclusive_scan-suc acc (x ∷ xs) (suc i) h = exclusive_scan-suc (acc + x) xs i (omega arith)
