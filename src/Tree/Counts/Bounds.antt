-- ===== src/Tree/Counts/Bounds.antt =====
-- `findSearchBounds`: whatever the guess, the search in the narrowed range finds what the search in
-- the whole array finds, for so few codes that the signed indices do not wrap.
use mathlib.Core.Path.{ap₂}
use native.Mathlib.Decide.{dec_lt}
use cornerstone_octree.Base.{
  ℕ, zero, suc, ◌-◌, ◌*◌, ◌^◌, ◌≤◌, ◌<◌, ◌≡◌, refl, ap, ◌∙◌, arith, List, length, ◌!◌, ◌⊎◌, inl,
  inr, true, false, ltb, leb, ◌==◌, if◌then◌else◌, Bool-cases, ltb→lt,
}
use cornerstone_octree.Base.Int.{ℤ, pos, negsuc, ◌-ℤ◌, ◌*ℤ◌, min_ℤ, max_ℤ}
use cornerstone_octree.Base.Pow.{pow2-pos, pow2-suc}
use cornerstone_octree.Key.{KeyType, max_tree_level, modulus}
use cornerstone_octree.Primitives.Search.{lower_bound}
use cornerstone_octree.Primitives.Search.Splits.{IsSortedIn, Splits-unique, lower_bound-Splits}
use cornerstone_octree.Sfc.Range.{node_range, node_range_root, pow8_level_lt, range_lt}
use cornerstone_octree.Tree.Counts.{wrap_signed, search_loop, find_search_bounds}
use cornerstone_octree.Tree.Counts.Guess.{get_or_out, wrap_signed-fits, search_up, search_down}

-- [a, b) holds the place of `target`.
pub record Encloses (codes : List ℕ) (target a b : ℕ) : Type 0 where
  pub ordered : a ≤ b
  pub inside : b ≤ length codes
  pub before : (j : ℕ) → j < a → codes ! j < target
  pub behind : (j : ℕ) → b ≤ j → j < length codes → target ≤ codes ! j

pub Encloses-lower_bound :
    {codes : List ℕ} {target a b : ℕ}
    → IsSortedIn codes 0 (length codes)
    → Encloses codes target a b
    → lower_bound codes a b target ≡ lower_bound codes 0 (length codes) target
Encloses-lower_bound {codes} {target} {a} {b} sorted e =
    let part =
      lower_bound-Splits codes a b target e.ordered
        (λ i j p q r. sorted i j (omega arith) q (omega (arith, e.inside))) in
    Splits-unique
      (record {
        from = omega arith;
        to = omega (arith, part.to, e.inside);
        below = λ j p q. elim (dec_lt j a) [
          | yes lt ↦ e.before j lt
          | no ge ↦ part.below j (omega arith) q
        ];
        above = λ j p q. elim (dec_lt j b) [
          | yes lt ↦ part.above j p lt
          | no ge ↦ e.behind j (omega arith) q
        ];
      })
      (lower_bound-Splits codes 0 (length codes) target (omega arith) sorted)

le-pow2 : (n : ℕ) → n ≤ 2 ^ n
le-pow2 zero = omega arith
le-pow2 (suc n) = omega (arith, le-pow2 n, pow2-suc n, pow2-pos n)

first_index :
    (n : ℕ) (guess : ℤ)
    → 1 ≤ n
    → (f : ℕ) × (min_ℤ (pos (n - 1)) (max_ℤ guess (pos 0)) ≡ pos f) × (f < n)
unfolding min_ℤ max_ℤ
first_index n (pos g) h = elim (dec_lt g n) [
  | yes p ↦ (g, ground arith, p)
  | no p ↦ (n - 1, ground arith, omega arith)
]
first_index n (negsuc g) h = (0, ground arith, omega arith)

clamp-pos : (n m : ℕ) → min_ℤ (pos n) (max_ℤ (pos 0) (pos m)) ≡ pos (if ltb m n then m else n)
unfolding min_ℤ max_ℤ
clamp-pos n m = ground arith

clamp-negsuc : (n m : ℕ) → min_ℤ (pos n) (max_ℤ (pos 0) (negsuc m)) ≡ pos 0
unfolding min_ℤ max_ℤ
clamp-negsuc n m = ground arith

min-pos : (a b : ℕ) → min_ℤ (pos a) (pos b) ≡ pos (if ltb b a then b else a)
unfolding min_ℤ
min-pos a b = ground arith

max-pos : (a b : ℕ) → max_ℤ (pos a) (pos b) ≡ pos (if ltb a b then b else a)
unfolding max_ℤ
max-pos a b = ground arith

module _ (k : KeyType) (guess : ℤ) (target : ℕ) (codes : List ℕ)
    (room : length codes * 4 ≤ modulus k) where
  abbrev n : ℕ
  n = length codes

  n_codes : wrap_signed k (pos n) ≡ pos n
  n_codes =
      wrap_signed-fits k (pos n)
        (elim (dec_lt 0 n) [
          | yes some ↦ omega (arith, room)
          | no none ↦ omega (arith, range_lt k 0 (omega arith))
        ])
        (omega arith)

  last_code : 1 ≤ n → wrap_signed k (pos n -ℤ pos 1) ≡ pos (n - 1)
  unfolding ◌-ℤ◌
  last_code some =
      let less : pos n -ℤ pos 1 ≡ pos (n - 1) = ground arith in
      rw less (wrap_signed-fits k (pos (n - 1)) (omega (arith, room)) (omega arith))

  -- The three ways out of the function.
  bounds_empty : n ≡ 0 → find_search_bounds k guess target codes ≡ (0, 0)
  unfolding find_search_bounds
  bounds_empty e = let t : (n == 0) ≡ true = ground arith in rw (n_codes, t) refl

  bounds_beyond :
      1 ≤ n
      → 8 ^ max_tree_level k ≤ target
      → find_search_bounds k guess target codes ≡ (lower_bound codes 0 n target, n)
  unfolding find_search_bounds
  bounds_beyond some beyond =
      let t : (n == 0) ≡ false = ground arith in
      let u : leb (node_range k 0) target ≡ true = ground (arith, node_range_root k) in
      rw (n_codes, t, u) refl

  bounds_within :
      (f : ℕ) (d : ℤ) (second a b : ℕ)
      → 1 ≤ n
      → target < 8 ^ max_tree_level k
      → min_ℤ (pos (n - 1)) (max_ℤ guess (pos 0)) ≡ pos f
      → (if ltb (codes ! f) target then pos 1 else negsuc 0) ≡ d
      → min_ℤ (pos n) (
          max_ℤ
            (pos 0)
            (search_loop k codes (pos n) d (wrap_signed k (pos target *ℤ d)) (pos f) n (pos 1)))
        ≡ pos second
      → (if ltb second f then second else f) ≡ a
      → (if ltb f second then second else f) ≡ b
      → find_search_bounds k guess target codes ≡ (a, b)
  unfolding find_search_bounds
  bounds_within f d second a b some within first way stop low high =
      let t : (n == 0) ≡ false = ground arith in
      let u : leb (node_range k 0) target ≡ false = ground (arith, node_range_root k) in
      rw (n_codes, last_code some, t, u, first)
        (rw way (rw (stop, min-pos f second, max-pos f second) (ap₂ (λ x y. (x, y)) low high)))

module _ (k : KeyType) (codes : List ℕ) (sorted : IsSortedIn codes 0 (length codes))
    (small : (j : ℕ) → j < length codes → codes ! j * 2 < modulus k)
    (room : length codes * 4 ≤ modulus k) where
  small_everywhere : (j : ℕ) → codes ! j * 2 < modulus k
  small_everywhere j = elim (dec_lt j (length codes)) [
    | yes p ↦ small j p
    | no p ↦ omega (arith, get_or_out codes j (omega arith), range_lt k 0 (omega arith))
  ]

  Encloses-up :
      (target f b : ℕ)
      → codes ! f < target
      → f < b
      → b ≤ length codes
      → (length codes ≤ b) ⊎ (target < codes ! b)
      → Encloses codes target f b
  Encloses-up target f b less order inside stop = record {
    ordered = omega arith;
    inside = inside;
    before = λ j p. omega (arith, less, sorted j f (omega arith) (omega arith) (omega arith));
    behind = λ j p q. elim stop [
      | inl out ↦ absurd (omega arith)
      | inr over ↦ omega (arith, over, sorted b j (omega arith) p q)
    ];
  }

  Encloses-down :
      (target a f : ℕ)
      → target ≤ codes ! f
      → a ≤ f
      → f < length codes
      → (a ≡ 0) ⊎ (codes ! a < target)
      → Encloses codes target a f
  Encloses-down target a f least order inside stop = record {
    ordered = order;
    inside = omega arith;
    before = λ j p. elim stop [
      | inl out ↦ absurd (omega arith)
      | inr under ↦ omega (arith, under, sorted j a (omega arith) (omega arith) (omega arith))
    ];
    behind = λ j p q. omega (arith, least, sorted f j (omega arith) p q);
  }

  module _ (guess : ℤ) (target : ℕ) (some : 1 ≤ length codes)
      (within : target < 8 ^ max_tree_level k) (f : ℕ)
      (first : min_ℤ (pos (length codes - 1)) (max_ℤ guess (pos 0)) ≡ pos f)
      (inside : f < length codes) where
    small_target : target * 2 < modulus k
    small_target = omega (arith, pow8_level_lt k (max_tree_level k) (omega arith))

    Enclosed : Type 0
    Enclosed = let (a, b) = find_search_bounds k guess target codes in Encloses codes target a b

    bounds_up : ltb (codes ! f) target ≡ true → Enclosed
    unfolding Enclosed
    bounds_up up =
        let (m, value, above, stop) =
          search_up k codes target small_everywhere small_target room f (length codes) 1 inside
            (omega arith) (omega arith) (omega (arith, le-pow2 (length codes))) in
        let clamped =
          ap (λ x. min_ℤ (pos (length codes)) (max_ℤ (pos 0) x)) value
          ∙ clamp-pos (length codes) m in
        let less = ltb→lt (codes ! f) target up in
        elim (Bool-cases (ltb m (length codes))) [
          | inl p ↦
              rw
                (bounds_within k guess target codes room f (pos 1) m f m some within first
                  (rw up refl) (clamped ∙ rw p refl) (ground arith) (ground arith))
                (Encloses-up target f m less above (ground arith) stop)
          | inr p ↦
              rw
                (bounds_within k guess target codes room f (pos 1) (length codes) f (length codes)
                  some within first (rw up refl) (clamped ∙ rw p refl) (ground arith)
                  (ground arith))
                (Encloses-up target f (length codes) less inside (omega arith) (inl (omega arith)))
        ]

    bounds_down : ltb (codes ! f) target ≡ false → Enclosed
    unfolding Enclosed
    bounds_down down =
        let least : target ≤ codes ! f = ground arith in
        elim (search_down k codes target small_everywhere small_target room f (length codes) 1
          inside (omega arith) (omega arith) (omega (arith, le-pow2 (length codes)))) [
            | inl (m, value, below, stop) ↦
                let p : ltb m (length codes) ≡ true = ground arith in
                let clamped : min_ℤ (pos (length codes)) (max_ℤ (pos 0) _) ≡ pos m =
                  ap (λ x. min_ℤ (pos (length codes)) (max_ℤ (pos 0) x)) value
                  ∙ clamp-pos (length codes) m
                  ∙ rw p refl in
                rw
                  (bounds_within k guess target codes room f (negsuc 0) m m f some within first
                    (rw down refl) clamped (ground arith) (ground arith))
                  (Encloses-down target m f least (omega arith) inside (inr stop))
            | inr (m, value) ↦
                rw
                  (bounds_within k guess target codes room f (negsuc 0) 0 0 f some within first
                    (rw down refl)
                    (ap (λ x. min_ℤ (pos (length codes)) (max_ℤ (pos 0) x)) value
                      ∙ clamp-negsuc (length codes) m)
                    (ground arith) (ground arith))
                  (Encloses-down target 0 f least (omega arith) inside (inl refl))
          ]

  -- The part that `findSearchBounds` gives has the place of the target.
  find_search_bounds-Encloses :
      (guess : ℤ) (target : ℕ)
      → let (a, b) = find_search_bounds k guess target codes in Encloses codes target a b
  find_search_bounds-Encloses guess target = elim (dec_lt 0 (length codes)) [
    | no none ↦ rw (bounds_empty k guess target codes room (omega arith)) (record {
      ordered = omega arith;
      inside = omega arith;
      before = λ j p. absurd (omega arith);
      behind = λ j p q. absurd (omega arith);
    })
    | yes some ↦ elim (dec_lt target (8 ^ max_tree_level k)) [
      | no beyond ↦
          let s = lower_bound-Splits codes 0 (length codes) target (omega arith) sorted in
          rw (bounds_beyond k guess target codes room some (omega arith)) (record {
            ordered = s.to;
            inside = omega arith;
            before = λ j p. s.below j (omega arith) p;
            behind = λ j p q. absurd (omega arith);
          })
      | yes within ↦
          let (f, first, inside) = first_index (length codes) guess some in
          elim (Bool-cases (ltb (codes ! f) target)) [
            | inl up ↦ unfold Enclosed in bounds_up guess target some within f first inside up
            | inr down ↦ unfold Enclosed in bounds_down guess target some within f first inside down
          ]
    ]
  ]

  -- For sorted codes that the signed key type holds, of which there are at most a quarter of the modulus of
  -- the key type (2 ^ 30 for 32-bit keys), whatever the guess and the target, `findSearchBounds` gives a
  -- part of the array in which `lower_bound` finds what it finds in the whole array.
  pub find_search_bounds-lower_bound :
      (guess : ℤ) (target : ℕ)
      → let (a, b) = find_search_bounds k guess target codes in
        (a ≤ b)
        × (b ≤ length codes)
        × (lower_bound codes a b target ≡ lower_bound codes 0 (length codes) target)
  find_search_bounds-lower_bound guess target =
      let e = find_search_bounds-Encloses guess target in
      (e.ordered, e.inside, Encloses-lower_bound sorted e)
