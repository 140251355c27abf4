-- ===== src/Tests.antt =====
-- Trees and keys for the tests, and the modules of the tests.
mod Csarray
mod Keys
mod Morton
mod Hilbert
mod Boxes
mod Counts
mod Prefixes
mod Ranges
mod Linked
mod Octrees
mod Layout
mod Decomposition
mod Focus
mod Gather
use native.Mathlib.Decide.{dec_lt}
use cornerstone_octree.Base.{
  zero, suc, ◌-◌, ◌<◌, Bool, true, false, leb, leb→le, ltb, ltb→lt, ◌&&◌, length, ◌!◌, ℕ, ◌*◌, ◌+◌,
  ◌^◌, ◌≡◌, ◌≤◌, refl, arith, List, [], ◌∷◌, ◌++◌,
}
use cornerstone_octree.Primitives.Search.Splits.{IsSortedIn}
use cornerstone_octree.Key.{KeyType, u32, u64, max_tree_level}
use cornerstone_octree.Tree.Leaves.{IsOctree}
use cornerstone_octree.Tree.Counts.Every.{AreKeys}
use cornerstone_octree.Tree.Leaves.Chain.{Chain, Chain→IsOctree}

-- The first octant of the root split once more: eight nodes of level 2, then seven of level 1.
abbrev pub sample_nodes : List ℕ
sample_nodes =
    0
    ∷ 1 * 8 ^ 8
    ∷ 2 * 8 ^ 8
    ∷ 3 * 8 ^ 8
    ∷ 4 * 8 ^ 8
    ∷ 5 * 8 ^ 8
    ∷ 6 * 8 ^ 8
    ∷ 7 * 8 ^ 8
    ∷ 1 * 8 ^ 9
    ∷ 2 * 8 ^ 9
    ∷ 3 * 8 ^ 9
    ∷ 4 * 8 ^ 9
    ∷ 5 * 8 ^ 9
    ∷ 6 * 8 ^ 9
    ∷ 7 * 8 ^ 9
    ∷ []

abbrev pub sample : List ℕ
sample = sample_nodes ++ (8 ^ 10) ∷ []

sample-Chain : Chain u32 (λ a e. 0 ≤ a) 0 sample_nodes (8 ^ 10)
sample-Chain = (
  refl,
  8,
  omega arith,
  omega arith,
  (
    refl,
    8,
    omega arith,
    omega arith,
    (
      refl,
      8,
      omega arith,
      omega arith,
      (
        refl,
        8,
        omega arith,
        omega arith,
        (
          refl,
          8,
          omega arith,
          omega arith,
          (
            refl,
            8,
            omega arith,
            omega arith,
            (
              refl,
              8,
              omega arith,
              omega arith,
              (
                refl,
                8,
                omega arith,
                omega arith,
                (
                  refl,
                  9,
                  omega arith,
                  omega arith,
                  (
                    refl,
                    9,
                    omega arith,
                    omega arith,
                    (
                      refl,
                      9,
                      omega arith,
                      omega arith,
                      (
                        refl,
                        9,
                        omega arith,
                        omega arith,
                        (
                          refl,
                          9,
                          omega arith,
                          omega arith,
                          (
                            refl,
                            9,
                            omega arith,
                            omega arith,
                            (refl, 9, omega arith, omega arith, refl),
                          ),
                        ),
                      ),
                    ),
                  ),
                ),
              ),
            ),
          ),
        ),
      ),
    ),
  ),
)

pub sample-IsOctree : IsOctree u32 sample
sample-IsOctree = Chain→IsOctree u32 (λ a e. 0 ≤ a) sample_nodes sample-Chain

-- Counts with which the eight small nodes merge and the last node splits twice over.
abbrev pub sample_counts : List ℕ
sample_counts = 1 ∷ 0 ∷ 2 ∷ 0 ∷ 0 ∷ 1 ∷ 0 ∷ 1 ∷ 8 ∷ 7 ∷ 8 ∷ 3 ∷ 4 ∷ 5 ∷ 70 ∷ []

-- Counts that leave the sample as it is, for a bucket of 8.
abbrev pub balanced_counts : List ℕ
balanced_counts = 1 ∷ 2 ∷ 3 ∷ 4 ∷ 5 ∷ 6 ∷ 7 ∷ 8 ∷ 8 ∷ 7 ∷ 8 ∷ 3 ∷ 4 ∷ 5 ∷ 6 ∷ []

-- A check that keys ascend, to have sorted keys at hand.
abbrev ascending_from : ℕ → List ℕ → Bool
ascending_from a [] = true
ascending_from a (x ∷ xs) = leb a x && ascending_from x xs

ascending_from-le :
    (a : ℕ) (xs : List ℕ) → ascending_from a xs ≡ true → (j : ℕ) → j < length xs → a ≤ xs ! j
ascending_from-le a [] t j h = absurd (omega arith)
ascending_from-le a (x ∷ xs) t zero h = ground arith
ascending_from-le a (x ∷ xs) t (suc j) h =
    let parts : (leb a x ≡ true) × (ascending_from x xs ≡ true) = (ground arith, ground arith) in
    omega (arith, leb→le a x parts.0, ascending_from-le x xs parts.1 j (omega arith))

ascending_from-sorted :
    (a : ℕ) (xs : List ℕ)
    → ascending_from a xs ≡ true
    → (i j : ℕ) → i ≤ j
    → j < length xs
    → xs ! i ≤ xs ! j
ascending_from-sorted a [] t i j le h = absurd (omega arith)
ascending_from-sorted a (x ∷ xs) t zero zero le h = omega arith
ascending_from-sorted a (x ∷ xs) t zero (suc j) le h =
    let rest : ascending_from x xs ≡ true = ground arith in
    ascending_from-le x xs rest j (omega arith)
ascending_from-sorted a (x ∷ xs) t (suc i) zero le h = absurd (omega arith)
ascending_from-sorted a (x ∷ xs) t (suc i) (suc j) le h =
    let rest : ascending_from x xs ≡ true = ground arith in
    ascending_from-sorted x xs rest i j (omega arith) (omega arith)

pub ascending→IsSortedIn : (xs : List ℕ) → ascending_from 0 xs ≡ true → IsSortedIn xs 0 (length xs)
ascending→IsSortedIn xs t i j lo le h = ascending_from-sorted 0 xs t i j le h

abbrev all_below : ℕ → List ℕ → Bool
all_below b [] = true
all_below b (x ∷ xs) = ltb x b && all_below b xs

pub all_below→lt :
    (b : ℕ) (xs : List ℕ) → all_below b xs ≡ true → (j : ℕ) → j < length xs → xs ! j < b
all_below→lt b [] t j h = absurd (omega arith)
all_below→lt b (x ∷ xs) t zero h = let first : ltb x b ≡ true = ground arith in ltb→lt x b first
all_below→lt b (x ∷ xs) t (suc j) h =
    let rest : all_below b xs ≡ true = ground arith in all_below→lt b xs rest j (omega arith)

-- Keys of particles, most of them in the first octant of the first octant.
abbrev pub sample_keys : List ℕ
sample_keys = 3 ∷ 5 ∷ 5 ∷ 77 ∷ 1 * 8 ^ 8 ∷ 2 * 8 ^ 8 ∷ 3 * 8 ^ 9 ∷ 5 * 8 ^ 9 ∷ 0x3fff_ffff ∷ []

pub sample_keys-IsSortedIn : IsSortedIn sample_keys 0 9
sample_keys-IsSortedIn = ascending→IsSortedIn sample_keys refl

pub sample_keys-lt : (j : ℕ) → j < 9 → sample_keys ! j < 8 ^ 10
sample_keys-lt = all_below→lt (8 ^ 10) sample_keys refl

pub sample_keys-AreKeys : AreKeys u32 sample_keys
sample_keys-AreKeys = record {
  sorted = sample_keys-IsSortedIn;
  small = λ j h. omega (arith, sample_keys-lt j h);
  few = omega arith;
  room = omega arith;
}

-- A check of each index below a bound.
abbrev pub each_below : ℕ → (ℕ → Bool) → Bool
each_below zero f = true
each_below (suc n) f = f n && each_below n f

pub each_below→ : (n : ℕ) (f : ℕ → Bool) → each_below n f ≡ true → (i : ℕ) → i < n → f i ≡ true
each_below→ zero f t i h = absurd (omega arith)
each_below→ (suc n) f t i h =
    let parts : (f n ≡ true) × (each_below n f ≡ true) = (ground arith, ground arith) in
    elim (dec_lt i n) [
      | yes p ↦ each_below→ n f parts.1 i p
      | no p ↦ let e : n ≡ i = omega arith in rw (← e) parts.0
    ]
