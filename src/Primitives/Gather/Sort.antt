-- ===== src/Primitives/Gather/Sort.antt =====
-- That `sort_by_key` of include/cstone/primitives/gather.hpp sorts, and keeps the order of equal keys.
use mathlib.Core.List.{Perm}
use mathlib.Core.List.Perm
use cornerstone_octree.Base.{
  ℕ, zero, suc, ◌+◌, ◌≤◌, ◌<◌, ◌≡◌, refl, ap, sym, ◌∙◌, arith, List, [], ◌∷◌, length, ◌!◌, ◌⊎◌, inl,
  inr, get_or, drop, drop_one, drop_all, Bool-cases, ltb, ltb→lt,
}
use cornerstone_octree.Base.Loops.{fill, get_or-fill}
use cornerstone_octree.Primitives.Gather.{zip_pairs, insert_pair, stable_sort, sort_by_key}

-- A pair stands before another one: by its key, or by its value if the keys are equal.
abbrev pub Precedes : ℕ × ℕ → ℕ × ℕ → Type 0
Precedes p q = (p.0 < q.0) ⊎ ((p.0 ≡ q.0) × (p.1 < q.1))

-- All pairs of a list are related to one.
abbrev pub All : (ℕ × ℕ → Type 0) → List (ℕ × ℕ) → Type 0
All P [] = Unit {0}
All P (p ∷ ps) = P p × All P ps

abbrev pub IsOrdered : List (ℕ × ℕ) → Type 0
IsOrdered [] = Unit {0}
IsOrdered (p ∷ ps) = All (Precedes p) ps × IsOrdered ps

-- The values ascend.
abbrev pub AscendByValue : List (ℕ × ℕ) → Type 0
AscendByValue [] = Unit {0}
AscendByValue (p ∷ ps) = All (λ q. p.1 < q.1) ps × AscendByValue ps

All-insert_pair :
    (P : ℕ × ℕ → Type 0) (p : ℕ × ℕ) (ps : List (ℕ × ℕ)) → P p → All P ps → All P (insert_pair p ps)
unfolding insert_pair
All-insert_pair P p [] h all = (h, tt)
All-insert_pair P p (q ∷ qs) h (hq, all) = elim (Bool-cases (ltb q.0 p.0)) [
  | inl less ↦ rw less (hq, All-insert_pair P p qs h all)
  | inr more ↦ rw more (h, (hq, all))
]

pub All-stable_sort : (P : ℕ × ℕ → Type 0) (ps : List (ℕ × ℕ)) → All P ps → All P (stable_sort ps)
unfolding stable_sort
All-stable_sort P [] all = tt
All-stable_sort P (p ∷ ps) (h, all) =
    All-insert_pair P p (stable_sort ps) h (All-stable_sort P ps all)

-- What follows a pair with a key that is not less follows this too.
All-Precedes :
    (p q : ℕ × ℕ) (qs : List (ℕ × ℕ))
    → p.0 ≤ q.0
    → All (λ r. p.1 < r.1) qs
    → All (Precedes q) qs
    → All (Precedes p) qs
All-Precedes p q [] le later all = tt
All-Precedes p q (r ∷ rs) le (here, later) (before, all) =
    (ground arith, All-Precedes p q rs le later all)

insert_pair-IsOrdered :
    (p : ℕ × ℕ) (ps : List (ℕ × ℕ))
    → All (λ q. p.1 < q.1) ps
    → IsOrdered ps
    → IsOrdered (insert_pair p ps)
unfolding insert_pair
insert_pair-IsOrdered p [] later ordered = (tt, tt)
insert_pair-IsOrdered p (q ∷ qs) (here, later) (all, ordered) = elim (Bool-cases (ltb q.0 p.0)) [
  | inl less ↦ rw less (
    All-insert_pair (Precedes q) p qs (inl (ltb→lt q.0 p.0 less)) all,
    insert_pair-IsOrdered p qs later ordered,
  )
  | inr more ↦
      rw more ((ground arith, All-Precedes p q qs (ground arith) later all), (all, ordered))
]

pub stable_sort-IsOrdered : (ps : List (ℕ × ℕ)) → AscendByValue ps → IsOrdered (stable_sort ps)
unfolding stable_sort
stable_sort-IsOrdered [] up = tt
stable_sort-IsOrdered (p ∷ ps) (later, up) =
    insert_pair-IsOrdered p (stable_sort ps) (All-stable_sort (λ q. p.1 < q.1) ps later)
      (stable_sort-IsOrdered ps up)

insert_pair-perm : (p : ℕ × ℕ) (ps : List (ℕ × ℕ)) → Perm (insert_pair p ps) (p ∷ ps)
unfolding insert_pair
insert_pair-perm p [] = Perm.rfl
insert_pair-perm p (q ∷ qs) = elim (Bool-cases (ltb q.0 p.0)) [
  | inl less ↦ rw less (Perm.trans (Perm.cons q (insert_pair-perm p qs)) (Perm.swap p q qs))
  | inr more ↦ rw more Perm.rfl
]

stable_sort-perm : (ps : List (ℕ × ℕ)) → Perm (stable_sort ps) ps
unfolding stable_sort
stable_sort-perm [] = Perm.rfl
stable_sort-perm (p ∷ ps) =
    Perm.trans (insert_pair-perm p (stable_sort ps)) (Perm.cons p (stable_sort-perm ps))

length-insert_pair : (p : ℕ × ℕ) (ps : List (ℕ × ℕ)) → length (insert_pair p ps) ≡ suc (length ps)
unfolding insert_pair
length-insert_pair p [] = refl
length-insert_pair p (q ∷ qs) = ground (arith, length-insert_pair p qs)

pub length-stable_sort : (ps : List (ℕ × ℕ)) → length (stable_sort ps) ≡ length ps
unfolding stable_sort
length-stable_sort [] = refl
length-stable_sort (p ∷ ps) = length-insert_pair p (stable_sort ps) ∙ ap suc (length-stable_sort ps)

pub length-zip_pairs : (n i : ℕ) (keys values : List ℕ) → length (zip_pairs n i keys values) ≡ n
unfolding zip_pairs
length-zip_pairs zero i keys values = refl
length-zip_pairs (suc n) i keys values = ap suc (length-zip_pairs n (i + 1) keys values)

-- Arrays that hold the parts of a list of pairs give the list when they are zipped.
zip_pairs-drop :
    (n i : ℕ) (keys values : List ℕ) (ps : List (ℕ × ℕ))
    → i + n ≡ length ps
    → ((j : ℕ) → j < length ps → keys ! j ≡ (get_or ps j (0, 0)).0)
    → ((j : ℕ) → j < length ps → values ! j ≡ (get_or ps j (0, 0)).1)
    → zip_pairs n i keys values ≡ drop i ps
unfolding zip_pairs
zip_pairs-drop zero i keys values ps e hk hv = sym (drop_all ps i (omega arith))
zip_pairs-drop (suc n) i keys values ps e hk hv =
    let here : i < length ps = omega arith in
    let next : i + 1 ≡ suc i = omega arith in
    rw (hk i here, hv i here, next, zip_pairs-drop n (suc i) keys values ps (omega arith) hk hv)
      (sym (drop_one ps i (0, 0) here))

-- `sort_by_key` leaves the pairs of keys and values in ascending order of the keys and, where the values
-- ascend at first, of the values for equal keys; it only permutes the pairs.
pub sort_by_key-IsOrdered :
    (n : ℕ) (keys values : List ℕ)
    → length keys ≡ n
    → length values ≡ n
    → AscendByValue (zip_pairs n 0 keys values)
    → IsOrdered (zip_pairs n 0 (sort_by_key n keys values).0 (sort_by_key n keys values).1)
      × Perm
          (zip_pairs n 0 (sort_by_key n keys values).0 (sort_by_key n keys values).1)
          (zip_pairs n 0 keys values)
unfolding sort_by_key
sort_by_key-IsOrdered n keys values hk hv up =
    let pairs = zip_pairs n 0 keys values in
    let sorted = stable_sort pairs in
    let size : length sorted ≡ n = length-stable_sort pairs ∙ length-zip_pairs n 0 keys values in
    let whole =
      zip_pairs-drop n 0 (fill n 0 (λ i. (get_or sorted i (0, 0)).0) keys)
        (fill n 0 (λ i. (get_or sorted i (0, 0)).1) values) sorted (omega (arith, size))
        (λ j h.
          get_or-fill n 0 (λ i. (get_or sorted i (0, 0)).0) keys j 0 (omega arith)
            (omega (arith, size)) (omega (arith, size)))
        (λ j h.
          get_or-fill n 0 (λ i. (get_or sorted i (0, 0)).1) values j 0 (omega arith)
            (omega (arith, size)) (omega (arith, size))) in
    rw whole (stable_sort-IsOrdered pairs up, stable_sort-perm pairs)
