-- ===== src/Domain/Decomposition/Initial.antt =====
-- The first splits of include/cstone/domain/domaindecomp.hpp, before there is a tree.
use native.Mathlib.Decide.{dec_lt}
use native.Mathlib.Nat.{
  div-add-mod', mul-le-mul_right, suc-mul, mul_comm, zero-mul, zero-div, le-div_iff_mul-le,
}
use cornerstone_octree.Base.{
  ℕ, suc, ◌+◌, ◌-◌, ◌*◌, ◌/◌, ◌^◌, ◌≤◌, ◌<◌, ◌≡◌, ap, sym, ◌∙◌, arith, List, length-replicate,
  length-set, replicate, set, ◌!◌, get_or-set_self, get_or-set_ne,
}
use cornerstone_octree.Base.Loops.{fill, length-fill, get_or-fill, get_or-fill_outside}
use cornerstone_octree.Base.Pow.{pow8-pos, pow8_multiple, div_mono, div-add_multiple}
use cornerstone_octree.Key.{KeyType, max_tree_level, modulus, mul_key_exact}
use cornerstone_octree.Sfc.Range.{node_range, node_range_root, pow8_level_lt}
use cornerstone_octree.Sfc.Prefix.Box.{enclosing_box_code-div}
use cornerstone_octree.Domain.Decomposition.{initial_domain_splits}

module _ (k : KeyType) (n e : ℕ) (some_rank : 0 < n) (level : e ≤ max_tree_level k) where
  abbrev splits : List ℕ
  splits = initial_domain_splits k n (max_tree_level k - e)

  delta : ℕ
  delta = 8 ^ max_tree_level k / n

  multiple_inside : (i : ℕ) → i ≤ n → i * delta ≤ 8 ^ max_tree_level k
  unfolding delta
  multiple_inside i h =
      omega (
        arith,
        mul-le-mul_right (8 ^ max_tree_level k / n) h,
        div-add-mod' (8 ^ max_tree_level k) n,
      )

  initial_domain_splits-first : splits ! 0 ≡ 0
  unfolding initial_domain_splits
  initial_domain_splits-first =
      get_or-set_ne _ n 0 (node_range k 0) 0 (omega arith)
      ∙ get_or-fill_outside (n - 1) 1 _ (set (replicate (n + 1) 0) 0 0) 0 0 (omega arith)
      ∙ get_or-set_self (replicate (n + 1) 0) 0 0 0
          (omega (arith, length-replicate {A = ℕ} (n + 1) 0))

  initial_domain_splits-last : splits ! n ≡ 8 ^ max_tree_level k
  unfolding initial_domain_splits
  initial_domain_splits-last =
      get_or-set_self (fill (n - 1) 1 _ (set (replicate (n + 1) 0) 0 0)) n (node_range k 0) 0 (
        omega (
          arith,
          length-fill {A = ℕ} (n - 1) 1 _ (set (replicate (n + 1) 0) 0 0),
          length-set {A = ℕ} (replicate (n + 1) 0) 0 0,
          length-replicate {A = ℕ} (n + 1) 0,
        ))
      ∙ node_range_root k

  initial_domain_splits-entry : (i : ℕ) → 0 < i → i < n → splits ! i ≡ i * delta / 8 ^ e * 8 ^ e
  unfolding initial_domain_splits delta
  initial_domain_splits-entry i from to =
      let room = pow8_level_lt k (max_tree_level k) (omega arith) in
      let small : i * (8 ^ max_tree_level k / n) < modulus k =
        omega (arith, multiple_inside i (omega arith), room, pow8-pos (max_tree_level k)) in
      get_or-set_ne _ n i (node_range k 0) 0 (omega arith)
      ∙ get_or-fill (n - 1) 1 _ (set (replicate (n + 1) 0) 0 0) i 0 (omega arith) (omega arith) (
          omega (
            arith,
            length-set {A = ℕ} (replicate (n + 1) 0) 0 0,
            length-replicate {A = ℕ} (n + 1) 0,
          ))
      ∙ rw (node_range_root k, mul_key_exact k i (8 ^ max_tree_level k / n) small)
          (enclosing_box_code-div k (i * (8 ^ max_tree_level k / n)) e level small)

  delta-nonzero : n ≤ 8 ^ (max_tree_level k - e) → 8 ^ e ≤ delta
  unfolding delta
  delta-nonzero few = (le-div_iff_mul-le some_rank).1 (
      omega (
        arith,
        pow8_multiple e (max_tree_level k) level,
        mul-le-mul_right (8 ^ e) few,
        mul_comm (8 ^ e) n,
      ))

  initial_domain_splits-start : (i : ℕ) → i < n → splits ! i ≡ i * delta / 8 ^ e * 8 ^ e
  initial_domain_splits-start i h = elim (dec_lt 0 i) [
    | yes p ↦ initial_domain_splits-entry i p h
    | no p ↦
        let none : i ≡ 0 = omega arith in
        rw (none, zero-mul delta, zero-div (8 ^ e), zero-mul (8 ^ e)) initial_domain_splits-first
  ]

  initial_domain_splits-step :
      (i : ℕ) → n ≤ 8 ^ (max_tree_level k - e) → i < n → splits ! i < splits ! (i + 1)
  initial_domain_splits-step i few h =
      let wide = delta-nonzero few in
      let next : (i + 1) * delta ≡ i * delta + delta =
        omega (arith, suc-mul i delta, ap (λ (j : ℕ). j * delta) (one_more i)) in
      let apart : i * delta / 8 ^ e + 1 ≤ (i + 1) * delta / 8 ^ e = omega (
        arith,
        div-add_multiple (i * delta) e 1,
        div_mono (i * delta + 1 * 8 ^ e) ((i + 1) * delta) (8 ^ e) (pow8-pos e)
            (omega (arith, next, wide)),
      ) in
      let here = initial_domain_splits-start i h in
      let h' : i + 1 ≤ n = omega arith in
      elim (dec_lt (i + 1) n) [
        | yes p ↦ omega (
          arith,
          here,
          initial_domain_splits-start (i + 1) p,
          pow8-pos e,
          suc-mul (i * delta / 8 ^ e) (8 ^ e),
          mul-le-mul_right (8 ^ e) (one_below (i * delta / 8 ^ e) ((i + 1) * delta / 8 ^ e) apart),
        )
        | no p ↦
            let last : i + 1 ≡ n = omega arith in
            rw last (
              omega (
                arith,
                here,
                initial_domain_splits-last,
                div-add-mod' (i * delta) (8 ^ e),
                pow8-pos e,
                next,
                multiple_inside (i + 1) h',
              ))
      ]
    where
      one_more : (j : ℕ) → j + 1 ≡ suc j
      one_more j = omega arith

      one_below : (x y : ℕ) → x + 1 ≤ y → suc x ≤ y
      one_below x y p = omega arith

-- `initialDomainSplits` gives boundaries from 0 to the end of the key range between which each rank has a
-- part that is not empty, for at least one rank and at most as many as there are nodes at the level.
pub initial_domain_splits-ascend :
    (k : KeyType) (n level i : ℕ)
    → 0 < n
    → level ≤ max_tree_level k
    → n ≤ 8 ^ level
    → i < n
    → (initial_domain_splits k n level ! 0 ≡ 0)
      × (initial_domain_splits k n level ! n ≡ 8 ^ max_tree_level k)
      × (initial_domain_splits k n level ! i < initial_domain_splits k n level ! (i + 1))
initial_domain_splits-ascend k n level i some fits few h =
    let e : ℕ = max_tree_level k - level in
    let small : e ≤ max_tree_level k = omega arith in
    let back : max_tree_level k - e ≡ level = omega arith in
    let enough : n ≤ 8 ^ (max_tree_level k - e) = rw back few in
    rw (sym back) (
      initial_domain_splits-first k n e some small,
      initial_domain_splits-last k n e some small,
      initial_domain_splits-step k n e some small i enough h,
    )
