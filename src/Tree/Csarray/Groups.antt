-- ===== src/Tree/Csarray/Groups.antt =====
-- What `siblingAndLevel` answers on an array in the cornerstone format, and that all it reads
-- stands inside the array.
use native.Mathlib.Decide.{dec_lt}
use cornerstone_octree.Base.{
  ℕ, suc, ◌+◌, ◌-◌, ◌/◌, ◌%◌, ◌^◌, ◌≤◌, ◌<◌, ◌≡◌, refl, ap, sym, ◌∙◌, arith, Bool, true, false,
  ◌==◌, ==_iff, if◌then◌else◌, List, ◌!◌, none, some,
}
use cornerstone_octree.Base.Pow.{pow8-pos, pow8_mono, div-add_multiple}
use cornerstone_octree.Key.{
  KeyType, max_tree_level, add_key, sub_key, n_nodes, sub_key_exact, add_key_exact,
  remove_key-lt-modulus, remove_key-eq-pow8,
}
use cornerstone_octree.Sfc.Range.{
  node_range-pow8, tree_level, tree_level-pow8, octal_digit-div, range_lt,
}
use cornerstone_octree.Tree.Leaves.{IsOctree}
use cornerstone_octree.Tree.Csarray.{sibling_and_level}
use cornerstone_octree.Tree.Csarray.Siblings.{
  key-le, digit-le, digit_room, group_sizes, group_starts,
}

-- Node `i` is number `s` of eight neighbours of size `8 ^ e` that fill their parent's size.
pub record InGroup (k : KeyType) (tree : List ℕ) (i s e : ℕ) : Type 0 where
  pub number : s < 8
  pub before : s ≤ i
  pub inside : i - s + 8 ≤ n_nodes tree
  pub deep : e < max_tree_level k
  pub aligned : tree ! i / 8 ^ e % 8 ≡ s
  pub size : tree ! suc i ≡ tree ! i + 8 ^ e
  pub total : tree ! (i - s + 8) ≡ tree ! (i - s) + 8 ^ suc e

module _ {k : KeyType} {tree : List ℕ} (o : IsOctree k tree) where
  abbrev n : ℕ
  n = n_nodes tree

  pub key-lt : (i : ℕ) → i < n → tree ! i < 8 ^ max_tree_level k
  key-lt i h =
      let (e, small, step) = o.steps i h in omega (arith, key-le o (suc i) h, step, pow8-pos e)

  pub node_level :
      (i e : ℕ)
      → i < n
      → e ≤ max_tree_level k
      → tree ! suc i ≡ tree ! i + 8 ^ e
      → tree_level k (sub_key k (tree ! (i + 1)) (tree ! i)) ≡ max_tree_level k - e
  node_level i e h small step =
      let next : i + 1 ≡ suc i = omega arith in
      let exact =
        sub_key_exact k (tree ! suc i) (tree ! i) (omega arith)
          (omega (arith, key-le o (suc i) h, range_lt k (max_tree_level k) (omega arith))) in
      let size : sub_key k (tree ! suc i) (tree ! i) ≡ 8 ^ e = omega (arith, exact) in
      rw (next, size) (tree_level-pow8 k e small)

  -- The digit at the node's own level leaves room for the seven siblings.
  pub sibling_bounds :
      (i e : ℕ)
      → i < n
      → e < max_tree_level k
      → tree ! suc i ≡ tree ! i + 8 ^ e
      → let s = tree ! i / 8 ^ e % 8 in (s ≤ i) × (i - s + 8 ≤ n)
  sibling_bounds i e h deep step =
      let s : ℕ = tree ! i / 8 ^ e % 8 in
      let low : s ≤ i = digit-le o e i (omega arith) in
      let up : tree ! suc i / 8 ^ e ≡ tree ! i / 8 ^ e + 1 =
        ap (λ (t : ℕ). t / 8 ^ e) (step ∙ omega arith) ∙ div-add_multiple (tree ! i) e 1 in
      (
        low,
        elim (dec_lt 0 s) [
          | yes p ↦ omega (arith, low, digit_room o e (n - i) i deep (omega arith) p)
          | no p ↦ omega (
            arith,
            low,
            up,
            digit_room o e (n - suc i) (suc i) deep (omega arith) (omega (arith, up)),
          )
        ],
      )

  -- The test that the eight siblings are there.
  abbrev complete : ℕ → ℕ → Bool
  complete g e = tree ! (g + 8) == add_key k (tree ! g) (8 ^ suc e)

  add_exact :
      (g e : ℕ)
      → g < n
      → e < max_tree_level k
      → add_key k (tree ! g) (8 ^ suc e) ≡ tree ! g + 8 ^ suc e
  add_exact g e h deep = add_key_exact k (tree ! g) (8 ^ suc e) (
      omega (
        arith,
        key-lt g h,
        pow8_mono (suc e) (max_tree_level k) deep,
        remove_key-lt-modulus k,
        remove_key-eq-pow8 k,
      ))

  -- The answer for a node below the root.
  sibling_and_level_deep :
      (i e : ℕ)
      → i < n
      → e < max_tree_level k
      → tree ! suc i ≡ tree ! i + 8 ^ e
      → let s = tree ! i / 8 ^ e % 8 in
        sibling_and_level k tree i ≡ (
          if complete (i - s) e
          then (some s, max_tree_level k - e)
          else (none, max_tree_level k - e))
  unfolding sibling_and_level
  sibling_and_level_deep i e h deep step =
      let up : max_tree_level k - (max_tree_level k - e) ≡ e = omega arith in
      let parent : max_tree_level k - (max_tree_level k - e - 1) ≡ suc e = omega arith in
      let positive : (max_tree_level k - e == 0) ≡ false = ground arith in
      rw
        (
          node_level i e h (omega arith) step,
          octal_digit-div k (tree ! i) (max_tree_level k - e),
          node_range-pow8 k (max_tree_level k - e - 1),
          up,
          parent,
          positive,
        )
        refl

  -- The root alone has no siblings.
  sibling_and_level_root :
      (i : ℕ)
      → i < n
      → tree ! suc i ≡ tree ! i + 8 ^ max_tree_level k
      → sibling_and_level k tree i ≡ (none, 0)
  unfolding sibling_and_level
  sibling_and_level_root i h step =
      let up : max_tree_level k - max_tree_level k ≡ 0 = omega arith in
      rw (node_level i (max_tree_level k) h (omega arith) step, up) refl

  -- The level that comes back is that of the node's size.
  pub level_found :
      (i e : ℕ)
      → i < n
      → e ≤ max_tree_level k
      → tree ! suc i ≡ tree ! i + 8 ^ e
      → (sibling_and_level k tree i).1 ≡ max_tree_level k - e
  level_found i e h small step = elim (dec_lt e (max_tree_level k)) [
    | yes deep ↦ rw (sibling_and_level_deep i e h deep step) (ground arith)
    | no top ↦
        let same : max_tree_level k ≡ e = omega arith in
        rw (sibling_and_level_root i h (step ∙ ap (λ x. tree ! i + 8 ^ x) (sym same))) (omega arith)
  ]

  found_deep :
      (i s e : ℕ)
      → i < n
      → e < max_tree_level k
      → tree ! suc i ≡ tree ! i + 8 ^ e
      → (sibling_and_level k tree i).0 ≡ some s
      → InGroup k tree i s e
  found_deep i s e h deep step found =
      let d : ℕ = tree ! i / 8 ^ e % 8 in
      let parts : (complete (i - d) e ≡ true) × (d ≡ s) = (
        ground (arith, sibling_and_level_deep i e h deep step),
        ground (arith, sibling_and_level_deep i e h deep step),
      ) in
      let (low, room) = sibling_bounds i e h deep step in
      let total : tree ! (i - d + 8) ≡ tree ! (i - d) + 8 ^ suc e =
        (==_iff _ _).0 parts.0 ∙ add_exact (i - d) e (omega arith) deep in
      record {
        number = omega (arith, parts.1);
        before = omega (arith, parts.1);
        inside = omega (arith, parts.1);
        deep = deep;
        aligned = parts.1;
        size = step;
        total = rw parts.1 at total;
      }

  -- A sibling index that comes back names a group of eight.
  pub sibling_found :
      (i s e : ℕ)
      → i < n
      → e ≤ max_tree_level k
      → tree ! suc i ≡ tree ! i + 8 ^ e
      → (sibling_and_level k tree i).0 ≡ some s
      → InGroup k tree i s e
  sibling_found i s e h small step found = elim (dec_lt e (max_tree_level k)) [
    | yes deep ↦ found_deep i s e h deep step found
    | no top ↦
        let same : max_tree_level k ≡ e = omega arith in
        cc (sibling_and_level_root i h (step ∙ ap (λ x. tree ! i + 8 ^ x) (sym same)))
  ]

  -- Every member of a group is found in it.
  pub member_found :
      (i s e t : ℕ)
      → i < n
      → InGroup k tree i s e
      → t < 8
      → InGroup k tree (i - s + t) t e
        × (sibling_and_level k tree (i - s + t) ≡ (some t, max_tree_level k - e))
  member_found i s e t h group p =
      let g : ℕ = i - s in
      let back : g + s ≡ i = omega (arith, group.before) in
      let starts = group_starts o g e group.inside group.total in
      let first_aligned : tree ! g / 8 ^ e % 8 ≡ 0 = omega (
        arith,
        group.aligned,
        group.number,
        ap (λ (x : ℕ). tree ! x / 8 ^ e) back,
        ap (λ (x : ℕ). x / 8 ^ e) (starts s (omega (arith, group.number))),
        div-add_multiple (tree ! g) e s,
      ) in
      let aligned : tree ! (g + t) / 8 ^ e % 8 ≡ t = omega (
        arith,
        first_aligned,
        ap (λ (x : ℕ). x / 8 ^ e) (starts t (omega arith)),
        div-add_multiple (tree ! g) e t,
      ) in
      let first : g + t - t ≡ g = omega arith in
      let inside : g + t < n = omega (arith, group.inside) in
      let size = group_sizes o g e group.inside group.total t p in
      let whole : complete g e ≡ true =
        (==_iff _ _).1
          (group.total ∙ sym (add_exact g e (omega (arith, group.inside)) group.deep)) in
      (
        record {
          number = p;
          before = omega arith;
          inside = rw first group.inside;
          deep = group.deep;
          aligned = aligned;
          size = size;
          total = rw first group.total;
        },
        sibling_and_level_deep (g + t) e inside group.deep size ∙ rw (aligned, first, whole) refl,
      )
