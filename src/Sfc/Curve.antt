-- ===== src/Sfc/Curve.antt =====
-- What the code of include/cstone/sfc relies on in a space-filling curve, whichever one it is.
use cornerstone_octree.Base.{ℕ, ◌/◌, ◌^◌, ◌<◌, ◌≡◌, ◌↔◌}
use cornerstone_octree.Key.{KeyType, max_tree_level}

-- A point whose coordinates a curve takes.
abbrev pub IsPoint : KeyType → ℕ → ℕ → ℕ → Type 0
IsPoint k x y z =
    (x < 2 ^ max_tree_level k) × (y < 2 ^ max_tree_level k) × (z < 2 ^ max_tree_level k)

-- The keys of points are inside the key range, and two points are in one cell of any level exactly if their
-- keys are in the range of one node of the level.
pub record IsCurve (k : KeyType) (sfc_key : ℕ → ℕ → ℕ → ℕ) : Type 0 where
  pub inside : (x y z : ℕ) → IsPoint k x y z → sfc_key x y z < 8 ^ max_tree_level k
  pub cells :
      (e x y z u v w : ℕ)
      → IsPoint k x y z
      → IsPoint k u v w
      → (sfc_key x y z / 8 ^ e ≡ sfc_key u v w / 8 ^ e)
        ↔ ((x / 2 ^ e ≡ u / 2 ^ e) × (y / 2 ^ e ≡ v / 2 ^ e) × (z / 2 ^ e ≡ w / 2 ^ e))
