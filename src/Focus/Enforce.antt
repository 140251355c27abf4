-- ===== src/Focus/Enforce.antt =====
-- include/cstone/focus/rebalance.hpp: the operations are changed so that given keys come to be in the tree.
pub mod Ancestors
pub mod Status
pub mod Keys
use cornerstone_octree.Base.{
  ℕ, zero, suc, ◌+◌, ◌-◌, ◌*◌, ◌/◌, ◌^◌, Bool, true, false, not, ◌&&◌, ◌||◌, ◌==◌, ltb,
  if◌then◌else◌, List, [], ◌∷◌, set, ◌!◌, max,
}
use cornerstone_octree.Base.Int.{ℤ, pos, pos_part, sub_ℕ, ltb_ℤ, min_ℤ}
use cornerstone_octree.Key.{KeyType, max_tree_level}
use cornerstone_octree.Sfc.Range.{node_range, last_nz_place}
use cornerstone_octree.Sfc.Prefix.{decode_prefix_length, make_prefix}
use cornerstone_octree.Tree.Linked.{containing_node}

pub data ResolutionStatus : Type 0 where
  converged cancel_merge rebalance failed : ResolutionStatus

-- The values of the enumeration, and `std::max` by them.
abbrev pub status_value : ResolutionStatus → ℕ
status_value converged = 0
status_value cancel_merge = 1
status_value rebalance = 2
status_value failed = 3

unfoldable pub max_status : ResolutionStatus → ResolutionStatus → ResolutionStatus
max_status a b = if ltb (status_value a) (status_value b) then b else a

-- The loop of `enforceKeySingle` over eight siblings, from `i` on, `left` of them.
unfoldable pub keep_siblings : ℕ → ℕ → List ℕ → List ℕ
keep_siblings zero i node_ops = node_ops
keep_siblings (suc left) i node_ops =
    keep_siblings left (i + 1) (if node_ops ! i == 0 then set node_ops i 1 else node_ops)

-- Its loop over the ancestors of a node that is not the root. A parent stands before its children, so as many
-- rounds as the index of the node are enough.
unfoldable pub keep_ancestors : List ℕ → List ℕ → ℕ → ℕ → List ℕ → List ℕ
unfolding keep_siblings
keep_ancestors child_offsets parents zero node node_ops = node_ops
keep_ancestors child_offsets parents (suc fuel) node node_ops =
    let parent = parents ! ((node - 1) / 8) in
    let node_ops' = keep_siblings 8 (child_offsets ! parent) node_ops in
    elim (parent == 0) [
      | true ↦ node_ops'
      | false ↦ keep_ancestors child_offsets parents fuel parent node_ops'
    ]

-- The part of `enforceKeySingle` behind the search for the closest node `i`, with the difference between the
-- level of the key and that of the node; a shift by a negative number, which has no meaning, is one by 0.
unfoldable pub enforce_at : List ℕ → List ℕ → ℕ → Bool → ℤ → List ℕ → ResolutionStatus × List ℕ
unfolding keep_ancestors min_ℤ
enforce_at child_offsets parents i try_split level_diff node_ops =
    let cancels = (node_ops ! i == 0 || try_split) && ltb 0 i in
    let status = if cancels then cancel_merge else converged in
    let node_ops' =
      if cancels then keep_ancestors child_offsets parents i i node_ops else node_ops in
    if try_split
    then (
      (if ltb_ℤ (pos 1) level_diff then failed else rebalance),
      set node_ops' i (max (node_ops' ! i) (2 ^ (3 * pos_part (min_ℤ level_diff (pos 1))))),
    )
    else (status, node_ops')

-- `enforceKeySingle`.
unfoldable pub enforce_key_single :
    KeyType → ℕ → List ℕ → List ℕ → List ℕ → List ℕ → ResolutionStatus × List ℕ
unfolding enforce_at
enforce_key_single k key node_keys child_offsets parents node_ops =
    if key == 0 || key == node_range k 0
    then (converged, node_ops)
    else (let node_key_want = make_prefix k key in
        let i = containing_node k node_key_want node_keys child_offsets in
        let node_level_have = decode_prefix_length k (node_keys ! i) / 3 in
        let try_split =
          not (node_keys ! i == node_key_want) && ltb node_level_have (max_tree_level k) in
        enforce_at child_offsets parents i try_split (sub_ℕ (last_nz_place k key) node_level_have)
          node_ops)

-- The loop of `enforceKeys`, and the function.
unfoldable pub enforce_loop :
    KeyType
    → List ℕ
    → List ℕ
    → List ℕ
    → List ℕ
    → ResolutionStatus × List ℕ
    → ResolutionStatus × List ℕ
unfolding enforce_key_single max_status
enforce_loop k node_keys child_offsets parents [] s = s
enforce_loop k node_keys child_offsets parents (key ∷ keys) (status, node_ops) =
    let (single, node_ops') = enforce_key_single k key node_keys child_offsets parents node_ops in
    enforce_loop k node_keys child_offsets parents keys (max_status single status, node_ops')

unfoldable pub enforce_keys :
    KeyType → List ℕ → List ℕ → List ℕ → List ℕ → List ℕ → ResolutionStatus × List ℕ
unfolding enforce_loop
enforce_keys k mandatory_keys node_keys child_offsets parents node_ops =
    enforce_loop k node_keys child_offsets parents mandatory_keys (converged, node_ops)
