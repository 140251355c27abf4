-- ===== src/Sfc/Span.antt =====
-- `spanSfcRange` of include/cstone/sfc/common.hpp: the nodes that cover a range of keys. The result is
-- `numValues`, what is written to `output`, and the key that the loops have reached.
pub mod Loops
pub mod Places
pub mod Cover
use cornerstone_octree.Base.{ℕ, zero, suc, ◌+◌, ◌-◌, ◌*◌, ◌/◌, ◌%◌, List, [], ◌∷◌, ◌++◌, bit_xor}
use cornerstone_octree.Key.{KeyType, max_tree_level, unused_bits, add_key}
use cornerstone_octree.Primitives.Clz.{count_leading_zeros}
use cornerstone_octree.Sfc.Range.{octal_digit, octal_power, last_nz_place}

-- The loop over the digits at one place.
unfoldable pub span_digits : KeyType → ℕ → ℕ → ℕ → List ℕ × ℕ
span_digits k pos zero a = ([], a)
span_digits k pos (suc num_digits) a =
    let (output, end) = span_digits k pos num_digits (add_key k a (octal_power k pos)) in
    (a ∷ output, end)

-- The loop over the places from `pos` to the left, `left` of them.
unfoldable pub span_up : KeyType → ℕ → ℕ → ℕ → ℕ × List ℕ × ℕ
unfolding span_digits
span_up k zero pos a = (0, [], a)
span_up k (suc left) pos a =
    let num_digits = (8 - octal_digit k a pos) % 8 in
    let (here, a') = span_digits k pos num_digits a in
    let (num_values, output, end) = span_up k left (pos - 1) a' in
    (num_digits + num_values, here ++ output, end)

-- The loop over the places from `pos` to the right; the digit of `b` is not below that of `a`.
unfoldable pub span_down : KeyType → ℕ → ℕ → ℕ → ℕ → ℕ × List ℕ × ℕ
unfolding span_digits
span_down k b zero pos a = (0, [], a)
span_down k b (suc left) pos a =
    let num_digits = octal_digit k b pos - octal_digit k a pos in
    let (here, a') = span_digits k pos num_digits a in
    let (num_values, output, end) = span_down k b left (pos + 1) a' in
    (num_digits + num_values, here ++ output, end)

-- `spanSfcRange`, for `a` at most `b`.
unfoldable pub span_sfc_range : KeyType → ℕ → ℕ → ℕ × List ℕ × ℕ
unfolding span_up span_down
span_sfc_range k a b =
    let first_diff = (count_leading_zeros k (bit_xor a b) + 3 - unused_bits k) / 3 in
    let (up_values, up_output, a') =
      span_up k (last_nz_place k a - first_diff) (last_nz_place k a) a in
    let (down_values, down_output, end) =
      span_down k b (last_nz_place k b + 1 - first_diff) first_diff a' in
    (up_values + down_values, up_output ++ down_output, end)
