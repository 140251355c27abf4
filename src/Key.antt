-- ===== src/Key.antt =====
-- include/cstone/tree/definitions.h: the two key types, their traits, and the arithmetic of
-- unsigned keys, which wraps at the width of the type.
use cornerstone_octree.Base.{ℕ, ◌+◌, ◌-◌, ◌*◌, ◌%◌, ◌^◌, ◌≤◌, ◌<◌, ◌≡◌, refl, arith, List, length}

-- `unsigned` and `unsigned long (long)`, the arguments of the templates over `KeyType`.
pub data KeyType : Type 0 where
  u32 u64 : KeyType

-- `8 * sizeof(KeyType)`.
abbrev pub key_bits : KeyType → ℕ
key_bits u32 = 32
key_bits u64 = 64

-- `unusedBits<KeyType>`.
abbrev pub unused_bits : KeyType → ℕ
unused_bits u32 = 2
unused_bits u64 = 1

-- `maxTreeLevel<KeyType>`.
abbrev pub max_tree_level : KeyType → ℕ
max_tree_level u32 = 10
max_tree_level u64 = 21

-- The number of values of the key type.
abbrev pub modulus : KeyType → ℕ
modulus u32 = 0x1_0000_0000
modulus u64 = 0x1_0000_0000_0000_0000

-- `removeKey<KeyType>::value`, which is also the end of the key range.
abbrev pub remove_key : KeyType → ℕ
remove_key u32 = 0x4000_0000
remove_key u64 = 0x8000_0000_0000_0000

-- Unsigned `+`, `-`, `*` and `<<` on keys; `-` on ℕ stops at 0, so the modulus is added first.
unfoldable pub add_key : KeyType → ℕ → ℕ → ℕ
add_key k a b = (a + b) % modulus k

unfoldable pub sub_key : KeyType → ℕ → ℕ → ℕ
sub_key k a b = (a + modulus k - b) % modulus k

unfoldable pub mul_key : KeyType → ℕ → ℕ → ℕ
mul_key k a b = a * b % modulus k

unfoldable pub shl_key : KeyType → ℕ → ℕ → ℕ
shl_key k a n = a * 2 ^ n % modulus k

-- `nNodes(tree)`: a vector of n + 1 keys holds n nodes.
unfoldable pub n_nodes : List ℕ → ℕ
n_nodes tree = length tree - 1

pub remove_key-eq-pow8 : (k : KeyType) → remove_key k ≡ 8 ^ max_tree_level k
remove_key-eq-pow8 u32 = refl
remove_key-eq-pow8 u64 = refl

pub remove_key-lt-modulus : (k : KeyType) → remove_key k * 2 ≤ modulus k
remove_key-lt-modulus u32 = omega arith
remove_key-lt-modulus u64 = omega arith

pub key_bits_split : (k : KeyType) → key_bits k ≡ 3 * max_tree_level k + unused_bits k
key_bits_split u32 = refl
key_bits_split u64 = refl

pub add_key_exact : (k : KeyType) (a b : ℕ) → a + b < modulus k → add_key k a b ≡ a + b
unfolding add_key
add_key_exact u32 a b h = omega arith
add_key_exact u64 a b h = omega arith

pub sub_key_exact : (k : KeyType) (a b : ℕ) → b ≤ a → a < modulus k → sub_key k a b ≡ a - b
unfolding sub_key
sub_key_exact u32 a b h l = omega arith
sub_key_exact u64 a b h l = omega arith

pub mul_key_exact : (k : KeyType) (a b : ℕ) → a * b < modulus k → mul_key k a b ≡ a * b
unfolding mul_key
mul_key_exact u32 a b h = omega arith
mul_key_exact u64 a b h = omega arith
