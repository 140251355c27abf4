-- ===== src/Fields.antt =====
-- include/cstone/fields/field_states.hpp: which fields of a data set hold memory. A field is its index; the
-- lookup of names is `find_field`. An index behind the last field, at which the source's behaviour is
-- undefined, reads as unused here.
pub mod Acquired
pub mod Conserved
use cornerstone_octree.Base.{
  ℕ, zero, suc, ◌+◌, Bool, true, false, ◌==◌, if◌then◌else◌, List, [], ◌∷◌, length, set, get_or,
  Option, none, some,
}

-- `FieldStates::State`.
pub data State : Type 0 where
  unused conserved dependent released : State

-- `fieldStates_[i] == s`.
abbrev pub is_state : State → State → Bool
is_state unused unused = true
is_state conserved conserved = true
is_state dependent dependent = true
is_state released released = true
is_state s t = false

-- What `DataType::data()` points to: the type of the field's elements, and the memory that it holds.
pub record Field : Type 0 where
  pub element : ℕ
  pub memory : ℕ

-- The states and the fields of a data set.
pub record FieldStates : Type 0 where
  pub states : List State
  pub fields : List Field

-- The two ways in which `release` and `acquire` throw, and the one of `setConserved` and `setDependent`.
pub data Failure : Type 0 where
  wrong_state already_in_use no_suitable_field unknown_field : Failure

-- A call returns or throws; what it has changed stays changed.
pub data Outcome : Type 0 where
  returned : FieldStates → Outcome
  thrown : Failure → FieldStates → Outcome

abbrev pub state_of : Outcome → FieldStates
state_of (returned s) = s
state_of (thrown e s) = s

-- The state of a field, and a field.
abbrev pub state_at : FieldStates → ℕ → State
state_at s i = get_or s.states i unused

abbrev pub field_at : FieldStates → ℕ → Field
field_at s i = get_or s.fields i (record { element = 0; memory = 0 })

-- `std::find(fieldNames.begin(), fieldNames.end(), field) - fieldNames.begin()`, for names with a test of
-- equality.
unfoldable pub find_field {ℓ} : {Name : Type ℓ} → (Name → Name → Bool) → List Name → Name → ℕ
find_field same [] field = 0
find_field same (name ∷ names) field =
    if same name field then 0 else suc (find_field same names field)

-- `isAllocated` and `isConserved`.
unfoldable pub is_allocated : FieldStates → ℕ → Bool
is_allocated s i = if is_state (state_at s i) unused then false else true

unfoldable pub is_conserved : FieldStates → ℕ → Bool
is_conserved s i = is_state (state_at s i) conserved

-- `setState`, with the test for an unknown name.
unfoldable pub set_state : FieldStates → ℕ → State → Outcome
set_state s i state =
    if i == length s.states
    then thrown unknown_field s
    else returned (record { states = set s.states i state; fields = s.fields })

-- `releaseOne`.
unfoldable pub release_one : FieldStates → ℕ → Outcome
release_one s i =
    if is_state (state_at s i) dependent
    then returned (record { states = set s.states i released; fields = s.fields })
    else thrown wrong_state s

-- The loop of `acquireOne` over the fields from `i` on, `left` of them: `swapFields` exchanges the memory.
unfoldable pub acquire_loop : FieldStates → ℕ → ℕ → ℕ → Outcome
acquire_loop s field zero i = thrown no_suitable_field s
acquire_loop s field (suc left) i =
    let rest = acquire_loop s field left (i + 1) in
    if is_state (state_at s i) released
    then if (field_at s i).element == (field_at s field).element
      then returned (record {
        states = set (set s.states i unused) field dependent;
        fields = set (set s.fields i (field_at s field)) field (field_at s i);
      })
      else rest
    else rest

-- `acquireOne`.
unfoldable pub acquire_one : FieldStates → ℕ → Outcome
unfolding acquire_loop
acquire_one s field =
    if is_state (state_at s field) unused
    then acquire_loop s field (length s.states) 0
    else thrown already_in_use s

-- `release` and `acquire` of several fields: the first that throws ends the call.
unfoldable pub release : FieldStates → List ℕ → Outcome
release s [] = returned s
release s (i ∷ is) = elim (release_one s i) [
  | returned s' ↦ release s' is
  | thrown e s' ↦ thrown e s'
]

unfoldable pub acquire : FieldStates → List ℕ → Outcome
acquire s [] = returned s
acquire s (i ∷ is) = elim (acquire_one s i) [
  | returned s' ↦ acquire s' is
  | thrown e s' ↦ thrown e s'
]
