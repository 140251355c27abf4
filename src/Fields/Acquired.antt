-- ===== src/Fields/Acquired.antt =====
-- Which memory `acquireOne` passes on, and when it finds none.
use native.Mathlib.Decide.{dec_lt}
use cornerstone_octree.Base.{
  ℕ, zero, suc, ◌+◌, ◌≤◌, ◌<◌, ◌≡◌, ◌≢◌, ◌⊎◌, inl, inr, refl, ap, sym, ◌∙◌, arith, true, ◌==◌,
  length, length-set, set, get_or-set_self, get_or-set_ne, Bool-cases,
}
use cornerstone_octree.Fields.{
  State, unused, conserved, dependent, released, is_state, FieldStates, Outcome, returned, thrown,
  no_suitable_field, already_in_use, state_at, field_at, acquire_loop, acquire_one,
}

is_state-released : (t : State) → is_state t released ≡ true → t ≡ released
is_state-released unused h = absurd (cc h)
is_state-released conserved h = absurd (cc h)
is_state-released dependent h = absurd (cc h)
is_state-released released h = refl

is_state-unused : (t : State) → is_state t unused ≡ true → t ≡ unused
is_state-unused unused h = refl
is_state-unused conserved h = absurd (cc h)
is_state-unused dependent h = absurd (cc h)
is_state-unused released h = absurd (cc h)

-- A released field with elements of the type that a field has.
abbrev pub IsSuitable : FieldStates → ℕ → ℕ → Type 0
IsSuitable s field i =
    (state_at s i ≡ released) × ((field_at s i).element ≡ (field_at s field).element)

-- The two fields have exchanged their memory, and all else is as it was.
pub record IsPassed (s : FieldStates) (field i : ℕ) (s' : FieldStates) : Type 0 where
  pub taken : field_at s' field ≡ field_at s i
  pub given : field_at s' i ≡ field_at s field
  pub in_use : state_at s' field ≡ dependent
  pub free : state_at s' i ≡ unused
  pub others :
      (j : ℕ) → j ≢ field → j ≢ i → (field_at s' j ≡ field_at s j) × (state_at s' j ≡ state_at s j)

-- The first suitable field from `i` up to `n`.
abbrev IsFirst : FieldStates → ℕ → ℕ → ℕ → ℕ → Type 0
IsFirst s field i n j =
    (i ≤ j)
    × (j < n)
    × IsSuitable s field j
    × ((m : ℕ)
        → i ≤ m
        → m < j
        → state_at s m ≡ released
        → (field_at s m).element ≢ (field_at s field).element)

abbrev passed : FieldStates → ℕ → ℕ → FieldStates
passed s field i = record {
  states = set (set s.states i unused) field dependent;
  fields = set (set s.fields i (field_at s field)) field (field_at s i);
}

passed-IsPassed :
    (s : FieldStates) (field i : ℕ)
    → length s.fields ≡ length s.states
    → field < length s.states
    → i < length s.states
    → field ≢ i
    → IsPassed s field i (passed s field i)
passed-IsPassed s field i size inside h apart = record {
  taken =
      get_or-set_self (set s.fields i (field_at s field)) field (field_at s i) _
        (omega (arith, length-set s.fields i (field_at s field), size));
  given =
      get_or-set_ne (set s.fields i (field_at s field)) field i (field_at s i) _ apart
      ∙ get_or-set_self s.fields i (field_at s field) _ (omega (arith, size));
  in_use =
      get_or-set_self (set s.states i unused) field dependent unused
        (omega (arith, length-set s.states i unused));
  free =
      get_or-set_ne (set s.states i unused) field i dependent unused apart
      ∙ get_or-set_self s.states i unused unused h;
  others = λ j other other'. (
    get_or-set_ne (set s.fields i (field_at s field)) field j (field_at s i) _ (λ e. other (sym e))
        ∙ get_or-set_ne s.fields i j (field_at s field) _ (λ e. other' (sym e)),
    get_or-set_ne (set s.states i unused) field j dependent unused (λ e. other (sym e))
        ∙ get_or-set_ne s.states i j unused unused (λ e. other' (sym e)),
  );
}

-- No field from `i` up to `n` is suitable.
abbrev pub IsNone : FieldStates → ℕ → ℕ → ℕ → Type 0
IsNone s field i n =
    (m : ℕ)
    → i ≤ m
    → m < n
    → state_at s m ≡ released
    → (field_at s m).element ≢ (field_at s field).element

abbrev IsFound : FieldStates → ℕ → ℕ → ℕ → Outcome → Type 0
IsFound s field i n r =
    ((r ≡ thrown no_suitable_field s) × IsNone s field i n)
    ⊎ ((j : ℕ) × IsFirst s field i n j × (r ≡ returned (passed s field j)))

IsFound-next :
    (s : FieldStates) (field left i : ℕ) (r : Outcome)
    → (state_at s i ≡ released → (field_at s i).element ≢ (field_at s field).element)
    → IsFound s field (i + 1) (i + 1 + left) r
    → IsFound s field i (i + suc left) r
IsFound-next s field left i r here (inl (none, rest)) = inl (
  none,
  λ m p q. elim (dec_lt i m) [
    | yes lt ↦ rest m (omega arith) (omega arith)
    | no ge ↦ let e : i ≡ m = omega arith in rw (← e) here
  ],
)
IsFound-next s field left i r here (inr (j, (from, to, suitable, first), value)) = inr (
  j,
  (
    omega arith,
    omega arith,
    suitable,
    λ m p q. elim (dec_lt i m) [
      | yes lt ↦ first m (omega arith) q
      | no ge ↦ let e : i ≡ m = omega arith in rw (← e) here
    ],
  ),
  value,
)

acquire_loop-IsFound :
    (s : FieldStates) (field left i : ℕ)
    → IsFound s field i (i + left) (acquire_loop s field left i)
unfolding acquire_loop
acquire_loop-IsFound s field zero i = inl (refl, λ m p q. absurd (omega arith))
acquire_loop-IsFound s field (suc left) i =
    let rest = acquire_loop-IsFound s field left (i + 1) in
    elim (Bool-cases (is_state (state_at s i) released)) [
      | inr t ↦ rw t (
          IsFound-next s field left i (acquire_loop s field left (i + 1))
            (λ e. absurd (cc (ap (λ x. is_state x released) e))) rest)
      | inl t ↦ elim (Bool-cases ((field_at s i).element == (field_at s field).element)) [
        | inr u ↦
            rw (t, u)
              (IsFound-next s field left i (acquire_loop s field left (i + 1))
                (λ e. ground (arith, u)) rest)
        | inl u ↦
            rw (t, u)
              (inr (
                i,
                (
                  omega arith,
                  omega arith,
                  (is_state-released (state_at s i) t, ground (arith, u)),
                  λ m p q. absurd (omega arith),
                ),
                refl,
              ))
      ]
    ]

-- `acquireOne` throws and changes nothing if the field is not unused, and else exactly if no released field has
-- elements of its type. Otherwise it exchanges the memory of the field with that of the first such field, which becomes
-- unused while the field becomes dependent, and leaves all other fields as they were. This is for as many
-- states as fields, and a field among them.
pub acquire_one-IsPassed :
    (s : FieldStates) (field : ℕ)
    → length s.fields ≡ length s.states
    → field < length s.states
    → ((state_at s field ≢ unused) × (acquire_one s field ≡ thrown already_in_use s))
      ⊎ ((state_at s field ≡ unused)
          × (((acquire_one s field ≡ thrown no_suitable_field s)
                × IsNone s field 0 (length s.states))
              ⊎ ((i : ℕ) × (s' : FieldStates) × (acquire_one s field ≡ returned s')
                  × (i < length s.states)
                  × IsSuitable s field i
                  × IsNone s field 0 i
                  × IsPassed s field i s')))
unfolding acquire_one
acquire_one-IsPassed s field size inside = elim (Bool-cases (is_state (state_at s field) unused)) [
  | inr t ↦ inl (λ e. absurd (cc (ap (λ x. is_state x unused) e)), rw t refl)
  | inl t ↦
      let free = is_state-unused (state_at s field) t in
      inr (
        free,
        elim (acquire_loop-IsFound s field (length s.states) 0) [
          | inl (none, each) ↦ inl (rw t none, λ m p q. each m p (omega arith))
          | inr (i, (from, to, suitable, first), value) ↦
              let apart : field ≢ i =
                λ e. absurd (cc (sym free ∙ ap (λ (x : ℕ). state_at s x) e ∙ suitable.0)) in
              inr (
                i,
                passed s field i,
                rw t value,
                omega arith,
                suitable,
                first,
                passed-IsPassed s field i size inside (omega arith) apart,
              )
        ],
      )
]
