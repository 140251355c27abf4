-- ===== src/Fields/Conserved.antt =====
-- `release` and `acquire` leave the conserved fields alone.
use cornerstone_octree.Base.{
  ℕ, zero, suc, ◌+◌, ◌≡◌, ◌≢◌, refl, ap, ◌∙◌, true, false, ◌==◌, List, [], ◌∷◌, length, set,
  get_or-set_ne, Bool-cases, inl, inr,
}
use cornerstone_octree.Fields.{
  State, unused, conserved, dependent, released, is_state, Field, FieldStates, Outcome, returned,
  thrown, state_of, state_at, field_at, release_one, acquire_loop, acquire_one, release, acquire,
}

-- A field that is conserved, with its memory.
pub record IsConserved (s : FieldStates) (j : ℕ) (f : Field) : Type 0 where
  pub state : state_at s j ≡ conserved
  pub field : field_at s j ≡ f

other_state :
    (s : FieldStates) (i j : ℕ) (t : State)
    → is_state (state_at s i) t ≡ true
    → is_state conserved t ≡ false
    → state_at s j ≡ conserved
    → i ≢ j
other_state s i j t e n c same = absurd (cc (ap (λ x. is_state (state_at s x) t) same))

release_one-IsConserved :
    (s : FieldStates) (i j : ℕ) (f : Field)
    → IsConserved s j f
    → IsConserved (state_of (release_one s i)) j f
unfolding release_one
release_one-IsConserved s i j f c = elim (Bool-cases (is_state (state_at s i) dependent)) [
  | inl t ↦
      let state = c.state in
      rw t (record {
        state =
            get_or-set_ne s.states i j released unused (other_state s i j dependent t refl state)
            ∙ state;
        field = c.field;
      })
  | inr t ↦ rw t c
]

acquire_loop-IsConserved :
    (s : FieldStates) (field left i j : ℕ) (f : Field)
    → field ≢ j
    → IsConserved s j f
    → IsConserved (state_of (acquire_loop s field left i)) j f
unfolding acquire_loop
acquire_loop-IsConserved s field zero i j f other c = c
acquire_loop-IsConserved s field (suc left) i j f other c =
    let rest = acquire_loop-IsConserved s field left (i + 1) j f other c in
    let state = c.state in
    elim (Bool-cases (is_state (state_at s i) released)) [
      | inr t ↦ rw t rest
      | inl t ↦ elim (Bool-cases ((field_at s i).element == (field_at s field).element)) [
        | inr u ↦ rw (t, u) rest
        | inl u ↦
            let apart = other_state s i j released t refl state in
            rw (t, u)
              (record {
                state =
                    get_or-set_ne (set s.states i unused) field j dependent unused other
                    ∙ get_or-set_ne s.states i j unused unused apart
                    ∙ state;
                field =
                    get_or-set_ne (set s.fields i (field_at s field)) field j (field_at s i) _ other
                    ∙ get_or-set_ne s.fields i j (field_at s field) _ apart
                    ∙ c.field;
              })
      ]
    ]

acquire_one-IsConserved :
    (s : FieldStates) (i j : ℕ) (f : Field)
    → IsConserved s j f
    → IsConserved (state_of (acquire_one s i)) j f
unfolding acquire_one
acquire_one-IsConserved s i j f c = elim (Bool-cases (is_state (state_at s i) unused)) [
  | inl t ↦
      let state = c.state in
      rw t (
        acquire_loop-IsConserved s i (length s.states) 0 j f (other_state s i j unused t refl state)
          c)
  | inr t ↦ rw t c
]

-- `release` leaves a conserved field conserved and with its memory, whether it returns or throws.
pub release-IsConserved :
    (s : FieldStates) (is : List ℕ) (j : ℕ) (f : Field)
    → IsConserved s j f
    → IsConserved (state_of (release s is)) j f
unfolding release
release-IsConserved s [] j f c = c
release-IsConserved s (i ∷ is) j f c =
    go (λ s' c'. release-IsConserved s' is j f c') (release_one s i)
      (release_one-IsConserved s i j f c)
  where
    go :
        ((s' : FieldStates) → IsConserved s' j f → IsConserved (state_of (release s' is)) j f)
        → (r : Outcome) → IsConserved (state_of r) j f
        → IsConserved
            (state_of (elim r [ returned s' ↦ release s' is | thrown e s' ↦ thrown e s' ]))
            j
            f
    go next (returned s') c' = next s' c'
    go next (thrown e s') c' = c'

-- `acquire` leaves a conserved field conserved and with its memory, whether it returns or throws.
pub acquire-IsConserved :
    (s : FieldStates) (is : List ℕ) (j : ℕ) (f : Field)
    → IsConserved s j f
    → IsConserved (state_of (acquire s is)) j f
unfolding acquire
acquire-IsConserved s [] j f c = c
acquire-IsConserved s (i ∷ is) j f c =
    go (λ s' c'. acquire-IsConserved s' is j f c') (acquire_one s i)
      (acquire_one-IsConserved s i j f c)
  where
    go :
        ((s' : FieldStates) → IsConserved s' j f → IsConserved (state_of (acquire s' is)) j f)
        → (r : Outcome) → IsConserved (state_of r) j f
        → IsConserved
            (state_of (elim r [ returned s' ↦ acquire s' is | thrown e s' ↦ thrown e s' ]))
            j
            f
    go next (returned s') c' = next s' c'
    go next (thrown e s') c' = c'
