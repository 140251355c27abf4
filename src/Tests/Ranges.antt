-- ===== src/Tests/Ranges.antt =====
-- Runs of the range containers and of the field states, and their properties there.
use cornerstone_octree.Base.{ℕ, ◌<◌, ◌≢◌, ◌⊎◌, ◌≡◌, ◌==◌, if◌then◌else◌, refl, arith, [], ◌∷◌, ◌++◌}
use cornerstone_octree.Domain.IndexRanges.{IndexRanges, empty_ranges, add_range}
use cornerstone_octree.Domain.IndexRanges.View.{
  IsRanges, empty_ranges-IsRanges, ranges, add_range-ranges,
}
use cornerstone_octree.Fields.{
  unused, conserved, dependent, released, FieldStates, returned, thrown, no_suitable_field,
  already_in_use, state_of, state_at, field_at, release_one, acquire_loop, acquire_one, release,
  acquire,
}
use cornerstone_octree.Fields.Acquired.{IsSuitable, IsNone, IsPassed, acquire_one-IsPassed}
use cornerstone_octree.Fields.Conserved.{IsConserved, acquire-IsConserved}

abbrev one_range : IndexRanges
one_range = add_range empty_ranges 6 10

one_range-IsRanges : IsRanges one_range
one_range-IsRanges =
    (add_range-ranges empty_ranges 6 10 empty_ranges-IsRanges (omega arith) (omega arith)).0

add_range-ranges_example :
    IsRanges (add_range one_range 14 18)
    × (ranges (add_range one_range 14 18)
        ≡ (if 14 == 18 then ranges one_range else ranges one_range ++ (14, 18) ∷ []))
add_range-ranges_example =
    add_range-ranges one_range 14 18 one_range-IsRanges (omega arith) (omega arith)

-- Four fields: one conserved, one dependent, one unused, one released.
abbrev some_fields : FieldStates
some_fields = record {
  states = conserved ∷ dependent ∷ unused ∷ released ∷ [];
  fields =
      record { element = 8; memory = 100 }
      ∷ record { element = 4; memory = 101 }
      ∷ record { element = 4; memory = 0 }
      ∷ record { element = 8; memory = 103 }
      ∷ [];
}

-- The third field cannot take the memory of the last, whose elements are of another type; after the second
-- is released, it takes that one's.
no_acquire_run : acquire some_fields (2 ∷ []) ≡ thrown no_suitable_field some_fields
unfolding acquire acquire_one acquire_loop
no_acquire_run = refl

acquire_run :
    field_at (state_of (acquire (state_of (release some_fields (1 ∷ []))) (2 ∷ []))) 2
    ≡ record { element = 4; memory = 101 }
unfolding acquire acquire_one acquire_loop release release_one
acquire_run = refl

acquire_one-IsPassed_example :
    ((state_at some_fields 2 ≢ unused)
      × (acquire_one some_fields 2 ≡ thrown already_in_use some_fields))
    ⊎ ((state_at some_fields 2 ≡ unused)
        × (((acquire_one some_fields 2 ≡ thrown no_suitable_field some_fields)
              × IsNone some_fields 2 0 4)
            ⊎ ((i : ℕ) × (s' : FieldStates) × (acquire_one some_fields 2 ≡ returned s')
                × (i < 4)
                × IsSuitable some_fields 2 i
                × IsNone some_fields 2 0 i
                × IsPassed some_fields 2 i s')))
acquire_one-IsPassed_example = acquire_one-IsPassed some_fields 2 refl (omega arith)

first-IsConserved : IsConserved some_fields 0 (record { element = 8; memory = 100 })
first-IsConserved = record { state = refl; field = refl }

acquire-IsConserved_example :
    IsConserved (state_of (acquire some_fields (2 ∷ []))) 0 (record { element = 8; memory = 100 })
acquire-IsConserved_example =
    acquire-IsConserved some_fields (2 ∷ []) 0 (record { element = 8; memory = 100 })
      first-IsConserved
