-- ===== src/Guard/Examples.antt =====
-- The theorems on the guards, at items of one byte.
use barrique.Base.{ℕ, ◌-◌, ◌^◌, ◌≡◌, refl, none, some, true, List, [], ◌∷◌}
use barrique.Samples.{list_bearer}
use barrique.Codec.Int.{int_decode}
use barrique.Guard.Slots.{released}
use barrique.Guard.Array.{array_run}
use barrique.Guard.Pointer.{pointer_run, pointer_run_lem}

-- Three items are wanted, and two are there: both are dropped.
abbrev two : List ℕ
two = 7 ∷ 8 ∷ []

array_run_dropped :
    (array_run (int_decode 1) (List ℕ) list_bearer 3 two).memory
    ≡ some (released 3 true (7 ∷ 8 ∷ []))
unfolding array_run int_decode barrique.Codec.read
array_run_dropped = refl

-- That of a target of 64 bits.
abbrev isize_max : ℕ
isize_max = 2 ^ 63 - 1

-- A slice of two items.
abbrev counted : List ℕ
counted = 2 ∷ 0 ∷ 0 ∷ 0 ∷ 7 ∷ 8 ∷ []

pointer_run_lem_example : (pointer_run (int_decode 1) (List ℕ) list_bearer two).memory ≡ none
unfolding int_decode barrique.Codec.read
pointer_run_lem_example = pointer_run_lem (int_decode 1) (List ℕ) list_bearer two
