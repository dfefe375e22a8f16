-- ===== src/Guard/Pointer.antt =====
-- `HeapPtrDecodingGuard`, in `decode` of a box and of a counted pointer.
use barrique.Base.{◌≡◌, refl, false, none, some, [], ◌∷◌, Outcome, ok, err, panic}
use barrique.Stream.{DecodeBearer}
use barrique.Codec.{DecodeError, Decode}
use barrique.Guard.{allocated, write_slot, free, assume_init, Run}

module _ {T : Type 0} (d : Decode T) (B : Type 0) (b : DecodeBearer B) where
  -- What follows the call of `T::decode`: on success the guard is dropped, and the pointer is made from
  -- the same block; on failure the guard is dropped by the return.
  abbrev pub pointer_after : Outcome DecodeError T × B → Run T B DecodeError
  pointer_after (ok v, s) = elim (write_slot 0 v (allocated 1)) [
    | none ↦ record { outcome = panic; bearer = s; memory = none }
    | some m ↦ (elim (free m) [
      | none ↦ record { outcome = panic; bearer = s; memory = none }
      | some m' ↦ (elim (assume_init m') [
        | none ↦ record { outcome = panic; bearer = s; memory = none }
        | some vs ↦ record { outcome = ok vs; bearer = s; memory = some m' }
      ])
    ])
  ]
  pointer_after (err e, s) = record { outcome = err e; bearer = s; memory = free (allocated 1) }
  pointer_after (panic, s) = record { outcome = panic; bearer = s; memory = free (allocated 1) }

  unfoldable pub pointer_run : B → Run T B DecodeError
  pointer_run s = pointer_after (Decode.decode d B b s)

  -- The memory after `decode` of a box, by the outcome of the item's `decode`. Where that fails, the
  -- block is freed and nothing else is touched; where it succeeds, the block is freed before the box is
  -- made from it, which is undefined behaviour.
  pub pointer_run_lem :
      (s : B)
      → (pointer_run s).memory ≡ (elim (Decode.decode d B b s).0 [
        | ok v ↦ none
        | err e ↦ some (record { slots = none ∷ []; live = false; dropped = [] })
        | panic ↦ some (record { slots = none ∷ []; live = false; dropped = [] })
      ])
  unfolding pointer_run
  pointer_run_lem s = by_outcome (Decode.decode d B b s)
    where
      by_outcome :
          (m : Outcome DecodeError T × B)
          → (pointer_after m).memory ≡ (elim m.0 [
            | ok v ↦ none
            | err e ↦ some (record { slots = none ∷ []; live = false; dropped = [] })
            | panic ↦ some (record { slots = none ∷ []; live = false; dropped = [] })
          ])
      by_outcome (ok v, t) = refl
      by_outcome (err e, t) = refl
      by_outcome (panic, t) = refl
