-- ===== src/Guard/Array.antt =====
-- `ArrayDecodingGuard`, in `decode` of an array, and around it the guard of a boxed slice.
pub mod Expected
pub mod Released
pub mod Boxed
use barrique.Base.{
  ℕ, zero, suc, ◌+◌, ◌*◌, ◌≤◌, ◌<◌, ◌≡◌, refl, subst, ap, sym, ◌∙◌, Bool, true, false, Option, none,
  some, List, [], ◌∷◌, ◌++◌, length, replicate, Outcome, ok, err, panic, Call, if◌then◌else◌, arith,
  ltb, append_assoc, append-nil, length-append, map,
}
use mathlib.Core.Option
use barrique.Stream.{DecodeBearer}
use barrique.Codec.{DecodeError, Decode, get}
use barrique.Codec.Int.{int_decode}
use barrique.Guard.{
  Memory, allocated, set_slot, slot_at, write_slot, drop_slot, drop_slots, free, filled,
  assume_init, nothing, Run,
}

module _ {T : Type 0} (d : Decode T) (B : Type 0) (b : DecodeBearer B) where
  -- `Drop for ArrayDecodingGuard`
  abbrev pub drop_array : ℕ → Memory T → Option (Memory T)
  drop_array len m = drop_slots len 0 m

  -- `Drop for HeapPointerDecodingGuard`
  abbrev pub drop_heap_array : ℕ → Memory T → Option (Memory T)
  drop_heap_array len m = elim (drop_array len m) [ none ↦ none | some m' ↦ free m' ]

  -- What follows the loop: the guard is forgotten, and the block is taken as initialised.
  abbrev pub complete : B → Memory T → Run T B DecodeError
  complete s m = elim (assume_init m) [
    | none ↦ record { outcome = panic; bearer = s; memory = none }
    | some vs ↦ record { outcome = ok vs; bearer = s; memory = some m }
  ]

  -- The loop with a guard of length `len` whose `drop` is `release`.
  unfoldable pub fill :
      (ℕ → Memory T → Option (Memory T)) → ℕ → ℕ → B → Memory T → Run T B DecodeError
  fill release zero len s m = complete s m
  fill release (suc n) len s m =
      let (r, s') = Decode.decode d B b s in
      elim r [
        | ok v ↦ (elim (write_slot len v m) [
          | none ↦ record { outcome = panic; bearer = s'; memory = none }
          | some m' ↦ fill release n (suc len) s' m'
        ])
        | err e ↦ record { outcome = err e; bearer = s'; memory = release len m }
        | panic ↦ record { outcome = panic; bearer = s'; memory = release len m }
      ]

  -- `decode` of an array of `n` items, and of a boxed slice once its length is read.
  unfoldable pub array_run : ℕ → B → Run T B DecodeError
  unfolding fill
  array_run n s = fill drop_array n 0 s (allocated n)

  unfoldable pub heap_array_run : ℕ → B → Run T B DecodeError
  unfolding fill
  heap_array_run n s = fill drop_heap_array n 0 s (allocated n)

  -- `decode` of a boxed slice, of which nothing is allocated until its length is read and checked.
  -- `new_uninit_slice` panics where the items, of `layout` bytes each, would take more than
  -- `isize::MAX` bytes.
  unfoldable pub heap_slice_run : (isize_max layout : ℕ) → B → Run T B DecodeError
  unfolding heap_array_run get int_decode
  heap_slice_run isize_max layout s =
      let (r, s') = get (int_decode 4) b s in
      elim r [
        | ok len ↦
            let rest = heap_array_run len s' in
            if ltb isize_max len
            then record {
              outcome = err (DecodeError.other "Length exceeds isize::MAX");
              bearer = s';
              memory = some nothing;
            }
            else if ltb isize_max (len * layout)
            then record { outcome = panic; bearer = s'; memory = some nothing }
            else rest
        | err e ↦ record { outcome = err e; bearer = s'; memory = some nothing }
        | panic ↦ record { outcome = panic; bearer = s'; memory = some nothing }
      ]
