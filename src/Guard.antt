-- ===== src/Guard.antt =====
-- src/impl/mod.rs and src/impl/alloc.rs: the memory that `decode` fills in place, and the guards that
-- release it. `none` in the place of a memory is undefined behaviour: an access to a block that is
-- freed, or a drop of a slot that holds no value.
pub mod Slots
pub mod Array
pub mod Pointer
mod Examples
use barrique.Base.{
  ℕ, zero, suc, ◌-◌, Bool, true, false, Option, none, some, List, [], ◌∷◌, ◌++◌, replicate, Outcome,
  ok, err, panic, if◌then◌else◌,
}

-- A block of slots for values of `T`, whether it is allocated, and the values that were dropped.
pub record Memory (T : Type 0) : Type 0 where
  pub slots : List (Option T)
  pub live : Bool
  pub dropped : List T

module _ {T : Type 0} where
  -- `new_uninit_slice(n)`, or the place of an array of `n` items
  abbrev pub allocated : ℕ → Memory T
  allocated n = record { slots = replicate n none; live = true; dropped = [] }

  -- No block.
  abbrev pub nothing : Memory T
  nothing = record { slots = []; live = false; dropped = [] }

  abbrev pub set_slot : ℕ → Option T → List (Option T) → Option (List (Option T))
  set_slot i o [] = none
  set_slot zero o (s ∷ ss) = some (o ∷ ss)
  set_slot (suc i) o (s ∷ ss) = elim (set_slot i o ss) [ none ↦ none | some ss' ↦ some (s ∷ ss') ]

  abbrev pub slot_at : ℕ → List (Option T) → Option T
  slot_at i [] = none
  slot_at zero (s ∷ ss) = s
  slot_at (suc i) (s ∷ ss) = slot_at i ss

  -- A write through a reference to the slot `i`.
  abbrev pub write_slot : ℕ → T → Memory T → Option (Memory T)
  write_slot i v m =
      if m.live
      then (elim (set_slot i (some v) m.slots) [
        | none ↦ none
        | some ss ↦ some (record m { slots = ss })
      ])
      else none

  -- The drop of the value in the slot `i`.
  abbrev pub drop_slot : ℕ → Memory T → Option (Memory T)
  drop_slot i m =
      if m.live
      then (elim (slot_at i m.slots) [
        | none ↦ none
        | some v ↦ (elim (set_slot i none m.slots) [
          | none ↦ none
          | some ss ↦ some (record m { slots = ss; dropped = m.dropped ++ (v ∷ []) })
        ])
      ])
      else none

  -- `drop_in_place` of the slice of the slots from `i` on, `n` in number.
  abbrev pub drop_slots : ℕ → ℕ → Memory T → Option (Memory T)
  drop_slots zero i m = some m
  drop_slots (suc n) i m = elim (drop_slot i m) [ none ↦ none | some m' ↦ drop_slots n (suc i) m' ]

  -- `drop(from_raw(ptr))` for a pointer to slots: the values in the slots are not dropped.
  abbrev pub free : Memory T → Option (Memory T)
  free m = if m.live then some (record m { live = false }) else none

  -- The values of slots that are all filled.
  abbrev pub filled : List (Option T) → Option (List T)
  filled [] = some []
  filled (o ∷ os) =
      let rest = filled os in
      elim o [ none ↦ none | some v ↦ (elim rest [ none ↦ none | some vs ↦ some (v ∷ vs) ]) ]

  -- `from_raw(ptr).assume_init()`
  abbrev pub assume_init : Memory T → Option (List T)
  assume_init m = if m.live then filled m.slots else none

-- A run of `decode`: its outcome and the bearer, and the memory that is left.
pub record Run (T B : Type 0) (E : Type 0) : Type 0 where
  pub outcome : Outcome E (List T)
  pub bearer : B
  pub memory : Option (Memory T)
