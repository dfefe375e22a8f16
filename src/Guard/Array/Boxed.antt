-- ===== src/Guard/Array/Boxed.antt =====
-- `decode` of a boxed slice, with the length that it reads.
use barrique.Base.{ℕ, ◌≡◌, true, false, some, List, [], Outcome, ok, err, panic, map}
use barrique.Stream.{DecodeBearer}
use barrique.Codec.{DecodeError, Encode, Decode}
use barrique.Guard.{Run}
use barrique.Guard.Slots.{released}

module _ {T : Type 0} (e : Encode T) (d : Decode T) (B : Type 0) (b : DecodeBearer B) where
  -- What a run leaves of the block: all its slots filled with the values that are returned, or, after a
  -- failure, no block, with no value in its slots.
  abbrev pub Settled : Run T B DecodeError → Type 0
  Settled r = elim r.outcome [
    | ok vs ↦ r.memory ≡ some (record { slots = map some vs; live = true; dropped = [] })
    | err f ↦ (n : ℕ) × (ws : List T) × (r.memory ≡ some (released n false ws))
    | panic ↦ (n : ℕ) × (ws : List T) × (r.memory ≡ some (released n false ws))
  ]

  abbrev Agrees : Run T B DecodeError → Outcome DecodeError (List T) × B → Type 0
  Agrees r m = (r.outcome ≡ m.0) × (r.bearer ≡ m.1) × Settled r
