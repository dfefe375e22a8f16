-- ===== src/Frame/Descriptor.antt =====
-- `FrameDescriptor`: a byte of flags and an optional timestamp.
use barrique.Base.{
  ℕ, suc, ◌+◌, ◌≤◌, ◌<◌, ◌^◌, ◌≡◌, refl, Bool, true, false, not, Option, none, some, List, [], ◌∷◌,
  ◌++◌, length, take, drop, Outcome, ok, err, panic, ltb, ◌==◌, if◌then◌else◌, bit_and, bit_or,
  arith, ap, ◌∙◌, eq-nil_of_length, le→ltb_false, length-drop, append-nil,
}
use barrique.Bytes.{to_le_bytes, from_le_bytes, from_le_bytes-to_le_bytes}

pub record FrameDescriptor : Type 0 where
  pub seeded : Bool
  pub timestamp : Option ℕ

-- `MASK_SEEDED` and `MASK_TIMESTAMP`
abbrev pub mask_seeded : ℕ
mask_seeded = 0b10000000

abbrev pub mask_timestamp : ℕ
mask_timestamp = 0b01000000

-- `byte & mask != 0`
abbrev pub has_flag : ℕ → ℕ → Bool
has_flag byte mask = not (bit_and byte mask == 0)

-- `src.get(1..=8)?`, as a number
timestamp_of : ℕ → List ℕ → Outcome (Unit {0}) (Option ℕ)
timestamp_of byte rest =
    if has_flag byte mask_timestamp
    then if ltb (length rest) 8 then err tt else ok (some (from_le_bytes (take 8 rest)))
    else ok none

-- It panics on an empty slice.
unfoldable pub from_bytes : List ℕ → Outcome (Unit {0}) FrameDescriptor
unfolding timestamp_of
from_bytes [] = panic
from_bytes (byte ∷ rest) = elim (timestamp_of byte rest) [
  | ok t ↦ ok (record { seeded = has_flag byte mask_seeded; timestamp = t })
  | err e ↦ err e
  | panic ↦ panic
]

abbrev pub flags : FrameDescriptor → ℕ
flags d =
    let byte : ℕ = if d.seeded then bit_or 0 mask_seeded else 0 in
    elim d.timestamp [ none ↦ byte | some _ ↦ bit_or byte mask_timestamp ]

-- `dst.get_mut(0)?.write(byte)`
abbrev put_front : ℕ → List ℕ → Outcome (Unit {0}) (List ℕ)
put_front byte [] = err tt
put_front byte (b ∷ bs) = ok (byte ∷ bs)

-- The slice after the call.
unfoldable pub into_bytes : FrameDescriptor → List ℕ → Outcome (Unit {0}) (List ℕ)
into_bytes d dst = elim d.timestamp [
  | none ↦ put_front (flags d) dst
  | some t ↦
      if ltb (length dst) 9
      then err tt
      else put_front (flags d) (take 1 dst ++ (to_le_bytes 8 t ++ drop 9 dst))
]

abbrev pub len : FrameDescriptor → ℕ
len d = elim d.timestamp [ none ↦ 1 | some _ ↦ 1 + 8 ]

abbrev pub max_len : ℕ
max_len = 1 + 8

-- The bytes that a descriptor is written as.
unfoldable pub bytes_of : FrameDescriptor → List ℕ
bytes_of d = flags d ∷ (elim d.timestamp [ none ↦ [] | some t ↦ to_le_bytes 8 t ])

abbrev pub IsValid : FrameDescriptor → Type 0
IsValid d = elim d.timestamp [ none ↦ Unit {0} | some t ↦ t < 2 ^ 64 ]

abbrev of_fields : Bool → Option ℕ → FrameDescriptor
of_fields s t = record { seeded = s; timestamp = t }

no_room : (d : FrameDescriptor) → ¬ (0 ≡ len d)
no_room d h = ground arith

into_bytes_fields :
    (s : Bool) (t : Option ℕ) (b : ℕ) (bs : List ℕ)
    → suc (length bs) ≡ len (of_fields s t)
    → into_bytes (of_fields s t) (b ∷ bs) ≡ ok (bytes_of (of_fields s t))
unfolding into_bytes bytes_of
into_bytes_fields s none b bs h =
    ap (λ l. ok (flags (of_fields s none) ∷ l)) (eq-nil_of_length bs (omega arith))
into_bytes_fields s (some t) b bs h = rw (le→ltb_false (suc (length bs)) 9 (omega arith)) (
    ap (λ l. ok (flags (of_fields s (some t)) ∷ l))
      (ap (λ l. to_le_bytes 8 t ++ l) (eq-nil_of_length (drop 8 bs) (rw length-drop (omega arith)))
        ∙ append-nil (to_le_bytes 8 t)))

from_bytes_fields :
    (s : Bool) (t : Option ℕ) (rest : List ℕ)
    → IsValid (of_fields s t)
    → from_bytes (bytes_of (of_fields s t) ++ rest) ≡ ok (of_fields s t)
unfolding from_bytes bytes_of
from_bytes_fields true none rest h = refl
from_bytes_fields false none rest h = refl
from_bytes_fields true (some t) rest h = ground (arith, from_le_bytes-to_le_bytes 8 t h)
from_bytes_fields false (some t) rest h = ground (arith, from_le_bytes-to_le_bytes 8 t h)

-- Written into a slice of the length that `len` gives, a descriptor fills it: a byte with the two
-- flags, and the eight bytes of the timestamp if there is one.
pub into_bytes-bytes_of :
    (d : FrameDescriptor) (dst : List ℕ) → length dst ≡ len d → into_bytes d dst ≡ ok (bytes_of d)
unfolding into_bytes bytes_of
into_bytes-bytes_of d [] h = absurd (no_room d h)
into_bytes-bytes_of d (b ∷ bs) h = into_bytes_fields d.seeded d.timestamp b bs h

-- From the bytes that a descriptor is written as, `from_bytes` gives the descriptor back, whatever
-- follows them, if the timestamp fits in 64 bits.
pub from_bytes-bytes_of :
    (d : FrameDescriptor) (rest : List ℕ) → IsValid d → from_bytes (bytes_of d ++ rest) ≡ ok d
unfolding from_bytes bytes_of
from_bytes-bytes_of d rest h = from_bytes_fields d.seeded d.timestamp rest h

pub len-le : (d : FrameDescriptor) → len d ≤ max_len
len-le d = ground arith
