-- ===== src/Vec.antt =====
-- The parts of `Vec<u8>` that the program uses, down to the spare capacity that unsafe code fills.
use barrique.Base.{
  ℕ, ◌+◌, ◌-◌, ◌*◌, ◌≤◌, max, ◌≡◌, List, [], ◌++◌, length, take, drop, replicate, length-append,
  length-replicate, ltb, if◌then◌else◌, arith,
}

-- `items` are the initialised bytes, `spare` what the rest of the allocation holds.
pub record Vec : Type 0 where
  pub items : List ℕ
  pub spare : List ℕ

abbrev pub with_capacity : ℕ → Vec
with_capacity cap = record { items = []; spare = replicate cap 0 }

abbrev pub capacity : Vec → ℕ
capacity v = length v.items + length v.spare

-- `set_len(n)`: the bytes stay where they are, and the first `n` count as initialised.
abbrev pub set_len : ℕ → Vec → Vec
set_len n v = record { items = take n (v.items ++ v.spare); spare = drop n (v.items ++ v.spare) }

-- The new capacity is at least double the old one, at least what is wanted, and at least 8.
abbrev pub grown : ℕ → ℕ → ℕ
grown cap wanted = max 8 (max (cap * 2) wanted)

-- `reserve(n)`: room for `n` more bytes.
unfoldable pub reserve : ℕ → Vec → Vec
reserve n v =
    if ltb (length v.spare) n
    then record v {
      spare = v.spare ++ replicate (grown (capacity v) (length v.items + n) - capacity v) 0;
    }
    else v

unfoldable pub extend_from_slice : List ℕ → Vec → Vec
extend_from_slice src v =
    let w = reserve (length src) v in
    record { items = w.items ++ src; spare = drop (length src) w.spare }

pub items-reserve : (n : ℕ) (v : Vec) → (reserve n v).items ≡ v.items
unfolding reserve
items-reserve n v = ground arith

pub spare-reserve : (n : ℕ) (v : Vec) → n ≤ length (reserve n v).spare
unfolding reserve
spare-reserve n v = ground (
  arith,
  length-append v.spare (replicate (grown (capacity v) (length v.items + n) - capacity v) 0),
  length-replicate {A = ℕ} (grown (capacity v) (length v.items + n) - capacity v) 0,
)

pub items-extend_from_slice :
    (src : List ℕ) (v : Vec) → (extend_from_slice src v).items ≡ v.items ++ src
unfolding extend_from_slice
items-extend_from_slice src v = rw items-reserve
