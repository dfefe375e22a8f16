-- ===== src/Region/RegionBuffer.antt =====
-- `RegionBuffer`: the double buffer with a cursor. A subtraction that would go below 0 panics, as
-- on `usize` under overflow checks.
use barrique.Base.{
  ℕ, ◌+◌, ◌-◌, Option, none, some, List, Outcome, ok, err, panic, Call, ltb, if◌then◌else◌,
}
use barrique.Region.{RegionError, region_size}
use barrique.Region.DoubleBuffer
use barrique.Region.DoubleBuffer.{DoubleBuffer, Switch}

pub record RegionBuffer : Type 0 where
  pub buffer : DoubleBuffer
  pub cursor : ℕ

unfoldable pub new : ℕ → RegionBuffer
unfolding DoubleBuffer.new
new cap = record { buffer = DoubleBuffer.new cap; cursor = 0 }

abbrev pub checked_sub : {E : Type 0} → ℕ → ℕ → Outcome E ℕ
checked_sub a b = if ltb a b then panic else ok (a - b)

unfoldable pub remaining_cap : RegionBuffer → Outcome RegionError ℕ
remaining_cap b = checked_sub region_size (DoubleBuffer.len b.buffer)

unfoldable pub remaining_len : RegionBuffer → Outcome RegionError ℕ
remaining_len b = checked_sub (DoubleBuffer.len b.buffer) b.cursor

-- The cursor goes back to 0 only after a successful pass.
unfoldable pub pass : {S : Type 0} → Switch S → Call (S × RegionBuffer) RegionError (Unit {0})
unfolding DoubleBuffer.state_switch
pass switch (s, b) =
    let (r, t) = DoubleBuffer.state_switch switch (s, b.buffer) in
    elim r [
      | ok _ ↦ (ok tt, (t.0, record { buffer = t.1; cursor = 0 }))
      | err e ↦ (err e, (t.0, record b { buffer = t.1 }))
      | panic ↦ (panic, (t.0, record b { buffer = t.1 }))
    ]

unfoldable pub swap : RegionBuffer → RegionBuffer
unfolding DoubleBuffer.swap
swap b = record b { buffer = DoubleBuffer.swap b.buffer }

-- The bytes that are read, if there are so many, and the buffer with the cursor past them.
unfoldable pub read : ℕ → RegionBuffer → Option (List ℕ) × RegionBuffer
unfolding DoubleBuffer.get
read n b = elim (DoubleBuffer.get b.cursor (b.cursor + n) b.buffer) [
  | none ↦ (none, b)
  | some bytes ↦ (some bytes, record b { cursor = b.cursor + n })
]

unfoldable pub write : List ℕ → RegionBuffer → RegionBuffer
unfolding DoubleBuffer.extend
write src b = record b { buffer = DoubleBuffer.extend src b.buffer }
