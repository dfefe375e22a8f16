-- ===== src/Region/DoubleBuffer.antt =====
-- `DoubleBuffer`: the region at hand and the one before it.
use barrique.Base.{
  ℕ, ◌-◌, Option, none, some, List, length, take, drop, Call, ltb, leb, min, if◌then◌else◌,
}
use barrique.Vec.{Vec, with_capacity, extend_from_slice}
use barrique.Region.{RegionError, region_size}

pub record DoubleBuffer : Type 0 where
  pub curr : Vec
  pub prev : Vec

-- A `StateSwitch` whose state is `S`: `pass(&mut self, buf: &mut Vec<u8>)`
abbrev pub Switch : Type 0 → Type 0
Switch S = Call (S × Vec) RegionError (Unit {0})

unfoldable pub new : ℕ → DoubleBuffer
new cap = record {
  curr = with_capacity (min cap region_size);
  prev =
      if ltb region_size cap
      then with_capacity (min (cap - region_size) region_size)
      else with_capacity 0;
}

unfoldable pub swap : DoubleBuffer → DoubleBuffer
swap b = record { curr = b.prev; prev = b.curr }

unfoldable pub state_switch :
    {S : Type 0} → Switch S → Call (S × DoubleBuffer) RegionError (Unit {0})
state_switch pass (s, b) = let (r, t) = pass (s, b.curr) in (r, (t.0, record b { curr = t.1 }))

abbrev pub len : DoubleBuffer → ℕ
len b = length b.curr.items

-- `get(from..to)`
unfoldable pub get : ℕ → ℕ → DoubleBuffer → Option (List ℕ)
get from to b =
    if leb from to
    then (if leb to (len b) then some (take (to - from) (drop from b.curr.items)) else none)
    else none

unfoldable pub extend : List ℕ → DoubleBuffer → DoubleBuffer
extend src b = record b { curr = extend_from_slice src b.curr }
