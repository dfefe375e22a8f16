-- ===== src/Region.antt =====
-- src/region.rs: the regions of a stream, the buffer of the region at hand, and the two switches.
pub mod Header
pub mod DoubleBuffer
pub mod RegionBuffer
pub mod Push
pub mod Pull
pub mod Emit
pub mod Absorb
pub mod Bound
pub mod Refuse
mod Examples
use barrique.Base.{ℕ, ◌-◌, ◌*◌}
use barrique.Io.{ReadError, WriteError}

-- `REGION_SIZE`, the longest region, and `HEADER_SIZE`
abbrev pub region_size : ℕ
region_size = 64 * 1024 - 1

abbrev pub header_size : ℕ
header_size = 12

pub data RegionError : Type 0 where
  read_failure : ReadError → RegionError
  write_failure : WriteError → RegionError
  invalid_size_hint malformed_region invalid_hash out_of_bounds : RegionError
