-- ===== src/Stream.antt =====
-- The streams of src/encode.rs and src/decode.rs: the bearer traits, the encoder and the decoder.
pub mod Window
pub mod Encoder
pub mod Decoder
pub mod Regions
pub mod Holds
pub mod Encoding
pub mod Reads
pub mod Decoding
pub mod RoundTrip
pub mod Complete
pub mod Limits
pub mod Failed
mod Examples
mod Bearers
use barrique.Base.{ℕ, List, Call}
use barrique.Region.{RegionError}

-- `EncodeBearer` and `DecodeBearer`
pub record EncodeBearer (B : Type 0) : Type 0 where
  pub write : List ℕ → Call B RegionError (Unit {0})

pub record DecodeBearer (B : Type 0) : Type 0 where
  pub read : ℕ → Call B RegionError (List ℕ)
