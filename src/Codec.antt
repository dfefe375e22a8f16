-- ===== src/Codec.antt =====
-- The traits `Encode` and `Decode` of src/encode.rs and src/decode.rs. A slot that `decode` fills is
-- the value that the call returns.
pub mod Laws
pub mod Int
pub mod Pointer
pub mod Scalar
pub mod Sum
pub mod Seq
pub mod Text
pub mod Product
pub mod Stream
pub mod Char
pub mod Collection
pub mod Values
pub mod Robust
mod Examples
use Prim.Native.String.{String}
use barrique.Base.{ℕ, List, Outcome, Call, map_err}
use barrique.Region.{RegionError}
use barrique.Frame.{FrameError}
use barrique.Stream.{EncodeBearer, DecodeBearer}

pub data EncodeError : Type 0 where
  frame_error : FrameError → EncodeError
  bearer_error : RegionError → EncodeError
  other : String → EncodeError

pub data DecodeError : Type 0 where
  frame_error : FrameError → DecodeError
  bearer_error : RegionError → DecodeError
  invalid_pattern : DecodeError
  other : String → DecodeError

pub record Encode (T : Type 0) : Type 1 where
  pub encode : (B : Type 0) → EncodeBearer B → T → Call B EncodeError (Unit {0})
  pub size_of : T → ℕ

pub record Decode (T : Type 0) : Type 1 where
  pub decode : (B : Type 0) → DecodeBearer B → Call B DecodeError T

-- `bearer.write(..).map_err(|e| e.into())` and `bearer.read(..)?`
unfoldable pub write : {B : Type 0} → EncodeBearer B → List ℕ → Call B EncodeError (Unit {0})
write b bytes s = let (r, s') = b.write bytes s in (map_err EncodeError.bearer_error r, s')

unfoldable pub read : {B : Type 0} → DecodeBearer B → ℕ → Call B DecodeError (List ℕ)
read b n s = let (r, s') = b.read n s in (map_err DecodeError.bearer_error r, s')

-- `get`
unfoldable pub get : {B T : Type 0} → Decode T → DecodeBearer B → Call B DecodeError T
get {B} d b = d.decode B b
