-- ===== src/Frames.antt =====
-- `Frame` of src/frame.rs: the metadata and then the stream of one value.
pub mod RoundTrip
pub mod Robust
pub mod Mismatch
pub mod Io
mod Examples
mod Arbitrary
mod IoExamples
use barrique.Base.{
  ℕ, Bool, true, false, not, Option, none, some, List, Outcome, ok, err, panic, map_err,
  if◌then◌else◌,
}
use barrique.Io.{Reader, Writer}
use barrique.Lz4.{Foreign}
use barrique.Frame.{FrameError}
use barrique.Frame.Label
use barrique.Frame.Label.{Label}
use barrique.Frame.Metadata
use barrique.Frame.Metadata.{FrameMetadata}
use barrique.Stream.Encoder
use barrique.Stream.Encoder.{StreamEncoder}
use barrique.Stream.Decoder
use barrique.Stream.Decoder.{StreamDecoder}
use barrique.Codec.{Encode, Decode, EncodeError, DecodeError, get}

-- `Frame<V, B>`
pub record Frame (B : Type 0) : Type 0 where
  pub metadata : FrameMetadata
  pub seed : Option ℕ
  pub base : B

-- `Frame::new`
abbrev pub new : {W : Type 0} → W → Frame W
new dst = record {
  metadata = record {
    frame_descriptor = record { seeded = false; timestamp = none };
    label = Label.default;
  };
  seed = none;
  base = dst;
}

abbrev pub with_seed : {B : Type 0} → ℕ → Frame B → Frame B
with_seed seed f = record f { seed = some seed }

abbrev pub with_label : {B : Type 0} → Label → Frame B → Frame B
with_label label f = record f { metadata = record (f.metadata) { label = label } }

abbrev pub with_timestamp : {B : Type 0} → ℕ → Frame B → Frame B
with_timestamp t f = record f {
  metadata = record (f.metadata) {
    frame_descriptor = record (f.metadata.frame_descriptor) { timestamp = some t };
  };
}

abbrev pub is_some : Option ℕ → Bool
is_some none = false
is_some (some n) = true

-- The metadata that `encode` writes.
abbrev pub flagged : {B : Type 0} → Frame B → FrameMetadata
flagged f =
    if is_some f.seed
    then record (f.metadata) {
      frame_descriptor = record (f.metadata.frame_descriptor) { seeded = true };
    }
    else f.metadata

abbrev pub get_label : {B : Type 0} → Frame B → Option Label
get_label f = if not (Label.is_empty f.metadata.label) then some f.metadata.label else none

abbrev pub get_timestamp : {B : Type 0} → Frame B → Option ℕ
get_timestamp f = f.metadata.frame_descriptor.timestamp

module _ (x : Foreign) where
  -- The flush comes also after an error of `T::encode`, and its own error goes first.
  flush_after :
      {W : Type 0}
      → Writer W
      → Outcome EncodeError (Unit {0})
      → StreamEncoder x W
      → Outcome EncodeError (Unit {0}) × W
  flush_after w result e =
      let (r, e') = Encoder.flush x w e in
      elim r [
        | ok _ ↦ (result, e'.switch.destination)
        | err f ↦ (err (EncodeError.bearer_error f), e'.switch.destination)
        | panic ↦ (panic, e'.switch.destination)
      ]

  encode_stream :
      {W T : Type 0} → Writer W → Encode T → Option ℕ → T → W → Outcome EncodeError (Unit {0}) × W
  unfolding flush_after
  encode_stream {W} w t seed value dst =
      let (result, e) =
        t.encode (StreamEncoder x W) (Encoder.encode_bearer x w) value
          (Encoder.new x w dst (t.size_of value) seed) in
      elim result [
        | ok _ ↦ flush_after w (ok tt) e
        | err f ↦ flush_after w (err f) e
        | panic ↦ (panic, e.switch.destination)
      ]

  -- `Frame::encode`, with the destination that it leaves
  unfoldable pub encode :
      {W T : Type 0} → Writer W → Encode T → Frame W → T → Outcome EncodeError (Unit {0}) × W
  unfolding encode_stream
  encode w t f value =
      let (r, dst) = Metadata.encode_into_writer w (flagged f) f.base in
      elim r [
        | ok _ ↦ encode_stream w t f.seed value dst
        | err _ ↦ (err (EncodeError.frame_error FrameError.out_of_bounds), dst)
        | panic ↦ (panic, dst)
      ]

  -- `Frame::decode`
  unfoldable pub decode : {R : Type 0} → Reader R → R → Option ℕ → Outcome FrameError (Frame R)
  decode r src seed =
      let (m, s) = Metadata.decode_from_reader r src in
      elim m [
        | ok metadata ↦ ok (record { metadata = metadata; seed = seed; base = s })
        | err e ↦ err e
        | panic ↦ panic
      ]

  -- `is_some() != seeded`
  abbrev differs : Bool → Bool → Bool
  differs true b = not b
  differs false b = b

  -- `Frame::get_value`
  unfoldable pub get_value :
      {R T : Type 0} → Reader R → Decode T → ℕ → Frame R → Outcome DecodeError T
  unfolding get
  get_value r t size f =
      if differs (is_some f.seed) f.metadata.frame_descriptor.seeded
      then err (DecodeError.frame_error FrameError.environment_mismatch)
      else (elim (Decoder.new x r f.base size f.seed) [
        | ok d ↦ (get t (Decoder.decode_bearer x r) d).0
        | err e ↦ err (DecodeError.bearer_error e)
        | panic ↦ panic
      ])
