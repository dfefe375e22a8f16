-- ===== src/Frames/Mismatch.antt =====
-- A frame that is read without its seed, or with one that it does not have.
use barrique.Base.{ℕ, ◌≤◌, ◌+◌, ◌≡◌, ◌≢◌, Option, some, List, ◌++◌, length, ok, err, arith}
use barrique.Io.{Reader, ReaderLaws}
use barrique.Lz4.{Foreign}
use barrique.Frame.{FrameError}
use barrique.Frame.Label
use barrique.Frame.Descriptor
use barrique.Frame.Metadata
use barrique.Frame.Metadata.{FrameMetadata}
use barrique.Frame.Metadata.RoundTrip.{header_bytes, metadata_decode}
use barrique.Codec.{Decode, DecodeError}
use barrique.Frames.{Frame, is_some, decode, get_value}

module _ (x : Foreign) {R : Type 0} (r : Reader R) where
  decode_run :
      (src s : R) (seed : Option ℕ) (m : FrameMetadata)
      → Metadata.decode_from_reader r src ≡ (ok m, s)
      → decode x r src seed ≡ ok (record { metadata = m; seed = seed; base = s })
  unfolding decode
  decode_run src s seed m h = ground arith

  get_value_differs :
      {T : Type 0} (t : Decode T) (size : ℕ) (f : Frame R)
      → is_some f.seed ≢ f.metadata.frame_descriptor.seeded
      → get_value x r t size f ≡ err (DecodeError.frame_error FrameError.environment_mismatch)
  unfolding get_value
  get_value_differs t size f h = ground arith

  -- From a source that begins with the header of a frame, whose label `Label::new` made and whose
  -- timestamp fits in 64 bits, and that holds nine bytes behind the magic number, `Frame::decode`
  -- with a seed where the header says that there is none, or with no seed where it says that there
  -- is one, succeeds, and `get_value` on the frame then fails with `EnvironmentMismatch`, whatever
  -- follows the header and whatever the type of the value.
  pub frame_mismatch :
      (rl : ReaderLaws r) (m : FrameMetadata) (str : List ℕ) (src : R) (rest : List ℕ)
      (seed : Option ℕ) {T : Type 0} (t : Decode T) (size : ℕ)
      → Label.new str ≡ some m.label
      → Descriptor.IsValid m.frame_descriptor
      → ReaderLaws.remaining rl src ≡ header_bytes m.frame_descriptor str ++ rest
      → 9 ≤ Descriptor.len m.frame_descriptor + 1 + length str + length rest
      → is_some seed ≢ m.frame_descriptor.seeded
      → (g : Frame R) × (decode x r src seed ≡ ok g)
        × (get_value x r t size g ≡ err (DecodeError.frame_error FrameError.environment_mismatch))
  frame_mismatch rl m str src rest seed t size h v there room differs =
      let (s, run, left) = metadata_decode r rl m str src rest h v there room in
      let g : Frame R = record { metadata = m; seed = seed; base = s } in
      (g, decode_run src s seed m run, get_value_differs t size g differs)
