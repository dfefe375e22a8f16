-- ===== src/Frames/RoundTrip.antt =====
-- A frame is read back as it was written: its label, its timestamp and its value.
use barrique.Base.{
  ℕ, ◌≤◌, ◌<◌, ◌≡◌, sym, ap, ◌∙◌, false, Option, some, List, [], ◌∷◌, ◌++◌, length, ok, arith,
  append_assoc, length-append,
}
use barrique.Io.{Reader, ReaderLaws, Writer, WriterLaws}
use barrique.Lz4.{Foreign, ForeignLaws}
use barrique.Region.Header.{into_bytes}
use barrique.Region.Emit.{stream_bytes, region_bytes}
use barrique.Frame.Label
use barrique.Frame.Label.{Label}
use barrique.Frame.Descriptor
use barrique.Frame.Metadata
use barrique.Frame.Metadata.{FrameMetadata}
use barrique.Frame.Metadata.RoundTrip.{header_bytes, metadata_encode, metadata_decode}
use barrique.Stream.Regions.{regions}
use barrique.Stream.Encoder
use barrique.Stream.Encoder.{StreamEncoder}
use barrique.Stream.Decoder
use barrique.Stream.Decoder.{StreamDecoder}
use barrique.Stream.Reads.{Fits}
use barrique.Codec.{Encode, Decode, get}
use barrique.Codec.Laws.{RoundTrips}
use barrique.Codec.Stream.{encode_value, decode_value}
use barrique.Frames.{Frame, flagged, is_some, get_label, get_timestamp, encode, decode, get_value}

module _ (x : Foreign) where
  -- A stream that is not empty has a region header at least.
  length-stream_bytes :
      (seed : Option ℕ) (c : Foreign.EncContext x) (rs : List (List ℕ))
      → 0 < length rs
      → 12 ≤ length (stream_bytes x seed c rs)
  unfolding stream_bytes region_bytes into_bytes
  length-stream_bytes seed c [] h = absurd (omega arith)
  length-stream_bytes seed c (r ∷ rs) h = rw (length-append, length-append) (omega arith)

flagged-label : {B : Type 0} (f : Frame B) → (flagged f).label ≡ f.metadata.label
flagged-label f = ground arith

get_label-flagged :
    {B C : Type 0} (f : Frame B) (base : C)
    → get_label {B = C} (record { metadata = flagged f; seed = f.seed; base = base }) ≡ get_label f
get_label-flagged f base = ground arith

flagged-timestamp :
    {B : Type 0} (f : Frame B)
    → (flagged f).frame_descriptor.timestamp ≡ f.metadata.frame_descriptor.timestamp
flagged-timestamp f = ground arith

flagged-seeded :
    {B : Type 0} (f : Frame B)
    → f.metadata.frame_descriptor.seeded ≡ false
    → (flagged f).frame_descriptor.seeded ≡ is_some f.seed
flagged-seeded f h = ground arith

module _ (x : Foreign) (laws : ForeignLaws x) {T : Type 0} (te : Encode T) (td : Decode T)
    (chunks : T → List (List ℕ)) (IsValid : T → Type 0) (rt : RoundTrips te td chunks IsValid) where
  module _ {W : Type 0} (w : Writer W) (wl : WriterLaws w) where
    open wl use {written}

    encode_run :
        (f : Frame W) (v : T) (dst : W) (e e' : StreamEncoder x W)
        → Metadata.encode_into_writer w (flagged f) f.base ≡ (ok tt, dst)
        → te.encode
            (StreamEncoder x W)
            (Encoder.encode_bearer x w)
            v
            (Encoder.new x w dst (te.size_of v) f.seed)
          ≡ (ok tt, e)
        → Encoder.flush x w e ≡ (ok tt, e')
        → encode x w te f v ≡ (ok tt, e'.switch.destination)
    unfolding encode
    encode_run f v dst e e' h k l = ground arith

    -- `Frame::encode` with a label that `Label::new` made succeeds for every value, and writes the
    -- magic number, the descriptor with the flag for the seed, the label, and then the regions of
    -- the value.
    pub frame_encode :
        (f : Frame W) (str : List ℕ) (v : T)
        → Label.new str ≡ some f.metadata.label
        → (dst : W) × (encode x w te f v ≡ (ok tt, dst))
          × (written dst
              ≡ (written f.base ++ header_bytes (flagged f).frame_descriptor str)
                ++ stream_bytes x f.seed (Foreign.create_stream x) (regions (chunks v)))
    frame_encode f str v h =
        let (dst, c1, q1) =
          metadata_encode w wl (flagged f) str f.base (h ∙ ap some (sym (flagged-label f))) in
        let (e, e', c2, c3, q2) =
          encode_value x laws te td chunks IsValid rt w wl dst (te.size_of v) f.seed v in
        (
          e'.switch.destination,
          encode_run f v dst e e' c1 c2 c3,
          q2
              ∙ ap (λ l. l ++ stream_bytes x f.seed (Foreign.create_stream x) (regions (chunks v)))
                  q1,
        )

  module _ {R : Type 0} (r : Reader R) (rl : ReaderLaws r) where
    open rl use {remaining}

    decode_run :
        (src s : R) (seed : Option ℕ) (m : FrameMetadata)
        → Metadata.decode_from_reader r src ≡ (ok m, s)
        → decode x r src seed ≡ ok (record { metadata = m; seed = seed; base = s })
    unfolding decode
    decode_run src s seed m h = ground arith

    get_value_run :
        (f : Frame R) (size : ℕ) (d d' : StreamDecoder x R) (v : T)
        → f.metadata.frame_descriptor.seeded ≡ is_some f.seed
        → Decoder.new x r f.base size f.seed ≡ ok d
        → get td (Decoder.decode_bearer x r) d ≡ (ok v, d')
        → get_value x r td size f ≡ ok v
    unfolding get_value
    get_value_run f size d d' v h k l = ground arith

    -- From a source that holds the header of a frame and the regions of a value, `Frame::decode`
    -- with the seed of the frame gives a frame with the same label and timestamp, and `get_value`
    -- gives the value. The frame has a label that `Label::new` made, a timestamp of 64 bits, and a
    -- descriptor that is not yet marked as seeded; the value meets the limits of its type and is
    -- written as one region at least, and each region compresses to fewer than 2 ^ 16 bytes.
    pub frame_decode :
        {W : Type 0} (f : Frame W) (str : List ℕ) (v : T) (src : R) (size : ℕ) (tail : List ℕ)
        → Label.new str ≡ some f.metadata.label
        → f.metadata.frame_descriptor.seeded ≡ false
        → Descriptor.IsValid (flagged f).frame_descriptor
        → IsValid v
        → 0 < length (regions (chunks v))
        → Fits x (Foreign.create_stream x) (regions (chunks v))
        → remaining src
          ≡ header_bytes (flagged f).frame_descriptor str
            ++ (stream_bytes x f.seed (Foreign.create_stream x) (regions (chunks v)) ++ tail)
        → (g : Frame R) × (decode x r src f.seed ≡ ok g)
          × (get_label g ≡ get_label f)
          × (get_timestamp g ≡ get_timestamp f)
          × (get_value x r td size g ≡ ok v)
    frame_decode f str v src size tail h plain dv valid some_region fits there =
        let stream = stream_bytes x f.seed (Foreign.create_stream x) (regions (chunks v)) in
        let (s, c1, q1) =
          metadata_decode r rl (flagged f) str src (stream ++ tail)
            (h ∙ ap some (sym (flagged-label f))) dv there
            (rw length-append (
              omega (
                arith,
                length-stream_bytes x f.seed (Foreign.create_stream x) (regions (chunks v))
                    some_region,
              ))) in
        let g : Frame R = record { metadata = flagged f; seed = f.seed; base = s } in
        let (d, d', c2, c3) =
          decode_value x laws te td chunks IsValid rt r rl s size f.seed v tail valid some_region
            fits q1 in
        (
          g,
          decode_run src s f.seed (flagged f) c1,
          get_label-flagged f s,
          flagged-timestamp f,
          get_value_run g size d d' v (flagged-seeded f plain) c2 c3,
        )

  -- A frame that `Frame::encode` has written into an empty destination is decoded with the same
  -- seed to a frame with the same label, the same timestamp and the value, also where the source
  -- goes on behind it. The frame has a label that `Label::new` made, a timestamp of 64 bits, and a
  -- descriptor that is not yet marked as seeded, as `Frame::new` makes it; the value meets the
  -- limits of its type and is written as one region at least, and each region compresses to fewer
  -- than 2 ^ 16 bytes.
  pub frame_round_trip :
      {W : Type 0} (w : Writer W) (wl : WriterLaws w) {R : Type 0} (r : Reader R)
      (rl : ReaderLaws r) (f : Frame W) (str : List ℕ) (v : T) (dst : W) (src : R) (size : ℕ)
      (tail : List ℕ)
      → Label.new str ≡ some f.metadata.label
      → f.metadata.frame_descriptor.seeded ≡ false
      → Descriptor.IsValid (flagged f).frame_descriptor
      → IsValid v
      → 0 < length (regions (chunks v))
      → Fits x (Foreign.create_stream x) (regions (chunks v))
      → WriterLaws.written wl f.base ≡ []
      → encode x w te f v ≡ (ok tt, dst)
      → ReaderLaws.remaining rl src ≡ WriterLaws.written wl dst ++ tail
      → (g : Frame R) × (decode x r src f.seed ≡ ok g)
        × (get_label g ≡ get_label f)
        × (get_timestamp g ≡ get_timestamp f)
        × (get_value x r td size g ≡ ok v)
  frame_round_trip {W} w wl r rl f str v dst src size tail h plain dv valid some_region fits fresh
        run there =
      let (dst', run', out) = frame_encode w wl f str v h in
      let same_dst : dst' ≡ dst = cc (run, run') in
      let bytes = header_bytes (flagged f).frame_descriptor str in
      let stream = stream_bytes x f.seed (Foreign.create_stream x) (regions (chunks v)) in
      let stored : WriterLaws.written wl dst ≡ bytes ++ stream =
        ap (λ (k : W). WriterLaws.written wl k) (sym same_dst)
        ∙ out
        ∙ ap (λ l. (l ++ bytes) ++ stream) fresh in
      frame_decode r rl f str v src size tail h plain dv valid some_region fits
        (there ∙ ap (λ l. l ++ tail) stored ∙ append_assoc bytes stream tail)
