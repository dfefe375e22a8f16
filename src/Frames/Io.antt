-- ===== src/Frames/Io.antt =====
-- A frame over `std::io`: written through a `CursorWriter` that is dropped at the end, and read from
-- the slice of what was delivered.
use barrique.Base.{ℕ, ◌<◌, ◌≡◌, sym, ap, ◌∙◌, false, some, List, [], ◌++◌, length, ok, append-nil}
use barrique.Lz4.{Foreign, ForeignLaws}
use barrique.Cursor.View
use barrique.Cursor.View.{Write, CursorWriter}
use barrique.Cursor.Delivery.{WriteLaws, cursor_writer_laws, finish-marked, marked-clean}
use barrique.Io.Slice.{slice_reader, slice_reader_laws}
use barrique.Region.Emit.{stream_bytes}
use barrique.Frame.Label
use barrique.Frame.Descriptor
use barrique.Frame.Metadata.RoundTrip.{header_bytes}
use barrique.Stream.Regions.{regions}
use barrique.Stream.Reads.{Fits}
use barrique.Codec.{Encode, Decode}
use barrique.Codec.Laws.{RoundTrips}
use barrique.Frames.{Frame, flagged, get_label, get_timestamp, encode, decode, get_value}
use barrique.Frames.RoundTrip.{frame_encode, frame_decode}

module _ (x : Foreign) (laws : ForeignLaws x) {T : Type 0} (te : Encode T) (td : Decode T)
    (chunks : T → List (List ℕ)) (IsValid : T → Type 0) (rt : RoundTrips te td chunks IsValid)
    {W : Type 0} (w : Write W) (wl : WriteLaws w) where
  open wl use {delivered}

  -- `Frame::encode` through a new `CursorWriter` over an `io::Write` that takes everything succeeds,
  -- and once the `CursorWriter` is dropped, the header and the regions of the value have been
  -- delivered behind what was there, and nothing else.
  pub frame_delivered :
      (f : Frame (CursorWriter W)) (str : List ℕ) (v : T)
      → Label.new str ≡ some f.metadata.label
      → f.base.error ≡ false
      → f.base.buffer.items ≡ []
      → (dst : CursorWriter W) × (encode x (View.cursor_writer w) te f v ≡ (ok tt, dst))
        × (delivered (View.finish w dst)
            ≡ (delivered f.base.writer ++ header_bytes (flagged f).frame_descriptor str)
              ++ stream_bytes x f.seed (Foreign.create_stream x) (regions (chunks v)))
  unfolding cursor_writer_laws
  frame_delivered f str v h clean empty =
      let (dst, run, out) =
        frame_encode x laws te td chunks IsValid rt (View.cursor_writer w) (cursor_writer_laws w wl)
          f str v h in
      (
        dst,
        run,
        finish-marked w wl dst _ (
            out
            ∙ ap
                (λ l.
                  (l ++ header_bytes (flagged f).frame_descriptor str)
                  ++ stream_bytes x f.seed (Foreign.create_stream x) (regions (chunks v)))
                (marked-clean w wl f.base clean empty)),
      )

  -- A frame that is written through a `CursorWriter` over an empty `io::Write`, which is then
  -- dropped, is decoded from the slice of the delivered bytes, with the same seed, to a frame
  -- with the same label and timestamp and the value. The frame has a label that `Label::new` made, a
  -- timestamp of 64 bits and a descriptor that is not yet marked as seeded; the value meets the
  -- limits of its type and is written as one region at least, and each region compresses to fewer
  -- than 2 ^ 16 bytes.
  pub frame_through_io :
      (f : Frame (CursorWriter W)) (str : List ℕ) (v : T) (size : ℕ)
      → Label.new str ≡ some f.metadata.label
      → f.base.error ≡ false
      → f.base.buffer.items ≡ []
      → delivered f.base.writer ≡ []
      → f.metadata.frame_descriptor.seeded ≡ false
      → Descriptor.IsValid (flagged f).frame_descriptor
      → IsValid v
      → 0 < length (regions (chunks v))
      → Fits x (Foreign.create_stream x) (regions (chunks v))
      → (dst : CursorWriter W) × (encode x (View.cursor_writer w) te f v ≡ (ok tt, dst))
        × (g : Frame (List ℕ)) × (decode x slice_reader (delivered (View.finish w dst)) f.seed
            ≡ ok g)
        × (get_label g ≡ get_label f)
        × (get_timestamp g ≡ get_timestamp f)
        × (get_value x slice_reader td size g ≡ ok v)
  unfolding slice_reader_laws
  frame_through_io f str v size h clean empty fresh plain dv valid some_region fits =
      let (dst, run, out) = frame_delivered f str v h clean empty in
      let bytes = header_bytes (flagged f).frame_descriptor str in
      let stream = stream_bytes x f.seed (Foreign.create_stream x) (regions (chunks v)) in
      let there : delivered (View.finish w dst) ≡ bytes ++ (stream ++ []) =
        out
        ∙ ap (λ l. (l ++ bytes) ++ stream) fresh
        ∙ ap (λ l. bytes ++ l) (sym (append-nil stream)) in
      let (g, c1, c2, c3, c4) =
        frame_decode x laws te td chunks IsValid rt slice_reader slice_reader_laws f str v
          (delivered (View.finish w dst)) size [] h plain dv valid some_region fits there in
      (dst, run, g, c1, c2, c3, c4)
