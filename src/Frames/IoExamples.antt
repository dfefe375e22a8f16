-- ===== src/Frames/IoExamples.antt =====
-- A frame over `std::io`, at a destination that is a list of bytes.
use barrique.Base.{ℕ, ◌≡◌, refl, ok, some, List, [], ◌∷◌, ◌++◌, arith}
use barrique.Io.Slice.{slice_reader}
use barrique.Samples.{stored, stored_laws}
use barrique.Stream.Regions.{regions}
use barrique.Cursor.View
use barrique.Cursor.View.{Write, CursorWriter}
use barrique.Cursor.Delivery.{WriteLaws}
use barrique.Frames.{
  Frame, new, with_seed, with_label, with_timestamp, get_label, get_timestamp, encode, decode,
  get_value,
}
use barrique.Frames.Io.{frame_through_io}
use barrique.Frames.Examples.{
  bytes_encode, bytes_decode, bytes_chunks, BytesValid, bytes-RoundTrips, text, label, label_lem,
}

abbrev sink : Write (List ℕ)
sink = record { write_all = λ bytes s. (ok tt, s ++ bytes); flush = λ s. (ok tt, s) }

sink_laws : WriteLaws sink
sink_laws = record {
  delivered = λ s. s;
  write_all_lem = λ bytes s. (s ++ bytes, refl, refl);
  flush_lem = λ s. (s, refl, refl);
}

abbrev frame : Frame (CursorWriter (List ℕ))
frame = with_timestamp 3 (with_label label (with_seed 7 (new (View.new sink []))))

frame_through_io_example :
    (dst : CursorWriter (List ℕ)) × (encode stored
        (View.cursor_writer sink)
        bytes_encode
        frame
        (5 ∷ 6 ∷ [])
      ≡ (ok tt, dst))
    × (g : Frame (List ℕ)) × (decode stored slice_reader (View.finish sink dst) (some 7) ≡ ok g)
    × (get_label g ≡ get_label frame)
    × (get_timestamp g ≡ some 3)
    × (get_value stored slice_reader bytes_decode 100 g ≡ ok (5 ∷ 6 ∷ []))
unfolding sink_laws regions
frame_through_io_example =
    frame_through_io stored stored_laws bytes_encode bytes_decode bytes_chunks BytesValid
      bytes-RoundTrips sink sink_laws frame text (5 ∷ 6 ∷ []) 100 label_lem refl refl refl refl
      (omega arith) (omega arith) (omega arith) (omega arith)
