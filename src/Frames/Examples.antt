-- ===== src/Frames/Examples.antt =====
-- A frame that is written and read, and the theorems at it.
use barrique.Base.{ℕ, ◌-◌, ◌≡◌, ◌<◌, ◌^◌, refl, ok, err, some, none, List, [], ◌∷◌, ◌++◌, arith}
use barrique.Vec.{Vec, with_capacity, reserve, extend_from_slice}
use barrique.Io.Slice.{slice_reader, slice_reader_laws}
use barrique.Io.Buffer.{vec_writer, vec_writer_laws}
use barrique.Samples.{stored, stored_laws}
use barrique.Region.Push
use barrique.Region.Emit.{stream_bytes}
use barrique.Frame.Label
use barrique.Frame.Label.{Label}
use barrique.Frame.Metadata
use barrique.Frame.Metadata.RoundTrip.{header_bytes}
use barrique.Stream.Encoder
use barrique.Stream.Regions.{regions}
use barrique.Codec.{Encode, Decode, EncodeError, DecodeError}
use barrique.Codec.Laws.{RoundTrips}
use barrique.Codec.Int.{int_encode, int_decode, int-RoundTrips}
use barrique.Codec.Seq.{vec_encode, vec_decode, vec_chunks, VecValid, vec-RoundTrips}
use barrique.Bytes.{to_le_bytes}
use barrique.Frames.{
  Frame, new, with_seed, with_label, with_timestamp, flagged, get_label, get_timestamp, encode,
  decode, get_value,
}
use barrique.Frame.{FrameError}
use barrique.Frames.Mismatch.{frame_mismatch}
use barrique.Codec.{get}
use barrique.Stream.Encoder.{StreamEncoder}
use barrique.Frames.RoundTrip.{frame_round_trip}

-- That of a target of 64 bits.
abbrev pub isize_max : ℕ
isize_max = 2 ^ 63 - 1

abbrev pub byte :
    RoundTrips (int_encode 1) (int_decode 1) (λ v. to_le_bytes 1 v ∷ []) (λ v. v < 256 ^ 1)
byte = int-RoundTrips 1 (omega arith)

abbrev pub bytes_encode : Encode (List ℕ)
bytes_encode = vec_encode (int_encode 1) (int_decode 1) 1

abbrev pub bytes_decode : Decode (List ℕ)
bytes_decode = vec_decode (int_encode 1) (int_decode 1) isize_max 1

abbrev pub bytes_chunks : List ℕ → List (List ℕ)
bytes_chunks = vec_chunks (int_encode 1) (int_decode 1) _ _ byte

abbrev pub BytesValid : List ℕ → Type 0
BytesValid = VecValid (int_encode 1) (int_decode 1) _ _ byte isize_max 1

pub bytes-RoundTrips : RoundTrips bytes_encode bytes_decode bytes_chunks BytesValid
bytes-RoundTrips = vec-RoundTrips (int_encode 1) (int_decode 1) _ _ byte isize_max 1

-- The text "ab".
abbrev pub text : List ℕ
text = 97 ∷ 98 ∷ []

abbrev pub label : Label
label = elim (Label.new text) [ none ↦ Label.default | some l ↦ l ]

abbrev frame : Frame Vec
frame = with_timestamp 3 (with_label label (with_seed 7 (new (with_capacity 0))))

abbrev dst : Vec
dst = (encode stored vec_writer bytes_encode frame (5 ∷ 6 ∷ [])).1

-- The header of sixteen bytes, and one region.
frame_bytes :
    dst.items
    ≡ 169 ∷ 206 ∷ 235 ∷ 150 ∷ 192 ∷ 3 ∷ 0 ∷ 0 ∷ 0 ∷ 0 ∷ 0 ∷ 0 ∷ 0 ∷ 2 ∷ 97 ∷ 98 ∷ 7 ∷ 0 ∷ 6 ∷ 0 ∷ 13
      ∷ 0 ∷ 0 ∷ 0 ∷ 0 ∷ 0 ∷ 0 ∷ 0 ∷ 0 ∷ 2 ∷ 0 ∷ 0 ∷ 0 ∷ 5 ∷ 6 ∷ []
unfolding encode Label.new Metadata.encode_into_writer vec_writer reserve vec_encode
    barrique.Codec.write Encoder.encode_bearer Encoder.write Encoder.new extend_from_slice Push.pass
frame_bytes = refl

frame_run : encode stored vec_writer bytes_encode frame (5 ∷ 6 ∷ []) ≡ (ok tt, dst)
unfolding encode Label.new Metadata.encode_into_writer vec_writer reserve vec_encode
    barrique.Codec.write Encoder.encode_bearer Encoder.write Encoder.new extend_from_slice Push.pass
frame_run = refl

pub label_lem : Label.new text ≡ some label
unfolding Label.new
label_lem = refl

abbrev value_bytes : List ℕ
value_bytes = stream_bytes stored (some 7) 0 (regions (bytes_chunks (5 ∷ 6 ∷ [])))

frame_round_trip_example :
    (g : Frame (List ℕ)) × (decode stored slice_reader (dst.items ++ (4 ∷ [])) (some 7) ≡ ok g)
    × (get_label g ≡ get_label frame)
    × (get_timestamp g ≡ some 3)
    × (get_value stored slice_reader bytes_decode 100 g ≡ ok (5 ∷ 6 ∷ []))
unfolding slice_reader_laws vec_writer_laws regions
frame_round_trip_example =
    frame_round_trip stored stored_laws bytes_encode bytes_decode bytes_chunks BytesValid
      bytes-RoundTrips vec_writer vec_writer_laws slice_reader slice_reader_laws frame text
      (5 ∷ 6 ∷ []) dst (dst.items ++ (4 ∷ [])) 100 (4 ∷ []) label_lem refl (omega arith)
      (omega arith) (omega arith) (omega arith) refl frame_run refl

-- The header says that there is a seed, and the reader has none.
frame_mismatch_example :
    (g : Frame (List ℕ)) × (decode stored slice_reader
        (header_bytes (flagged frame).frame_descriptor text ++ value_bytes)
        none
      ≡ ok g)
    × (get_value stored slice_reader bytes_decode 100 g
        ≡ err (DecodeError.frame_error FrameError.environment_mismatch))
unfolding slice_reader_laws
frame_mismatch_example =
    frame_mismatch stored slice_reader slice_reader_laws (flagged frame) text
      (header_bytes (flagged frame).frame_descriptor text ++ value_bytes) value_bytes none
      bytes_decode 100 label_lem (omega arith) refl (omega arith) (λ e. ground arith)
