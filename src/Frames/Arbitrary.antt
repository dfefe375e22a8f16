-- ===== src/Frames/Arbitrary.antt =====
-- The theorems on arbitrary sources, at bytes that no encoder has written.
use barrique.Base.{
  ℕ, ◌-◌, ◌<◌, ◌^◌, ◌≡◌, none, some, List, [], ◌∷◌, ◌++◌, length, All, err, Ensures, arith,
}
use barrique.Bytes.{IsByte}
use barrique.Io.Slice.{slice_reader}
use barrique.Io.Exact.{slice_exact, slice_finite}
use barrique.Samples.{stored, stored_bytes}
use barrique.Region.{RegionError}
use barrique.Region.Header.{into_bytes}
use barrique.Region.Emit.{stream_bytes, region_bytes}
use barrique.Stream.Decoder
use barrique.Stream.Decoder.{StreamDecoder}
use barrique.Stream.Decoder.Robust.{Sound, Moved, read-Ensures}
use barrique.Stream.Decoder.Kept.{Kept, read-Kept}
use barrique.Stream.Decoder.Ends.{read_times, read_times-ends}
use barrique.Codec.{Decode}
use barrique.Codec.Int.{int_encode, int_decode}
use barrique.Codec.Seq.{vec_decode}
use barrique.Codec.Robust.Scalars.{int-Robust}
use barrique.Codec.Robust.Containers.{vec-Robust}
use barrique.Frames.{decode, get_value}
use barrique.Frames.Robust.{frame_any}

-- The magic number, no flags, no label, and a region of three bytes that is the list of two `u8`.
abbrev rubbish : List ℕ
rubbish =
    0xA9 ∷ 0xCE ∷ 0xEB ∷ 0x96 ∷ 0 ∷ 0 ∷ 3 ∷ 0 ∷ 200 ∷ 0 ∷ 0 ∷ 0 ∷ 0 ∷ 0 ∷ 0 ∷ 0 ∷ 0 ∷ 0 ∷ 0 ∷ 1 ∷ 2
    ∷ []

abbrev numbers : Decode (List ℕ)
numbers = vec_decode (int_encode 1) (int_decode 1) (2 ^ 63 - 1) 1

frame_any_example :
    Ensures {S = Unit {0}}
      (λ f _.
        Ensures {S = Unit {0}}
          (λ vs _. (length vs < 2 ^ 32) × All (λ v. v < 256 ^ 1) vs)
          (get_value stored slice_reader numbers 65536 f, tt))
      (decode stored slice_reader rubbish none, tt)
unfolding slice_exact
frame_any_example =
    frame_any stored stored_bytes slice_reader slice_exact numbers
      (vec-Robust (int_encode 1) (int_decode 1) (int-Robust 1) (2 ^ 63 - 1) 1
        (λ n k l. omega arith))
      21 65536 none rubbish (omega arith)

-- A region of three bytes, and two more.
abbrev source : List ℕ
source = stream_bytes stored (some 7) 0 ((1 ∷ 2 ∷ 3 ∷ []) ∷ []) ++ (4 ∷ 5 ∷ [])

abbrev decoder : StreamDecoder stored (List ℕ)
decoder = Decoder.closed stored slice_reader source 0 (some 7)

decoder_sound : Sound stored stored_bytes slice_reader slice_exact 18 decoder
unfolding slice_exact Decoder.closed stream_bytes region_bytes into_bytes
decoder_sound = record {
  in_bounds = record { cursor_in = omega arith; bytes = tt };
  good = omega arith;
}

read-Ensures_example :
    Ensures
      (λ bytes d'.
        (length bytes ≡ 2)
        × All IsByte bytes
        × Moved stored stored_bytes slice_reader slice_exact 18 2 decoder d')
      (Decoder.read stored slice_reader 2 decoder)
read-Ensures_example =
    read-Ensures stored stored_bytes slice_reader slice_exact 18 2 decoder decoder_sound

read_times-ends_example :
    (k : ℕ) × (e : RegionError) × ((read_times stored slice_reader 2 k decoder).0 ≡ err e)
read_times-ends_example =
    read_times-ends stored stored_bytes slice_reader slice_exact slice_finite 18 2 decoder
      (omega arith) decoder_sound

read-Kept_example : Kept stored slice_reader decoder (Decoder.read stored slice_reader 2 decoder).1
read-Kept_example = read-Kept stored slice_reader 2 decoder
