-- ===== src/Stream/Examples.antt =====
-- Runs of the streams, and their theorems at concrete inputs.
use barrique.Base.{
  ℕ, ◌≡◌, refl, ap, some, List, [], ◌∷◌, ◌++◌, ok, arith, length, replicate, length-replicate,
}
use barrique.Vec.{Vec, with_capacity, reserve, extend_from_slice}
use barrique.Io.Slice.{slice_reader, slice_reader_laws}
use barrique.Io.Buffer.{vec_writer, vec_writer_laws}
use barrique.Samples.{stored, stored_laws}
use barrique.Region.Push
use barrique.Stream.Encoder
use barrique.Stream.Encoder.{StreamEncoder}
use barrique.Stream.Decoder
use barrique.Stream.Decoder.{StreamDecoder, decode_bearer}
use barrique.Stream.Holds.{Holds, write-Holds_begins}
use barrique.Stream.Window.{Kept, full, start, Written-Kept}
use barrique.Stream.Regions.{regions}
use barrique.Stream.Encoding.{encode_all, write_all}
use barrique.Stream.RoundTrip.{read_all, round_trip}

abbrev chunks : List (List ℕ)
chunks = (1 ∷ 2 ∷ []) ∷ [] ∷ (3 ∷ []) ∷ []

abbrev empty_vec : Vec
empty_vec = with_capacity 0

abbrev encoder : StreamEncoder stored Vec
encoder =
    (encode_all stored vec_writer chunks (Encoder.new stored vec_writer empty_vec 0 (some 7))).1

-- One region: its lengths, the hash of its three bytes, and the block.
encoded :
    encoder.switch.destination.items
    ≡ 4 ∷ 0 ∷ 3 ∷ 0 ∷ 10 ∷ 0 ∷ 0 ∷ 0 ∷ 0 ∷ 0 ∷ 0 ∷ 0 ∷ 0 ∷ 1 ∷ 2 ∷ 3 ∷ []
unfolding encode_all write_all Encoder.encode_bearer Encoder.new Encoder.write vec_writer reserve
    extend_from_slice Push.pass
encoded = refl

encoder_run :
    encode_all stored vec_writer chunks (Encoder.new stored vec_writer empty_vec 0 (some 7))
    ≡ (ok tt, encoder)
unfolding encode_all write_all Encoder.encode_bearer Encoder.new Encoder.write vec_writer reserve
    extend_from_slice Push.pass
encoder_run = refl

round_trip_example :
    (d d' : StreamDecoder stored (List ℕ)) × (Decoder.new stored slice_reader
        (encoder.switch.destination.items ++ (9 ∷ []))
        65536
        (some 7)
      ≡ ok d)
    × (read_all (decode_bearer stored slice_reader) (2 ∷ 0 ∷ 1 ∷ []) d ≡ (ok chunks, d'))
unfolding vec_writer_laws slice_reader_laws regions
round_trip_example =
    round_trip stored stored_laws vec_writer vec_writer_laws slice_reader slice_reader_laws
      empty_vec (encoder.switch.destination.items ++ (9 ∷ [])) 0 65536 (some 7) chunks (9 ∷ [])
      encoder (omega arith) (omega arith) (omega arith) refl encoder_run refl

-- An encoder with one byte at hand, and a write that takes a whole region.
abbrev one_byte : StreamEncoder stored Vec
one_byte = record {
  region_buffer = record {
    buffer = record {
      curr = record { items = 1 ∷ []; spare = 0 ∷ [] };
      prev = record { items = []; spare = [] };
    };
    cursor = 0;
  };
  switch = record { stream = 0; seed = some 7; destination = empty_vec };
}

whole_region :
    (more : List ℕ)
    → length more ≡ 65535
    → (Encoder.write stored vec_writer more one_byte).0 ≡ ok tt
unfolding vec_writer_laws
whole_region more l =
    let at_hand : Holds stored stored_laws vec_writer vec_writer_laws one_byte (1 ∷ []) 0 (some 7)
        [] =
      record { at_hand = refl; other = refl; context = refl; seeded = refl; emitted = refl } in
    let (e', run, _) =
      write-Holds_begins stored stored_laws vec_writer vec_writer_laws one_byte more at_hand
        (omega arith) (omega arith) (omega arith) in
    ap (λ m. m.0) run

Written-Kept_example :
    Kept stored vec_writer one_byte
      (Encoder.write stored vec_writer (replicate 65535 0) one_byte).1
      (some (1 ∷ [], 0))
Written-Kept_example =
    Written-Kept stored vec_writer one_byte
      (Encoder.write stored vec_writer (replicate 65535 0) one_byte).1 (some (1 ∷ [], 0))
      (full (replicate 65535 0) start
        (whole_region (replicate 65535 0) (length-replicate {A = ℕ} 65535 0))
        (omega (arith, length-replicate {A = ℕ} 65535 0)))
