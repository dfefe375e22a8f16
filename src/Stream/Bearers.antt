-- ===== src/Stream/Bearers.antt =====
-- The theorems on single reads and writes, at concrete inputs.
use barrique.Base.{ℕ, ◌≡◌, ◌≤◌, ◌+◌, ok, some, List, [], ◌∷◌, ◌++◌, length, All, arith}
use barrique.Vec.{Vec, with_capacity}
use barrique.Io.Buffer.{vec_writer, vec_writer_laws}
use barrique.Samples.{stored, stored_laws}
use barrique.Region.Bound.{max_encoded_size}
use barrique.Region.Emit.{stream_bytes}
use barrique.Stream.Encoder
use barrique.Stream.Encoder.{StreamEncoder}
use barrique.Stream.Regions.{IsRegion}
use barrique.Stream.Encoding.{encode_all}
use barrique.Stream.Complete.{joined, encode_all-joined, encoded-max_encoded_size}

abbrev chunks : List (List ℕ)
chunks = (1 ∷ 2 ∷ []) ∷ (3 ∷ []) ∷ []

abbrev empty_vec : Vec
empty_vec = with_capacity 0

abbrev encoder : StreamEncoder stored Vec
encoder = Encoder.new stored vec_writer empty_vec 0 (some 7)

encode_all-joined_example :
    (rs : List (List ℕ)) × (e : StreamEncoder stored Vec) × (encode_all stored vec_writer chunks
        encoder
      ≡ (ok tt, e))
    × (e.switch.destination.items ≡ [] ++ stream_bytes stored (some 7) 0 rs)
    × (joined rs ≡ 1 ∷ 2 ∷ 3 ∷ [])
    × All IsRegion rs
unfolding vec_writer_laws
encode_all-joined_example =
    encode_all-joined stored stored_laws vec_writer vec_writer_laws empty_vec 0 (some 7) chunks
      (omega arith)

encoded-max_encoded_size_example :
    (e : StreamEncoder stored Vec) × (encode_all stored vec_writer chunks encoder ≡ (ok tt, e))
    × (length e.switch.destination.items ≤ 0 + max_encoded_size 3)
unfolding vec_writer_laws
encoded-max_encoded_size_example =
    encoded-max_encoded_size stored stored_laws vec_writer vec_writer_laws empty_vec 0 (some 7)
      chunks (omega arith)
