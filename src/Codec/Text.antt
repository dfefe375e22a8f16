-- ===== src/Codec/Text.antt =====
-- `str` of src/impl/mod.rs and `String` of src/impl/alloc.rs, as their bytes. `String::from_utf8`
-- is a parameter: whether it takes the bytes.
use barrique.Base.{
  ℕ, ◌<◌, ◌≤◌, ◌^◌, ◌≡◌, Bool, List, ◌++◌, length, ok, err, All, gets, ◌>>=◌, if◌then◌else◌, arith,
}
use barrique.Stream.{EncodeBearer, DecodeBearer}
use barrique.Codec.{DecodeError, Encode, Decode, get}
use barrique.Codec.Int.{int_encode, int_decode, int-RoundTrips}
use barrique.Codec.Laws.{DecodeBearerLaws, RoundTrips, writing}
use barrique.Codec.Seq.{slice_encode, vec_decode, vec_chunks, slice_encoded, vec-RoundTrips}

unfoldable pub str_encode : Encode (List ℕ)
unfolding slice_encode
str_encode = record {
  encode = Encode.encode (slice_encode (int_encode 1) (int_decode 1));
  size_of = λ src. length src;
}

unfoldable pub string_encode : Encode (List ℕ)
unfolding str_encode
string_encode = record { encode = Encode.encode str_encode; size_of = λ src. length src }

-- The chunks of a text: its length in four bytes, and each byte.
abbrev pub text_chunks : List ℕ → List (List ℕ)
text_chunks = vec_chunks (int_encode 1) (int_decode 1) _ _ (int-RoundTrips 1 (omega arith))

module _ (from_utf8 : List ℕ → Bool) where
  unfoldable pub string_decode : (isize_max : ℕ) → Decode (List ℕ)
  unfolding get vec_decode
  string_decode isize_max = record {
    decode = λ B b. (do
      bytes ← get (vec_decode (int_encode 1) (int_decode 1) isize_max 1) b
      gets (λ _. if from_utf8 bytes then ok bytes else err DecodeError.invalid_pattern));
  }

  -- `decode` once the bytes are read.
  string_run :
      (isize_max : ℕ) (B : Type 0) (b : DecodeBearer B) (bytes : List ℕ) (s s' : B)
      → Decode.decode (vec_decode (int_encode 1) (int_decode 1) isize_max 1) B b s ≡ (ok bytes, s')
      → Decode.decode (string_decode isize_max) B b s
        ≡ (if from_utf8 bytes then ok bytes else err DecodeError.invalid_pattern, s')
  unfolding string_decode get
  string_run isize_max B b bytes s s' h = ground (arith, h)

  -- `encode` of a `String` writes the length and the bytes, up to the first error of the bearer, and
  -- `decode`, on a bearer that delivers what was written, consumes just that and returns the bytes, or
  -- `InvalidPattern` where they are not UTF-8. The text has fewer than 2 ^ 32 bytes, and at most
  -- `isize::MAX`.
  pub string_through :
      (isize_max : ℕ) (text : List ℕ) (E : Type 0) (e : EncodeBearer E) (t : E) (D : Type 0)
      (d : DecodeBearer D) (dl : DecodeBearerLaws d) (s : D) (cs : List (List ℕ))
      → length text < 2 ^ 32
      → length text ≤ isize_max
      → All (λ c. c < 256 ^ 1) text
      → DecodeBearerLaws.Aligned dl s (text_chunks text ++ cs)
      → (Encode.encode string_encode E e text t ≡ writing e (text_chunks text) t)
        × (s' : D) × (Decode.decode (string_decode isize_max) D d s
            ≡ (if from_utf8 text then ok text else err DecodeError.invalid_pattern, s'))
        × DecodeBearerLaws.Aligned dl s' cs
  unfolding string_encode
  string_through isize_max text E e t D d dl s cs short few bytes a =
      let (s', run, rest) =
        RoundTrips.decoded
          (vec-RoundTrips (int_encode 1) (int_decode 1) _ _ (int-RoundTrips 1 (omega arith))
            isize_max 1)
          D d dl text s cs (short, few, omega arith, bytes) a in
      (
        slice_encoded (int_encode 1) (int_decode 1) _ _ (int-RoundTrips 1 (omega arith)) E e text t,
        s',
        string_run isize_max D d text s s' run,
        rest,
      )
