-- ===== src/Codec/Stream.antt =====
-- A value through a stream: `T::encode` and `flush` on one side, `StreamDecoder::new` and `get` on
-- the other.
use barrique.Base.{
  ℕ, ◌<◌, ◌≡◌, sym, ap, ◌∙◌, subst, Option, List, [], ◌++◌, length, ok, arith, append-nil,
}
use barrique.Io.{Reader, ReaderLaws, Writer, WriterLaws}
use barrique.Lz4.{Foreign, ForeignLaws}
use barrique.Region.Emit.{stream_bytes}
use barrique.Stream.Encoder
use barrique.Stream.Encoder.{StreamEncoder, encode_bearer, flush}
use barrique.Stream.Decoder
use barrique.Stream.Decoder.{StreamDecoder, decode_bearer}
use barrique.Stream.Regions.{regions}
use barrique.Stream.Encoding.{write_all, encode_all, encode_all-stream_bytes}
use barrique.Stream.Reads.{Fits}
use barrique.Stream.Decoding.{Aligned, read-Aligned, Aligned-split, Aligned-nil, new-Aligned}
use barrique.Stream.RoundTrip.{regions-Groups}
use barrique.Codec.{Encode, Decode, get}
use barrique.Codec.Laws.{DecodeBearerLaws, RoundTrips, writing}

-- A stream decoder is a lawful bearer, whatever stands behind the stream.
unfoldable pub decoder_laws :
    (x : Foreign) (laws : ForeignLaws x) {R : Type 0} (r : Reader R) (rl : ReaderLaws r)
    (tail : List ℕ)
    → DecodeBearerLaws (decode_bearer x r)
unfolding decode_bearer
decoder_laws x laws r rl tail = record {
  Aligned = λ d cs. Aligned x laws r rl d cs tail;
  read_chunk = λ d a cs al. read-Aligned x laws r rl d a cs tail al;
  split_chunk = λ d a c cs h al. Aligned-split x laws r rl d a c cs tail h al;
  skip_chunk = λ d cs al. Aligned-nil x laws r rl d cs tail al;
}

-- The writes succeeded, and the flush after them.
encode_all-inv :
    (x : Foreign) {W : Type 0} (w : Writer W) (ws : List (List ℕ)) (s e : StreamEncoder x W)
    → encode_all x w ws s ≡ (ok tt, e)
    → (s' : StreamEncoder x W) × (write_all (encode_bearer x w) ws s ≡ (ok tt, s'))
      × (flush x w s' ≡ (ok tt, e))
unfolding encode_all
encode_all-inv x w ws s e h = ((write_all (encode_bearer x w) ws s).1, ground arith, ground arith)

module _ (x : Foreign) (laws : ForeignLaws x) {T : Type 0} (te : Encode T) (td : Decode T)
    (chunks : T → List (List ℕ)) (IsValid : T → Type 0) (rt : RoundTrips te td chunks IsValid) where
  module _ {W : Type 0} (w : Writer W) (wl : WriterLaws w) where
    open wl use {written}

    -- Encoding a value with a new encoder succeeds, and so does the flush after it; what is then
    -- written behind the earlier content of the destination are the regions of the value's chunks,
    -- for any capacity that the encoder is given.
    pub encode_value :
        (dst : W) (size : ℕ) (seed : Option ℕ) (v : T)
        → (e e' : StreamEncoder x W) × (te.encode
              (StreamEncoder x W)
              (encode_bearer x w)
              v
              (Encoder.new x w dst size seed)
            ≡ (ok tt, e))
          × (flush x w e ≡ (ok tt, e'))
          × (written e'.switch.destination
              ≡ written dst ++ stream_bytes x seed (Foreign.create_stream x) (regions (chunks v)))
    unfolding writing
    encode_value dst size seed v =
        let (e', run, out) =
          encode_all-stream_bytes x laws w wl dst size seed (chunks v) (rt.chunks_small v) in
        let (e, writes, flushed) =
          encode_all-inv x w (chunks v) (Encoder.new x w dst size seed) e' run in
        (
          e,
          e',
          rt.encoded (StreamEncoder x W) (encode_bearer x w) v (Encoder.new x w dst size seed)
              ∙ ground (arith, writes),
          flushed,
          out,
        )

  module _ {R : Type 0} (r : Reader R) (rl : ReaderLaws r) where
    open rl use {remaining}

    -- From a source that begins with the regions of a value, a decoder with the same seed opens,
    -- and `get` gives the value. The value meets the limits of its type and is written as one
    -- region at least, and each region compresses to fewer than 2 ^ 16 bytes.
    pub decode_value :
        (src : R) (size : ℕ) (seed : Option ℕ) (v : T) (tail : List ℕ)
        → IsValid v
        → 0 < length (regions (chunks v))
        → Fits x (Foreign.create_stream x) (regions (chunks v))
        → remaining src ≡ stream_bytes x seed (Foreign.create_stream x) (regions (chunks v)) ++ tail
        → (d d' : StreamDecoder x R) × (Decoder.new x r src size seed ≡ ok d)
          × (get td (decode_bearer x r) d ≡ (ok v, d'))
    unfolding get decoder_laws
    decode_value src size seed v tail valid some_region fits there =
        let (first, later, parts, g) = regions-Groups (chunks v) some_region in
        let (d, opened, al) =
          new-Aligned x laws r rl src size seed first later (chunks v) tail
            (there ∙ ap (λ l. stream_bytes x seed (Foreign.create_stream x) l ++ tail) parts)
            (subst (Fits x (Foreign.create_stream x)) parts fits) g in
        let (d', reads, _) =
          rt.decoded (StreamDecoder x R) (decode_bearer x r) (decoder_laws x laws r rl tail) v d []
            valid (subst (λ l. Aligned x laws r rl d l tail) (sym (append-nil (chunks v))) al) in
        (d, d', opened, reads)
