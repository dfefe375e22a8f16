-- ===== src/Stream/RoundTrip.antt =====
-- What an encoder has written, a decoder reads.
use barrique.Base.{
  ℕ, ◌≤◌, ◌<◌, ◌≡◌, refl, ap, sym, ◌∙◌, Option, List, [], ◌∷◌, ◌++◌, length, ok, Call, pure, map,
  ◌>>=◌, All, arith,
}
use barrique.Io.{Reader, ReaderLaws, Writer, WriterLaws}
use barrique.Lz4.{Foreign, ForeignLaws}
use barrique.Region.{RegionError, region_size}
use barrique.Region.Emit.{stream_bytes}
use barrique.Stream.{DecodeBearer}
use barrique.Stream.Encoder
use barrique.Stream.Encoder.{StreamEncoder}
use barrique.Stream.Decoder
use barrique.Stream.Decoder.{StreamDecoder, decode_bearer, read}
use barrique.Stream.Regions.{fill, regions, Groups, fill-Groups, Groups-open, regions_from}
use barrique.Stream.Encoding.{encode_all, encode_all-stream_bytes}
use barrique.Stream.Reads.{Fits}
use barrique.Stream.Decoding.{Aligned, read-Aligned, new-Aligned}

-- Reads of the given lengths, one after the other.
unfoldable pub read_all :
    {B : Type 0} → DecodeBearer B → List ℕ → Call B RegionError (List (List ℕ))
read_all b [] = pure []
read_all b (n ∷ ns) = do chunk ← b.read n; chunks ← read_all b ns; pure (chunk ∷ chunks)

module _ (x : Foreign) (laws : ForeignLaws x) {R : Type 0} (r : Reader R) (rl : ReaderLaws r) where
  open rl use {remaining}

  read_all-Aligned :
      (ws : List (List ℕ)) (d : StreamDecoder x R) (tail : List ℕ)
      → Aligned x laws r rl d ws tail
      → (d' : StreamDecoder x R) × (read_all (decode_bearer x r) (map length ws) d ≡ (ok ws, d'))
        × Aligned x laws r rl d' [] tail
  unfolding read_all decode_bearer
  read_all-Aligned [] d tail h = (d, refl, h)
  read_all-Aligned (w ∷ ws) d tail h =
      let (d1, run, h1) = read-Aligned x laws r rl d w ws tail h in
      let (d2, runs, h2) = read_all-Aligned ws d1 tail h1 in (d2, ground (arith, run, runs), h2)

-- The first region of a stream holds the first chunks.
pub regions-Groups :
    (ws : List (List ℕ))
    → 0 < length (regions ws)
    → (first : List ℕ) × (later : List (List ℕ)) × (regions ws ≡ first ∷ later)
      × Groups first later ws
unfolding regions
regions-Groups ws h = go (fill 0 ws).0 (fill 0 ws).1 h (fill-Groups 0 ws)
  where
    go :
        (m : List ℕ) (rs : List (List ℕ))
        → 0 < length (regions_from m rs)
        → Groups m rs ws
        → (first : List ℕ) × (later : List (List ℕ)) × (regions_from m rs ≡ first ∷ later)
          × Groups first later ws
    go [] [] k g = absurd (omega arith)
    go [] (q ∷ rs) k g = (q, rs, refl, Groups-open refl g)
    go (b ∷ bs) rs k g = (b ∷ bs, rs, refl, g)

module _ (x : Foreign) (laws : ForeignLaws x) {W : Type 0} (w : Writer W) (wl : WriterLaws w)
    {R : Type 0} (r : Reader R) (rl : ReaderLaws r) where
  open wl use {written}
  open rl use {remaining}

  -- A stream that a new encoder has written into an empty destination, read by a decoder with the
  -- same seed through reads of the same lengths, gives the chunks back in order. The two bearers may
  -- be given any capacities, and the source may go on behind the stream. The writes are no longer
  -- than a region, they make one region at least, and each region compresses to fewer than 2 ^ 16
  -- bytes.
  pub round_trip :
      (dst : W) (src : R) (size size' : ℕ) (seed : Option ℕ) (ws : List (List ℕ)) (tail : List ℕ)
      (e : StreamEncoder x W)
      → All (λ v. length v ≤ region_size) ws
      → 0 < length (regions ws)
      → Fits x (Foreign.create_stream x) (regions ws)
      → written dst ≡ []
      → encode_all x w ws (Encoder.new x w dst size seed) ≡ (ok tt, e)
      → remaining src ≡ written e.switch.destination ++ tail
      → (d : StreamDecoder x R) × (d' : StreamDecoder x R) × (Decoder.new x r src size' seed ≡ ok d)
        × (read_all (decode_bearer x r) (map length ws) d ≡ (ok ws, d'))
  round_trip dst src size size' seed ws tail e h some_region f fresh run there =
      let (e', run', out) = encode_all-stream_bytes x laws w wl dst size seed ws h in
      let (first, later, parts, g) = regions-Groups ws some_region in
      let same_e : e' ≡ e = cc (run, run') in
      let stored : written e.switch.destination
          ≡ stream_bytes x seed (Foreign.create_stream x) (first ∷ later) =
        ap (λ (k : StreamEncoder x W). written k.switch.destination) (sym same_e)
        ∙ out
        ∙ rw (fresh, parts) refl in
      let (d, opened, al) =
        new-Aligned x laws r rl src size' seed first later ws tail
          (there ∙ ap (λ l. l ++ tail) stored) (rw parts at f) g in
      let (d', reads, _) = read_all-Aligned x laws r rl ws d tail al in (d, d', opened, reads)
