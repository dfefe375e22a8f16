-- ===== src/Stream/Decoding.antt =====
-- The decoder reads chunk after chunk of a stream whose regions hold them.
use barrique.Base.{
  ℕ, ◌<◌, ◌≡◌, ap, ◌∙◌, Option, List, [], ◌∷◌, ◌++◌, length, ok, arith, length-drop,
}
use barrique.Io.{Reader, ReaderLaws}
use barrique.Lz4.{Foreign, ForeignLaws}
use barrique.Region.Emit.{stream_bytes}
use barrique.Stream.Decoder.{StreamDecoder, read, new, closed}
use barrique.Stream.Regions.{Groups, same, next, Groups-split, Groups-nil}
use barrique.Stream.Reads.{
  Fits, moved, items_of, cursor_of, read_here, read_there, Reads, next_region-Reads, moved-Reads,
  Reads-left, next_region-swap,
}

module _ (x : Foreign) (laws : ForeignLaws x) {R : Type 0} (r : Reader R) (rl : ReaderLaws r) where
  open x use {EncContext, compress_continue}
  open laws use {InStep, fresh_InStep}
  open rl use {remaining}

  -- The decoder holds exactly the chunks `ws`, in order, and `tail` behind them.
  pub record Aligned (d : StreamDecoder x R) (ws : List (List ℕ)) (tail : List ℕ) : Type 0 where
    pub left : List ℕ
    pub later : List (List ℕ)
    pub reads : Reads x laws r rl d left later tail
    pub grouped : Groups left later ws

  read-Reads :
      (d : StreamDecoder x R) (a : List ℕ) {left : List ℕ} {later ws : List (List ℕ)}
      {tail : List ℕ}
      → Reads x laws r rl d left later tail
      → Groups left later (a ∷ ws)
      → (d' : StreamDecoder x R) × (read x r (length a) d ≡ (ok a, d')) × Aligned d' ws tail
  read-Reads d a h (same _ {m = m} e g) =
      let h' = Reads-left x laws r rl h e in
      (
        moved x r (length a) d,
        read_here x r d a m h.in_bounds (h.at_hand ∙ e),
        record { left = m; later = _; reads = moved-Reads x laws r rl d a m h'; grouped = g },
      )
  read-Reads d a h (next _ {m = m} {r = region} k e g) =
      let (d', run, z, there, h') = next_region-swap x laws r rl d region h in
      (
        moved x r (length a) d',
        read_there x r d d' a m k
            (omega (
              arith,
              h.in_bounds,
              ap length h.at_hand,
              length-drop (cursor_of x r d) (items_of x r d),
            ))
            run z (there ∙ e),
        record {
          left = m;
          later = _;
          reads = moved-Reads x laws r rl d' a m (Reads-left x laws r rl h' e);
          grouped = g;
        },
      )

  -- A read of the length of the next chunk of a stream returns that chunk, whether it is in the
  -- region at hand or begins the next one, and leaves the decoder at the chunks after it.
  pub read-Aligned :
      (d : StreamDecoder x R) (a : List ℕ) (ws : List (List ℕ)) (tail : List ℕ)
      → Aligned d (a ∷ ws) tail
      → (d' : StreamDecoder x R) × (read x r (length a) d ≡ (ok a, d')) × Aligned d' ws tail
  read-Aligned d a ws tail h = read-Reads d a h.reads h.grouped

  -- A chunk may be read in two parts, and an empty chunk may be passed over.
  pub Aligned-split :
      (d : StreamDecoder x R) (a b : List ℕ) (ws : List (List ℕ)) (tail : List ℕ)
      → 0 < length a
      → Aligned d ((a ++ b) ∷ ws) tail
      → Aligned d (a ∷ b ∷ ws) tail
  Aligned-split d a b ws tail h al = record {
    left = al.left;
    later = al.later;
    reads = al.reads;
    grouped = Groups-split a b h al.grouped;
  }

  pub Aligned-nil :
      (d : StreamDecoder x R) (ws : List (List ℕ)) (tail : List ℕ)
      → Aligned d ([] ∷ ws) tail
      → Aligned d ws tail
  Aligned-nil d ws tail al = record {
    left = al.left;
    later = al.later;
    reads = al.reads;
    grouped = Groups-nil al.grouped;
  }

  -- A new decoder over a source that begins with a stream of regions opens with success, and stands
  -- before the chunks that the regions hold. Each region is not empty, not longer than
  -- `REGION_SIZE`, and compresses to fewer than 2 ^ 16 bytes.
  pub new-Aligned :
      (src : R) (size : ℕ) (seed : Option ℕ) (region : List ℕ) (later ws : List (List ℕ))
      (tail : List ℕ)
      → remaining src ≡ stream_bytes x seed (Foreign.create_stream x) (region ∷ later) ++ tail
      → Fits x (Foreign.create_stream x) (region ∷ later)
      → Groups region later ws
      → (d : StreamDecoder x R) × (new x r src size seed ≡ ok d) × Aligned d ws tail
  unfolding new closed
  new-Aligned src size seed region later ws tail e f g =
      let (d, run, _, _, h) =
        next_region-Reads x laws r rl (closed x r src size seed) (Foreign.create_stream x) region
          later tail e (fresh_InStep) f in
      (d, ground (arith, run), record { left = region; later = later; reads = h; grouped = g })
