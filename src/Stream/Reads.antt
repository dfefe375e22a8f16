-- ===== src/Stream/Reads.antt =====
-- The state of a decoder through reads and pulls.
use barrique.Base.{
  ℕ, ◌+◌, ◌-◌, ◌^◌, ◌≤◌, ◌<◌, ◌≡◌, refl, ap, sym, ◌∙◌, some, List, [], ◌∷◌, ◌++◌, length, take,
  drop, ok, arith, append_assoc, length-append, length-drop, take-append_at, drop-append_at,
  drop-drop,
}
use barrique.Vec.{Vec}
use barrique.Io.{Reader, ReaderLaws}
use barrique.Lz4.{Foreign, ForeignLaws}
use barrique.Region.RegionBuffer
use barrique.Region.RegionBuffer.{RegionBuffer}
use barrique.Region.Pull
use barrique.Region.Pull.{Pull}
use barrique.Region.Emit.{stream_bytes}
use barrique.Region.Absorb.{pass-Pulled}
use barrique.Stream.Decoder.{StreamDecoder, read, next_region}
use barrique.Stream.Regions.{IsRegion}

-- The regions are proper ones, and each compresses to a length that the header can hold.
abbrev pub Fits : (x : Foreign) → Foreign.EncContext x → List (List ℕ) → Type 0
Fits x e [] = Unit
Fits x e (r ∷ rs) =
    IsRegion r
    × (length (Foreign.compress_continue x e r).0 < 2 ^ 16)
    × Fits x (Foreign.compress_continue x e r).1 rs

-- The read of `n` bytes that are there.
buffer_read :
    (b : RegionBuffer) (a m : List ℕ)
    → b.cursor ≤ length b.buffer.curr.items
    → drop b.cursor b.buffer.curr.items ≡ a ++ m
    → RegionBuffer.read (length a) b ≡ (some a, record b { cursor = b.cursor + length a })
unfolding RegionBuffer.read
buffer_read b a m h e =
    ground (arith, ap length e, length-append a m, length-drop b.cursor b.buffer.curr.items, front)
  where
    front : take (b.cursor + length a - b.cursor) (drop b.cursor b.buffer.curr.items) ≡ a
    front = rw e (take-append_at _ a m (omega arith))

module _ (x : Foreign) {R : Type 0} (r : Reader R) where
  -- A decoder with its cursor moved on.
  abbrev pub moved : ℕ → StreamDecoder x R → StreamDecoder x R
  moved n d = record d {
    region_buffer = record (d.region_buffer) { cursor = d.region_buffer.cursor + n };
  }

  abbrev pub items_of : StreamDecoder x R → List ℕ
  items_of d = d.region_buffer.buffer.curr.items

  abbrev pub cursor_of : StreamDecoder x R → ℕ
  cursor_of d = d.region_buffer.cursor

  pub read_here :
      (d : StreamDecoder x R) (a m : List ℕ)
      → cursor_of d ≤ length (items_of d)
      → drop (cursor_of d) (items_of d) ≡ a ++ m
      → read x r (length a) d ≡ (ok a, moved (length a) d)
  unfolding read
  read_here d a m h e = ground (
    arith,
    ap length e,
    length-append a m,
    length-drop (cursor_of d) (items_of d),
    buffer_read d.region_buffer a m h e,
  )

  abbrev pub swapped : StreamDecoder x R → StreamDecoder x R
  swapped d = record d { region_buffer = RegionBuffer.swap d.region_buffer }

  pub read_there :
      (d d' : StreamDecoder x R) (a m : List ℕ)
      → 0 < length a
      → cursor_of d ≡ length (items_of d)
      → next_region x r (swapped d) ≡ (ok tt, d')
      → cursor_of d' ≡ 0
      → items_of d' ≡ a ++ m
      → read x r (length a) d ≡ (ok a, moved (length a) d')
  unfolding read
  read_there d d' a m h e run z there =
      ground (arith, run, buffer_read d'.region_buffer a m (omega (arith, z)) (rw z there))

  -- A decoder after a pull.
  pulled : StreamDecoder x R → Pull x R → Vec → StreamDecoder x R
  pulled d p buf = record {
    region_buffer = record { buffer = record (d.region_buffer.buffer) { curr = buf }; cursor = 0 };
    switch = p;
  }

  next_region_step :
      (d : StreamDecoder x R) (p : Pull x R) (buf : Vec)
      → Pull.pass x r (d.switch, d.region_buffer.buffer.curr) ≡ (ok tt, (p, buf))
      → next_region x r d ≡ (ok tt, pulled d p buf)
  unfolding next_region pulled
  next_region_step d p buf h = ground arith

module _ (x : Foreign) (laws : ForeignLaws x) {R : Type 0} (r : Reader R) (rl : ReaderLaws r) where
  open x use {EncContext, compress_continue}
  open laws use {InStep, fresh_InStep}
  open rl use {remaining}

  -- What a decoder still has to read, region by region: `left` of the region at hand, then the
  -- regions `later` of the source, and then `tail`.
  pub record Reads (d : StreamDecoder x R) (left : List ℕ) (later : List (List ℕ)) (tail : List ℕ)
      : Type 0 where
    pub context : EncContext
    pub in_bounds : d.region_buffer.cursor ≤ length d.region_buffer.buffer.curr.items
    pub at_hand : drop d.region_buffer.cursor d.region_buffer.buffer.curr.items ≡ left
    pub source : remaining d.switch.source ≡ stream_bytes x d.switch.seed context later ++ tail
    pub in_step : InStep context d.switch.stream
    pub fits : Fits x context later

  -- A pull at the end of a region brings the next one.
  pub next_region-Reads :
      (d : StreamDecoder x R) (c : EncContext) (region : List ℕ) (later : List (List ℕ))
      (tail : List ℕ)
      → remaining d.switch.source ≡ stream_bytes x d.switch.seed c (region ∷ later) ++ tail
      → InStep c d.switch.stream
      → Fits x c (region ∷ later)
      → (d' : StreamDecoder x R) × (next_region x r d ≡ (ok tt, d'))
        × (d'.region_buffer.cursor ≡ 0)
        × (d'.region_buffer.buffer.curr.items ≡ region)
        × Reads d' region later tail
  unfolding stream_bytes pulled
  next_region-Reads d c region later tail src sync (proper, small, rest) =
      let (p, buf, run, done) =
        pass-Pulled x laws r rl c d.switch d.region_buffer.buffer.curr region
          (stream_bytes x d.switch.seed (compress_continue c region).1 later ++ tail) sync proper.0
          proper.1 small (src ∙ append_assoc _ _ tail) in
      (
        pulled x r d p buf,
        next_region_step x r d p buf run,
        refl,
        done.pulled_items,
        record {
          context = (compress_continue c region).1;
          in_bounds = omega arith;
          at_hand = done.pulled_items;
          source = rw done.pulled_seed done.pulled_source;
          in_step = done.pulled_InStep;
          fits = rest;
        },
      )

  pub moved-Reads :
      (d : StreamDecoder x R) (a m : List ℕ) {later : List (List ℕ)} {tail : List ℕ}
      → Reads d (a ++ m) later tail
      → Reads (moved x r (length a) d) m later tail
  moved-Reads d a m h = record {
    context = h.context;
    in_bounds = omega (
      arith,
      ap length h.at_hand,
      length-append a m,
      length-drop (cursor_of x r d) (items_of x r d),
    );
    at_hand =
        sym (drop-drop (length a) (cursor_of x r d) (items_of x r d))
        ∙ ap (drop (length a)) h.at_hand
        ∙ drop-append_at (length a) a m refl;
    source = h.source;
    in_step = h.in_step;
    fits = h.fits;
  }

  pub Reads-left :
      {d : StreamDecoder x R} {left left' : List ℕ} {later : List (List ℕ)} {tail : List ℕ}
      → Reads d left later tail
      → left ≡ left'
      → Reads d left' later tail
  Reads-left h e = record {
    context = h.context;
    in_bounds = h.in_bounds;
    at_hand = h.at_hand ∙ e;
    source = h.source;
    in_step = h.in_step;
    fits = h.fits;
  }

  -- At the end of a region, the next one comes into the other buffer.
  pub next_region-swap :
      (d : StreamDecoder x R) (region : List ℕ) {later : List (List ℕ)} {tail : List ℕ}
      → Reads d [] (region ∷ later) tail
      → (d' : StreamDecoder x R) × (next_region x r (swapped x r d) ≡ (ok tt, d'))
        × (d'.region_buffer.cursor ≡ 0)
        × (d'.region_buffer.buffer.curr.items ≡ region)
        × Reads d' region later tail
  unfolding RegionBuffer.swap
  next_region-swap d region h =
      next_region-Reads (swapped x r d) h.context region _ _ h.source h.in_step h.fits
