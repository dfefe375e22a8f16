-- ===== src/Region/Emit.antt =====
-- What a push writes: the bytes of one region, and of the regions of a stream.
use barrique.Base.{
  ℕ, ◌+◌, ◌-◌, ◌≤◌, ◌<◌, ◌≡◌, refl, ap, ◌∙◌, Option, some, List, [], ◌∷◌, ◌++◌, length, take, drop,
  is_empty_pos, ok, eq→==, arith, length-append, length-take, length-drop, take-append_at,
  drop-append_at, take-append_past,
}
use barrique.Vec.{Vec, set_len}
use barrique.Io.{Writer, WriterLaws}
use barrique.Lz4.{Foreign, ForeignLaws, compress, compress_bound, copy_to}
use barrique.Region.{header_size, region_size}
use barrique.Region.Header.{into_bytes, length-into_bytes}
use barrique.Region.Push.{Push, header_of, fill, pass, write_to_uninit}

module _ (x : Foreign) where
  open x use {EncContext, compress_continue}

  -- A region: the header, then the compressed bytes.
  unfoldable pub region_bytes : Option ℕ → EncContext → List ℕ → List ℕ
  region_bytes seed e r =
      let out = (compress_continue e r).0 in into_bytes (header_of x seed (length out) r) ++ out

  -- A sequence of regions, each compressed in the context that the earlier ones leave.
  unfoldable pub stream_bytes : Option ℕ → EncContext → List (List ℕ) → List ℕ
  stream_bytes seed e [] = []
  stream_bytes seed e (r ∷ rs) =
      region_bytes seed e r ++ stream_bytes seed (compress_continue e r).1 rs

module _ (x : Foreign) (laws : ForeignLaws x) {W : Type 0} (w : Writer W) (wl : WriterLaws w) where
  open x use {EncContext, compress_continue}
  open laws use {compressed_some, compressed_bound}
  open wl use {written, write_mut_lem, flush_lem}

  -- The push is done: the region is behind what was written, and the buffer is empty.
  pub record Pushed (p : Push x W) (bytes : List ℕ) (p' : Push x W) (buf' : Vec) : Type 0 where
    pub pushed_stream : p'.stream ≡ (compress_continue p.stream bytes).1
    pub pushed_seed : p'.seed ≡ p.seed
    pub pushed_bytes :
        written p'.destination ≡ written p.destination ++ region_bytes x p.seed p.stream bytes
    pub pushed_empty : buf'.items ≡ []

  -- The arena after the compression, and after the header is written over its front.
  arena_header :
      (header out arena : List ℕ)
      → length header ≡ 12
      → 12 ≤ length arena
      → copy_to header (take 12 arena ++ copy_to out (drop 12 arena))
        ≡ header ++ copy_to out (drop 12 arena)
  arena_header header out arena hh ha =
      ap (◌++◌ header)
        (drop-append_at (length header) (take 12 arena) _ (omega (arith, length-take 12 arena)))

  module _ (p : Push x W) (buf : Vec) (arena : List ℕ) (put : List ℕ → W) where
    out : List ℕ
    out = (compress_continue p.stream buf.items).0

    header : List ℕ
    header = into_bytes (header_of x p.seed (length out) buf.items)

    body : List ℕ
    body = copy_to out (drop 12 arena)

    room : ℕ
    room = compress_bound (length buf.items) + header_size

    -- The destination before it is flushed.
    marked : W
    marked = w.assume_init (12 + length out) (put (header ++ body))

    length-body : length out + 12 ≤ length arena → length body + 12 ≡ length arena
    unfolding body
    length-body h = rw (length-append, length-drop, length-drop) (omega arith)

    fill_ok :
        (dst : W)
        → 0 < length out
        → length out + 12 ≤ length arena
        → w.flush marked ≡ (ok tt, dst)
        → fill x w p buf arena put ≡ (
          ok tt,
          (
            record p { stream = (compress_continue p.stream buf.items).1; destination = dst },
            set_len 0 buf,
          ),
        )
    unfolding fill compress write_to_uninit out header body marked
    fill_ok dst some_out room_out flushed = ground (
      arith,
      arena_header header out arena refl,
      length-body room_out,
      length-append (take 12 arena) body,
      length-take 12 arena,
    )

    length-out :
        0 < length buf.items
        → length buf.items ≤ region_size
        → (0 < length out) × (length out + 12 ≤ room)
    unfolding out room
    length-out h k = (
      compressed_some p.stream buf.items h (omega arith),
      omega (arith, compressed_bound p.stream buf.items (omega arith)),
    )

    take-filled : take (12 + length out) (header ++ body) ≡ header ++ out
    unfolding header body into_bytes out
    take-filled =
        take-append_past (12 + length out) header body (omega arith)
        ∙ ap (◌++◌ header) (
            take-append_at (12 + length out - 12) out (drop (length out) (drop 12 arena))
              (omega arith))

    marked_bytes :
        length arena ≡ room
        → 0 < length buf.items
        → length buf.items ≤ region_size
        → ((filled : List ℕ) (k : ℕ)
            → length filled ≡ room
            → k ≤ room
            → written (w.assume_init k (put filled)) ≡ written p.destination ++ take k filled)
        → written marked ≡ written p.destination ++ (header ++ out)
    unfolding marked header room
    marked_bytes ha h k law =
        let (lo, hi) = length-out h k in
        law (header ++ body) (12 + length out)
          (rw length-append (
            omega (
              arith,
              length-body (omega arith),
              length-into_bytes (header_of x p.seed (length out) buf.items),
            )))
          (omega arith)
        ∙ ap (◌++◌ (written p.destination)) take-filled

    pass_step :
        0 < length buf.items
        → w.write_mut room p.destination ≡ some (arena, put)
        → length arena ≡ room
        → pass x w (p, buf) ≡ fill x w p buf arena put
    unfolding pass room
    pass_step h e la = rw (is_empty_pos buf.items h) (rw e (rw (eq→== _ _ la)))

  -- A push of a buffer that is not empty and not longer than `REGION_SIZE` succeeds: it writes the
  -- header and the compressed bytes of that one region behind what was written, moves the
  -- compression context on, keeps the seed and empties the buffer.
  pub pass-Pushed :
      (p : Push x W) (buf : Vec)
      → 0 < length buf.items
      → length buf.items ≤ region_size
      → (p' : Push x W) × (buf' : Vec) × (pass x w (p, buf) ≡ (ok tt, (p', buf')))
        × Pushed p buf.items p' buf'
  unfolding region_bytes room marked out header
  pass-Pushed p buf h k =
      let (arena, put, e, la, law) =
        write_mut_lem (compress_bound (length buf.items) + header_size) p.destination in
      let (dst, flushed, same) = flush_lem (marked p buf arena put) in
      let (some_out, room_out) = length-out p buf arena put h k in
      (
        record p { stream = (compress_continue p.stream buf.items).1; destination = dst },
        set_len 0 buf,
        pass_step p buf arena put h e la
            ∙ fill_ok p buf arena put dst some_out (omega arith) flushed,
        record {
          pushed_stream = refl;
          pushed_seed = refl;
          pushed_bytes = same ∙ marked_bytes p buf arena put la h k law;
          pushed_empty = refl;
        },
      )

  -- A push of an empty buffer does nothing.
  pub pass-empty :
      (p : Push x W) (buf : Vec) → buf.items ≡ [] → pass x w (p, buf) ≡ (ok tt, (p, buf))
  unfolding pass
  pass-empty p buf e = ground (arith)
