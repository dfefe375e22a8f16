-- ===== src/Region/Absorb.antt =====
-- What a pull reads: one region that a push has written.
pub mod Reject
pub mod Cut
use barrique.Base.{
  ℕ, ◌+◌, ◌%◌, ◌^◌, ◌≤◌, ◌<◌, ◌≡◌, refl, ap, sym, ◌∙◌, Option, none, some, List, [], ◌++◌, length,
  drop, ok, arith, append_assoc, append-nil, length-append, drop-append_at, take-append_le,
  take-length,
}
use barrique.Vec.{Vec, set_len, reserve, items-reserve, spare-reserve}
use barrique.Io.{Reader, ReaderLaws}
use barrique.Io.Reading.{read_front, skip_front}
use barrique.Lz4.{Foreign, ForeignLaws, decompress, copy_to}
use barrique.Region.{RegionError, header_size, region_size}
use barrique.Region.Header.{
  RegionHeader, IsValid, from_bytes, into_bytes, length-into_bytes, from_bytes-into_bytes,
}
use barrique.Region.Push.{region_hash, header_of}
use barrique.Region.Pull.{Pull, pass}
use barrique.Region.Emit.{region_bytes}

module _ (x : Foreign) {R : Type 0} (r : Reader R) where
  -- The buffer that is handed to the decompression.
  abbrev emptied : ℕ → Vec → Vec
  emptied n buf = reserve n (set_len 0 buf)

  -- The run of a pull in which every step succeeds.
  pass_run :
      (p : Pull x R) (buf : Vec) (front bytes body : List ℕ) (s1 s2 s3 : R) (h : RegionHeader)
      (n : ℕ) (d : Foreign.DecContext x)
      → r.read_borrow header_size p.source ≡ (ok front, s1)
      → from_bytes {E = RegionError} front ≡ ok h
      → r.read_borrow (header_size + h.compressed_size) s1 ≡ (ok bytes, s2)
      → length bytes ≡ header_size + h.compressed_size
      → decompress x p.stream (drop header_size bytes) (emptied h.alloc_size buf).spare
        ≡ (some n, body, d)
      → region_hash x p.seed (set_len n (record (emptied h.alloc_size buf) { spare = body })).items
        ≡ h.hash
      → r.advance (header_size + h.compressed_size) s2 ≡ (ok tt, s3)
      → pass x r (p, buf) ≡ (
        ok tt,
        (
          record p { stream = d; source = s3 },
          set_len n (record (emptied h.alloc_size buf) { spare = body }),
        ),
      )
  unfolding pass
  pass_run p buf front bytes body s1 s2 s3 h n d e1 e2 e3 e4 e5 e6 e7 = ground arith

module _ (x : Foreign) (laws : ForeignLaws x) {R : Type 0} (r : Reader R) (rl : ReaderLaws r) where
  open x use {EncContext, compress_continue}
  open laws use {InStep, decompressed, oneshot-lt}
  open rl use {remaining, read_borrow_lem, advance_lem}

  -- The pull is done: the buffer holds the region, the source is past it, and the decoder's context
  -- is in step with the encoder's context after the region.
  pub record Pulled (e : EncContext) (p : Pull x R) (bytes rest : List ℕ) (p' : Pull x R)
      (buf' : Vec) : Type 0 where
    pub pulled_items : buf'.items ≡ bytes
    pub pulled_source : remaining p'.source ≡ rest
    pub pulled_seed : p'.seed ≡ p.seed
    pub pulled_InStep : InStep (compress_continue e bytes).1 p'.stream

  module _ (e : EncContext) (seed : Option ℕ) (bytes : List ℕ) (rest : List ℕ) where
    packed : List ℕ
    packed = (compress_continue e bytes).0

    header : RegionHeader
    header = header_of x seed (length packed) bytes

    header-IsValid : IsValid header
    unfolding header
    header-IsValid = record {
      compressed_size-lt = omega arith;
      alloc_size-lt = omega arith;
      hash-lt = region_hash-lt seed;
    }
      where
        region_hash-lt : (s : Option ℕ) → region_hash x s bytes < 2 ^ 64
        region_hash-lt none = omega arith
        region_hash-lt (some n) = oneshot-lt n bytes

    from_bytes-header : from_bytes {E = RegionError} (into_bytes header) ≡ ok header
    from_bytes-header =
        rw append-nil at (from_bytes-into_bytes {E = RegionError} header [] header-IsValid)

    size : ℕ
    size = header_size + header.compressed_size

    region_split : region_bytes x seed e bytes ++ rest ≡ into_bytes header ++ (packed ++ rest)
    unfolding region_bytes header packed
    region_split = append_assoc _ _ rest

    size-eq : length packed < 2 ^ 16 → size ≡ length (into_bytes header ++ packed)
    unfolding size header packed into_bytes
    size-eq h = rw length-append (omega arith)

    decompress_ok :
        (d d' : Foreign.DecContext x) (dst : List ℕ)
        → 0 < length bytes
        → Foreign.decompress_safe_continue x d packed (length dst) ≡ (some bytes, d')
        → decompress x d packed dst ≡ (some (length bytes), copy_to bytes dst, d')
    unfolding decompress
    decompress_ok d d' dst h e = ground arith

    -- The buffer after the decompression.
    target : Vec → Vec
    target buf = record (emptied x r header.alloc_size buf) {
      spare = copy_to bytes (emptied x r header.alloc_size buf).spare;
    }

    unpacked : (buf : Vec) → (set_len (length bytes) (target buf)).items ≡ bytes
    unfolding target
    unpacked buf =
        rw (items-reserve header.alloc_size (set_len 0 buf))
          (take-append_le (length bytes) bytes _ (omega arith) ∙ take-length bytes)

    room :
        (buf : Vec)
        → length bytes ≤ region_size
        → length bytes ≤ length (emptied x r header.alloc_size buf).spare
    unfolding header
    room buf h = omega (arith, spare-reserve (length bytes % 2 ^ 16) (set_len 0 buf))

    header-hash : region_hash x seed bytes ≡ header.hash
    unfolding header
    header-hash = refl

    -- The run of a pull over a source that begins with the region.
    pull_region :
        (p : Pull x R) (buf : Vec)
        → p.seed ≡ seed
        → 0 < length bytes
        → length bytes ≤ region_size
        → length packed < 2 ^ 16
        → remaining p.source ≡ into_bytes header ++ (packed ++ rest)
        → InStep e p.stream
        → (s : R) × (d : Foreign.DecContext x) × (pass x r (p, buf)
            ≡ (ok tt, (record p { stream = d; source = s }, set_len (length bytes) (target buf))))
          × (remaining s ≡ rest)
          × InStep (compress_continue e bytes).1 d
    unfolding target packed size
    pull_region p buf es h k fits src sync =
        let whole : remaining p.source ≡ (into_bytes header ++ packed) ++ rest =
          src ∙ sym (append_assoc (into_bytes header) packed rest) in
        let (s1, c1, q1) =
          read_front r rl header_size p.source (into_bytes header) (packed ++ rest) src
            (sym (length-into_bytes header)) in
        let (s2, c2, q2) =
          read_front r rl size s1 (into_bytes header ++ packed) rest
            (q1 ∙ sym (append_assoc (into_bytes header) packed rest)) (size-eq fits) in
        let (s3, c3, q3) =
          skip_front r rl size s2 (into_bytes header ++ packed) rest q2 (size-eq fits) in
        let (d, c4, sync') =
          decompressed e p.stream bytes (length (emptied x r header.alloc_size buf).spare) sync h
            (omega arith) (room buf k) in
        (
          s3,
          d,
          pass_run x r p buf (into_bytes header) (into_bytes header ++ packed) _ s1 s2 s3 header
              (length bytes) d c1 from_bytes-header c2 (sym (size-eq fits))
              (rw
                (drop-append_at header_size (into_bytes header) packed
                  (sym (length-into_bytes header)))
                (decompress_ok p.stream d (emptied x r header.alloc_size buf).spare h c4))
              (ap (region_hash x p.seed) (unpacked buf)
                ∙ ap (λ o. region_hash x o bytes) es
                ∙ header-hash)
              c3,
          q3,
          sync',
        )

  -- A pull from a source that begins with a region, as a push with the same seed wrote it in a
  -- compression context that the decoder's context is in step with, succeeds: the buffer then holds
  -- the bytes of the region, the source is at what follows the region, the seed is kept and the
  -- contexts are in step again. The region is not empty, not longer than `REGION_SIZE`, and
  -- compresses to fewer than 2 ^ 16 bytes.
  pub pass-Pulled :
      (e : EncContext) (p : Pull x R) (buf : Vec) (bytes rest : List ℕ)
      → InStep e p.stream
      → 0 < length bytes
      → length bytes ≤ region_size
      → length (compress_continue e bytes).0 < 2 ^ 16
      → remaining p.source ≡ region_bytes x p.seed e bytes ++ rest
      → (p' : Pull x R) × (buf' : Vec) × (pass x r (p, buf) ≡ (ok tt, (p', buf')))
        × Pulled e p bytes rest p' buf'
  unfolding packed
  pass-Pulled e p buf bytes rest sync h k fits src =
      let (s, d, run, left, sync') =
        pull_region e p.seed bytes rest p buf refl h k fits (src ∙ region_split e p.seed bytes rest)
          sync in
      (
        record p { stream = d; source = s },
        set_len (length bytes) (target e p.seed bytes rest buf),
        run,
        record {
          pulled_items = unpacked e p.seed bytes rest buf;
          pulled_source = left;
          pulled_seed = refl;
          pulled_InStep = sync';
        },
      )
