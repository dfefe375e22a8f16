-- ===== src/Region/Pull.antt =====
-- `Pull`, the switch of the decoder: the next region is read, decompressed and checked.
pub mod Robust
use barrique.Base.{
  ℕ, ◌+◌, Option, none, some, List, length, drop, ok, err, Call, lift, modify, assert, ◌>>=◌, ◌>>◌,
  map_err, ◌==◌, if◌then◌else◌,
}
use barrique.Vec.{Vec, set_len, reserve}
use barrique.Io.{Reader, ReadError}
use barrique.Lz4.{Foreign, decompress}
use barrique.Region.{RegionError, header_size}
use barrique.Region.Header.{from_bytes}
use barrique.Region.DoubleBuffer.{Switch}
use barrique.Region.Push.{region_hash}

module _ (x : Foreign) where
  open x use {DecContext, create_stream_decode}

  pub record Pull (R : Type 0) : Type 0 where
    pub stream : DecContext
    pub seed : Option ℕ
    pub source : R

  module _ {R : Type 0} (r : Reader R) where
    abbrev pub new : R → Option ℕ → Pull R
    new src seed = record { stream = create_stream_decode; source = src; seed = seed }

    -- A call on the field `source`, with its error converted.
    on_source :
        {A : Type 0}
        → (ReadError → RegionError)
        → Call R ReadError A
        → Call (Pull R × Vec) RegionError A
    on_source f m (p, buf) =
        let (a, s) = m p.source in (map_err f a, (record p { source = s }, buf))

    size_error : ReadError → RegionError
    size_error ReadError.out_of_bounds = RegionError.invalid_size_hint
    size_error (ReadError.io e) = RegionError.read_failure (ReadError.io e)

    -- `decompress` into the spare capacity of `buf`, and `set_len`
    unpack : List ℕ → Switch (Pull R)
    unfolding decompress
    unpack bytes (p, buf) =
        let (result, body, stream') = decompress x p.stream bytes buf.spare in
        elim result [
          | none ↦ (
            err RegionError.malformed_region,
            (record p { stream = stream' }, record buf { spare = body }),
          )
          | some init ↦
              (ok tt, (record p { stream = stream' }, set_len init (record buf { spare = body })))
        ]

    check_hash : ℕ → Switch (Pull R)
    check_hash hash (p, buf) = (
      if region_hash x p.seed buf.items == hash then ok tt else err RegionError.invalid_hash,
      (p, buf),
    )

    unfoldable pub pass : Switch (Pull R)
    unfolding on_source size_error unpack check_hash from_bytes reserve
    pass = do
      front ← on_source RegionError.read_failure (r.read_borrow header_size)
      header ← lift (from_bytes front)
      let size = header_size + header.compressed_size
      bytes ← on_source size_error (r.read_borrow size)
      lift (assert (length bytes == size))
      modify (λ s. (s.0, reserve header.alloc_size (set_len 0 s.1)))
      unpack (drop header_size bytes)
      check_hash header.hash
      on_source RegionError.read_failure (r.advance size)
