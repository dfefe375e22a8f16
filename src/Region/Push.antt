-- ===== src/Region/Push.antt =====
-- `Push`, the switch of the encoder: the buffer is compressed and written with its header.
use barrique.Base.{
  ℕ, ◌+◌, ◌%◌, ◌^◌, Option, none, some, List, ◌++◌, length, take, drop, is_empty, Outcome, ok, err,
  panic, map_err, ltb, ◌==◌, if◌then◌else◌,
}
use barrique.Vec.{Vec, set_len}
use barrique.Io.{Writer}
use barrique.Lz4.{Foreign, compress, compress_bound, copy_to}
use barrique.Region.{RegionError, header_size}
use barrique.Region.Header.{RegionHeader, into_bytes}
use barrique.Region.DoubleBuffer.{Switch}

-- `write_to_uninit`: it panics where the source is longer.
unfoldable pub write_to_uninit : {E : Type 0} → List ℕ → List ℕ → Outcome E (List ℕ)
write_to_uninit src dst = if ltb (length dst) (length src) then panic else ok (copy_to src dst)

module _ (x : Foreign) where
  open x use {EncContext, create_stream, oneshot}

  -- `seed.map(|seed| XxHash64::oneshot(seed, buf)).unwrap_or(0)`
  abbrev pub region_hash : Option ℕ → List ℕ → ℕ
  region_hash none bytes = 0
  region_hash (some seed) bytes = oneshot seed bytes

  -- The lengths are cut to 16 bits by `as u16`.
  abbrev pub header_of : Option ℕ → ℕ → List ℕ → RegionHeader
  header_of seed compressed bytes = record {
    compressed_size = compressed % 2 ^ 16;
    alloc_size = length bytes % 2 ^ 16;
    hash = region_hash seed bytes;
  }

  pub record Push (W : Type 0) : Type 0 where
    pub stream : EncContext
    pub seed : Option ℕ
    pub destination : W

  module _ {W : Type 0} (w : Writer W) where
    abbrev pub new : W → Option ℕ → Push W
    new dst seed = record { stream = create_stream; seed = seed; destination = dst }

    -- The body of `pass` once the arena is there.
    unfoldable pub fill :
        Push W → Vec → List ℕ → (List ℕ → W) → Outcome RegionError (Unit {0}) × (Push W × Vec)
    unfolding write_to_uninit compress into_bytes
    fill p buf arena put =
        let (result, body, stream') = compress x p.stream buf.items (drop header_size arena) in
        let compressed_arena = take header_size arena ++ body in
        elim result [
          | none ↦ (
            err RegionError.malformed_region,
            (record p { stream = stream'; destination = put compressed_arena }, buf),
          )
          | some compressed ↦
              elim (write_to_uninit {E = RegionError}
                (into_bytes (header_of p.seed compressed buf.items)) compressed_arena) [
                  | ok arena' ↦
                      let (r, dst) =
                        w.flush (w.assume_init (header_size + compressed) (put arena')) in
                      (
                        map_err RegionError.write_failure r,
                        (record p { stream = stream'; destination = dst }, set_len 0 buf),
                      )
                  | err e ↦ (err e, (record p { stream = stream' }, buf))
                  | panic ↦ (
                    panic,
                    (record p { stream = stream'; destination = put compressed_arena }, buf),
                  )
                ]
        ]

    unfoldable pub pass : Switch (Push W)
    unfolding fill
    pass (p, buf) =
        if is_empty buf.items
        then (ok tt, (p, buf))
        else (let size = compress_bound (length buf.items) + header_size in
            elim (w.write_mut size p.destination) [
              | none ↦ (err RegionError.out_of_bounds, (p, buf))
              | some (arena, put) ↦
                  if length arena == size then fill p buf arena put else (panic, (p, buf))
            ])
