-- ===== src/Lz4.antt =====
-- The codec and the hash that the program calls, as parameters, and src/lz4/mod.rs over them.
use barrique.Base.{
  ℕ, ◌+◌, ◌/◌, ◌≤◌, ◌<◌, ◌^◌, ◌≡◌, Option, none, some, List, ◌++◌, length, drop, ltb, if◌then◌else◌,
  All,
}
use barrique.Bytes.{IsByte}

-- The foreign functions of lz4-sys and twox-hash. `EncContext` and `DecContext` stand for `LZ4_stream_t` and
-- `LZ4_streamDecode_t`, with all the context that the C code keeps of earlier blocks; their
-- allocation succeeds. `compress_continue` returns the bytes that it writes, none on failure, and
-- `decompress_safe_continue` takes the room in the destination and returns `none` for a negative
-- result.
pub record Foreign : Type 1 where
  pub EncContext : Type 0
  pub DecContext : Type 0
  pub create_stream : EncContext
  pub create_stream_decode : DecContext
  pub compress_continue : EncContext → List ℕ → List ℕ × EncContext
  pub decompress_safe_continue : DecContext → List ℕ → ℕ → Option (List ℕ) × DecContext
  pub oneshot : ℕ → List ℕ → ℕ

abbrev pub compress_bound : ℕ → ℕ
compress_bound size = if ltb 0x7E000000 size then 0 else size + size / 255 + 16

-- What lz4.h and the hash's definition promise. Two streams are in step when the decoder has
-- decoded the blocks that the encoder has compressed, in their order.
pub record ForeignLaws (x : Foreign) : Type 1 where
  pub InStep : Foreign.EncContext x → Foreign.DecContext x → Type 0
  pub fresh_InStep : InStep (Foreign.create_stream x) (Foreign.create_stream_decode x)
  pub compressed_some :
      (e : Foreign.EncContext x) (src : List ℕ)
      → 0 < length src
      → length src < 0x7E000000
      → 0 < length (Foreign.compress_continue x e src).0
  pub compressed_bound :
      (e : Foreign.EncContext x) (src : List ℕ)
      → length src < 0x7E000000
      → length (Foreign.compress_continue x e src).0 ≤ compress_bound (length src)
  pub decompressed :
      (e : Foreign.EncContext x) (d : Foreign.DecContext x) (src : List ℕ) (room : ℕ)
      → InStep e d
      → 0 < length src
      → length src < 0x7E000000
      → length src ≤ room
      → (d' : Foreign.DecContext x) × (Foreign.decompress_safe_continue x d
            (Foreign.compress_continue x e src).0
            room
          ≡ (some src, d'))
        × InStep (Foreign.compress_continue x e src).1 d'
  pub oneshot-lt : (seed : ℕ) (bytes : List ℕ) → Foreign.oneshot x seed bytes < 2 ^ 64

-- What the codec makes of any block, also of one that no encoder has written: bytes.
pub record ForeignBytes (x : Foreign) : Type 0 where
  pub decompressed_bytes :
      (d : Foreign.DecContext x) (src out : List ℕ) (room : ℕ)
      → All IsByte src
      → (Foreign.decompress_safe_continue x d src room).0 ≡ some out
      → All IsByte out

-- A write of `src` at the front of `dst`, through a raw pointer.
abbrev pub copy_to : List ℕ → List ℕ → List ℕ
copy_to src dst = src ++ drop (length src) dst

module _ (x : Foreign) where
  open x use {EncContext, DecContext, compress_continue, decompress_safe_continue}

  -- `CompressStream::compress`: the amount written, the destination and the stream after the call.
  unfoldable pub compress : EncContext → List ℕ → List ℕ → Option ℕ × List ℕ × EncContext
  compress stream src dst =
      let (out, stream') = compress_continue stream src in
      (if ltb 0 (length out) then some (length out) else none, copy_to out dst, stream')

  -- `DecompressStream::decompress`: a result of 0 is an error too.
  unfoldable pub decompress : DecContext → List ℕ → List ℕ → Option ℕ × List ℕ × DecContext
  decompress stream src dst =
      let (result, stream') = decompress_safe_continue stream src (length dst) in
      elim result [
        | none ↦ (none, dst, stream')
        | some out ↦
            (if ltb 0 (length out) then some (length out) else none, copy_to out dst, stream')
      ]
