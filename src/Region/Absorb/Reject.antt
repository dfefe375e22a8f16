-- ===== src/Region/Absorb/Reject.antt =====
-- A pull whose hash does not agree.
use barrique.Base.{
  ℕ, ◌+◌, ◌^◌, ◌≤◌, ◌<◌, ◌≡◌, ◌≢◌, ap, sym, ◌∙◌, Option, some, List, ◌++◌, length, drop, ok, err,
  arith, append_assoc, drop-append_at,
}
use barrique.Vec.{Vec, set_len}
use barrique.Io.{Reader, ReaderLaws}
use barrique.Io.Reading.{read_front}
use barrique.Lz4.{Foreign, ForeignLaws, decompress}
use barrique.Region.{RegionError, header_size, region_size}
use barrique.Region.Header.{RegionHeader, from_bytes, into_bytes, length-into_bytes}
use barrique.Region.Push.{region_hash}
use barrique.Region.Pull.{Pull, pass}
use barrique.Region.Emit.{region_bytes}
use barrique.Region.Absorb.{
  emptied, packed, header, size, target, from_bytes-header, size-eq, region_split, unpacked, room,
  decompress_ok, header-hash,
}

module _ (x : Foreign) {R : Type 0} (r : Reader R) where
  -- The run of a pull that stops at the hash.
  pass_run_hash :
      (p : Pull x R) (buf : Vec) (front bytes body : List ℕ) (s1 s2 : R) (h : RegionHeader) (n : ℕ)
      (d : Foreign.DecContext x)
      → r.read_borrow header_size p.source ≡ (ok front, s1)
      → from_bytes {E = RegionError} front ≡ ok h
      → r.read_borrow (header_size + h.compressed_size) s1 ≡ (ok bytes, s2)
      → length bytes ≡ header_size + h.compressed_size
      → decompress x p.stream (drop header_size bytes) (emptied x r h.alloc_size buf).spare
        ≡ (some n, body, d)
      → region_hash x p.seed
          (set_len n (record (emptied x r h.alloc_size buf) { spare = body })).items
        ≢ h.hash
      → pass x r (p, buf) ≡ (
        err RegionError.invalid_hash,
        (
          record p { stream = d; source = s2 },
          set_len n (record (emptied x r h.alloc_size buf) { spare = body }),
        ),
      )
  unfolding pass
  pass_run_hash p buf front bytes body s1 s2 h n d e1 e2 e3 e4 e5 e6 = ground arith

module _ (x : Foreign) (laws : ForeignLaws x) {R : Type 0} (r : Reader R) (rl : ReaderLaws r) where
  open x use {EncContext, compress_continue}
  open laws use {InStep, decompressed}
  open rl use {remaining}

  -- A pull from a source that begins with a region, in a context in step with that of the push,
  -- with a seed, or the lack of one, that gives the region another hash than the seed of the push
  -- did, fails with `InvalidHash`. The source is not advanced, and the buffer holds the bytes of the
  -- region all the same. The region is not empty, not longer than `REGION_SIZE`, and compresses to
  -- fewer than 2 ^ 16 bytes.
  pub pass_wrong_seed :
      (e : EncContext) (p : Pull x R) (buf : Vec) (seed : Option ℕ) (bytes rest : List ℕ)
      → InStep e p.stream
      → 0 < length bytes
      → length bytes ≤ region_size
      → length (compress_continue e bytes).0 < 2 ^ 16
      → remaining p.source ≡ region_bytes x seed e bytes ++ rest
      → region_hash x p.seed bytes ≢ region_hash x seed bytes
      → (p' : Pull x R) × (buf' : Vec) × (pass x r (p, buf)
          ≡ (err RegionError.invalid_hash, (p', buf')))
        × (remaining p'.source ≡ remaining p.source)
        × (buf'.items ≡ bytes)
  unfolding target packed size
  pass_wrong_seed e p buf seed bytes rest sync h k fits there differs =
      let hd : RegionHeader = header x laws r rl e seed bytes rest in
      let pk : List ℕ = packed x laws r rl e seed bytes rest in
      let src : remaining p.source ≡ into_bytes hd ++ (pk ++ rest) =
        there ∙ region_split x laws r rl e seed bytes rest in
      let (s1, c1, q1) =
        read_front r rl header_size p.source (into_bytes hd) (pk ++ rest) src
          (sym (length-into_bytes hd)) in
      let (s2, c2, q2) =
        read_front r rl (header_size + hd.compressed_size) s1 (into_bytes hd ++ pk) rest
          (q1 ∙ sym (append_assoc (into_bytes hd) pk rest))
          (size-eq x laws r rl e seed bytes rest fits) in
      let (d, c4, _) =
        decompressed e p.stream bytes (length (emptied x r hd.alloc_size buf).spare) sync h
          (omega arith) (room x laws r rl e seed bytes rest buf k) in
      (
        record p { stream = d; source = s2 },
        set_len (length bytes) (target x laws r rl e seed bytes rest buf),
        pass_run_hash x r p buf (into_bytes hd) (into_bytes hd ++ pk) _ s1 s2 hd (length bytes) d c1
            (from_bytes-header x laws r rl e seed bytes rest) c2
            (sym (size-eq x laws r rl e seed bytes rest fits))
            (rw (drop-append_at header_size (into_bytes hd) pk (sym (length-into_bytes hd))) (
              decompress_ok x laws r rl e seed bytes rest p.stream d
                (emptied x r hd.alloc_size buf).spare h c4))
            (λ eq. differs (
              sym (ap (region_hash x p.seed) (unpacked x laws r rl e seed bytes rest buf))
              ∙ eq
              ∙ sym (header-hash x laws r rl e seed bytes rest))),
        q2 ∙ append_assoc (into_bytes hd) pk rest ∙ sym src,
        unpacked x laws r rl e seed bytes rest buf,
      )
