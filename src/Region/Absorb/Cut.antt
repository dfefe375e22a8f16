-- ===== src/Region/Absorb/Cut.antt =====
-- A pull from a slice that ends too early.
use barrique.Base.{
  ℕ, ◌+◌, ◌^◌, ◌≤◌, ◌<◌, ◌≡◌, ap, ◌∙◌, Option, List, [], length, take, ok, err, if◌then◌else◌,
  arith, length-append, length-take, take-append_past, take-append_at, Bool-cases, inl, inr, ltb,
  ltb→lt, ltb_false→le,
}
use barrique.Vec.{Vec}
use barrique.Io.{ReadError, Reader}
use barrique.Io.Slice.{slice_reader, slice_reader_laws, slice_some, slice_none}
use barrique.Lz4.{Foreign, ForeignLaws}
use barrique.Region.{RegionError, header_size}
use barrique.Region.Header.{RegionHeader, from_bytes, into_bytes, length-into_bytes}
use barrique.Region.Absorb.{packed, header, from_bytes-header}
use barrique.Region.Push.{header_of}
use barrique.Region.Pull.{Pull, pass}
use barrique.Region.Emit.{region_bytes}

module _ (x : Foreign) {R : Type 0} (r : Reader R) where
  pub pass_run_short :
      (p : Pull x R) (buf : Vec) (e : ReadError) (s : R)
      → r.read_borrow header_size p.source ≡ (err e, s)
      → pass x r (p, buf) ≡ (err (RegionError.read_failure e), (record p { source = s }, buf))
  unfolding pass
  pass_run_short p buf e s h = ground arith

  pass_run_cut :
      (p : Pull x R) (buf : Vec) (front : List ℕ) (s1 s2 : R) (h : RegionHeader)
      → r.read_borrow header_size p.source ≡ (ok front, s1)
      → from_bytes {E = RegionError} front ≡ ok h
      → r.read_borrow (header_size + h.compressed_size) s1 ≡ (err ReadError.out_of_bounds, s2)
      → pass x r (p, buf) ≡ (err RegionError.invalid_size_hint, (record p { source = s2 }, buf))
  unfolding pass
  pass_run_cut p buf front s1 s2 h e1 e2 e3 = ground arith

module _ (x : Foreign) (laws : ForeignLaws x) where
  open x use {EncContext, compress_continue}

  length-region_bytes :
      (e : EncContext) (seed : Option ℕ) (bytes : List ℕ)
      → length (region_bytes x seed e bytes) ≡ header_size + length (compress_continue e bytes).0
  unfolding region_bytes
  length-region_bytes e seed bytes =
      let h : RegionHeader = header_of x seed (length (compress_continue e bytes).0) bytes in
      length-append (into_bytes h) (compress_continue e bytes).0
      ∙ ap (λ k. k + length (compress_continue e bytes).0) (length-into_bytes h)

  -- The header is there once twelve bytes are.
  header_there :
      (e : EncContext) (seed : Option ℕ) (bytes : List ℕ) (n : ℕ)
      → length (compress_continue e bytes).0 < 2 ^ 16
      → header_size ≤ n
      → from_bytes {E = RegionError} (take header_size (take n (region_bytes x seed e bytes)))
        ≡ ok (header_of x seed (length (compress_continue e bytes).0) bytes)
  unfolding region_bytes header packed
  header_there e seed bytes n fits h =
      let hd : RegionHeader = header_of x seed (length (compress_continue e bytes).0) bytes in
      let twelve : length (into_bytes hd) ≡ 12 = length-into_bytes hd in
      rw (take-append_past n (into_bytes hd) (compress_continue e bytes).0 (omega arith)) (
        rw (take-append_at header_size (into_bytes hd) _ (omega arith))
          (from_bytes-header x laws slice_reader slice_reader_laws e seed bytes []))

  -- A pull from a slice that holds only the first `n` bytes of a region, and not all of them,
  -- fails, with `ReadFailure` where they are less than a header and with `InvalidSizeHint`
  -- otherwise; neither the switch nor the buffer is changed. The region compresses to fewer than 2
  -- ^ 16 bytes.
  pub pass_truncated :
      (e : EncContext) (p : Pull x (List ℕ)) (buf : Vec) (seed : Option ℕ) (bytes : List ℕ) (n : ℕ)
      → length (compress_continue e bytes).0 < 2 ^ 16
      → n < length (region_bytes x seed e bytes)
      → p.source ≡ take n (region_bytes x seed e bytes)
      → pass x slice_reader (p, buf) ≡ (
        if ltb n header_size
            then err (RegionError.read_failure ReadError.out_of_bounds)
            else err RegionError.invalid_size_hint,
        (p, buf),
      )
  pass_truncated e p buf seed bytes n fits short there =
      let long : length p.source ≡ n =
        ap length there ∙ length-take n (region_bytes x seed e bytes) ∙ omega arith in
      elim (Bool-cases (ltb n header_size)) [
        | inl t ↦ rw t (
            pass_run_short x slice_reader p buf ReadError.out_of_bounds p.source
              (slice_none header_size p.source (omega (arith, ltb→lt _ _ t))))
        | inr t ↦ rw t (
            pass_run_cut x slice_reader p buf (take header_size p.source) p.source p.source
              (header_of x seed (length (compress_continue e bytes).0) bytes)
              (slice_some header_size p.source (omega (arith, ltb_false→le _ _ t)))
              (rw there (header_there e seed bytes n fits (ltb_false→le _ _ t)))
              (slice_none _ p.source (omega (arith, length-region_bytes e seed bytes))))
      ]
