-- ===== src/Stream/Failed.antt =====
-- A read whose switch to the next region fails: the buffers have been swapped, and the cursor is
-- still that of the region before.
mod Examples
use barrique.Base.{
  ℕ, ◌+◌, ◌-◌, ◌^◌, ◌≤◌, ◌<◌, ◌≡◌, ◌≢◌, ap, ◌∙◌, Option, List, ◌++◌, length, take, drop, ok, err,
  panic, arith,
}
use barrique.Vec.{Vec}
use barrique.Io.{Reader, ReaderLaws, ReadError}
use barrique.Io.Slice.{slice_reader, slice_none}
use barrique.Lz4.{Foreign, ForeignLaws}
use barrique.Region.{RegionError, region_size, header_size}
use barrique.Region.RegionBuffer
use barrique.Region.RegionBuffer.{RegionBuffer}
use barrique.Region.Push.{region_hash}
use barrique.Region.Pull
use barrique.Region.Pull.{Pull}
use barrique.Region.Emit.{region_bytes}
use barrique.Region.Absorb.Reject.{pass_wrong_seed}
use barrique.Stream.Decoder.{StreamDecoder, read}
use barrique.Stream.Reads.{items_of, cursor_of}

module _ (x : Foreign) {R : Type 0} (r : Reader R) where
  -- The region that the swap brings to the front.
  abbrev previous : StreamDecoder x R → Vec
  previous d = d.region_buffer.buffer.prev

  -- The decoder after a pass that failed.
  abbrev stopped : StreamDecoder x R → Pull x R → Vec → StreamDecoder x R
  stopped d p buf = record {
    region_buffer = record {
      buffer = record { curr = buf; prev = d.region_buffer.buffer.curr };
      cursor = cursor_of x r d;
    };
    switch = p;
  }

  read_stopped :
      (n : ℕ) (d : StreamDecoder x R) (p : Pull x R) (buf : Vec) (e : RegionError)
      → cursor_of x r d ≤ length (items_of x r d)
      → length (items_of x r d) < cursor_of x r d + n
      → Pull.pass x r (d.switch, previous d) ≡ (err e, (p, buf))
      → read x r n d ≡ (err e, stopped d p buf)
  unfolding read RegionBuffer.read RegionBuffer.remaining_len
  read_stopped n d p buf e h k run = ground (arith, run)

  read_again :
      (m : ℕ) (d : StreamDecoder x R)
      → cursor_of x r d + m ≤ length (items_of x r d)
      → (d' : StreamDecoder x R) × (read x r m d
          ≡ (ok (take m (drop (cursor_of x r d) (items_of x r d))), d'))
  unfolding read RegionBuffer.read RegionBuffer.remaining_len
  read_again m d h =
      let part : cursor_of x r d + m - cursor_of x r d ≡ m = omega arith in
      (
        record d { region_buffer = record (d.region_buffer) { cursor = cursor_of x r d + m } },
        ground (arith, ap (λ k. take k (drop (cursor_of x r d) (items_of x r d))) part),
      )

  read_below :
      (m : ℕ) (d : StreamDecoder x R)
      → length (items_of x r d) < cursor_of x r d
      → (read x r m d).0 ≡ panic
  unfolding read RegionBuffer.read RegionBuffer.remaining_len
  read_below m d h = ground arith

module _ (x : Foreign) (laws : ForeignLaws x) {R : Type 0} (r : Reader R) (rl : ReaderLaws r) where
  open x use {EncContext, compress_continue}
  open laws use {InStep}
  open rl use {remaining}

  -- A read that needs the next region, where the hash of that region does not agree, fails with
  -- `InvalidHash`; but the next read, of an amount that is in the rejected region behind the place
  -- where the cursor was, returns bytes of that region as if it had been accepted. The region has been
  -- written with another seed, in a context in step, is not empty and not longer than `REGION_SIZE`,
  -- and compresses to fewer than 2 ^ 16 bytes.
  pub read_rejected :
      (d : StreamDecoder x R) (n m : ℕ) (e : EncContext) (seed : Option ℕ) (bytes rest : List ℕ)
      → cursor_of x r d ≤ length (items_of x r d)
      → length (items_of x r d) < cursor_of x r d + n
      → InStep e d.switch.stream
      → 0 < length bytes
      → length bytes ≤ region_size
      → length (compress_continue e bytes).0 < 2 ^ 16
      → remaining d.switch.source ≡ region_bytes x seed e bytes ++ rest
      → region_hash x d.switch.seed bytes ≢ region_hash x seed bytes
      → cursor_of x r d + m ≤ length bytes
      → (d1 : StreamDecoder x R) × (d2 : StreamDecoder x R) × (read x r n d
          ≡ (err RegionError.invalid_hash, d1))
        × (read x r m d1 ≡ (ok (take m (drop (cursor_of x r d) bytes)), d2))
  read_rejected d n m e seed bytes rest h k sync pos le fits there differs room =
      let (p, buf, run, _, held) =
        pass_wrong_seed x laws r rl e d.switch (previous x r d) seed bytes rest sync pos le fits
          there differs in
      let d1 : StreamDecoder x R = stopped x r d p buf in
      let (d2, again) = read_again x r m d1 (omega (arith, room, ap length held)) in
      (
        d1,
        d2,
        read_stopped x r n d p buf RegionError.invalid_hash h k run,
        again ∙ ap (λ l. (ok (take m (drop (cursor_of x r d) l)), d2)) held,
      )

module _ (x : Foreign) where
  pass_at_end :
      (p : Pull x (List ℕ)) (buf : Vec)
      → length p.source < header_size
      → Pull.pass x slice_reader (p, buf)
        ≡ (err (RegionError.read_failure ReadError.out_of_bounds), (p, buf))
  unfolding Pull.pass
  pass_at_end p buf h = ground (arith, slice_none header_size p.source h)

  -- At the end of a slice a read that needs another region fails; if the region before the one at hand
  -- was shorter than what has been read of that one, the next read, of any amount, panics.
  pub read_after_end :
      (d : StreamDecoder x (List ℕ)) (n m : ℕ)
      → length d.switch.source < header_size
      → cursor_of x slice_reader d ≤ length (items_of x slice_reader d)
      → length (items_of x slice_reader d) < cursor_of x slice_reader d + n
      → length (previous x slice_reader d).items < cursor_of x slice_reader d
      → (d1 : StreamDecoder x (List ℕ)) × (read x slice_reader n d
          ≡ (err (RegionError.read_failure ReadError.out_of_bounds), d1))
        × ((read x slice_reader m d1).0 ≡ panic)
  read_after_end d n m short h k low =
      let d1 = stopped x slice_reader d d.switch (previous x slice_reader d) in
      (
        d1,
        read_stopped x slice_reader n d d.switch _ _ h k (pass_at_end d.switch _ short),
        read_below x slice_reader m d1 low,
      )
