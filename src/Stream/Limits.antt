-- ===== src/Stream/Limits.antt =====
-- What the two streams refuse.
use barrique.Base.{
  ℕ, ◌<◌, ◌≡◌, refl, err, List, [], length, drop, ◌-◌, sym, ap, ◌∙◌, length-drop, arith,
}
use barrique.Io.{Reader, ReadError}
use barrique.Io.Slice.{slice_reader, slice_reader_laws, slice_none}
use barrique.Lz4.{Foreign, ForeignLaws}
use barrique.Region.{RegionError, header_size}
use barrique.Region.Pull
use barrique.Region.Pull.{Pull}
use barrique.Region.RegionBuffer
use barrique.Vec.{Vec}
use barrique.Stream.Decoder
use barrique.Stream.Decoder.{StreamDecoder}
use barrique.Region.Emit.{stream_bytes}
use barrique.Region.Absorb.Cut.{pass_run_short}
use barrique.Stream.Decoding.{Aligned}
use barrique.Stream.Regions.{Groups, none_left}

Groups-none : {m : List ℕ} {rs : List (List ℕ)} → Groups m rs [] → (m ≡ []) × (rs ≡ [])
Groups-none none_left = (refl, refl)

module _ (x : Foreign) {R : Type 0} (r : Reader R) where
  next_region_err :
      (d : StreamDecoder x R) (p : Pull x R) (buf : Vec) (e : RegionError)
      → Pull.pass x r (d.switch, d.region_buffer.buffer.curr) ≡ (err e, (p, buf))
      → (d' : StreamDecoder x R) × (Decoder.next_region x r d ≡ (err e, d'))
  unfolding Decoder.next_region
  next_region_err d p buf e h = ((Decoder.next_region x r d).1, ground arith)

  read_err :
      (d d' : StreamDecoder x R) (n : ℕ) (e : RegionError)
      → d.region_buffer.cursor ≡ length d.region_buffer.buffer.curr.items
      → 0 < n
      → Decoder.next_region x r (record d { region_buffer = RegionBuffer.swap d.region_buffer })
        ≡ (err e, d')
      → Decoder.read x r n d ≡ (err e, d')
  unfolding Decoder.read
  read_err d d' n e h k l = ground arith

module _ (x : Foreign) (laws : ForeignLaws x) where
  -- A decoder over a slice that has delivered all chunks of its stream, with nothing behind the
  -- stream, fails on every read of one byte or more, with `ReadFailure`.
  pub read_past_end :
      (d : StreamDecoder x (List ℕ)) (n : ℕ)
      → Aligned x laws slice_reader slice_reader_laws d [] []
      → 0 < n
      → (d' : StreamDecoder x (List ℕ)) × (Decoder.read x slice_reader n d
          ≡ (err (RegionError.read_failure ReadError.out_of_bounds), d'))
  unfolding slice_reader_laws stream_bytes RegionBuffer.swap
  read_past_end d n al h =
      let (no_more, no_later) = Groups-none al.grouped in
      let left : drop d.region_buffer.cursor d.region_buffer.buffer.curr.items ≡ [] =
        al.reads.at_hand ∙ no_more in
      let there : length d.region_buffer.buffer.curr.items - d.region_buffer.cursor ≡ 0 =
        sym (length-drop d.region_buffer.cursor d.region_buffer.buffer.curr.items)
        ∙ ap length left in
      let empty : d.switch.source ≡ [] = al.reads.source ∙ rw no_later refl in
      let (d', run) =
        next_region_err x slice_reader
          (record d { region_buffer = RegionBuffer.swap d.region_buffer }) d.switch
          d.region_buffer.buffer.prev (RegionError.read_failure ReadError.out_of_bounds)
          (pass_run_short x slice_reader d.switch d.region_buffer.buffer.prev
            ReadError.out_of_bounds d.switch.source
            (slice_none header_size d.switch.source (rw empty (omega arith)))) in
      (d', read_err x slice_reader d d' n _ (omega (arith, al.reads.in_bounds)) h run)
