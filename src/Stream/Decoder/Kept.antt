-- ===== src/Stream/Decoder/Kept.antt =====
-- The block that LZ4 refers to: the region at hand before a switch must stay where it is while the
-- next one is decompressed.
use barrique.Base.{
  ℕ, ◌≡◌, ◌⊎◌, inl, inr, refl, ap, ◌∙◌, when, Call, Bool, true, false, Outcome, ok, err, panic,
  keep-bind, ltb, arith,
}
use barrique.Vec.{Vec}
use barrique.Io.{Reader}
use barrique.Lz4.{Foreign}
use barrique.Region.{RegionError}
use barrique.Region.DoubleBuffer.{DoubleBuffer, Switch}
use barrique.Region.RegionBuffer
use barrique.Region.RegionBuffer.{RegionBuffer}
use barrique.Region.Pull
use barrique.Region.Pull.{Pull}
use barrique.Stream.Decoder.{StreamDecoder, next_region, read, swap, read_buffer}

-- A pass leaves the other buffer alone, whatever its outcome.
pass-prev :
    {S : Type 0} (switch : Switch S) (s : S) (b : RegionBuffer)
    → (RegionBuffer.pass switch (s, b)).1.1.buffer.prev ≡ b.buffer.prev
unfolding RegionBuffer.pass
pass-prev {S} switch s b = by_outcome (switch (s, b.buffer.curr))
  where
    by_outcome :
        (q : Outcome RegionError (Unit {0}) × (S × Vec))
        → (RegionBuffer.pass (λ _. q) (s, b)).1.1.buffer.prev ≡ b.buffer.prev
    by_outcome (ok a, t) = refl
    by_outcome (err e, t) = refl
    by_outcome (panic, t) = refl

-- A read of the buffer moves the cursor at most.
read-buffer : (n : ℕ) (b : RegionBuffer) → (RegionBuffer.read n b).1.buffer ≡ b.buffer
unfolding RegionBuffer.read
read-buffer n b = ground arith

module _ (x : Foreign) {R : Type 0} (r : Reader R) where
  abbrev buffer_of : StreamDecoder x R → DoubleBuffer
  buffer_of d = d.region_buffer.buffer

  -- Both buffers are as they were, or the region that was at hand is in the other buffer.
  abbrev pub Kept : StreamDecoder x R → StreamDecoder x R → Type 0
  Kept d d' = (buffer_of d' ≡ buffer_of d) ⊎ ((buffer_of d').prev ≡ (buffer_of d).curr)

  next_region-prev :
      (d : StreamDecoder x R) → (buffer_of (next_region x r d).1).prev ≡ (buffer_of d).prev
  unfolding next_region
  next_region-prev d = pass-prev (Pull.pass x r) d.switch d.region_buffer

  -- The buffers after the switch, if there is one.
  switched :
      (d : StreamDecoder x R) (b : Bool) → Kept d (when b (λ e. next_region x r (swap x r e)) d).1
  unfolding swap RegionBuffer.swap
  switched d true = inr (next_region-prev (swap x r d))
  switched d false = inl refl

  taken : (n : ℕ) (d d' : StreamDecoder x R) → Kept d d' → Kept d (read_buffer x r n d').1
  unfolding read_buffer
  taken n d d' (inl e) = inl (read-buffer n d'.region_buffer ∙ e)
  taken n d d' (inr e) =
      inr (ap (λ (b : DoubleBuffer). b.prev) (read-buffer n d'.region_buffer) ∙ e)

  -- A read, whatever its outcome, either leaves both buffers as they are, or puts the region that was at
  -- hand into the other buffer with its bytes unchanged, where LZ4 refers to it while the next region is
  -- decompressed.
  pub read-Kept : (n : ℕ) (d : StreamDecoder x R) → Kept d (read x r n d).1
  unfolding read
  read-Kept n d =
      let switch : ℕ → Call (StreamDecoder x R) RegionError (Unit {0}) =
        λ left. when (ltb left n) (λ e. next_region x r (swap x r e)) in
      keep-bind (Kept d) (RegionBuffer.remaining_len d.region_buffer, d) _ (inl refl)
        (λ left.
          keep-bind (Kept d) (switch left d) _ (switched d (ltb left n))
            (λ _. taken n d (switch left d).1 (switched d (ltb left n))))
