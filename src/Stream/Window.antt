-- ===== src/Stream/Window.antt =====
-- What LZ4 needs of the buffers of an encoder: while it may refer to the block that it compressed
-- last, the memory of that block stays as it was.
use barrique.Base.{
  ℕ, ◌+◌, ◌-◌, ◌≤◌, ◌<◌, ◌≡◌, refl, ◌∙◌, Option, none, some, List, ◌++◌, length, ok, ltb,
  if◌then◌else◌, arith, inl, inr, lt→ltb, le→ltb_false, is_empty_pos, Option-cases, Bool-cases,
  ltb→lt,
}
use barrique.Vec.{Vec}
use barrique.Io.{Writer}
use barrique.Lz4.{Foreign, compress, compress_bound}
use barrique.Region.{region_size, header_size}
use barrique.Region.Push
use barrique.Region.Push.{Push}
use barrique.Stream.Encoder.{StreamEncoder, write, flush}

-- The bytes of the allocation of a `Vec`, initialised or not.
abbrev pub memory : Vec → List ℕ
memory v = v.items ++ v.spare

module _ (x : Foreign) {W : Type 0} (w : Writer W) where
  -- A push does not touch the memory of the region that it compresses.
  fill_memory :
      (p : Push x W) (buf : Vec) (arena : List ℕ) (put : List ℕ → W)
      → memory (Push.fill x w p buf arena put).1.1 ≡ memory buf
  unfolding Push.fill
  fill_memory p buf arena put = ground arith

  pass_memory : (p : Push x W) (buf : Vec) → memory (Push.pass x w (p, buf)).1.1 ≡ memory buf
  unfolding Push.pass
  pass_memory p buf =
      elim (Option-cases
        (w.write_mut (compress_bound (length buf.items) + header_size) p.destination)) [
          | inl e ↦ ground (arith, e)
          | inr ((arena, put), e) ↦ ground (arith, e, fill_memory p buf arena put)
        ]

  flush_memory :
      (e : StreamEncoder x W)
      → (memory (flush x w e).1.region_buffer.buffer.curr ≡ memory e.region_buffer.buffer.curr)
        × ((flush x w e).1.region_buffer.buffer.prev ≡ e.region_buffer.buffer.prev)
  unfolding flush
  flush_memory e = (
    ground (arith, pass_memory e.switch e.region_buffer.buffer.curr),
    ground (arith, pass_memory e.switch e.region_buffer.buffer.curr),
  )

  -- The capacity that is left in the region at hand.
  abbrev room : StreamEncoder x W → ℕ
  room e = region_size - length e.region_buffer.buffer.curr.items

  write_memory :
      (e : StreamEncoder x W) (more : List ℕ)
      → (write x w more e).0 ≡ ok tt
      → (length more ≤ region_size)
        × (memory (write x w more e).1.region_buffer.buffer.prev ≡ (
            if ltb (room e) (length more)
            then memory e.region_buffer.buffer.curr
            else memory e.region_buffer.buffer.prev))
  unfolding write
  write_memory e more h =
      let (curr, prev) = flush_memory e in (ground (arith, h), ground (arith, h, curr, prev))

  fill_stream :
      (p : Push x W) (buf : Vec) (arena : List ℕ) (put : List ℕ → W)
      → (Push.fill x w p buf arena put).0 ≡ ok tt
      → (Push.fill x w p buf arena put).1.0.stream
        ≡ (Foreign.compress_continue x p.stream buf.items).1
  unfolding Push.fill compress
  fill_stream p buf arena put h = ground (arith, h)

  pass_stream :
      (p : Push x W) (buf : Vec)
      → 0 < length buf.items
      → (Push.pass x w (p, buf)).0 ≡ ok tt
      → (Push.pass x w (p, buf)).1.0.stream ≡ (Foreign.compress_continue x p.stream buf.items).1
  unfolding Push.pass
  pass_stream p buf some_bytes h =
      elim (Option-cases
        (w.write_mut (compress_bound (length buf.items) + header_size) p.destination)) [
          | inl e ↦ ground (arith, e, h, is_empty_pos buf.items some_bytes)
          | inr ((arena, put), e) ↦
              let filled : (Push.fill x w p buf arena put).0 ≡ ok tt =
                ground (arith, e, h, is_empty_pos buf.items some_bytes) in
              ground
                (arith, e, h, is_empty_pos buf.items some_bytes, fill_stream p buf arena put filled)
        ]

  flush_stream :
      (e : StreamEncoder x W)
      → 0 < length e.region_buffer.buffer.curr.items
      → (flush x w e).0 ≡ ok tt
      → (flush x w e).1.switch.stream
        ≡ (Foreign.compress_continue x e.switch.stream e.region_buffer.buffer.curr.items).1
  unfolding flush
  flush_stream e some_bytes h =
      let passed : (Push.pass x w (e.switch, e.region_buffer.buffer.curr)).0 ≡ ok tt =
        ground (arith, h) in
      ground (arith, h, pass_stream e.switch e.region_buffer.buffer.curr some_bytes passed)

  -- The context after a write.
  write_stream :
      (e : StreamEncoder x W) (more : List ℕ)
      → (write x w more e).0 ≡ ok tt
      → (write x w more e).1.switch.stream ≡ (
          if ltb (room e) (length more)
          then (Foreign.compress_continue x e.switch.stream e.region_buffer.buffer.curr.items).1
          else e.switch.stream)
  unfolding write
  write_stream e more h = elim (Bool-cases (ltb (room e) (length more))) [
    | inl full ↦
        let (small, _) = write_memory e more h in
        let over : room e < length more = ltb→lt _ _ full in
        let some_bytes : 0 < length e.region_buffer.buffer.curr.items = omega arith in
        let flushed : (flush x w e).0 ≡ ok tt = ground (arith, h, full) in
        ground (arith, h, full, flush_stream e some_bytes flushed)
    | inr fits ↦ ground (arith, h, fits)
  ]

  -- The encoders that writes lead to, with the block that LZ4 was given last, if there is one, and the
  -- context that it was given with.
  pub data Written (e₀ : StreamEncoder x W)
      : StreamEncoder x W → Option (List ℕ × Foreign.EncContext x) → Type 0 where
    start : Written e₀ e₀ none
    fits :
        {e : StreamEncoder x W} {last : Option (List ℕ × Foreign.EncContext x)} (more : List ℕ)
        → Written e₀ e last
        → (write x w more e).0 ≡ ok tt
        → length more ≤ room e
        → Written e₀ (write x w more e).1 last
    full :
        {e : StreamEncoder x W} {last : Option (List ℕ × Foreign.EncContext x)} (more : List ℕ)
        → Written e₀ e last
        → (write x w more e).0 ≡ ok tt
        → room e < length more
        → Written e₀
            (write x w more e).1
            (some (e.region_buffer.buffer.curr.items, e.switch.stream))

  -- What is kept of the last block: the context comes from it, and the buffer that is not at hand
  -- begins with it.
  abbrev pub Kept :
      StreamEncoder x W → StreamEncoder x W → Option (List ℕ × Foreign.EncContext x) → Type 0
  Kept e₀ e none = e.switch.stream ≡ e₀.switch.stream
  Kept e₀ e (some (block, c)) =
      (e.switch.stream ≡ (Foreign.compress_continue x c block).1)
      × (rest : List ℕ) × (memory e.region_buffer.buffer.prev ≡ block ++ rest)

  Kept-fits :
      (e₀ e e' : StreamEncoder x W) (last : Option (List ℕ × Foreign.EncContext x))
      → e'.switch.stream ≡ e.switch.stream
      → memory e'.region_buffer.buffer.prev ≡ memory e.region_buffer.buffer.prev
      → Kept e₀ e last
      → Kept e₀ e' last
  Kept-fits e₀ e e' none s m k = s ∙ k
  Kept-fits e₀ e e' (some (block, c)) s m (k, rest, l) = (s ∙ k, rest, m ∙ l)

  -- In every state that an encoder reaches by successful writes, the context of LZ4 is the one that it left
  -- after the last block that it was given, if there is one, and the memory of the buffer that is not at
  -- hand still begins with that block: neither the swap, nor a later write, nor a growth of the
  -- buffer at hand has changed it.
  pub Written-Kept :
      (e₀ e : StreamEncoder x W) (last : Option (List ℕ × Foreign.EncContext x))
      → Written e₀ e last
      → Kept e₀ e last
  Written-Kept e₀ e last start = refl
  Written-Kept e₀ e last (fits {e = d} more p h k) =
      let (small, m) = write_memory d more h in
      let inside = le→ltb_false (room d) (length more) k in
      Kept-fits e₀ d (write x w more d).1 last (write_stream d more h ∙ rw inside refl)
        (m ∙ rw inside refl) (Written-Kept e₀ d last p)
  Written-Kept e₀ e last (full {e = d} more p h k) =
      let (small, m) = write_memory d more h in
      let over = lt→ltb (room d) (length more) k in
      (write_stream d more h ∙ rw over refl, d.region_buffer.buffer.curr.spare, m ∙ rw over refl)
