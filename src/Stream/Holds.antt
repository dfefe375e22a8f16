-- ===== src/Stream/Holds.antt =====
-- The state of an encoder through flushes and writes.
use barrique.Base.{ℕ, ◌+◌, ◌≤◌, ◌<◌, ◌≡◌, refl, ap, ◌∙◌, Option, List, [], ◌++◌, length, ok, arith}
use barrique.Vec.{Vec, items-extend_from_slice}
use barrique.Io.{Writer, WriterLaws}
use barrique.Lz4.{Foreign, ForeignLaws}
use barrique.Region.{region_size}
use barrique.Region.RegionBuffer
use barrique.Region.RegionBuffer.{RegionBuffer}
use barrique.Region.Push
use barrique.Region.Push.{Push}
use barrique.Region.Emit.{region_bytes, pass-Pushed, pass-empty}
use barrique.Stream.Encoder.{StreamEncoder, write, flush, new}

module _ (x : Foreign) (laws : ForeignLaws x) {W : Type 0} (w : Writer W) (wl : WriterLaws w) where
  open x use {EncContext, compress_continue}
  open wl use {written}

  -- The state of an encoder: the bytes of the region at hand, the context of the compression, the
  -- seed and what is written; the other buffer is empty.
  pub record Holds (e : StreamEncoder x W) (bytes : List ℕ) (c : EncContext) (seed : Option ℕ)
      (out : List ℕ) : Type 0 where
    pub at_hand : e.region_buffer.buffer.curr.items ≡ bytes
    pub other : e.region_buffer.buffer.prev.items ≡ []
    pub context : e.switch.stream ≡ c
    pub seeded : e.switch.seed ≡ seed
    pub emitted : written e.switch.destination ≡ out

  -- An encoder after a push.
  pushed : StreamEncoder x W → Push x W → Vec → StreamEncoder x W
  pushed e p buf = record {
    region_buffer = record { buffer = record (e.region_buffer.buffer) { curr = buf }; cursor = 0 };
    switch = p;
  }

  flush_step :
      (e : StreamEncoder x W) (p : Push x W) (buf : Vec)
      → Push.pass x w (e.switch, e.region_buffer.buffer.curr) ≡ (ok tt, (p, buf))
      → flush x w e ≡ (ok tt, pushed e p buf)
  unfolding flush pushed
  flush_step e p buf h = ground arith

  -- A flush writes the region at hand, if it is not empty, and leaves an empty one.
  pub flush-Holds :
      (e : StreamEncoder x W) {bytes : List ℕ} {c : EncContext} {seed : Option ℕ} {out : List ℕ}
      → Holds e bytes c seed out
      → 0 < length bytes
      → length bytes ≤ region_size
      → (e' : StreamEncoder x W) × (flush x w e ≡ (ok tt, e'))
        × Holds e' [] (compress_continue c bytes).1 seed (out ++ region_bytes x seed c bytes)
  unfolding pushed
  flush-Holds e {bytes} {c} {seed} {out} hd h k =
      let (p, buf, run, done) =
        pass-Pushed x laws w wl e.switch e.region_buffer.buffer.curr (rw hd.at_hand h)
          (rw hd.at_hand k) in
      (
        pushed e p buf,
        flush_step e p buf run,
        record {
          at_hand = done.pushed_empty;
          other = hd.other;
          context = done.pushed_stream ∙ (λ i. (compress_continue (hd.context i) (hd.at_hand i)).1);
          seeded = done.pushed_seed ∙ hd.seeded;
          emitted =
              done.pushed_bytes
              ∙ (λ i. hd.emitted i ++ region_bytes x (hd.seeded i) (hd.context i) (hd.at_hand i));
        },
      )

  pub flush-Holds_empty :
      (e : StreamEncoder x W) {c : EncContext} {seed : Option ℕ} {out : List ℕ}
      → Holds e [] c seed out
      → (e' : StreamEncoder x W) × (flush x w e ≡ (ok tt, e')) × Holds e' [] c seed out
  unfolding pushed
  flush-Holds_empty e hd = (
    pushed e e.switch e.region_buffer.buffer.curr,
    flush_step e _ _ (pass-empty x laws w wl e.switch e.region_buffer.buffer.curr hd.at_hand),
    record {
      at_hand = hd.at_hand;
      other = hd.other;
      context = hd.context;
      seeded = hd.seeded;
      emitted = hd.emitted;
    },
  )

  -- An encoder after its buffer has taken more bytes.
  appended : List ℕ → StreamEncoder x W → StreamEncoder x W
  appended bytes e = record e { region_buffer = RegionBuffer.write bytes e.region_buffer }

  appended-Holds :
      (e : StreamEncoder x W) (more : List ℕ) {bytes : List ℕ} {c : EncContext} {seed : Option ℕ}
      {out : List ℕ}
      → Holds e bytes c seed out
      → Holds (appended more e) (bytes ++ more) c seed out
  unfolding appended RegionBuffer.write
  appended-Holds e more hd = record {
    at_hand = items-extend_from_slice more _ ∙ ap (λ l. l ++ more) hd.at_hand;
    other = hd.other;
    context = hd.context;
    seeded = hd.seeded;
    emitted = hd.emitted;
  }

  -- A write that fits joins the region at hand.
  write_fits :
      (e : StreamEncoder x W) (more : List ℕ)
      → length e.region_buffer.buffer.curr.items + length more ≤ region_size
      → write x w more e ≡ (ok tt, appended more e)
  unfolding write appended
  write_fits e more h = ground arith

  -- One that does not fit begins a region.
  write_begins :
      (e e' : StreamEncoder x W) (more : List ℕ)
      → length e.region_buffer.buffer.curr.items ≤ region_size
      → length more ≤ region_size
      → region_size < length e.region_buffer.buffer.curr.items + length more
      → flush x w e ≡ (ok tt, e')
      → write x w more e
        ≡ (ok tt, appended more (record e' { region_buffer = RegionBuffer.swap e'.region_buffer }))
  unfolding write appended
  write_begins e e' more k h b run = ground arith

  -- One write, by the two cases of `fill`.
  pub write-Holds_fits :
      (e : StreamEncoder x W) (more : List ℕ) {bytes : List ℕ} {c : EncContext} {seed : Option ℕ}
      {out : List ℕ}
      → Holds e bytes c seed out
      → length bytes + length more ≤ region_size
      → (e' : StreamEncoder x W) × (write x w more e ≡ (ok tt, e'))
        × Holds e' (bytes ++ more) c seed out
  write-Holds_fits e more hd h =
      (appended more e, write_fits e more (rw hd.at_hand h), appended-Holds e more hd)

  pub write-Holds_begins :
      (e : StreamEncoder x W) (more : List ℕ) {bytes : List ℕ} {c : EncContext} {seed : Option ℕ}
      {out : List ℕ}
      → Holds e bytes c seed out
      → length bytes ≤ region_size
      → length more ≤ region_size
      → region_size < length bytes + length more
      → (e' : StreamEncoder x W) × (write x w more e ≡ (ok tt, e'))
        × Holds e' more (compress_continue c bytes).1 seed (out ++ region_bytes x seed c bytes)
  unfolding RegionBuffer.swap
  write-Holds_begins e more hd k m h =
      let (f, run, hf) = flush-Holds e hd (omega arith) k in
      let f' : StreamEncoder x W = record f { region_buffer = RegionBuffer.swap f.region_buffer } in
      let swapped : Holds f' [] _ _ _ = record {
        at_hand = hf.other;
        other = hf.at_hand;
        context = hf.context;
        seeded = hf.seeded;
        emitted = hf.emitted;
      } in
      (
        appended more f',
        write_begins e f more (rw hd.at_hand k) m (rw hd.at_hand h) run,
        appended-Holds f' more swapped,
      )

  pub Holds-out :
      {e : StreamEncoder x W} {bytes : List ℕ} {c : EncContext} {seed : Option ℕ}
      {out out' : List ℕ}
      → Holds e bytes c seed out
      → out ≡ out'
      → Holds e bytes c seed out'
  Holds-out h eq = record {
    at_hand = h.at_hand;
    other = h.other;
    context = h.context;
    seeded = h.seeded;
    emitted = h.emitted ∙ eq;
  }

  pub new-Holds :
      (dst : W) (size : ℕ) (seed : Option ℕ)
      → Holds (new x w dst size seed) [] (Foreign.create_stream x) seed (written dst)
  unfolding new
  new-Holds dst size seed = record {
    at_hand = refl;
    other = ground arith;
    context = refl;
    seeded = refl;
    emitted = refl;
  }
