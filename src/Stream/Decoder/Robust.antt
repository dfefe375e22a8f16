-- ===== src/Stream/Decoder/Robust.antt =====
-- A decoder over any source at all: what its reads return and what they keep.
use barrique.Base.{
  ℕ, ◌+◌, ◌-◌, ◌≤◌, ◌<◌, ◌≡◌, refl, Option, none, some, length, take, drop, All, Outcome, ok, err,
  panic, Ensures, Ensures-ok, Ensures-err, Ensures-bind, Ensures-weaken, Ensures-when,
  Ensures-map_state, ok_or, ltb, ltb→lt, ltb_false→le, le→ltb_false, All-take, All-drop,
  length-take, length-drop, arith, Bool-cases, inl, inr, ◌⊎◌,
}
use barrique.Bytes.{IsByte}
use barrique.Vec.{Vec}
use barrique.Io.{Reader}
use barrique.Io.Exact.{ExactReader}
use barrique.Lz4.{Foreign, ForeignBytes}
use barrique.Region.{RegionError}
use barrique.Region.DoubleBuffer.{Switch}
use barrique.Region.RegionBuffer
use barrique.Region.RegionBuffer.{RegionBuffer}
use barrique.Region.Pull
use barrique.Region.Pull.{Pull}
use barrique.Region.Pull.Robust.{pass-Ensures}
use barrique.Stream.Decoder.{
  StreamDecoder, next_region, new, closed, read, swap, read_buffer, opened,
}

-- A buffer whose cursor is not past the region at hand, which holds bytes.
pub record InBounds (b : RegionBuffer) : Type 0 where
  pub cursor_in : b.cursor ≤ length b.buffer.curr.items
  pub bytes : All IsByte b.buffer.curr.items

-- How much of the region at hand is left.
abbrev pub unread : RegionBuffer → ℕ
unread b = length b.buffer.curr.items - b.cursor

read_fits :
    (n : ℕ) (b : RegionBuffer)
    → b.cursor + n ≤ length b.buffer.curr.items
    → RegionBuffer.read n b ≡ (
      some (take (b.cursor + n - b.cursor) (drop b.cursor b.buffer.curr.items)),
      record b { cursor = b.cursor + n },
    )
unfolding RegionBuffer.read
read_fits n b h = ground arith

read_short :
    (n : ℕ) (b : RegionBuffer)
    → length b.buffer.curr.items < b.cursor + n
    → RegionBuffer.read n b ≡ (none, b)
unfolding RegionBuffer.read
read_short n b h = ground arith

buffer_read :
    {E : Type 0} (n : ℕ) (b : RegionBuffer) (e : E)
    → InBounds b
    → Ensures
        (λ bytes b'.
          (length bytes ≡ n) × All IsByte bytes × InBounds b' × (unread b' + n ≡ unread b))
        (ok_or (RegionBuffer.read n b).0 e, (RegionBuffer.read n b).1)
buffer_read n b e h = elim (Bool-cases (ltb (length b.buffer.curr.items) (b.cursor + n))) [
  | inl short ↦ rw (read_short n b (ltb→lt _ _ short)) Ensures-err
  | inr fits ↦
      let k : b.cursor + n ≤ length b.buffer.curr.items = ltb_false→le _ _ fits in
      rw (read_fits n b k) (
        Ensures-ok (
          omega (
            arith,
            length-take (b.cursor + n - b.cursor) (drop b.cursor b.buffer.curr.items),
            length-drop b.cursor b.buffer.curr.items,
          ),
          All-take IsByte (b.cursor + n - b.cursor) _ (All-drop IsByte b.cursor _ h.bytes),
          record { cursor_in = k; bytes = h.bytes },
          omega (arith, k),
        ))
]

-- A pass of the buffer ensures what its switch does, and takes the cursor back.
buffer_passed :
    {S : Type 0} {G : S × Vec → Type 0} (switch : Switch S) (s : S) (b : RegionBuffer)
    → Ensures (λ _ t. G t) (switch (s, b.buffer.curr))
    → Ensures (λ _ t. (t.1.cursor ≡ 0) × G (t.0, t.1.buffer.curr)) (RegionBuffer.pass switch (s, b))
unfolding RegionBuffer.pass
buffer_passed {S} {G} switch s b h = named (switch (s, b.buffer.curr)) h
  where
    named :
        (q : Outcome RegionError (Unit {0}) × (S × Vec))
        → Ensures (λ _ t. G t) q
        → Ensures
            (λ _ t. (t.1.cursor ≡ 0) × G (t.0, t.1.buffer.curr))
            (RegionBuffer.pass (λ _. q) (s, b))
    named (ok a, t) h = Ensures-ok (refl, h.holds)
    named (err e, t) h = Ensures-err
    named (panic, t) h = absurd h.holds

module _ (x : Foreign) (xb : ForeignBytes x) {R : Type 0} (r : Reader R) (xr : ExactReader r) where
  open xr use {Good, Held}

  -- A region is at hand, and its source is sound, with the bound `j`.
  pub record Sound (j : ℕ) (d : StreamDecoder x R) : Type 0 where
    pub in_bounds : InBounds d.region_buffer
    pub good : Good j d.switch.source

  -- A new region is at hand.
  pub record Crossed (j : ℕ) (d : StreamDecoder x R) : Type 0 where
    pub spent : ℕ
    pub before : R
    pub spent-ge : 12 ≤ spent
    pub before_good : Good j before
    pub before_held : Held spent before
    pub sound : Sound (j - spent) d

  region_switched :
      (j : ℕ) (d : StreamDecoder x R)
      → Good j d.switch.source
      → Ensures (λ _ d'. Crossed j d') (next_region x r d)
  unfolding next_region
  region_switched j d g =
      Ensures-map_state (λ t. record { region_buffer = t.1; switch = t.0 }) _
        (Ensures-weaken
          (buffer_passed (Pull.pass x r) d.switch d.region_buffer
            (pass-Ensures x xb r xr j d.switch d.region_buffer.buffer.curr g))
          (λ _ t k. record {
            spent = k.1.spent;
            before = k.1.before;
            spent-ge = k.1.spent-ge;
            before_good = k.1.before_good;
            before_held = k.1.before_held;
            sound = record {
              in_bounds = record { cursor_in = omega (arith, k.0); bytes = k.1.bytes };
              good = k.1.good;
            };
          }))

  -- A read within the region at hand moves the cursor; any other begins with a new region.
  pub data Moved (j n : ℕ) (d d' : StreamDecoder x R) : Type 0 where
    within : Sound j d' → unread d'.region_buffer + n ≡ unread d.region_buffer → Moved j n d d'
    across : Crossed j d' → Moved j n d d'

  -- The state before the bytes are taken: the region at hand, or a new one.
  taken :
      (j n : ℕ) (d : StreamDecoder x R) (d1 : StreamDecoder x R)
      → (d1 ≡ d) ⊎ Crossed j d1
      → Sound j d
      → Ensures
          (λ bytes d'. (length bytes ≡ n) × All IsByte bytes × Moved j n d d')
          (read_buffer x r n d1)
  unfolding read_buffer
  taken j n d d1 (inl e) h = rw e (
      Ensures-map_state (λ b. record d { region_buffer = b }) _
        (Ensures-weaken (buffer_read n d.region_buffer RegionError.out_of_bounds h.in_bounds)
          (λ bytes b k. (k.0, k.1, within (record { in_bounds = k.2; good = h.good }) k.3))))
  taken j n d d1 (inr c) h =
      Ensures-map_state (λ b. record d1 { region_buffer = b }) _
        (Ensures-weaken (buffer_read n d1.region_buffer RegionError.out_of_bounds c.sound.in_bounds)
          (λ bytes b k. (
            k.0,
            k.1,
            across (record {
              spent = c.spent;
              before = c.before;
              spent-ge = c.spent-ge;
              before_good = c.before_good;
              before_held = c.before_held;
              sound = record { in_bounds = k.2; good = c.sound.good };
            }),
          )))

  measured :
      (d : StreamDecoder x R)
      → InBounds d.region_buffer
      → Ensures (λ left d'. d' ≡ d) (RegionBuffer.remaining_len d.region_buffer, d)
  unfolding RegionBuffer.remaining_len
  measured d h =
      rw
        (le→ltb_false (length d.region_buffer.buffer.curr.items) d.region_buffer.cursor h.cursor_in)
        (Ensures-ok refl)

  -- A read from a sound decoder does not panic: where it does not fail, it returns as many bytes as
  -- were asked for, and the decoder has moved on by as much or to a new region.
  pub read-Ensures :
      (j n : ℕ) (d : StreamDecoder x R)
      → Sound j d
      → Ensures (λ bytes d'. (length bytes ≡ n) × All IsByte bytes × Moved j n d d') (read x r n d)
  unfolding read
  read-Ensures j n d h = Ensures-bind (measured d h.in_bounds) (λ left same.
      Ensures-bind {G = λ _ d1. (d1 ≡ d) ⊎ Crossed j d1}
        (Ensures-when (ltb left n) _
          (λ _. Ensures-weaken (region_switched j (swap x r d) h.good) (λ _ d1 c. inr c))
          (λ _. inl same))
        (λ _ way. taken j n d _ way h))

  -- A new decoder over any source either refuses it or has a region of it at hand.
  pub new-Ensures :
      (j size : ℕ) (seed : Option ℕ) (src : R)
      → Good j src
      → Ensures {S = Unit {0}} (λ d _. Crossed j d) (new x r src size seed, tt)
  unfolding new opened closed
  new-Ensures j size seed src g =
      named (next_region x r (closed x r src size seed))
        (region_switched j (closed x r src size seed) g)
    where
      named :
          (q : Outcome RegionError (Unit {0}) × StreamDecoder x R)
          → Ensures (λ _ d. Crossed j d) q
          → Ensures {S = Unit {0}}
              (λ d _. Crossed j d)
              (elim q.0 [ ok _ ↦ ok q.1 | err e ↦ err e | panic ↦ panic ], tt)
      named (ok a, d) h = Ensures-ok h.holds
      named (err e, d) h = Ensures-err
      named (panic, d) h = absurd h.holds
