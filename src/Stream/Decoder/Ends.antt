-- ===== src/Stream/Decoder/Ends.antt =====
-- A source that ends feeds finitely many reads.
use barrique.Base.{
  ℕ, zero, suc, ◌+◌, ◌-◌, ◌≤◌, ◌<◌, ◌≡◌, refl, List, ok, err, panic, Outcome, Call, pure, ◌>>=◌,
  Ensures, arith,
}
use barrique.Io.{Reader}
use barrique.Io.Exact.{ExactReader, FiniteReader}
use barrique.Lz4.{Foreign, ForeignBytes}
use barrique.Region.{RegionError}
use barrique.Stream.Decoder.{StreamDecoder, read}
use barrique.Stream.Decoder.Robust.{Sound, Crossed, within, across, unread, read-Ensures}

-- `k` reads of `n` bytes, up to the first error.
unfoldable pub read_times :
    (x : Foreign) {R : Type 0} (r : Reader R)
    → ℕ
    → ℕ
    → Call (StreamDecoder x R) RegionError (Unit {0})
read_times x r n zero = pure tt
read_times x r n (suc k) = read x r n >>= λ _. read_times x r n k

module _ (x : Foreign) (xb : ForeignBytes x) {R : Type 0} (r : Reader R) (xr : ExactReader r)
    (fin : FiniteReader xr) where
  -- After some number of reads there is an error.
  abbrev Fails : ℕ → StreamDecoder x R → Type 0
  Fails n d = (k : ℕ) × (e : RegionError) × ((read_times x r n k d).0 ≡ err e)

  Fails-next :
      (n : ℕ) (d : StreamDecoder x R) (G : List ℕ → StreamDecoder x R → Type 0)
      → Ensures G (read x r n d)
      → ((bytes : List ℕ) (d' : StreamDecoder x R) → G bytes d' → Fails n d')
      → Fails n d
  unfolding read_times
  Fails-next n d G h next = named (read x r n d) refl h
    where
      named :
          (q : Outcome RegionError (List ℕ) × StreamDecoder x R)
          → read x r n d ≡ q
          → Ensures G q
          → Fails n d
      named (ok a, d') e h =
          let (k, f, run) = next a d' h.holds in (suc k, f, ground (arith, e, run))
      named (err f, d') e h = (1, f, ground (arith, e))
      named (panic, d') e h = absurd h.holds

  Fails-step :
      (j n : ℕ) (d : StreamDecoder x R)
      → Sound x xb r xr j d
      → ((d' : StreamDecoder x R)
          → Sound x xb r xr j d'
          → unread d'.region_buffer + n ≡ unread d.region_buffer
          → Fails n d')
      → ((d' : StreamDecoder x R) → Crossed x xb r xr j d' → Fails n d')
      → Fails n d
  Fails-step j n d h here there =
      Fails-next n d _ (read-Ensures x xb r xr j n d h)
        (λ bytes d' k. elim k.2 [ within s e ↦ here d' s e | across c ↦ there d' c ])

  spent-le : (j : ℕ) (d : StreamDecoder x R) (c : Crossed x xb r xr j d) → c.spent ≤ j
  spent-le j d c = fin.held j c.spent c.before c.before_good c.before_held

  -- By the bound on the source, and by what is left of the region at hand.
  Fails-from :
      (fuel m j n : ℕ) (d : StreamDecoder x R)
      → 0 < n
      → j ≤ fuel
      → unread d.region_buffer ≤ m
      → Sound x xb r xr j d
      → Fails n d
  Fails-from zero zero j n d pos low few h =
      Fails-step j n d h (λ d' s e. absurd (omega (arith, e, few, pos)))
        (λ d' c. absurd (omega (arith, spent-le j d' c, c.spent-ge)))
  Fails-from zero (suc m) j n d pos low few h =
      Fails-step j n d h (λ d' s e. Fails-from zero m j n d' pos low (omega (arith, e, few, pos)) s)
        (λ d' c. absurd (omega (arith, spent-le j d' c, c.spent-ge)))
  Fails-from (suc fuel) zero j n d pos low few h =
      Fails-step j n d h (λ d' s e. absurd (omega (arith, e, few, pos)))
        (λ d' c.
          Fails-from fuel (unread d'.region_buffer) (j - c.spent) n d' pos
            (omega (arith, c.spent-ge, spent-le j d' c)) (omega arith) c.sound)
  Fails-from (suc fuel) (suc m) j n d pos low few h =
      Fails-step j n d h
        (λ d' s e. Fails-from (suc fuel) m j n d' pos low (omega (arith, e, few, pos)) s)
        (λ d' c.
          Fails-from fuel (unread d'.region_buffer) (j - c.spent) n d' pos
            (omega (arith, c.spent-ge, spent-le j d' c)) (omega arith) c.sound)

  -- Over a source that ends, whatever its bytes are, a loop that reads one and the same amount of
  -- bytes, at least one, stops: after some number of reads there is an error.
  pub read_times-ends :
      (j n : ℕ) (d : StreamDecoder x R)
      → 0 < n
      → Sound x xb r xr j d
      → (k : ℕ) × (e : RegionError) × ((read_times x r n k d).0 ≡ err e)
  read_times-ends j n d pos h =
      Fails-from j (unread d.region_buffer) j n d pos (omega arith) (omega arith) h
