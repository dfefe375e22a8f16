-- ===== src/Stream/Complete.antt =====
-- Nothing is lost or added between the writes and the regions, and what a single region takes.
use barrique.Base.{
  ℕ, suc, ◌+◌, ◌-◌, ◌*◌, ◌/◌, ◌≤◌, ◌<◌, ◌≡◌, refl, ap, sym, ◌∙◌, Option, List, [], ◌∷◌, ◌++◌,
  length, ok, All, arith, append_assoc, append-nil, length-append, Bool-cases, inl, inr, ltb,
  ltb→lt, ltb_false→le, le→ltb_false,
}
use barrique.Io.{Writer, WriterLaws}
use barrique.Lz4.{Foreign, ForeignLaws, compress_bound}
use barrique.Region.{region_size}
use barrique.Region.Header.{into_bytes}
use barrique.Region.Bound.{max_encoded_size}
use barrique.Region.Emit.{stream_bytes, region_bytes}
use barrique.Stream.Encoder.{StreamEncoder, new}
use barrique.Stream.Regions.{fill, regions, regions_from, IsRegion, fill_bounds}
use barrique.Stream.Encoding.{encode_all, encode_all-stream_bytes}

-- The bytes of the chunks, one after the other.
abbrev pub joined : List (List ℕ) → List ℕ
joined [] = []
joined (c ∷ cs) = c ++ joined cs

fill-joined :
    (used : ℕ) (ws : List (List ℕ)) → (fill used ws).0 ++ joined (fill used ws).1 ≡ joined ws
unfolding fill
fill-joined used [] = refl
fill-joined used (w ∷ ws) = elim (Bool-cases (ltb (region_size - used) (length w))) [
  | inl e ↦ rw e (
      append_assoc w (fill (length w) ws).0 (joined (fill (length w) ws).1)
      ∙ ap (λ l. w ++ l) (fill-joined (length w) ws))
  | inr e ↦ rw e (
      append_assoc w (fill (used + length w) ws).0 (joined (fill (used + length w) ws).1)
      ∙ ap (λ l. w ++ l) (fill-joined (used + length w) ws))
]

regions_from-joined :
    (m : List ℕ) (rs : List (List ℕ)) → joined (regions_from m rs) ≡ m ++ joined rs
regions_from-joined [] rs = refl
regions_from-joined (b ∷ bs) rs = refl

regions_from-IsRegion :
    (m : List ℕ) (rs : List (List ℕ))
    → length m ≤ region_size
    → All IsRegion rs
    → All IsRegion (regions_from m rs)
regions_from-IsRegion [] rs h k = k
regions_from-IsRegion (b ∷ bs) rs h k = ((omega arith, h), k)

regions-joined : (ws : List (List ℕ)) → joined (regions ws) ≡ joined ws
unfolding regions
regions-joined ws = regions_from-joined (fill 0 ws).0 (fill 0 ws).1 ∙ fill-joined 0 ws

regions-IsRegion :
    (ws : List (List ℕ)) → All (λ v. length v ≤ region_size) ws → All IsRegion (regions ws)
unfolding regions
regions-IsRegion ws h =
    let (a, b) = fill_bounds 0 ws (omega arith) h in
    regions_from-IsRegion (fill 0 ws).0 (fill 0 ws).1 (omega (arith, a)) b

-- Writes that fit into one region together make no second one.
fill-one :
    (used : ℕ) (ws : List (List ℕ))
    → used + length (joined ws) ≤ region_size
    → (fill used ws).1 ≡ []
unfolding fill
fill-one used [] h = refl
fill-one used (w ∷ ws) h =
    let total : length (joined (w ∷ ws)) ≡ length w + length (joined ws) =
      length-append w (joined ws) in
    elim (Bool-cases (ltb (region_size - used) (length w))) [
      | inl e ↦ absurd (omega (arith, ltb→lt _ _ e))
      | inr e ↦ rw e (fill-one (used + length w) ws (omega arith))
    ]

joined-small :
    (ws : List (List ℕ)) → length (joined ws) ≤ region_size → All (λ v. length v ≤ region_size) ws
joined-small [] h = tt
joined-small (w ∷ ws) h =
    let total : length (joined (w ∷ ws)) ≡ length w + length (joined ws) =
      length-append w (joined ws) in
    (omega arith, joined-small ws (omega arith))

compress_bound-eq : (n : ℕ) → n ≤ region_size → compress_bound n ≡ n + n / 255 + 16
compress_bound-eq n h = rw (le→ltb_false 0x7E000000 n (omega arith)) refl

max_encoded_size-le :
    (n k : ℕ) → 0 < n → n ≤ region_size → k ≤ compress_bound n → 12 + k ≤ max_encoded_size n
unfolding max_encoded_size
max_encoded_size-le n k h m le =
    let one : (n + region_size - 1) / region_size ≡ 1 = omega arith in
    let eq : compress_bound n ≡ n + n / 255 + 16 = compress_bound-eq n m in
    elim (Bool-cases (ltb n region_size)) [
      | inl t ↦
          let none : n / region_size ≡ 0 = omega (arith, ltb→lt _ _ t) in
          let rest : n - 0 * region_size ≡ n = omega arith in rw (one, none, rest, eq) (omega arith)
      | inr t ↦
          let full : n ≡ region_size = omega (arith, ltb_false→le _ _ t) in
          rw full (omega (arith, le, eq, full))
    ]

module _ (x : Foreign) (laws : ForeignLaws x) where
  open laws use {compressed_bound}

  one_region-le :
      (seed : Option ℕ) (c : Foreign.EncContext x) (m : List ℕ)
      → length m ≤ region_size
      → length (stream_bytes x seed c (regions_from m [])) ≤ max_encoded_size (length m)
  unfolding stream_bytes region_bytes max_encoded_size into_bytes
  one_region-le seed c [] h = omega arith
  one_region-le seed c (b ∷ bs) h = rw append-nil (
      let k = compressed_bound c (b ∷ bs) (omega arith) in
      omega (arith, max_encoded_size-le (suc (length bs)) _ (omega arith) h k))

module _ (x : Foreign) (laws : ForeignLaws x) {W : Type 0} (w : Writer W) (wl : WriterLaws w) where
  open wl use {written}

  -- A new encoder, given writes of which none is longer than a region and then flushed, succeeds
  -- and writes a sequence of regions, none of them empty or longer than `REGION_SIZE`, that hold
  -- together exactly the bytes of the writes, in order.
  pub encode_all-joined :
      (dst : W) (size : ℕ) (seed : Option ℕ) (ws : List (List ℕ))
      → All (λ v. length v ≤ region_size) ws
      → (rs : List (List ℕ)) × (e : StreamEncoder x W) × (encode_all x w ws (new x w dst size seed)
          ≡ (ok tt, e))
        × (written e.switch.destination
            ≡ written dst ++ stream_bytes x seed (Foreign.create_stream x) rs)
        × (joined rs ≡ joined ws)
        × All IsRegion rs
  encode_all-joined dst size seed ws h =
      let (e, run, out) = encode_all-stream_bytes x laws w wl dst size seed ws h in
      (regions ws, e, run, out, regions-joined ws, regions-IsRegion ws h)

  -- What a new encoder writes, for writes that fit into one region together, is at most
  -- `max_encoded_size` of their total length.
  pub encoded-max_encoded_size :
      (dst : W) (size : ℕ) (seed : Option ℕ) (ws : List (List ℕ))
      → length (joined ws) ≤ region_size
      → (e : StreamEncoder x W) × (encode_all x w ws (new x w dst size seed) ≡ (ok tt, e))
        × (length (written e.switch.destination)
            ≤ length (written dst) + max_encoded_size (length (joined ws)))
  unfolding regions
  encoded-max_encoded_size dst size seed ws h =
      let (e, run, out) =
        encode_all-stream_bytes x laws w wl dst size seed ws (joined-small ws h) in
      let one : (fill 0 ws).1 ≡ [] = fill-one 0 ws (omega arith) in
      let whole : (fill 0 ws).0 ≡ joined ws =
        sym (append-nil _) ∙ ap (λ l. (fill 0 ws).0 ++ joined l) (sym one) ∙ fill-joined 0 ws in
      let parts : regions ws ≡ regions_from (joined ws) [] = λ i. regions_from (whole i) (one i) in
      (
        e,
        run,
        rw out (
            rw parts (
              rw length-append (
                omega (arith, one_region-le x laws seed (Foreign.create_stream x) (joined ws) h)))),
      )
