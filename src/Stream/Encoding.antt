-- ===== src/Stream/Encoding.antt =====
-- The encoder writes the regions of `Regions`: a refinement.
use barrique.Base.{
  ℕ, ◌+◌, ◌-◌, ◌≤◌, ◌<◌, ◌≡◌, refl, ap, ◌∙◌, Option, List, [], ◌∷◌, ◌++◌, length, ok, Call, pure,
  ◌>>◌, ltb, All, arith, append_assoc, append-nil, length-append, Bool-cases, ltb→lt, ltb_false→le,
  inl, inr,
}
use barrique.Io.{Writer, WriterLaws}
use barrique.Lz4.{Foreign, ForeignLaws}
use barrique.Region.{RegionError, region_size}
use barrique.Region.Emit.{stream_bytes, region_bytes}
use barrique.Stream.{EncodeBearer}
use barrique.Stream.Encoder.{StreamEncoder, write, flush, new, encode_bearer}
use barrique.Stream.Regions.{fill, regions, regions_from}
use barrique.Stream.Holds.{
  Holds, flush-Holds, flush-Holds_empty, write-Holds_fits, write-Holds_begins, Holds-out, new-Holds,
}

-- `for bytes in writes { bearer.write(bytes)?; }`
unfoldable pub write_all :
    {B : Type 0} → EncodeBearer B → List (List ℕ) → Call B RegionError (Unit {0})
write_all b [] = pure tt
write_all b (w ∷ ws) = b.write w >> write_all b ws

-- The writes and the final flush.
unfoldable pub encode_all :
    (x : Foreign) {W : Type 0} (w : Writer W)
    → List (List ℕ)
    → Call (StreamEncoder x W) RegionError (Unit {0})
encode_all x w ws = write_all (encode_bearer x w) ws >> flush x w

module _ (x : Foreign) (laws : ForeignLaws x) {W : Type 0} (w : Writer W) (wl : WriterLaws w) where
  open x use {EncContext, compress_continue}
  open wl use {written}

  -- The region at hand, completed by `more`, and the regions `rs` after it.
  abbrev rest_bytes : Option ℕ → EncContext → List ℕ → List (List ℕ) → List ℕ
  rest_bytes seed c bytes rs = stream_bytes x seed c (regions_from bytes rs)

  encode_all_step :
      (v : List ℕ) (ws : List (List ℕ)) (e f : StreamEncoder x W)
      → write x w v e ≡ (ok tt, f)
      → encode_all x w (v ∷ ws) e ≡ encode_all x w ws f
  unfolding encode_all write_all encode_bearer
  encode_all_step v ws e f h = ground arith

  -- The final flush alone.
  encode_all_nil :
      (e : StreamEncoder x W) (bytes : List ℕ) {c : EncContext} {seed : Option ℕ} {out : List ℕ}
      → Holds x laws w wl e bytes c seed out
      → length bytes ≤ region_size
      → (e' : StreamEncoder x W) × (encode_all x w [] e ≡ (ok tt, e'))
        × (at_end : EncContext) × Holds x laws w wl e' [] at_end seed
            (out ++ rest_bytes seed c bytes [])
  unfolding encode_all write_all stream_bytes
  encode_all_nil e [] {c} hd k =
      let (e', run, he) = flush-Holds_empty x laws w wl e hd in (e', run, c, rw append-nil he)
  encode_all_nil e (b ∷ bs) {c} hd k =
      let (e', run, he) = flush-Holds x laws w wl e hd (omega arith) k in
      (e', run, (compress_continue c (b ∷ bs)).1, rw append-nil he)

  -- The region that a write closes comes first.
  rest_bytes_cons :
      (seed : Option ℕ) (c : EncContext) (bytes v : List ℕ) (rs : List (List ℕ))
      → 0 < length bytes
      → 0 < length v
      → rest_bytes seed c bytes (v ∷ rs)
        ≡ region_bytes x seed c bytes ++ rest_bytes seed (compress_continue c bytes).1 v rs
  unfolding stream_bytes
  rest_bytes_cons seed c [] v rs h k = absurd (omega arith)
  rest_bytes_cons seed c (b ∷ bs) [] rs h k = absurd (omega arith)
  rest_bytes_cons seed c (b ∷ bs) (d ∷ ds) rs h k = refl

  regroup :
      (seed : Option ℕ) (c : EncContext) (bytes v : List ℕ) (ws : List (List ℕ))
      → rest_bytes seed c
          ((bytes ++ v) ++ (fill (length (bytes ++ v)) ws).0)
          (fill (length (bytes ++ v)) ws).1
        ≡ rest_bytes seed c
            (bytes ++ (v ++ (fill (length bytes + length v) ws).0))
            (fill (length bytes + length v) ws).1
  regroup seed c bytes v ws = rw (length-append bytes v, append_assoc bytes v)

  encode_all-Holds :
      (ws : List (List ℕ)) (e : StreamEncoder x W) (bytes : List ℕ) (c : EncContext)
      (seed : Option ℕ) (out : List ℕ)
      → Holds x laws w wl e bytes c seed out
      → length bytes ≤ region_size
      → All (λ v. length v ≤ region_size) ws
      → (e' : StreamEncoder x W) × (encode_all x w ws e ≡ (ok tt, e'))
        × (at_end : EncContext) × Holds x laws w wl e' [] at_end seed (
            out
            ++ rest_bytes seed c (bytes ++ (fill (length bytes) ws).0) (fill (length bytes) ws).1)
  unfolding fill
  encode_all-Holds [] e bytes c seed out hd k hw = rw append-nil (encode_all_nil e bytes hd k)
  encode_all-Holds (v ∷ ws) e bytes c seed out hd k (hv, hw) =
      elim (Bool-cases (ltb (region_size - length bytes) (length v))) [
        | inl t ↦
            let more : region_size < length bytes + length v = omega (arith, ltb→lt _ _ t) in
            let (f, run, hf) = write-Holds_begins x laws w wl e v hd k hv more in
            let (e', runs, at_end, he) = encode_all-Holds ws f v _ seed _ hf hv hw in
            (
              e',
              encode_all_step v ws e f run ∙ runs,
              at_end,
              rw (t, append-nil)
                  (rw
                    (rest_bytes_cons seed c bytes (v ++ (fill (length v) ws).0)
                      (fill (length v) ws).1 (omega arith) (rw length-append (omega arith)))
                    (rw (← append_assoc) he)),
            )
        | inr t ↦
            let fits : length bytes + length v ≤ region_size = omega (arith, ltb_false→le _ _ t) in
            let (f, run, hf) = write-Holds_fits x laws w wl e v hd fits in
            let (e', runs, at_end, he) =
              encode_all-Holds ws f (bytes ++ v) c seed out hf (rw length-append fits) hw in
            (
              e',
              encode_all_step v ws e f run ∙ runs,
              at_end,
              Holds-out x laws w wl he (rw t (ap (λ l. out ++ l) (regroup seed c bytes v ws))),
            )
      ]

  -- A new encoder, given writes of which none is longer than a region and then flushed, succeeds on
  -- every one of them and writes exactly the regions that the writes fall into, in order.
  pub encode_all-stream_bytes :
      (dst : W) (size : ℕ) (seed : Option ℕ) (ws : List (List ℕ))
      → All (λ v. length v ≤ region_size) ws
      → (e' : StreamEncoder x W) × (encode_all x w ws (new x w dst size seed) ≡ (ok tt, e'))
        × (written e'.switch.destination
            ≡ written dst ++ stream_bytes x seed (Foreign.create_stream x) (regions ws))
  unfolding regions
  encode_all-stream_bytes dst size seed ws h =
      let (e', run, at_end, he) =
        encode_all-Holds ws (new x w dst size seed) [] (Foreign.create_stream x) seed (written dst)
          (new-Holds x laws w wl dst size seed) (omega arith) h in
      (e', run, he.emitted)
