-- ===== src/Codec/Int.antt =====
-- `impl_int!`: integers and floats as their bytes, lowest first. A value is its bit pattern.
use barrique.Base.{ℕ, ◌≤◌, ◌<◌, ◌^◌, ◌≡◌, sym, ap, ◌∙◌, List, [], ◌∷◌, ok, gets, ◌>>=◌, arith}
use barrique.Bytes.{to_le_bytes, from_le_bytes, from_le_bytes-to_le_bytes, length-to_le_bytes}
use barrique.Region.{region_size}
use barrique.Stream.{DecodeBearer}
use barrique.Codec.{Encode, Decode, write, read}
use barrique.Codec.Laws.{DecodeBearerLaws, RoundTrips, writing-one, read_lem}

-- `impl_int!($type)` for a type of `w` bytes; `usize as u64` and `isize as i64` have eight.
unfoldable pub int_encode : ℕ → Encode ℕ
int_encode w = record { encode = λ B b v. write b (to_le_bytes w v); size_of = λ v. w }

unfoldable pub int_decode : ℕ → Decode ℕ
int_decode w = record {
  decode = λ B b. (do bytes ← read b w; gets (λ _. ok (from_le_bytes bytes)));
}

int_decoded :
    (w : ℕ) (B : Type 0) (b : DecodeBearer B) (bl : DecodeBearerLaws b) (v : ℕ) (s : B)
    (cs : List (List ℕ))
    → v < 256 ^ w
    → DecodeBearerLaws.Aligned bl s (to_le_bytes w v ∷ cs)
    → (s' : B) × (Decode.decode (int_decode w) B b s ≡ (ok v, s'))
      × DecodeBearerLaws.Aligned bl s' cs
unfolding int_decode
int_decoded w B b bl v s cs h al =
    let (s', run, al') = bl.read_chunk s (to_le_bytes w v) cs al in
    (
      s',
      ground (
        arith,
        read_lem b w s s' (to_le_bytes w v)
            (ap (λ n. b.read n s) (sym (length-to_le_bytes w v)) ∙ run),
        from_le_bytes-to_le_bytes w v h,
      ),
      al',
    )

-- Every value of `w` bytes is read back as it was written.
pub int-RoundTrips :
    (w : ℕ)
    → w ≤ region_size
    → RoundTrips (int_encode w) (int_decode w) (λ v. to_le_bytes w v ∷ []) (λ v. v < 256 ^ w)
unfolding int_encode
int-RoundTrips w h = record {
  chunks_small = λ v. (rw length-to_le_bytes h, tt);
  encoded = λ B b v s. writing-one b (to_le_bytes w v) s;
  decoded = λ B b bl v s cs valid al. int_decoded w B b bl v s cs valid al;
}
