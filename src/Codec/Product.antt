-- ===== src/Codec/Product.antt =====
-- `impl_tuple!`: the fields one after the other. A longer tuple is a pair whose second part is the
-- rest of the tuple, which has the same writes and reads.
use barrique.Base.{
  ℕ, ◌+◌, ◌≡◌, subst, List, ◌++◌, ok, gets, ◌>>=◌, ◌>>◌, All-append, arith, append_assoc,
}
use barrique.Stream.{DecodeBearer}
use barrique.Codec.{Encode, Decode}
use barrique.Codec.Laws.{DecodeBearerLaws, RoundTrips, writing_then}

module _ {S T : Type 0} (es : Encode S) (ds : Decode S) (et : Encode T) (dt : Decode T) where
  unfoldable pub pair_encode : Encode (S × T)
  pair_encode = record {
    encode = λ B b v. es.encode B b v.0 >> et.encode B b v.1;
    size_of = λ v. es.size_of v.0 + (et.size_of v.1 + 0);
  }

  unfoldable pub pair_decode : Decode (S × T)
  pair_decode = record {
    decode = λ B b. (do v ← ds.decode B b; w ← dt.decode B b; gets (λ _. ok (v, w)));
  }

  module _ (cs : S → List (List ℕ)) (vs : S → Type 0) (rs : RoundTrips es ds cs vs)
      (ct : T → List (List ℕ)) (vt : T → Type 0) (rt : RoundTrips et dt ct vt) where
    pair_decoded :
        (B : Type 0) (b : DecodeBearer B) (bl : DecodeBearerLaws b) (v : S × T) (s : B)
        (rest : List (List ℕ))
        → vs v.0 × vt v.1
        → DecodeBearerLaws.Aligned bl s ((cs v.0 ++ ct v.1) ++ rest)
        → (s' : B) × (Decode.decode pair_decode B b s ≡ (ok v, s'))
          × DecodeBearerLaws.Aligned bl s' rest
    unfolding pair_decode
    pair_decoded B b bl v s rest (h, k) al =
        let al' =
          subst (λ l. DecodeBearerLaws.Aligned bl s l) (append_assoc (cs v.0) (ct v.1) rest) al in
        let (s1, run1, al1) = rs.decoded B b bl v.0 s (ct v.1 ++ rest) h al' in
        let (s2, run2, al2) = rt.decoded B b bl v.1 s1 rest k al1 in
        (s2, ground (arith, run1, run2), al2)

    -- A pair is read back as it was written, if its parts are.
    pub pair-RoundTrips :
        RoundTrips pair_encode pair_decode (λ v. cs v.0 ++ ct v.1) (λ v. vs v.0 × vt v.1)
    unfolding pair_encode
    pair-RoundTrips = record {
      chunks_small =
          λ v. All-append _ (cs v.0) (ct v.1) (rs.chunks_small v.0) (rt.chunks_small v.1);
      encoded = λ B b v s.
          writing_then b (es.encode B b v.0) (et.encode B b v.1) (cs v.0) (ct v.1) s
            (rs.encoded B b v.0) (rt.encoded B b v.1);
      decoded = pair_decoded;
    }
