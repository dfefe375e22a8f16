-- ===== src/Codec/Collection/Map.antt =====
-- `impl_map!`: `BTreeMap` and `HashMap`, over what the macro uses of them.
pub mod RoundTrip
use barrique.Base.{
  ℕ, zero, suc, ◌+◌, ◌%◌, ◌^◌, ◌<◌, ◌≡◌, ◌≢◌, ◌⊎◌, inl, inr, refl, ap, sym, ◌∙◌, Option, none, some,
  List, [], ◌∷◌, ◌++◌, length, ok, pure, Call, ◌>>=◌, ◌>>◌, All, arith, subst,
}
use barrique.Stream.{EncodeBearer, DecodeBearer}
use barrique.Codec.{EncodeError, DecodeError, Encode, Decode, get}
use barrique.Codec.Int.{int_encode, int_decode}
use barrique.Codec.Laws.{DecodeBearerLaws, RoundTrips, writing}
use barrique.Codec.Seq.{encode_items, vec_chunks}
use barrique.Codec.Product.{pair_encode, pair_decode, pair-RoundTrips}
use barrique.Codec.Collection.{
  Collection, insert_all, collection_encode, collection_decode, decode_inserts, collection_through,
}

-- `iter`, `$constructor` and `insert`, with `get` as the view of a map.
pub record MapType (K V M : Type 0) : Type 0 where
  pub iter : M → List (K × V)
  pub constructor : ℕ → M
  pub insert : K → V → M → M
  pub lookup : K → M → Option V

module _ {K V M : Type 0} (t : MapType K V M) where
  open t use {iter, constructor, insert, lookup}

  -- The map as a collection of its pairs.
  abbrev pub pairs_of : Collection (K × V) M
  pairs_of = record { iter = iter; constructor = constructor; insert = λ p m. insert p.0 p.1 m }

  module _ (ek : Encode K) (dk : Decode K) (ev : Encode V) (dv : Decode V) where
    -- `for (key, value) in src.iter() { K::encode(bearer, key)?; V::encode(bearer, value)?; }`
    encode_pairs : (B : Type 0) → EncodeBearer B → List (K × V) → Call B EncodeError (Unit {0})
    encode_pairs B b [] = pure tt
    encode_pairs B b (p ∷ ps) = ek.encode B b p.0 >> (ev.encode B b p.1 >> encode_pairs B b ps)

    abbrev pairs_size : List (K × V) → ℕ
    pairs_size [] = 0
    pairs_size (p ∷ ps) = ek.size_of p.0 + ev.size_of p.1 + pairs_size ps

    unfoldable pub map_encode : Encode M
    unfolding encode_pairs int_encode
    map_encode = record {
      encode = λ B b m.
          Encode.encode (int_encode 4) B b (length (iter m) % 2 ^ 32) >> encode_pairs B b (iter m);
      size_of = λ m. pairs_size (iter m);
    }

    -- `for _ in 0..len { let key = get(bearer)?; let value = get(bearer)?; result.insert(key, value); }`
    decode_pairs : (B : Type 0) → DecodeBearer B → ℕ → M → Call B DecodeError M
    unfolding get
    decode_pairs B b zero m = pure m
    decode_pairs B b (suc n) m = do
      key ← get dk b
      value ← get dv b
      decode_pairs B b n (insert key value m)

    unfoldable pub map_decode : Decode M
    unfolding decode_pairs get int_decode
    map_decode = record {
      decode = λ B b. (do len ← get (int_decode 4) b; decode_pairs B b len (constructor len));
    }

    encode_pairs-encode_items :
        (B : Type 0) (b : EncodeBearer B) (ps : List (K × V)) (s : B)
        → encode_pairs B b ps s
          ≡ encode_items (pair_encode ek dk ev dv) (pair_decode ek dk ev dv) B b ps s
    unfolding encode_pairs encode_items pair_encode
    encode_pairs-encode_items B b [] s = refl
    encode_pairs-encode_items B b (p ∷ ps) s =
        ground
          (arith, encode_pairs-encode_items B b ps (ev.encode B b p.1 (ek.encode B b p.0 s).1).1)

    map_encode-collection_encode :
        (B : Type 0) (b : EncodeBearer B) (m : M) (s : B)
        → Encode.encode map_encode B b m s
          ≡ Encode.encode
              (collection_encode (pair_encode ek dk ev dv) (pair_decode ek dk ev dv) pairs_of)
              B
              b
              m
              s
    unfolding map_encode collection_encode
    map_encode-collection_encode B b m s = ground (
      arith,
      encode_pairs-encode_items B b (iter m)
          (Encode.encode (int_encode 4) B b (length (iter m) % 2 ^ 32) s).1,
    )

    decode_pairs-decode_inserts :
        (B : Type 0) (b : DecodeBearer B) (n : ℕ) (m : M) (s : B)
        → decode_pairs B b n m s
          ≡ decode_inserts (pair_encode ek dk ev dv) (pair_decode ek dk ev dv) pairs_of B b n m s
    unfolding decode_pairs decode_inserts pair_decode get
    decode_pairs-decode_inserts B b zero m s = refl
    decode_pairs-decode_inserts B b (suc n) m s =
        (λ i.
          (get dk b >>= λ key.
          get dv b >>= λ value. λ u. decode_pairs-decode_inserts B b n (insert key value m) u i)
            s)
        ∙ ground arith

    map_decode-collection_decode :
        (B : Type 0) (b : DecodeBearer B) (s : B)
        → Decode.decode map_decode B b s
          ≡ Decode.decode
              (collection_decode (pair_encode ek dk ev dv) (pair_decode ek dk ev dv) pairs_of)
              B
              b
              s
    unfolding map_decode collection_decode get
    map_decode-collection_decode B b s = λ i.
        (get (int_decode 4) b >>= λ len.
        λ u. decode_pairs-decode_inserts B b len (constructor len) u i)
          s
