-- ===== src/Codec/Values.antt =====
-- The implementations of the primitive and the container types, each through an encoder's bearer and
-- a decoder's bearer.
use barrique.Base.{
  ℕ, ◌*◌, ◌≤◌, ◌<◌, ◌^◌, ◌≡◌, Bool, Option, List, [], ◌∷◌, ◌++◌, length, ok, All, ◌⊎◌,
}
use barrique.Bytes.{to_le_bytes}
use barrique.Region.{region_size}
use barrique.Stream.{EncodeBearer, DecodeBearer}
use barrique.Codec.{Encode, Decode}
use barrique.Codec.Laws.{DecodeBearerLaws, RoundTrips, writing}
use barrique.Codec.Int.{int_encode, int_decode, int-RoundTrips}
use barrique.Codec.Scalar.{flag, bool_encode, bool_decode, bool-RoundTrips}
use barrique.Codec.Char.{encode_utf8, char_encode, char_decode, char-RoundTrips}
use barrique.Codec.Sum.{
  option_encode, option_decode, option_chunks, OptionValid, option-RoundTrips, result_encode,
  result_decode, result_chunks, ResultValid, result-RoundTrips,
}
use barrique.Codec.Seq.{
  array_encode, array_decode, items_chunks, array-RoundTrips, vec_encode, vec_decode, vec_chunks,
  vec-RoundTrips,
}
use barrique.Codec.Product.{pair_encode, pair_decode, pair-RoundTrips}

module _ {B : Type 0} (b : EncodeBearer B) {C : Type 0} (c : DecodeBearer C)
    (cl : DecodeBearerLaws c) where
  open cl use {Aligned}

  both :
      {T : Type 0} (e : Encode T) (d : Decode T) (chunks : T → List (List ℕ)) (IsValid : T → Type 0)
      → RoundTrips e d chunks IsValid
      → (v : T) (s : B) (t : C) (cs : List (List ℕ)) → IsValid v
      → Aligned t (chunks v ++ cs)
      → (e.encode B b v s ≡ writing b (chunks v) s)
        × (t' : C) × (d.decode C c t ≡ (ok v, t'))
        × Aligned t' cs
  both e d chunks IsValid rt v s t cs valid al =
      let (t', run, al') = rt.decoded C c cl v t cs valid al in (rt.encoded B b v s, t', run, al')

  -- A number of `w` bytes is written as these bytes, lowest first, with the errors of that one
  -- write; a decoder whose next chunk they are returns the number and is left behind them.
  pub int_through :
      (w v : ℕ) (s : B) (t : C) (cs : List (List ℕ))
      → w ≤ region_size
      → v < 256 ^ w
      → Aligned t (to_le_bytes w v ∷ cs)
      → (Encode.encode (int_encode w) B b v s ≡ writing b (to_le_bytes w v ∷ []) s)
        × (t' : C) × (Decode.decode (int_decode w) C c t ≡ (ok v, t'))
        × Aligned t' cs
  int_through w v s t cs h k al = both _ _ _ _ (int-RoundTrips w h) v s t cs k al

  -- A `bool` is written as the byte 1 or 0, and read back from it.
  pub bool_through :
      (v : Bool) (s : B) (t : C) (cs : List (List ℕ))
      → Aligned t ((flag v ∷ []) ∷ cs)
      → (Encode.encode bool_encode B b v s ≡ writing b ((flag v ∷ []) ∷ []) s)
        × (t' : C) × (Decode.decode bool_decode C c t ≡ (ok v, t'))
        × Aligned t' cs
  bool_through v s t cs al = both _ _ _ _ bool-RoundTrips v s t cs tt al

  -- An `Option` is written as the byte 1 and its value, or as the byte 0, and read back from that,
  -- if the implementation for its value does so.
  pub option_through :
      {T : Type 0} (e : Encode T) (d : Decode T) (chunks : T → List (List ℕ)) (IsValid : T → Type 0)
      (rt : RoundTrips e d chunks IsValid) (v : Option T) (s : B) (t : C) (cs : List (List ℕ))
      → OptionValid e d chunks IsValid rt v
      → Aligned t (option_chunks e d chunks IsValid rt v ++ cs)
      → (Encode.encode (option_encode e d) B b v s
          ≡ writing b (option_chunks e d chunks IsValid rt v) s)
        × (t' : C) × (Decode.decode (option_decode e d) C c t ≡ (ok v, t'))
        × Aligned t' cs
  option_through e d chunks IsValid rt v s t cs valid al =
      both _ _ _ _ (option-RoundTrips e d chunks IsValid rt) v s t cs valid al

  -- A `Result` is written as the byte 1 and the value of `Ok`, or as the byte 0 and the value of
  -- `Err`, and read back from that, if the implementations for both types do so.
  pub result_through :
      {T E : Type 0} (et : Encode T) (dt : Decode T) (ct : T → List (List ℕ)) (vt : T → Type 0)
      (rt : RoundTrips et dt ct vt) (ee : Encode E) (de : Decode E) (ce : E → List (List ℕ))
      (ve : E → Type 0) (re : RoundTrips ee de ce ve) (v : T ⊎ E) (s : B) (t : C)
      (cs : List (List ℕ))
      → ResultValid et dt ee de ct vt rt ce ve re v
      → Aligned t (result_chunks et dt ee de ct vt rt ce ve re v ++ cs)
      → (Encode.encode (result_encode et dt ee de) B b v s
          ≡ writing b (result_chunks et dt ee de ct vt rt ce ve re v) s)
        × (t' : C) × (Decode.decode (result_decode et dt ee de) C c t ≡ (ok v, t'))
        × Aligned t' cs
  result_through et dt ct vt rt ee de ce ve re v s t cs valid al =
      both _ _ _ _ (result-RoundTrips et dt ee de ct vt rt ce ve re) v s t cs valid al

  -- A pair is written as its two fields, one after the other, and read back from that, if the
  -- implementations for both types do so.
  pub pair_through :
      {S T : Type 0} (es : Encode S) (ds : Decode S) (cs : S → List (List ℕ)) (vs : S → Type 0)
      (rs : RoundTrips es ds cs vs) (et : Encode T) (dt : Decode T) (ct : T → List (List ℕ))
      (vt : T → Type 0) (rt : RoundTrips et dt ct vt) (v : S × T) (s : B) (t : C)
      (rest : List (List ℕ))
      → vs v.0
      → vt v.1
      → Aligned t ((cs v.0 ++ ct v.1) ++ rest)
      → (Encode.encode (pair_encode es ds et dt) B b v s ≡ writing b (cs v.0 ++ ct v.1) s)
        × (t' : C) × (Decode.decode (pair_decode es ds et dt) C c t ≡ (ok v, t'))
        × Aligned t' rest
  pair_through es ds cs vs rs et dt ct vt rt v s t rest h k al =
      both _ _ _ _ (pair-RoundTrips es ds et dt cs vs rs ct vt rt) v s t rest (h, k) al

  -- An array of `n` items is written as its items in order, and read back from that, if the
  -- implementation for the items does so.
  pub array_through :
      {T : Type 0} (e : Encode T) (d : Decode T) (chunks : T → List (List ℕ)) (IsValid : T → Type 0)
      (rt : RoundTrips e d chunks IsValid) (n : ℕ) (vs : List T) (s : B) (t : C)
      (cs : List (List ℕ))
      → length vs ≡ n
      → All IsValid vs
      → Aligned t (items_chunks e d chunks IsValid rt vs ++ cs)
      → (Encode.encode (array_encode e d) B b vs s
          ≡ writing b (items_chunks e d chunks IsValid rt vs) s)
        × (t' : C) × (Decode.decode (array_decode e d n) C c t ≡ (ok vs, t'))
        × Aligned t' cs
  array_through e d chunks IsValid rt n vs s t cs h k al =
      both _ _ _ _ (array-RoundTrips e d chunks IsValid rt n) vs s t cs (h, k) al

  -- A `Vec` of fewer than 2 ^ 32 items, which take at most `isize::MAX` bytes, is written as its length in four bytes and then its items in
  -- order, and read back from that, if the implementation for the items does so. The size in memory
  -- of an item has no influence on what is written.
  pub vec_through :
      {T : Type 0} (e : Encode T) (d : Decode T) (chunks : T → List (List ℕ)) (IsValid : T → Type 0)
      (rt : RoundTrips e d chunks IsValid) (isize_max layout : ℕ) (vs : List T) (s : B) (t : C)
      (cs : List (List ℕ))
      → length vs < 2 ^ 32
      → length vs ≤ isize_max
      → length vs * layout ≤ isize_max
      → All IsValid vs
      → Aligned t (vec_chunks e d chunks IsValid rt vs ++ cs)
      → (Encode.encode (vec_encode e d layout) B b vs s
          ≡ writing b (vec_chunks e d chunks IsValid rt vs) s)
        × (t' : C) × (Decode.decode (vec_decode e d isize_max layout) C c t ≡ (ok vs, t'))
        × Aligned t' cs
  vec_through e d chunks IsValid rt isize_max layout vs s t cs h k l valid al =
      both _ _ _ _ (vec-RoundTrips e d chunks IsValid rt isize_max layout) vs s t cs
        (h, k, l, valid) al

  -- A character is written as its UTF-8 form in one write, and read back from that. This holds for
  -- every number below 0x110000, the surrogates among them.
  pub char_through :
      (v : ℕ) (s : B) (t : C) (cs : List (List ℕ))
      → v < 0x110000
      → Aligned t (encode_utf8 v ∷ cs)
      → (Encode.encode char_encode B b v s ≡ writing b (encode_utf8 v ∷ []) s)
        × (t' : C) × (Decode.decode char_decode C c t ≡ (ok v, t'))
        × Aligned t' cs
  char_through v s t cs h al = both _ _ _ _ char-RoundTrips v s t cs h al
