-- ===== src/Codec/Collection.antt =====
-- `impl_seq!` and `impl_map!`: linked lists, sets and maps. The items of a map are its pairs, whose
-- loop body is that of `impl_tuple!` for a key and a value.
pub mod Map
mod Examples
use barrique.Base.{
  ℕ, zero, suc, ◌%◌, ◌^◌, ◌<◌, ◌≡◌, refl, ap, ◌∙◌, List, [], ◌∷◌, ◌++◌, length, ok, pure, Call,
  ◌>>=◌, ◌>>◌, All, arith, append_assoc, subst,
}
use barrique.Stream.{EncodeBearer, DecodeBearer}
use barrique.Codec.{DecodeError, Encode, Decode, get}
use barrique.Codec.Int.{int_encode, int_decode, int-RoundTrips}
use barrique.Codec.Laws.{DecodeBearerLaws, RoundTrips, writing}
use barrique.Codec.Seq.{
  encode_items, slice_encode, items_size, items_chunks, vec_chunks, slice_encoded,
}

-- What the macros use of a collection: its items in the order of `iter`, `$constructor` and
-- `$insert`.
pub record Collection (T M : Type 0) : Type 0 where
  pub iter : M → List T
  pub constructor : ℕ → M
  pub insert : T → M → M

-- The items of a list inserted one after the other.
abbrev pub insert_all : {T M : Type 0} → Collection T M → List T → M → M
insert_all k [] m = m
insert_all k (v ∷ vs) m = insert_all k vs (k.insert v m)

module _ {T : Type 0} (e : Encode T) (d : Decode T) {M : Type 0} (k : Collection T M) where
  unfoldable pub collection_encode : Encode M
  unfolding encode_items int_encode
  collection_encode = record {
    encode = λ B b m.
        Encode.encode (int_encode 4) B b (length (k.iter m) % 2 ^ 32)
        >> encode_items e d B b (k.iter m);
    size_of = λ m. items_size e d (k.iter m);
  }

  -- `for _ in 0..len { result.insert(get(bearer)?); }`
  decode_inserts : (B : Type 0) → DecodeBearer B → ℕ → M → Call B DecodeError M
  unfolding get
  decode_inserts B b zero m = pure m
  decode_inserts B b (suc n) m = do v ← get d b; decode_inserts B b n (k.insert v m)

  unfoldable pub collection_decode : Decode M
  unfolding decode_inserts get int_decode
  collection_decode = record {
    decode = λ B b. (do len ← get (int_decode 4) b; decode_inserts B b len (k.constructor len));
  }

  module _ (chunks : T → List (List ℕ)) (IsValid : T → Type 0) (rt : RoundTrips e d chunks IsValid)
      {C : Type 0} (c : DecodeBearer C) (cl : DecodeBearerLaws c) where
    open cl use {Aligned}

    inserts_decoded :
        (vs : List T) (m : M) (s : C) (cs : List (List ℕ))
        → All IsValid vs
        → Aligned s (items_chunks e d chunks IsValid rt vs ++ cs)
        → (s' : C) × (decode_inserts C c (length vs) m s ≡ (ok (insert_all k vs m), s'))
          × Aligned s' cs
    unfolding decode_inserts get
    inserts_decoded [] m s cs valid al = (s, refl, al)
    inserts_decoded (v ∷ vs) m s cs (valid, valids) al =
        let al' =
          subst (λ l. Aligned s l)
            (append_assoc (chunks v) (items_chunks e d chunks IsValid rt vs) cs) al in
        let (s1, run1, al1) =
          rt.decoded C c cl v s (items_chunks e d chunks IsValid rt vs ++ cs) valid al' in
        let (s2, run2, al2) = inserts_decoded vs (k.insert v m) s1 cs valids al1 in
        (s2, ground (arith, run1, run2), al2)

    collection_run :
        (n : ℕ) (m : M) (s s1 s2 : C)
        → Decode.decode (int_decode 4) C c s ≡ (ok n, s1)
        → decode_inserts C c n (k.constructor n) s1 ≡ (ok m, s2)
        → Decode.decode collection_decode C c s ≡ (ok m, s2)
    unfolding collection_decode get
    collection_run n m s s1 s2 e1 e2 = ground arith

    -- A collection of fewer than 2 ^ 32 items is written as its length in four bytes and then its
    -- items in the order of its iteration; from that, the collection is decoded that comes from
    -- inserting these items, in this order, into a new one made for that length. The implementation
    -- for the items reads back what it writes.
    pub collection_through :
        {B : Type 0} (b : EncodeBearer B) (m : M) (s : B) (t : C) (cs : List (List ℕ))
        → length (k.iter m) < 2 ^ 32
        → All IsValid (k.iter m)
        → Aligned t (vec_chunks e d chunks IsValid rt (k.iter m) ++ cs)
        → (Encode.encode collection_encode B b m s
            ≡ writing b (vec_chunks e d chunks IsValid rt (k.iter m)) s)
          × (t' : C) × (Decode.decode collection_decode C c t
              ≡ (ok (insert_all k (k.iter m) (k.constructor (length (k.iter m)))), t'))
          × Aligned t' cs
    unfolding collection_encode slice_encode
    collection_through {B} b m s t cs short valid al =
        let n : ℕ = length (k.iter m) % 2 ^ 32 in
        let same : n ≡ length (k.iter m) = omega arith in
        let (t1, run1, al1) =
          (int-RoundTrips 4 (omega arith)).decoded C c cl n t
            (items_chunks e d chunks IsValid rt (k.iter m) ++ cs) (omega arith) al in
        let (t2, run2, al2) =
          inserts_decoded (k.iter m) (k.constructor (length (k.iter m))) t1 cs valid al1 in
        (
          slice_encoded e d chunks IsValid rt B b (k.iter m) s,
          t2,
          collection_run (length (k.iter m)) _ t t1 t2 (run1 ∙ ap (λ j. (ok j, t1)) same) run2,
          al2,
        )
