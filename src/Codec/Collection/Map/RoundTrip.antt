-- ===== src/Codec/Collection/Map/RoundTrip.antt =====
-- A map is written and comes back with the same values: what the standard library says of its maps is
-- enough for that.
use barrique.Base.{
  ℕ, ◌^◌, ◌<◌, ◌≡◌, ◌≢◌, ◌⊎◌, inl, inr, refl, sym, ◌∙◌, none, some, List, [], ◌∷◌, ◌++◌, length, ok,
  All, subst,
}
use barrique.Stream.{EncodeBearer, DecodeBearer}
use barrique.Codec.{Encode, Decode}
use barrique.Codec.Laws.{DecodeBearerLaws, RoundTrips, writing}
use barrique.Codec.Seq.{vec_chunks}
use barrique.Codec.Product.{pair_encode, pair_decode, pair-RoundTrips}
use barrique.Codec.Collection.{insert_all, collection_through}
use barrique.Codec.Collection.Map.{
  MapType, pairs_of, map_encode, map_decode, map_encode-collection_encode,
  map_decode-collection_decode,
}

-- No key occurs twice.
abbrev pub Distinct : {K V : Type 0} → List (K × V) → Type 0
Distinct [] = Unit {0}
Distinct (p ∷ ps) = All (λ q. q.0 ≢ p.0) ps × Distinct ps

-- What the documentation of the standard library says of maps.
pub record MapLaws {K V M : Type 0} (t : MapType K V M) : Type 0 where
  pub same_key : (a b : K) → (a ≡ b) ⊎ (a ≢ b)
  pub lookup_constructor : (n : ℕ) (key : K) → MapType.lookup t key (MapType.constructor t n) ≡ none
  pub lookup_inserted :
      (key : K) (value : V) (m : M)
      → MapType.lookup t key (MapType.insert t key value m) ≡ some value
  pub lookup_other :
      (key other : K) (value : V) (m : M)
      → other ≢ key
      → MapType.lookup t key (MapType.insert t other value m) ≡ MapType.lookup t key m
  pub iter_distinct : (m : M) → Distinct (MapType.iter t m)
  pub iter_lookup : (m : M) → All (λ p. MapType.lookup t p.0 m ≡ some p.1) (MapType.iter t m)
  pub iter_missing :
      (m : M) (key : K) → All (λ p. p.0 ≢ key) (MapType.iter t m) → MapType.lookup t key m ≡ none

module _ {K V M : Type 0} (t : MapType K V M) where
  open t use {iter, constructor, insert, lookup}

  module _ (laws : MapLaws t) where
    open laws use {
      same_key, lookup_constructor, lookup_inserted, lookup_other, iter_distinct, iter_lookup,
      iter_missing,
    }

    -- Pairs with other keys do not count.
    insert_all_other :
        (key : K) (ps : List (K × V)) (m : M)
        → All (λ p. p.0 ≢ key) ps
        → lookup key (insert_all (pairs_of t) ps m) ≡ lookup key m
    insert_all_other key [] m h = refl
    insert_all_other key (p ∷ ps) m (h, hs) =
        insert_all_other key ps (insert p.0 p.1 m) hs ∙ lookup_other key p.0 p.1 m h

    -- What the pairs, each of which is in the map `from`, make of a key.
    insert_all_lookup :
        (key : K) (from : M) (ps : List (K × V)) (m : M)
        → Distinct ps
        → All (λ p. lookup p.0 from ≡ some p.1) ps
        → All (λ p. p.0 ≢ key) ps ⊎ (lookup key (insert_all (pairs_of t) ps m) ≡ lookup key from)
    insert_all_lookup key from [] m d h = inl tt
    insert_all_lookup key from (p ∷ ps) m (d, ds) (h, hs) = elim (same_key p.0 key) [
      | inl e ↦ inr (
          insert_all_other key ps (insert p.0 p.1 m) (subst (λ k. All (λ q. q.0 ≢ k) ps) e d)
          ∙ subst (λ k. lookup k (insert p.0 p.1 m) ≡ lookup k from) e
              (lookup_inserted p.0 p.1 m ∙ sym h))
      | inr ne ↦ elim (insert_all_lookup key from ps (insert p.0 p.1 m) ds hs) [
        | inl none_there ↦ inl (ne, none_there)
        | inr found ↦ inr found
      ]
    ]

    -- A map made anew from what another one iterates over has the same value at every key.
    rebuilt :
        (m : M) (n : ℕ) (key : K)
        → lookup key (insert_all (pairs_of t) (iter m) (constructor n)) ≡ lookup key m
    rebuilt m n key =
        elim (insert_all_lookup key m (iter m) (constructor n) (iter_distinct m) (iter_lookup m)) [
          | inl absent ↦
              insert_all_other key (iter m) (constructor n) absent
              ∙ lookup_constructor n key
              ∙ sym (iter_missing m key absent)
          | inr same ↦ same
        ]

    module _ (ek : Encode K) (dk : Decode K) (ck : K → List (List ℕ)) (vk : K → Type 0)
        (rk : RoundTrips ek dk ck vk) (ev : Encode V) (dv : Decode V) (cv : V → List (List ℕ))
        (vv : V → Type 0) (rv : RoundTrips ev dv cv vv) where
      -- The chunks of a map: its length, and each key and value.
      abbrev pub map_chunks : M → List (List ℕ)
      map_chunks m =
          vec_chunks (pair_encode ek dk ev dv) (pair_decode ek dk ev dv) _ _
            (pair-RoundTrips ek dk ev dv ck vk rk cv vv rv) (iter m)

      -- A map of fewer than 2 ^ 32 entries is written as its length and then each key and value, in the
      -- order of its iteration, up to the first error of the bearer. From a bearer that delivers what
      -- was written, `decode` consumes just that and returns a map with the same value, or none, at
      -- every key. The implementations for keys and values read back what they write.
      pub map_through :
          {B : Type 0} (b : EncodeBearer B) {C : Type 0} (c : DecodeBearer C)
          (cl : DecodeBearerLaws c) (m : M) (s : B) (u : C) (cs : List (List ℕ))
          → length (iter m) < 2 ^ 32
          → All (λ p. vk p.0 × vv p.1) (iter m)
          → DecodeBearerLaws.Aligned cl u (map_chunks m ++ cs)
          → (Encode.encode (map_encode t ek dk ev dv) B b m s ≡ writing b (map_chunks m) s)
            × (m' : M) × (u' : C) × (Decode.decode (map_decode t ek dk ev dv) C c u ≡ (ok m', u'))
            × DecodeBearerLaws.Aligned cl u' cs
            × ((key : K) → lookup key m' ≡ lookup key m)
      map_through {B} b {C} c cl m s u cs short valid al =
          let (out, u', run, rest) =
            collection_through (pair_encode ek dk ev dv) (pair_decode ek dk ev dv) (pairs_of t) _ _
              (pair-RoundTrips ek dk ev dv ck vk rk cv vv rv) c cl b m s u cs short valid al in
          (
            map_encode-collection_encode t ek dk ev dv B b m s ∙ out,
            insert_all (pairs_of t) (iter m) (constructor (length (iter m))),
            u',
            map_decode-collection_decode t ek dk ev dv C c u ∙ run,
            rest,
            rebuilt m (length (iter m)),
          )
