-- ===== src/Codec/Collection/Examples.antt =====
-- The theorem on maps, at a map with keys of type `bool`.
use barrique.Base.{
  ℕ, ◌≡◌, ◌≢◌, ◌⊎◌, inl, inr, refl, Bool, true, false, Option, none, some, List, [], ◌∷◌, ◌++◌, ok,
  All, arith,
}
use barrique.Codec.{Encode, Decode}
use barrique.Codec.Int.{int_encode, int_decode, int-RoundTrips}
use barrique.Codec.Scalar.{bool_encode, bool_decode, bool-RoundTrips}
use barrique.Codec.Laws.{writing}
use barrique.Codec.Collection.Map.{MapType, map_encode, map_decode}
use barrique.Codec.Collection.Map.RoundTrip.{MapLaws, Distinct, map_chunks, map_through}
use barrique.Samples.{log_bearer, list_bearer, list_bearer_laws, joined}

-- The value at `false`, and the value at `true`.
abbrev BoolMap : Type 0
BoolMap = Option ℕ × Option ℕ

abbrev entry : Bool → Option ℕ → List (Bool × ℕ)
entry key none = []
entry key (some v) = (key, v) ∷ []

abbrev at : Bool → BoolMap → Option ℕ
at false m = m.0
at true m = m.1

abbrev put : Bool → ℕ → BoolMap → BoolMap
put false v m = (some v, m.1)
put true v m = (m.0, some v)

abbrev bool_map : MapType Bool ℕ BoolMap
bool_map = record {
  iter = λ m. entry false m.0 ++ entry true m.1;
  constructor = λ n. (none, none);
  insert = put;
  lookup = at;
}

same_bool : (a b : Bool) → (a ≡ b) ⊎ (a ≢ b)
same_bool true true = inl refl
same_bool false false = inl refl
same_bool true false = inr cc
same_bool false true = inr cc

new_at : (n : ℕ) (key : Bool) → bool_map.lookup key (bool_map.constructor n) ≡ none
new_at n true = refl
new_at n false = refl

at_put : (key : Bool) (v : ℕ) (m : BoolMap) → bool_map.lookup key (bool_map.insert key v m) ≡ some v
at_put true v m = refl
at_put false v m = refl

at_other :
    (key other : Bool) (v : ℕ) (m : BoolMap)
    → other ≢ key
    → bool_map.lookup key (bool_map.insert other v m) ≡ bool_map.lookup key m
at_other true true v m h = absurd (h refl)
at_other false false v m h = absurd (h refl)
at_other true false v m h = refl
at_other false true v m h = refl

distinct : (m : BoolMap) → Distinct (bool_map.iter m)
distinct (none, none) = tt
distinct (some a, none) = (tt, tt)
distinct (none, some b) = (tt, tt)
distinct (some a, some b) = ((cc, tt), (tt, tt))

entries_at : (m : BoolMap) → All (λ p. bool_map.lookup p.0 m ≡ some p.1) (bool_map.iter m)
entries_at (none, none) = tt
entries_at (some a, none) = (refl, tt)
entries_at (none, some b) = (refl, tt)
entries_at (some a, some b) = (refl, (refl, tt))

missing :
    (m : BoolMap) (key : Bool)
    → All (λ p. p.0 ≢ key) (bool_map.iter m)
    → bool_map.lookup key m ≡ none
missing (none, b) false h = refl
missing (some a, b) false h = absurd (h.0 refl)
missing (a, none) true h = refl
missing (none, some b) true h = absurd (h.0 refl)
missing (some a, some b) true h = absurd (h.1.0 refl)

unfoldable bool_map_laws : MapLaws bool_map
bool_map_laws = record {
  same_key = same_bool;
  lookup_constructor = new_at;
  lookup_inserted = at_put;
  lookup_other = at_other;
  iter_distinct = distinct;
  iter_lookup = entries_at;
  iter_missing = missing;
}

abbrev ages : BoolMap
ages = (some 40, some 700)

abbrev age_chunks : List (List ℕ)
age_chunks =
    map_chunks bool_map bool_map_laws bool_encode bool_decode _ _ bool-RoundTrips (int_encode 2)
      (int_decode 2) _ _ (int-RoundTrips 2 (omega arith)) ages

map_through_example :
    (Encode.encode
        (map_encode bool_map bool_encode bool_decode (int_encode 2) (int_decode 2))
        (List ℕ)
        log_bearer
        ages
        []
      ≡ writing log_bearer age_chunks [])
    × (m' : BoolMap) × (u' : List ℕ) × (Decode.decode
          (map_decode bool_map bool_encode bool_decode (int_encode 2) (int_decode 2))
          (List ℕ)
          list_bearer
          (joined (age_chunks ++ []))
        ≡ (ok m', u'))
    × (u' ≡ [])
    × ((key : Bool) → bool_map.lookup key m' ≡ bool_map.lookup key ages)
unfolding list_bearer_laws
map_through_example =
    map_through bool_map bool_map_laws bool_encode bool_decode _ _ bool-RoundTrips (int_encode 2)
      (int_decode 2) _ _ (int-RoundTrips 2 (omega arith)) log_bearer list_bearer list_bearer_laws
      ages [] (joined (age_chunks ++ [])) [] (omega arith) (omega arith) refl
