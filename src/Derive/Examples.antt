-- ===== src/Derive/Examples.antt =====
-- The theorems on the derived implementations, at concrete structs and enums.
use Prim.Native.String.{String}
use barrique.Base.{
  ℕ, ◌≡◌, ◌<◌, ◌^◌, refl, ok, some, none, Option, List, [], ◌∷◌, ◌++◌, inl, inr, arith,
}
use barrique.Samples.{log_bearer, list_bearer, list_bearer_laws}
use barrique.Bytes.{to_le_bytes}
use barrique.Codec.{Encode, Decode, DecodeError}
use barrique.Codec.Laws.{writing}
use barrique.Codec.Int.{int_encode, int_decode, int-RoundTrips}
use barrique.Derive.{Field, named}
use barrique.Derive.Found.{Own, fields}
use barrique.Derive.Struct.{struct_encode, struct_decode, decode_run}
use barrique.Derive.Struct.RoundTrip.{struct_through}
use barrique.Derive.Struct.Skipped.{encode_after_skipped}
use barrique.Derive.Struct.Dropped.{DropsInitialised, decode_run-DropsInitialised}
use barrique.Derive.TupleGuard.{tuple_run, DropsBackwards, indices, tuple_run-DropsBackwards}
use barrique.Derive.Enum.{enum_encode, enum_decode}
use barrique.Derive.Enum.RoundTrip.{OwnVariant, variants_of, enum_through}

-- A number of `w` bytes.
abbrev field : Option String → ℕ → Option (Option ℕ) → Field ℕ
field ident w skip = record {
  ident = ident;
  encode = int_encode w;
  decode = int_decode w;
  encode_with = none;
  decode_with = none;
  skip = skip;
  default = 0;
}

abbrev own_short : Option String → Option (Option ℕ) → Own ℕ
own_short ident skip = record {
  field = field ident 2 skip;
  chunks = λ v. to_le_bytes 2 v ∷ [];
  IsValid = λ v. v < 256 ^ 2;
  fits = int-RoundTrips 2 (omega arith);
}

abbrev own_byte : Option String → Option (Option ℕ) → Own ℕ
own_byte ident skip = record {
  field = field ident 1 skip;
  chunks = λ v. to_le_bytes 1 v ∷ [];
  IsValid = λ v. v < 256 ^ 1;
  fits = int-RoundTrips 1 (omega arith);
}

-- Three fields, of which the second is skipped and gets the value 4.
abbrev members : List (Own ℕ)
members =
    own_short (some "a") none ∷ own_byte (some "b") (some (some 4)) ∷ own_byte (some "c") none ∷ []

struct_through_example :
    (Encode.encode (struct_encode (fields members)) (List ℕ) log_bearer (515 ∷ 4 ∷ 9 ∷ []) []
      ≡ writing log_bearer ((3 ∷ 2 ∷ []) ∷ (9 ∷ []) ∷ []) [])
    × (s' : List ℕ) × (Decode.decode
          (struct_decode (fields members))
          (List ℕ)
          list_bearer
          (3 ∷ 2 ∷ 9 ∷ 7 ∷ [])
        ≡ (ok (515 ∷ 4 ∷ 9 ∷ []), s'))
    × (s' ≡ 7 ∷ [])
unfolding list_bearer_laws
struct_through_example =
    struct_through members (515 ∷ 4 ∷ 9 ∷ []) (List ℕ) log_bearer [] (List ℕ) list_bearer
      list_bearer_laws (3 ∷ 2 ∷ 9 ∷ 7 ∷ []) ((7 ∷ []) ∷ []) (inl refl) refl
      (omega arith, (refl, (omega arith, tt))) refl

-- The value 1 of the skipped field is written with two bytes, and the value 3 is not written.
encode_after_skipped_example :
    Encode.encode
      (struct_encode
        (field none 4 (some none) ∷ fields (own_short none none ∷ own_byte none none ∷ [])))
      (List ℕ)
      log_bearer
      ((1 ∷ 2 ∷ []) ++ (3 ∷ []))
      []
    ≡ writing log_bearer ((1 ∷ 0 ∷ []) ∷ (2 ∷ []) ∷ []) []
encode_after_skipped_example =
    encode_after_skipped (field none 4 (some none)) (own_short none none ∷ own_byte none none ∷ [])
      (1 ∷ 2 ∷ []) 3 (List ℕ) log_bearer [] refl refl refl refl

-- The bytes end within the second field that is decoded.
cut_run :
    (decode_run (fields members) (List ℕ) list_bearer (3 ∷ 2 ∷ [])).dropped ≡ some (named "a" ∷ [])
unfolding decode_run barrique.Codec.read int_decode
cut_run = refl

decode_run-DropsInitialised_example :
    DropsInitialised (decode_run (fields members) (List ℕ) list_bearer (3 ∷ 2 ∷ []))
decode_run-DropsInitialised_example =
    decode_run-DropsInitialised (fields members) (List ℕ) list_bearer (3 ∷ 2 ∷ [])

-- A unit variant, and one of a pair.
abbrev variants : List (OwnVariant ℕ)
variants =
    (record { ident = "A"; own = [] })
    ∷ (record { ident = "B"; own = own_short none none ∷ own_byte none none ∷ [] })
    ∷ []

enum_through_example :
    (Encode.encode
        (enum_encode (variants_of variants) (some 1))
        (List ℕ)
        log_bearer
        (1, 515 ∷ 9 ∷ [])
        []
      ≡ writing log_bearer ((1 ∷ []) ∷ (3 ∷ 2 ∷ []) ∷ (9 ∷ []) ∷ []) [])
    × (c : Decode (ℕ × List ℕ)) × (enum_decode (variants_of variants) (some 1) ≡ some c)
    × (s' : List ℕ) × (Decode.decode c (List ℕ) list_bearer (1 ∷ 3 ∷ 2 ∷ 9 ∷ [])
        ≡ (ok (1, 515 ∷ 9 ∷ []), s'))
    × (s' ≡ [])
unfolding list_bearer_laws
enum_through_example =
    enum_through variants (some 1) (omega arith) 1 (515 ∷ 9 ∷ []) (List ℕ) log_bearer [] (List ℕ)
      list_bearer list_bearer_laws (1 ∷ 3 ∷ 2 ∷ 9 ∷ []) [] (omega arith) (omega arith) (omega arith)
      (inr refl) refl refl (omega arith, (omega arith, tt)) refl

-- The bytes end before the third field of three.
abbrev triple : List (ℕ × Decode ℕ)
triple = (0, int_decode 2) ∷ (1, int_decode 1) ∷ (2, int_decode 1) ∷ []

triple_run : (tuple_run triple (List ℕ) list_bearer (3 ∷ 2 ∷ 1 ∷ [])).dropped ≡ some (1 ∷ 0 ∷ [])
unfolding tuple_run barrique.Codec.read int_decode
triple_run = refl

tuple_run-DropsBackwards_example :
    DropsBackwards
      (indices triple)
      (List ℕ)
      list_bearer
      (tuple_run triple (List ℕ) list_bearer (3 ∷ 2 ∷ 1 ∷ []))
tuple_run-DropsBackwards_example = tuple_run-DropsBackwards list_bearer triple (3 ∷ 2 ∷ 1 ∷ [])
