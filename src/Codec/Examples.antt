-- ===== src/Codec/Examples.antt =====
-- The theorems on the codecs, at concrete inputs.
use barrique.Base.{ℕ, ◌<◌, ◌^◌, ◌≡◌, refl, ok, inr, List, [], ◌∷◌, arith}
use barrique.Samples.{log_bearer, list_bearer, list_bearer_laws}
use barrique.Codec.{Encode, Decode}
use barrique.Codec.Laws.{RoundTrips, writing}
use barrique.Codec.Pointer.{cast_encode, cast_decode, zero_extend, usize_through}
use barrique.Codec.Int.{int_encode, int_decode, int-RoundTrips}
use barrique.Base.{Bool, true, ◌&&◌, ltb, ◌==◌, if◌then◌else◌}
use barrique.Codec.Collection.{Collection}
use barrique.Codec.Char.{encode_utf8, char_encode, char_decode}
use barrique.Codec.Values.{char_through}
use barrique.Bytes.{to_le_bytes}

abbrev is_ascii : List ℕ → Bool
is_ascii [] = true
is_ascii (c ∷ cs) = let rest = is_ascii cs in ltb c 128 && rest

abbrev short :
    RoundTrips (int_encode 2) (int_decode 2) (λ v. to_le_bytes 2 v ∷ []) (λ v. v < 256 ^ 2)
short = int-RoundTrips 2 (omega arith)

abbrev byte :
    RoundTrips (int_encode 1) (int_decode 1) (λ v. to_le_bytes 1 v ∷ []) (λ v. v < 256 ^ 1)
byte = int-RoundTrips 1 (omega arith)

-- The euro sign.
char_through_example :
    (Encode.encode char_encode (List ℕ) log_bearer 0x20AC []
      ≡ writing log_bearer ((0xE2 ∷ 0x82 ∷ 0xAC ∷ []) ∷ []) [])
    × (t' : List ℕ) × (Decode.decode char_decode (List ℕ) list_bearer (0xE2 ∷ 0x82 ∷ 0xAC ∷ [])
        ≡ (ok 0x20AC, t'))
    × (t' ≡ [])
unfolding list_bearer_laws encode_utf8
char_through_example =
    char_through log_bearer list_bearer list_bearer_laws 0x20AC [] (0xE2 ∷ 0x82 ∷ 0xAC ∷ []) []
      (omega arith) refl

-- A set as an ordered list.
abbrev insert_sorted : ℕ → List ℕ → List ℕ
insert_sorted v [] = v ∷ []
insert_sorted v (x ∷ xs) =
    if ltb v x then v ∷ x ∷ xs else if v == x then x ∷ xs else x ∷ insert_sorted v xs

abbrev sorted_set : Collection ℕ (List ℕ)
sorted_set = record { iter = λ m. m; constructor = λ n. []; insert = insert_sorted }

-- 0x1_0000_0002 is written where a `usize` has eight bytes and read where it has four.
usize_through_example :
    (Encode.encode (cast_encode (zero_extend 8)) (List ℕ) log_bearer 4294967298 []
      ≡ writing log_bearer ((2 ∷ 0 ∷ 0 ∷ 0 ∷ 1 ∷ 0 ∷ 0 ∷ 0 ∷ []) ∷ []) [])
    × (t' : List ℕ) × (Decode.decode
          (cast_decode 4)
          (List ℕ)
          list_bearer
          (2 ∷ 0 ∷ 0 ∷ 0 ∷ 1 ∷ 0 ∷ 0 ∷ 0 ∷ [])
        ≡ (ok 2, t'))
    × (t' ≡ [])
unfolding list_bearer_laws
usize_through_example =
    usize_through list_bearer list_bearer_laws log_bearer 8 4 4294967298 []
      (2 ∷ 0 ∷ 0 ∷ 0 ∷ 1 ∷ 0 ∷ 0 ∷ 0 ∷ []) [] (inr (inr refl)) (omega arith) refl
