-- ===== src/Derive/Input/Examples.antt =====
-- The theorem on what is derived, at bytes that no encoder has written.
use Prim.Native.String.{String}
use barrique.Base.{ℕ, ◌^◌, ◌<◌, ◌≡◌, ◌⊎◌, Option, none, some, List, [], ◌∷◌, All, arith}
use barrique.Bytes.{IsByte}
use barrique.Codec.{Encode}
use barrique.Codec.Int.{int_encode, int_decode}
use barrique.Codec.Robust.Scalars.{int-Robust}
use barrique.Derive.{Field}
use barrique.Derive.Input.{
  SafeData, safe_enum, args_of, IsRefused, IsUnparsed, Derived, derive_encode, derive_decode,
  derive_sound,
}
use barrique.Derive.Robust.{SafeField, SafeVariant}
use barrique.Samples.{list_bearer, list_sound}

-- A field of `w` bytes.
abbrev field : String → ℕ → Field ℕ
field ident w = record {
  ident = some ident;
  encode = int_encode w;
  decode = int_decode w;
  encode_with = none;
  decode_with = none;
  skip = none;
  default = 0;
}

not_skipped : (skip_by : Option ℕ) → ¬ (none ≡ some skip_by)
not_skipped skip_by e = cc

abbrev safe : String → ℕ → SafeField ℕ
safe ident w = record {
  field = field ident w;
  IsRight = λ v. v < 256 ^ w;
  given = λ skip_by e. absurd (not_skipped skip_by e);
  robust = int-Robust w;
  robust_with = int-Robust w;
}

abbrev members : List (SafeField ℕ)
members = safe "a" 2 ∷ safe "b" 1 ∷ []

abbrev variants : List (SafeVariant ℕ)
variants =
    (record { ident = "Unit"; fields = [] }) ∷ (record { ident = "Pair"; fields = members }) ∷ []

abbrev input : SafeData ℕ
input = safe_enum variants

derive_sound_example :
    (IsRefused input (some 1)
      × (derive_encode (args_of input (some 1)) ≡ none)
      × (derive_decode (args_of input (some 1)) ≡ none))
    ⊎ ((IsUnparsed input
          × ((e : Encode (ℕ × List ℕ)) × (derive_encode (args_of input (some 1)) ≡ some e))
          × (derive_decode (args_of input (some 1)) ≡ none))
        ⊎ Derived input (some 1) list_bearer (λ s'. All IsByte s') (1 ∷ 2 ∷ 3 ∷ 4 ∷ []))
unfolding list_sound
derive_sound_example =
    derive_sound input (some 1) (List ℕ) list_bearer list_sound (1 ∷ 2 ∷ 3 ∷ 4 ∷ []) (omega arith)
