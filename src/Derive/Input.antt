-- ===== src/Derive/Input.antt =====
-- derive/src/encode/mod.rs, derive/src/decode/mod.rs and derive/src/lib.rs: what is derived for an
-- input that `DeriveArgs::from_derive_input` accepts. The identifier, the generics and the visibility
-- are left out. `none` is an error of the macro, or generated code that does not parse.
mod Examples
use barrique.Base.{
  ℕ, ◌≡◌, ◌⊎◌, Bool-cases, false, inl, inr, refl, Option, none, some, List, All, Ensures,
}
use barrique.Stream.{DecodeBearer}
use barrique.Codec.{Encode, Decode}
use barrique.Codec.Robust.{SoundBearer, Robust}
use barrique.Derive.{Field}
use barrique.Derive.Struct.{struct_encode, struct_decode}
use barrique.Derive.Enum.{Variant, enum_encode, enum_decode, decode_arms}
use barrique.Derive.Enum.Parsed.{none_with_any, own_arms, enum_decode-some, enum_decode-none}
use barrique.Derive.Robust.{
  SafeField, SafeVariant, plain_fields, plain_variants, AllRight, VariantRight,
  struct_decode-Robust, decode_arms-Robust,
}

-- `Data`: the variants of an enum or the fields of a struct.
pub data DeriveData (V : Type 0) : Type 1 where
  enum_data : List (Variant V) → DeriveData V
  struct_data : List (Field V) → DeriveData V

-- `DeriveArgs`
pub record DeriveArgs (V : Type 0) : Type 1 where
  pub data_of : DeriveData V
  pub tag_repr : Option ℕ

module _ {V : Type 0} where
  -- The values of the type: the index of a variant with the values of its fields, or those alone.
  abbrev pub DataValue : DeriveData V → Type 0
  DataValue (enum_data variants) = ℕ × List V
  DataValue (struct_data fields) = List V

  encode_impl : (data_of : DeriveData V) → Option ℕ → Option (Encode (DataValue data_of))
  encode_impl (enum_data variants) repr = some (enum_encode variants repr)
  encode_impl (struct_data fields) (some repr) = none
  encode_impl (struct_data fields) none = some (struct_encode fields)

  decode_impl : (data_of : DeriveData V) → Option ℕ → Option (Decode (DataValue data_of))
  decode_impl (enum_data variants) repr = enum_decode variants repr
  decode_impl (struct_data fields) (some repr) = none
  decode_impl (struct_data fields) none = some (struct_decode fields)

  -- `encode::impl_derive` and `decode::impl_derive`
  unfoldable pub derive_encode : (args : DeriveArgs V) → Option (Encode (DataValue args.data_of))
  unfolding encode_impl
  derive_encode args = encode_impl args.data_of args.tag_repr

  unfoldable pub derive_decode : (args : DeriveArgs V) → Option (Decode (DataValue args.data_of))
  unfolding decode_impl
  derive_decode args = decode_impl args.data_of args.tag_repr

-- An input of fields whose decoders are robust.
pub data SafeData (V : Type 0) : Type 1 where
  safe_enum : List (SafeVariant V) → SafeData V
  safe_struct : List (SafeField V) → SafeData V

module _ {V : Type 0} where
  abbrev pub plain_data : SafeData V → DeriveData V
  plain_data (safe_enum variants) = enum_data (plain_variants variants)
  plain_data (safe_struct fields) = struct_data (plain_fields fields)

  abbrev pub args_of : SafeData V → Option ℕ → DeriveArgs V
  args_of d repr = record { data_of = plain_data d; tag_repr = repr }

  -- Only a struct with `tag_repr` is refused.
  abbrev pub IsRefused : SafeData V → Option ℕ → Type 0
  IsRefused (safe_struct fields) (some repr) = Unit {0}
  IsRefused _ _ = ⊥

  -- A value of a variant that there is, or of the struct, with a right value in every field.
  abbrev pub DataRight : (d : SafeData V) → DataValue (plain_data d) → Type 0
  DataRight (safe_enum variants) v = VariantRight variants v.0 v.1
  DataRight (safe_struct fields) vs = AllRight fields vs

  -- Of an enum, a field that is decoded has `decode_with`.
  abbrev pub IsUnparsed : SafeData V → Type 0
  IsUnparsed (safe_enum variants) = none_with_any (plain_variants variants) ≡ false
  IsUnparsed (safe_struct fields) = ⊥

  abbrev pub Derived :
      (d : SafeData V) → Option ℕ → {B : Type 0} → DecodeBearer B → (B → Type 0) → B → Type 1
  Derived d repr {B} b IsSound s =
      (e : Encode (DataValue (plain_data d))) × (c : Decode (DataValue (plain_data d)))
      × (derive_encode (args_of d repr) ≡ some e)
      × (derive_decode (args_of d repr) ≡ some c)
      × Ensures (λ v s'. DataRight d v × IsSound s') (Decode.decode c B b s)

  -- What is derived for an input whose attributes are accepted. For a struct with `tag_repr` both macros
  -- fail. For an enum of which a decoded field has `decode_with`, `encode` is derived, and what is
  -- generated for `decode` does not parse. For any other input both are derived, and from a bearer that
  -- returns bytes, as many as it is asked for, or an error, the derived `decode` does not panic, and
  -- where it succeeds the value is one of the struct, or one of a variant that there is, with a right
  -- value in every field. This takes for granted that, from such a bearer, the decoders of the fields and
  -- the functions of `decode_with` do not panic and return right values, and that what is pasted for a
  -- skipped field is right.
  pub derive_sound :
      (d : SafeData V) (repr : Option ℕ) (B : Type 0) (b : DecodeBearer B) (sb : SoundBearer b)
      (s : B)
      → SoundBearer.IsSound sb s
      → (IsRefused d repr
          × (derive_encode (args_of d repr) ≡ none)
          × (derive_decode (args_of d repr) ≡ none))
        ⊎ ((IsUnparsed d
              × ((e : Encode (DataValue (plain_data d))) × (derive_encode (args_of d repr)
                    ≡ some e))
              × (derive_decode (args_of d repr) ≡ none))
            ⊎ Derived d repr b (SoundBearer.IsSound sb) s)
  unfolding derive_encode derive_decode
  derive_sound (safe_enum variants) repr B b sb s h =
      elim (Bool-cases (none_with_any (plain_variants variants))) [
        | inl plain ↦ inr (
            inr (
              enum_encode (plain_variants variants) repr,
              decode_arms (own_arms (plain_variants variants)) repr,
              refl,
              enum_decode-some (plain_variants variants) repr plain,
              Robust.decoded_any (decode_arms-Robust variants repr) B b sb s h,
            ))
        | inr with ↦ inr (
            inl (
              with,
              (enum_encode (plain_variants variants) repr, refl),
              enum_decode-none (plain_variants variants) repr with,
            ))
      ]
  derive_sound (safe_struct fields) (some repr) B b sb s h = inl (tt, refl, refl)
  derive_sound (safe_struct fields) none B b sb s h = inr (
      inr (
        struct_encode (plain_fields fields),
        struct_decode (plain_fields fields),
        refl,
        refl,
        Robust.decoded_any (struct_decode-Robust fields) B b sb s h,
      ))
