-- ===== src/Derive/Enum.antt =====
-- derive/src/encode/enum_.rs and derive/src/decode/enum_.rs.
pub mod Patterns
pub mod Parsed
pub mod RoundTrip
use barrique.Base.{
  ℕ, zero, suc, ◌%◌, ◌^◌, Bool, true, false, Option, none, some, List, [], ◌∷◌, ok, err, Call, gets,
  pure, ◌>>=◌, ◌>>◌, if◌then◌else◌,
}
use Prim.Native.String.{String}
use barrique.Stream.{EncodeBearer, DecodeBearer}
use barrique.Codec.{EncodeError, DecodeError, Encode, Decode, get}
use barrique.Codec.Int.{int_encode, int_decode}
use barrique.Derive.{
  Field, Name, named, Statement, Decoder, anon_ident, skipped, skip_by_value, field_encode, run,
  count,
}

-- A variant with its fields, none for a unit variant.
pub record Variant (V : Type 0) : Type 1 where
  pub ident : String
  pub fields : List (Field V)

-- The bytes of `tag_repr`, an integer type, or of `u32` where there is none.
abbrev pub tag_width : Option ℕ → ℕ
tag_width none = 4
tag_width (some w) = w

-- `#tag as #tag_repr`, of `idx as u32`
abbrev pub tag_of : Option ℕ → ℕ → ℕ
tag_of repr idx = idx % 2 ^ 32 % 256 ^ tag_width repr

-- `field.ident.clone().unwrap_or(anon_iter.next().unwrap())`
abbrev pub pattern_ident : Option String → ℕ → Name
pattern_ident (some ident) idx = named ident
pattern_ident none idx = anon_ident idx

abbrev pub cons_some {ℓ} : {A : Type ℓ} → Option A → Option (List A) → Option (List A)
cons_some (some a) (some l) = some (a ∷ l)
cons_some _ _ = none

module _ {V : Type 0} where
  -- `field_impls` of `impl_newtype_variant`: a skipped field has no statement.
  abbrev pub variant_statements : ℕ → List (Field V) → List (Statement V)
  variant_statements idx [] = []
  variant_statements idx (f ∷ fs) =
      let rest = variant_statements (suc idx) fs in
      if skipped f.skip
      then rest
      else (record { name = pattern_ident f.ident idx; encoder = field_encode f }) ∷ rest

  abbrev pub variant_sizes : ℕ → List (Field V) → List (Name × Encode V)
  variant_sizes idx [] = []
  variant_sizes idx (f ∷ fs) =
      let rest = variant_sizes (suc idx) fs in
      if skipped f.skip then rest else (pattern_ident f.ident idx, f.encode) ∷ rest

  -- What the match arm binds: `_` binds nothing.
  abbrev pub match_arm : ℕ → List (Field V) → List V → List (Name × V)
  match_arm idx (f ∷ fs) (v ∷ vs) =
      let rest = match_arm (suc idx) fs vs in
      if skipped f.skip then rest else (pattern_ident f.ident idx, v) ∷ rest
  match_arm idx _ _ = []

  -- The fields of the variant with an index. A value has one of the variants.
  abbrev pub variant_fields : List (Variant V) → ℕ → List (Field V)
  variant_fields [] idx = []
  variant_fields (v ∷ vs) zero = v.fields
  variant_fields (v ∷ vs) (suc idx) = variant_fields vs idx

  -- The derived `encode` and `size_of` of an enum; a value is the index of its variant and the
  -- values of the fields.
  unfoldable pub enum_encode : List (Variant V) → Option ℕ → Encode (ℕ × List V)
  unfolding run count int_encode
  enum_encode variants repr = record {
    encode = λ B b src.
        Encode.encode (int_encode (tag_width repr)) B b (tag_of repr src.0)
        >> run (match_arm 0 (variant_fields variants src.0) src.1)
            (variant_statements 0 (variant_fields variants src.0)) B b;
    size_of = λ src.
        count (match_arm 0 (variant_fields variants src.0) src.1)
          (variant_sizes 0 (variant_fields variants src.0));
  }

  -- `impl_variant_field_value`: none with `decode_with`, since the generated code then does not parse,
  -- for want of a semicolon.
  unfoldable pub variant_field : Field V → Option (Decoder V)
  variant_field f = elim f.skip [
    | some skip_by ↦ some (λ B b. pure (skip_by_value f.default skip_by))
    | none ↦ if skipped f.decode_with then none else some (Decode.decode f.decode)
  ]

  -- The values of the fields of a variant, and the variants with theirs: all must parse.
  unfoldable pub field_values : List (Field V) → Option (List (Decoder V))
  unfolding variant_field
  field_values [] = some []
  field_values (f ∷ fs) = cons_some (variant_field f) (field_values fs)

  unfoldable pub variant_values : List (Variant V) → Option (List (List (Decoder V)))
  unfolding field_values
  variant_values [] = some []
  variant_values (v ∷ vs) = cons_some (field_values v.fields) (variant_values vs)

  -- `let #ident = { .. };` for each field, and the value of the variant.
  unfoldable pub decode_fields :
      (B : Type 0) → DecodeBearer B → List (Decoder V) → Call B DecodeError (List V)
  decode_fields B b [] = pure []
  decode_fields B b (value ∷ values) = do
    v ← value B b
    vs ← decode_fields B b values
    gets (λ _. ok (v ∷ vs))

  -- The arms of `match tag`, from an index on.
  unfoldable pub decode_variant :
      (B : Type 0) → DecodeBearer B → List (List (Decoder V)) → ℕ → Call B DecodeError (List V)
  unfolding decode_fields
  decode_variant B b [] tag = gets (λ _. err DecodeError.invalid_pattern)
  decode_variant B b (values ∷ arms) zero = decode_fields B b values
  decode_variant B b (values ∷ arms) (suc tag) = decode_variant B b arms tag

  -- The body that is generated from the arms.
  unfoldable pub decode_arms : List (List (Decoder V)) → Option ℕ → Decode (ℕ × List V)
  unfolding decode_variant int_decode get
  decode_arms arms repr = record {
    decode = λ B b. (do
      tag ← get (int_decode (tag_width repr)) b
      vs ← decode_variant B b arms tag
      gets (λ _. ok (tag, vs)));
  }

  -- The derived `decode` of an enum, if it parses.
  unfoldable pub enum_decode : List (Variant V) → Option ℕ → Option (Decode (ℕ × List V))
  unfolding variant_values decode_arms
  enum_decode variants repr = elim (variant_values variants) [
    | none ↦ none
    | some arms ↦ some (decode_arms arms repr)
  ]
