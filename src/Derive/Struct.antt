-- ===== src/Derive/Struct.antt =====
-- derive/src/encode/struct_.rs and derive/src/decode/struct_.rs.
pub mod Steps
pub mod RoundTrip
pub mod Skipped
pub mod Dropped
use barrique.Base.{
  ℕ, zero, suc, ◌+◌, ◌==◌, Bool, true, false, Option, none, some, List, [], ◌∷◌, ◌++◌, length, take,
  Outcome, ok, err, panic, Call, pure, ltb, if◌then◌else◌,
}
use barrique.Stream.{EncodeBearer, DecodeBearer}
use barrique.Codec.{EncodeError, DecodeError, Encode, Decode}
use barrique.Derive.{
  Field, Name, Statement, Decoder, struct_member, skipped, skip_by_value, field_encode,
  field_decode, run, count,
}

module _ {V : Type 0} where
  -- `fields.iter().filter(|field| field.skip.is_none())`
  abbrev pub encoded_fields : List (Field V) → List (Field V)
  encoded_fields [] = []
  encoded_fields (f ∷ fs) =
      let rest = encoded_fields fs in if skipped f.skip then rest else f ∷ rest

  -- `.enumerate().map(..)`, from an index on
  abbrev pub statements_from : ℕ → List (Field V) → List (Statement V)
  statements_from idx [] = []
  statements_from idx (f ∷ fs) =
      (record { name = struct_member f.ident idx; encoder = field_encode f })
      ∷ statements_from (suc idx) fs

  -- `impl_struct`: the index of a member counts the fields that are left after the filter.
  abbrev pub encode_statements : List (Field V) → List (Statement V)
  encode_statements fs = statements_from 0 (encoded_fields fs)

  abbrev pub sizes_from : ℕ → List (Field V) → List (Name × Encode V)
  sizes_from idx [] = []
  sizes_from idx (f ∷ fs) = (struct_member f.ident idx, f.encode) ∷ sizes_from (suc idx) fs

  -- The fields of a struct as they are declared, with the values of `src`.
  abbrev pub members_from : ℕ → List (Field V) → List V → List (Name × V)
  members_from idx (f ∷ fs) (v ∷ vs) = (struct_member f.ident idx, v) ∷ members_from (suc idx) fs vs
  members_from idx _ _ = []

  -- The derived `encode` and `size_of` of a struct.
  unfoldable pub struct_encode : List (Field V) → Encode (List V)
  unfolding run count
  struct_encode fs = record {
    encode = λ B b src. run (members_from 0 fs src) (encode_statements fs) B b;
    size_of = λ src. count (members_from 0 fs src) (sizes_from 0 (encoded_fields fs));
  }

  -- `impl_struct_field`: the value that is written to the member.
  unfoldable pub struct_field : Field V → Decoder V
  struct_field f B b = elim f.skip [
    | some skip_by ↦ pure (skip_by_value f.default skip_by)
    | none ↦ field_decode f B b
  ]

  -- The members that an arm of `drop` drops: those of the first fields that are not skipped.
  abbrev pub dropped_from : ℕ → ℕ → List (Field V) → List Name
  dropped_from idx zero fs = []
  dropped_from idx (suc n) [] = []
  dropped_from idx (suc n) (f ∷ fs) =
      let rest = dropped_from (suc idx) n fs in
      if skipped f.skip then rest else struct_member f.ident idx ∷ rest

  -- `impl_drop_guard`: there are arms for 0 and for each number below that of the fields; `none` is
  -- `unreachable!()`.
  unfoldable pub drop_guard : List (Field V) → ℕ → Option (List Name)
  drop_guard fs n =
      if n == 0 then some [] else if ltb n (length fs) then some (dropped_from 0 n fs) else none

-- A run of the derived `decode`: the outcome with the values of the members, the members that
-- `decode` itself has initialised, and what the guard drops, which is nothing once it is forgotten.
pub record Decoded (V B : Type 0) : Type 0 where
  pub outcome : Outcome DecodeError (List V)
  pub bearer : B
  pub initialised : List Name
  pub dropped : Option (List Name)

module _ {V : Type 0} (all : List (Field V)) (B : Type 0) (b : DecodeBearer B) where
  -- The statements from the field with the index `idx` on; `idx` is `guard.count` too.
  unfoldable pub decode_from : ℕ → List (Field V) → List V → List Name → B → Decoded V B
  unfolding struct_field drop_guard
  decode_from idx [] vs ns s = record {
    outcome = ok vs;
    bearer = s;
    initialised = ns;
    dropped = some [];
  }
  decode_from idx (f ∷ fs) vs ns s =
      let (r, s') = struct_field f B b s in
      elim r [
        | ok v ↦
            decode_from (suc idx) fs (vs ++ (v ∷ []))
              (if skipped f.skip then ns else ns ++ (struct_member f.ident idx ∷ [])) s'
        | err e ↦ record {
          outcome = err e;
          bearer = s';
          initialised = ns;
          dropped = drop_guard all idx;
        }
        | panic ↦ record {
          outcome = panic;
          bearer = s';
          initialised = ns;
          dropped = drop_guard all idx;
        }
      ]

module _ {V : Type 0} (fs : List (Field V)) where
  unfoldable pub decode_run : (B : Type 0) → DecodeBearer B → B → Decoded V B
  unfolding decode_from
  decode_run B b s = decode_from fs B b 0 fs [] [] s

  -- The derived `decode` of a struct.
  unfoldable pub struct_decode : Decode (List V)
  unfolding decode_run
  struct_decode = record { decode = λ B b s. let d = decode_run B b s in (d.outcome, d.bearer) }
