-- ===== src/Derive.antt =====
-- derive/src: what the macros `Encode` and `Decode` generate, from the fields that they are given.
-- A generated body is a list of statements, and `run` is their meaning. The values of all fields are
-- of one type `V`; a field's codec says which type the value stands for. Generics, visibility and
-- the printing of tokens are left out.
pub mod TupleGuard
pub mod Names
pub mod Found
pub mod Struct
pub mod Enum
pub mod Robust
pub mod Input
mod Examples
use Prim.Native.String.{String}
use text.Mathlib.Text.{◌==◌ as str_eq}
use barrique.Base.{
  ℕ, ◌+◌, ◌/◌, ◌%◌, Bool, true, false, ◌&&◌, ◌==◌, Option, none, some, List, [], ◌∷◌, ok, panic,
  Call, pure, ◌>>◌, if◌then◌else◌,
}
use barrique.Stream.{EncodeBearer, DecodeBearer}
use barrique.Codec.{EncodeError, DecodeError, Encode, Decode}

-- The type of an `Encode::encode` and of a function named by `encode_with`, and likewise of a
-- `Decode::decode`.
abbrev pub Encoder : Type 0 → Type 1
Encoder V = (B : Type 0) → EncodeBearer B → V → Call B EncodeError (Unit {0})

abbrev pub Decoder : Type 0 → Type 1
Decoder V = (B : Type 0) → DecodeBearer B → Call B DecodeError V

-- `Field`. `skip` holds the expression that is pasted, if there is one, and `default` is the value of
-- `Default::default()`.
pub record Field (V : Type 0) : Type 1 where
  pub ident : Option String
  pub encode : Encode V
  pub decode : Decode V
  pub encode_with : Option (Encoder V)
  pub decode_with : Option (Decoder V)
  pub skip : Option (Option V)
  pub default : V

-- A name in the generated code: `Member::Named`, `Member::Unnamed`, or an anonymous identifier, by
-- its letter and its number.
pub data Name : Type 0 where
  named : String → Name
  unnamed : ℕ → Name
  anon : ℕ → ℕ → Name

abbrev pub same : Name → Name → Bool
same (named s) (named t) = str_eq s t
same (unnamed i) (unnamed j) = i == j
same (anon a i) (anon b j) = a == b && i == j
same _ _ = false

-- `anon_ident_iter().nth(idx)`
abbrev pub anon_ident : ℕ → Name
anon_ident idx = anon (idx % 26) (idx / 26)

abbrev pub struct_member : Option String → ℕ → Name
struct_member (some ident) index = named ident
struct_member none index = unnamed index

abbrev pub skipped {ℓ} : {A : Type ℓ} → Option A → Bool
skipped none = false
skipped (some a) = true

-- `skip_by_value`
abbrev pub skip_by_value : {V : Type 0} → V → Option V → V
skip_by_value default none = default
skip_by_value default (some expr) = expr

-- `#encoder(bearer, &src.#name)?;`
pub record Statement (V : Type 0) : Type 1 where
  pub name : Name
  pub encoder : Encoder V

module _ {V : Type 0} where
  -- `<#ty as Encode>::encode`, or the function of `encode_with`
  abbrev pub field_encode : Field V → Encoder V
  field_encode f = elim f.encode_with [ none ↦ Encode.encode f.encode | some with ↦ with ]

  -- `<#ty as Decode>::decode`, or the function of `decode_with`
  abbrev pub field_decode : Field V → Decoder V
  field_decode f = elim f.decode_with [ none ↦ Decode.decode f.decode | some with ↦ with ]

  -- What a name stands for: the fields of `src`, or the variables that a pattern binds.
  abbrev pub get : List (Name × V) → Name → Option V
  get [] n = none
  get ((m, v) ∷ env) n = let rest = get env n in if same m n then some v else rest

  -- The statements, and then `Ok(())`. A name that stands for nothing is an error of compilation.
  unfoldable pub run :
      List (Name × V)
      → List (Statement V)
      → (B : Type 0) → EncodeBearer B
      → Call B EncodeError (Unit {0})
  run env [] B b = pure tt
  run env (st ∷ sts) B b =
      (elim (get env st.name) [ none ↦ λ s. (panic, s) | some v ↦ st.encoder B b v ])
      >> run env sts B b

  -- `count += self.#name.size_of()`
  unfoldable pub count : List (Name × V) → List (Name × Encode V) → ℕ
  count env [] = 0
  count env ((n, e) ∷ es) = (elim (get env n) [ none ↦ 0 | some v ↦ e.size_of v ]) + count env es
