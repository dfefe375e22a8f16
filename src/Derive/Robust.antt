-- ===== src/Derive/Robust.antt =====
-- The derived `decode` on arbitrary bytes.
use barrique.Base.{
  ℕ, zero, suc, ◌≡◌, sym, ◌∙◌, subst, Option, some, List, [], ◌∷◌, ◌++◌, Ensures, Ensures-ok,
  Ensures-err, Ensures-bind, Ensures-weaken, Ensures-cases, Option-cases, inl, inr, append_assoc,
  append-nil, if◌then◌else◌,
}
use Prim.Native.String.{String}
use barrique.Stream.{DecodeBearer}
use barrique.Codec.{Decode, get}
use barrique.Codec.Robust.{SoundBearer, Robust}
use barrique.Codec.Robust.Scalars.{int-Robust}
use barrique.Derive.{Field, Name, skipped, skip_by_value, field_decode, struct_member}
use barrique.Derive.Struct.{struct_field, decode_from, decode_run, struct_decode}
use barrique.Derive.Struct.Steps.{decode_ok, decode_err}
use barrique.Derive.Enum.{Variant, tag_width, decode_fields, decode_variant, decode_arms}
use barrique.Derive.Enum.Parsed.{own_value, own_values, own_arms}

-- A field whose own decoder, and the function of `decode_with` if there is one, are robust; what is
-- given to a skipped field counts as right.
pub record SafeField (V : Type 0) : Type 1 where
  pub field : Field V
  pub IsRight : V → Type 0
  pub given :
      (skip_by : Option V)
      → field.skip ≡ some skip_by
      → IsRight (skip_by_value field.default skip_by)
  pub robust : Robust field.decode IsRight
  pub robust_with : Robust (record { decode = field_decode field }) IsRight

module _ {V : Type 0} where
  abbrev pub plain_fields : List (SafeField V) → List (Field V)
  plain_fields [] = []
  plain_fields (f ∷ fs) = f.field ∷ plain_fields fs

  -- As many values as fields, each right for its field.
  abbrev pub AllRight : List (SafeField V) → List V → Type 0
  AllRight [] [] = Unit {0}
  AllRight (f ∷ fs) (v ∷ vs) = f.IsRight v × AllRight fs vs
  AllRight _ _ = ⊥

  module _ {B : Type 0} (b : DecodeBearer B) (sb : SoundBearer b) where
    open sb use {IsSound}

    member_sound :
        (f : SafeField V) (s : B)
        → IsSound s
        → Ensures (λ v s'. f.IsRight v × IsSound s') (struct_field f.field B b s)
    unfolding struct_field
    member_sound f s h = elim (Option-cases f.field.skip) [
      | inl e ↦ rw e (Robust.decoded_any f.robust_with B b sb s h)
      | inr (skip_by, e) ↦ rw e (Ensures-ok (f.given skip_by e, h))
    ]

    own_value_sound :
        (f : SafeField V) (s : B)
        → IsSound s
        → Ensures (λ v s'. f.IsRight v × IsSound s') (own_value f.field B b s)
    own_value_sound f s h = elim (Option-cases f.field.skip) [
      | inl e ↦ rw e (Robust.decoded_any f.robust B b sb s h)
      | inr (skip_by, e) ↦ rw e (Ensures-ok (f.given skip_by e, h))
    ]

    fields_sound :
        (fs : List (SafeField V)) (s : B)
        → IsSound s
        → Ensures
            (λ vs s'. AllRight fs vs × IsSound s')
            (decode_fields B b (own_values (plain_fields fs)) s)
    unfolding decode_fields
    fields_sound [] s h = Ensures-ok (tt, h)
    fields_sound (f ∷ fs) s h =
        Ensures-bind (own_value_sound f s h)
          (λ v k. Ensures-bind (fields_sound fs _ k.1) (λ vs k'. Ensures-ok ((k.0, k'.0), k'.1)))

    members_sound :
        (all : List (Field V)) (i : ℕ) (fs : List (SafeField V)) (acc : List V) (ns : List Name)
        (s : B)
        → IsSound s
        → Ensures
            (λ vs s'. ((ws : List V) × (vs ≡ acc ++ ws) × AllRight fs ws) × IsSound s')
            (
              (decode_from all B b i (plain_fields fs) acc ns s).outcome,
              (decode_from all B b i (plain_fields fs) acc ns s).bearer,
            )
    unfolding decode_from
    members_sound all i [] acc ns s h = Ensures-ok (([], sym (append-nil acc), tt), h)
    members_sound all i (f ∷ fs) acc ns s h =
        elim (Ensures-cases (struct_field f.field B b s) (member_sound f s h)) [
          | inl (v, s1, run, (right, sound)) ↦
              rw (decode_ok b all i f.field (plain_fields fs) acc ns s s1 v run) (
                Ensures-weaken
                  (members_sound all (suc i) fs (acc ++ (v ∷ []))
                    (if skipped f.field.skip
                      then ns
                      else ns ++ (struct_member f.field.ident i ∷ []))
                    s1 sound)
                  (λ vs s' k.
                    ((v ∷ k.0.0, k.0.1 ∙ append_assoc acc (v ∷ []) k.0.0, (right, k.0.2)), k.1)))
          | inr (e, s1, run) ↦
              rw (decode_err b all i f.field (plain_fields fs) acc ns s s1 e run) Ensures-err
        ]

    -- From a bearer that delivers any bytes at all, the derived `decode` of a struct does not panic, and
    -- where it succeeds there is a right value in every field, the skipped ones included. The decoders of
    -- the fields do the same for their types, and what is pasted for a skipped field is right.
    pub struct_sound :
        (fs : List (SafeField V)) (s : B)
        → IsSound s
        → Ensures
            (λ vs s'. AllRight fs vs × IsSound s')
            (Decode.decode (struct_decode (plain_fields fs)) B b s)
    unfolding struct_decode decode_run
    struct_sound fs s h =
        Ensures-weaken (members_sound (plain_fields fs) 0 fs [] [] s h)
          (λ vs s' k. (subst (AllRight fs) (sym k.0.1) k.0.2, k.1))

  pub struct_decode-Robust :
      (fs : List (SafeField V)) → Robust (struct_decode (plain_fields fs)) (AllRight fs)
  struct_decode-Robust fs = record { decoded_any = λ B b sb s h. struct_sound b sb fs s h }

-- A variant of safe fields.
pub record SafeVariant (V : Type 0) : Type 1 where
  pub ident : String
  pub fields : List (SafeField V)

module _ {V : Type 0} where
  abbrev pub plain_variants : List (SafeVariant V) → List (Variant V)
  plain_variants [] = []
  plain_variants (v ∷ vs) =
      (record { ident = v.ident; fields = plain_fields v.fields }) ∷ plain_variants vs

  -- There is a variant with the index, and the values are right for its fields.
  abbrev pub VariantRight : List (SafeVariant V) → ℕ → List V → Type 0
  VariantRight [] tag vs = ⊥
  VariantRight (v ∷ vars) zero vs = AllRight v.fields vs
  VariantRight (v ∷ vars) (suc tag) vs = VariantRight vars tag vs

  module _ {B : Type 0} (b : DecodeBearer B) (sb : SoundBearer b) where
    open sb use {IsSound}

    variant_sound :
        (vars : List (SafeVariant V)) (tag : ℕ) (s : B)
        → IsSound s
        → Ensures
            (λ vs s'. VariantRight vars tag vs × IsSound s')
            (decode_variant B b (own_arms (plain_variants vars)) tag s)
    unfolding decode_variant
    variant_sound [] tag s h = Ensures-err
    variant_sound (v ∷ vars) zero s h = fields_sound b sb v.fields s h
    variant_sound (v ∷ vars) (suc tag) s h = variant_sound vars tag s h

    -- From a bearer that delivers any bytes at all, the derived `decode` of an enum whose fields have no `decode_with` does not panic, and
    -- where it succeeds the value is one of a variant that there is, with a right value in every field of
    -- it. The decoders of the fields do the same for their types, and what is pasted for a skipped field
    -- is right.
    pub enum_sound :
        (vars : List (SafeVariant V)) (repr : Option ℕ) (s : B)
        → IsSound s
        → Ensures
            (λ v s'. VariantRight vars v.0 v.1 × IsSound s')
            (Decode.decode (decode_arms (own_arms (plain_variants vars)) repr) B b s)
    unfolding decode_arms get
    enum_sound vars repr s h =
        Ensures-bind (Robust.decoded_any (int-Robust (tag_width repr)) B b sb s h)
          (λ tag k. Ensures-bind (variant_sound vars tag _ k.1) (λ vs k'. Ensures-ok (k'.0, k'.1)))

  pub decode_arms-Robust :
      (vars : List (SafeVariant V)) (repr : Option ℕ)
      → Robust (decode_arms (own_arms (plain_variants vars)) repr) (λ v. VariantRight vars v.0 v.1)
  decode_arms-Robust vars repr = record {
    decoded_any = λ B b sb s h. enum_sound b sb vars repr s h;
  }
